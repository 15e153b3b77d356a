-- ===== src/Dashboard/Navigation.antt =====
-- Tabs, keys, language and dialogs of engine/static/app.js, on a page where the listener of the keys
-- is installed and the variable `activeTab` exists, as after a click on a tab.
pub mod Laws
use proxy_redirector.Prelude.{
  ℕ, ◌+◌, ◌-◌, Bool, true, false, ◌&&◌, not, Option, none, some, List, [], ◌∷◌, leb, ◌==◌,
  if◌then◌else◌,
}
use proxy_redirector.Text.{Text, codes, text_eq}

-- The tabs of the page, which its navigation shows in this order.
pub data Tab : Type 0 where
  dashboard proxies adblock traffic analytics devices settings : Tab

pub data Language : Type 0 where
  en ar : Language

pub data Direction : Type 0 where
  ltr rtl : Direction

-- The search field that has the focus.
pub data Focus : Type 0 where
  nothing proxy_filter rule_search traffic_search other_field : Focus

pub data Request : Type 0 where
  status proxy_list blocklist device_list traffic_log config : Request

-- `active_button` is the navigation button with the class `active`, `active_content` the tab content
-- with it; `requests` are the requests that were started, the newest first.
pub record Page : Type 0 where
  pub active_tab : Tab
  pub active_button : Option Tab
  pub active_content : Option Tab
  pub language : Language
  pub stored_language : Language
  pub direction : Direction
  pub is_online : Bool
  pub state_text : Language × Bool
  pub focus : Focus
  pub open_modals : List Text
  pub requests : List Request

abbrev pub request_of : Tab → Request
request_of dashboard = status
request_of proxies = proxy_list
request_of adblock = blocklist
request_of traffic = traffic_log
request_of analytics = proxy_list
request_of devices = device_list
request_of settings = config

-- `switchTab(tabId, btn)`, with the button of the tab or with none.
unfoldable pub switch_tab : Tab → Option Tab → Page → Page
switch_tab tab button p = record p {
  active_tab = tab;
  active_button = button;
  active_content = some tab;
  requests = request_of tab ∷ p.requests;
}

-- `applyLanguage`: the label of the engine's state is written in the language, by the status orb.
unfoldable pub apply_language : Language → Page → Page
apply_language lang p = record p {
  language = lang;
  stored_language = lang;
  direction = elim lang [ ar ↦ rtl | en ↦ ltr ];
  state_text = (lang, p.is_online);
}

unfoldable pub toggle_language : Page → Page
toggle_language p = apply_language (elim p.language [ en ↦ ar | ar ↦ en ]) p

-- `['dashboard', 'proxies', 'adblock', 'traffic', 'analytics', 'settings'][i]`
unfoldable pub shortcut : ℕ → Option Tab
shortcut i =
    if i == 0
    then some dashboard
    else if i == 1
    then some proxies
    else if i == 2
    then some adblock
    else if i == 3
    then some traffic
    else if i == 4
    then some analytics
    else if i == 5
    then some settings
    else none

unfoldable pub open_shortcut : Option Tab → Page → Page
open_shortcut none p = p
open_shortcut (some tab) p = switch_tab tab (some tab) p

unfoldable pub focus_search : Page → Page
focus_search p = elim p.active_tab [
  | proxies ↦ record p { focus = proxy_filter }
  | adblock ↦ record p { focus = rule_search }
  | traffic ↦ record p { focus = traffic_search }
  | _ ↦ p
]

unfoldable pub close_all_modals : Page → Page
close_all_modals p = record p { open_modals = [] }

-- The keys that the listener tells apart; `character` is any key of one character.
pub data Press : Type 0 where
  escape : Press
  character : ℕ → Press
  long_key : Press

unfoldable pub press_in_field : Press → Page → Page
press_in_field escape p = close_all_modals (record p { focus = nothing })
press_in_field (character c) p = p
press_in_field long_key p = p

-- `e.key >= '1' && e.key <= '6'` on one character.
unfoldable pub press_outside : Press → Page → Page
press_outside escape p = p
press_outside long_key p = p
press_outside (character c) p =
    let shown = if leb b'1' c && leb c b'6' then open_shortcut (shortcut (c - b'1')) p else p in
    if c == b'/' then focus_search shown else shown

-- The listener of `keydown`; the focus tells whether a field is being typed in.
unfoldable pub press : Press → Page → Page
press key p = elim p.focus [ nothing ↦ press_outside key p | _ ↦ press_in_field key p ]
