-- ===== src/Dashboard/Status.antt =====
-- `fetchStatus` and `renderActiveProxy` of engine/static/app.js, with the part of `applyLanguage`
-- that writes the state of the engine. Scores are in tenths of a point, speeds in milliseconds; a
-- missing number is 0 and a missing text is empty, which are as falsy.
pub mod Laws
use proxy_redirector.Prelude.{
  ℕ, ◌/◌, ◌%◌, Bool, true, false, not, Option, none, some, List, [], ◌∷◌, ◌++◌, ltb, or_number,
  if◌then◌else◌,
}
use proxy_redirector.Text.{Text, codes, is_empty, or_text, decimal, to_upper}
use proxy_redirector.Dashboard.PoolBar.{PoolCounts, PoolBar, render_pool_bar}
use proxy_redirector.Dashboard.Navigation.{Language, ar, en}

-- `active_proxy` of the answer; the score is missing where it is no number.
pub record ActiveProxy : Type 0 where
  pub ip : Text
  pub port : ℕ
  pub country : Text
  pub city : Text
  pub kind : Text
  pub speed_ms : ℕ
  pub response_time_ms : ℕ
  pub ping : ℕ
  pub score : Option ℕ
  pub ssl_verified : Bool

pub record Gateways : Type 0 where
  pub socks5 : Text
  pub http : Text
  pub grpc : Text
  pub rest : Text

-- The answer of /api/status.
pub record StatusReply : Type 0 where
  pub pool : PoolCounts
  pub total_blocked : ℕ
  pub rules_count : ℕ
  pub avg_score : ℕ
  pub active : Option ActiveProxy
  pub gateways : Option Gateways

-- The texts of the card of the active proxy, as they are put into the HTML.
pub record Card : Type 0 where
  pub endpoint : Text
  pub location : Text
  pub speed : Text
  pub score : Text
  pub kind : Text
  pub ssl_badge : Bool

-- The state of the engine as it is written, in a language.
pub record StateWords : Type 0 where
  pub online : Bool
  pub language : Language

-- `card` is `none` for the hint that no proxy is selected.
pub record Status : Type 0 where
  pub orb_offline : Bool
  pub words : StateWords
  pub alive : ℕ
  pub total : ℕ
  pub blocked : ℕ
  pub rules : ℕ
  pub avg_score : Text
  pub gateways : Gateways
  pub active_speed : Text
  pub active_country : Text
  pub card : Option Card
  pub bar : Option PoolBar

-- `toFixed(1)`
abbrev pub fixed_tenths : ℕ → Text
fixed_tenths n = decimal (n / 10) ++ b'.' ∷ decimal (n % 10)

abbrev pub active_score : Option ActiveProxy → ℕ
active_score none = 0
active_score (some a) = elim a.score [ none ↦ 0 | some n ↦ n ]

-- The card of the pool's reliability
unfoldable pub score_text : StatusReply → Text
score_text r =
    if ltb 0 r.avg_score
    then fixed_tenths r.avg_score
    else if ltb 0 (active_score r.active)
    then fixed_tenths (active_score r.active)
    else codes "--"

-- A gateway that the answer leaves out keeps its text.
unfoldable pub set_gateways : Option Gateways → Gateways → Gateways
set_gateways none g = g
set_gateways (some r) g = record {
  socks5 = or_text r.socks5 g.socks5;
  http = or_text r.http g.http;
  grpc = or_text r.grpc g.grpc;
  rest = or_text r.rest g.rest;
}

abbrev pub speed_text : ActiveProxy → Text
speed_text a =
    let ms = or_number a.speed_ms (or_number a.response_time_ms a.ping) in
    if ltb 0 ms then decimal ms ++ codes " ms" else codes "-- ms"

abbrev pub location_text : ActiveProxy → Text
location_text a =
    or_text a.country (codes "Unknown") ++ (if is_empty a.city then [] else codes ", " ++ a.city)

unfoldable pub card_of : ActiveProxy → Card
card_of a = record {
  endpoint = a.ip ++ b':' ∷ decimal a.port;
  location = location_text a;
  speed = speed_text a;
  score = elim a.score [ none ↦ codes "--" | some n ↦ fixed_tenths n ];
  kind = to_upper (or_text a.kind (codes "SOCKS5"));
  ssl_badge = a.ssl_verified;
}

abbrev pub no_active : Status → Status
no_active s = record s {
  card = none;
  active_speed = codes "-- ms";
  active_country = codes "Country: None";
}

-- `renderActiveProxy`
unfoldable pub render_active_proxy : Option ActiveProxy → Status → Status
unfolding card_of
render_active_proxy none s = no_active s
render_active_proxy (some a) s = if is_empty a.ip then no_active s else record s {
  card = some (card_of a);
  active_speed = speed_text a;
  active_country = codes "Country: " ++ or_text a.country (codes "Unknown");
}

-- `renderPoolBar` of an empty pool leaves the bar as it is.
abbrev pub set_bar : Option PoolBar → Status → Status
set_bar none s = s
set_bar (some b) s = record s { bar = some b }

-- `fetchStatus`; `none` is a request that fails or is refused.
unfoldable pub fetch_status : Option StatusReply → Status → Status
unfolding score_text set_gateways render_active_proxy render_pool_bar
fetch_status none s = record s {
  orb_offline = true;
  words = record { online = false; language = en };
}
fetch_status (some r) s = set_bar (render_pool_bar r.pool) (
    render_active_proxy r.active (record s {
      orb_offline = false;
      alive = r.pool.alive;
      total = r.pool.total;
      blocked = r.total_blocked;
      rules = r.rules_count;
      avg_score = score_text r;
      gateways = set_gateways r.gateways s.gateways;
    }))

-- `applyLanguage`, as far as it writes the state of the engine.
unfoldable pub write_state : Language → Status → Status
write_state l s = record s { words = record { online = not s.orb_offline; language = l } }
