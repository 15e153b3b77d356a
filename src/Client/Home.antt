-- ===== src/Client/Home.antt =====
-- The state of `HomeScreen` in client/frontend/src/screens/HomeScreen.tsx and its events: presses,
-- the interval, the ends of the calls that are under way, and of the timers. The engine's status,
-- which is only shown, is left out; the requests of one fetch are taken as answered at once, when
-- the fetch ends.
pub mod Laws
pub mod Presses
use proxy_redirector.Prelude.{
  ℕ, ◌+◌, ◌-◌, min, max, Bool, true, false, ◌&&◌, ◌||◌, not, Option, none, some, List, [], ◌∷◌, ltb,
  length, filter, map, if◌then◌else◌,
}
use proxy_redirector.Text.{Text, is_empty}
use proxy_redirector.Dashboard.Table.Selection.{add_all}

-- A proxy of `GetProxies`, with an empty country and a ping of 0 where they are missing.
pub record Candidate : Type 0 where
  pub country : Text
  pub ping : ℕ

-- The first request of a fetch that fails, with what was answered before, or all answers. The last
-- one is the ip of the active proxy, `none` or empty where there is none.
pub data Reply : Type 0 where
  no_status no_proxies : Reply
  no_rotation : List Candidate → Reply
  no_active : List Candidate → Bool → Reply
  answers : List Candidate → Bool → Option Text → Reply

-- `auto_fetches` and `manual_fetches` count the fetches under way that were started while
-- `isManualDisconnect` was false and true: a fetch keeps the value of its start. `connects` and
-- `switches` count the calls of the buttons under way, `connect_timers` and `switch_timers` their
-- timers of 1.5 seconds, `filter_calls` and `filter_timers` those of the filters. `calls` are the
-- arguments of the calls of `Connect`, the newest first.
pub record Home : Type 0 where
  pub connected : Bool
  pub manual : Bool
  pub connecting : Bool
  pub switching : Bool
  pub rotation : Bool
  pub active : Option Text
  pub countries : List Text
  pub min_speed : ℕ
  pub max_speed : ℕ
  pub range_set : Bool
  pub country : Text
  pub speed : ℕ
  pub auto_fetches : ℕ
  pub manual_fetches : ℕ
  pub connects : ℕ
  pub connect_timers : ℕ
  pub switches : ℕ
  pub switch_timers : ℕ
  pub filter_calls : ℕ
  pub filter_timers : ℕ
  pub calls : List (Text × ℕ)

-- `fetchStatusRef.current()`
unfoldable pub start_fetch : Home → Home
start_fetch h =
    if h.manual
    then record h { manual_fetches = h.manual_fetches + 1 }
    else record h { auto_fetches = h.auto_fetches + 1 }

-- `Array.from(new Set(proxies.map(p => p.country).filter(Boolean)))`
unfoldable pub countries_of : List Candidate → List Text
countries_of ps = add_all [] (filter (λ c. not (is_empty c)) (map (λ p. p.country) ps))

-- `proxies.map(p => p.ping || 0).filter(p => p > 0)`
abbrev pub speeds_of : List Candidate → List ℕ
speeds_of ps = filter (ltb 0) (map (λ p. p.ping) ps)

-- `Math.min(...speeds)` and `Math.max(...speeds)` of a list that begins with `s`.
abbrev pub least : ℕ → List ℕ → ℕ
least s [] = s
least s (x ∷ xs) = least (min s x) xs

abbrev pub greatest : ℕ → List ℕ → ℕ
greatest s [] = s
greatest s (x ∷ xs) = greatest (max s x) xs

-- The first speeds set the range of the slider and its value.
abbrev pub set_range : List ℕ → Home → Home
set_range [] h = h
set_range (s ∷ ss) h = if h.range_set then h else record h {
  min_speed = least s ss;
  max_speed = greatest s ss;
  speed = min 1000 (greatest s ss);
  range_set = true;
}

-- What a fetch does with the answer of `GetProxies`.
unfoldable pub take_proxies : List Candidate → Home → Home
unfolding countries_of
take_proxies [] h = record h { countries = [] }
take_proxies (p ∷ ps) h =
    set_range (speeds_of (p ∷ ps)) (record h { countries = countries_of (p ∷ ps) })

-- `proxy && proxy.ip`
abbrev pub has_ip : Option Text → Bool
has_ip none = false
has_ip (some ip) = not (is_empty ip)

-- The end of a fetch that was started with `captured` as `isManualDisconnect`.
unfoldable pub set_connected : Bool → Bool → Option Text → Home → Home
set_connected captured rotation active h =
    if not captured && not rotation
    then record h { connected = has_ip active }
    else if rotation
    then record h { connected = false }
    else h

-- The `catch` block.
unfoldable pub catch_failure : Bool → Home → Home
catch_failure captured h = if captured then h else record h { connected = false }

unfoldable pub end_fetch : Bool → Reply → Home → Home
end_fetch captured no_status h = catch_failure captured h
end_fetch captured no_proxies h = catch_failure captured h
end_fetch captured (no_rotation ps) h = catch_failure captured (take_proxies ps h)
end_fetch captured (no_active ps rotation) h =
    catch_failure captured (record (take_proxies ps h) { rotation = rotation })
end_fetch captured (answers ps rotation active) h =
    set_connected captured rotation active
      (record (take_proxies ps h) { rotation = rotation; active = active })

-- A change of `isManualDisconnect` runs the effect again, which starts a fetch.
unfoldable pub set_manual : Bool → Home → Home
unfolding start_fetch
set_manual true h = if h.manual then h else start_fetch (record h { manual = true })
set_manual false h = if h.manual then start_fetch (record h { manual = false }) else h

-- `handleConnectToggle` up to its call of the engine.
unfoldable pub press_connect : Home → Home
press_connect h =
    if h.connected || h.connecting
    then set_manual true (record h { connected = false; connecting = false })
    else set_manual false (record h {
      connecting = true;
      connects = h.connects + 1;
      calls = (h.country, h.speed) ∷ h.calls;
    })

-- `handleForceSurge`; the call of `ForceSwitch` is counted as under way.
unfoldable pub press_surge : Home → Home
press_surge h =
    if not h.connected || h.switching
    then h
    else record h { switching = true; switches = h.switches + 1 }

-- `handleAutoSelect`
unfoldable pub press_auto : Home → Home
press_auto h = if not h.connected || h.switching then h else record h {
  switching = true;
  country = [];
  switches = h.switches + 1;
  calls = ([], h.speed) ∷ h.calls;
}

-- `applyFilters`
unfoldable pub apply_filters : Text → ℕ → Home → Home
apply_filters c s h =
    if not h.connected || h.connecting || h.switching
    then h
    else record h { filter_calls = h.filter_calls + 1; calls = (c, s) ∷ h.calls }

-- The call of `applyFilters` reads the speed before the choice is rendered.
unfoldable pub choose_country : Text → Home → Home
unfolding apply_filters
choose_country c h = record (apply_filters c h.speed h) { country = c }

unfoldable pub release_slider : Home → Home
unfolding apply_filters
release_slider h = apply_filters h.country h.speed h

-- `false` is a call that rejects: `handleConnectToggle` does not catch it.
unfoldable pub end_connect : Bool → Home → Home
end_connect true h = record h { connects = h.connects - 1; connect_timers = h.connect_timers + 1 }
end_connect false h = record h { connects = h.connects - 1 }

unfoldable pub end_filter : Bool → Home → Home
end_filter true h = record h {
  filter_calls = h.filter_calls - 1;
  filter_timers = h.filter_timers + 1;
}
end_filter false h = record h { filter_calls = h.filter_calls - 1 }

pub data Event : Type 0 where
  connect surge auto tick : Event
  choose : Text → Event
  slide : ℕ → Event
  release : Event
  end_auto_fetch end_manual_fetch : Reply → Event
  connect_ends filter_ends : Bool → Event
  switch_ends connect_timer switch_timer filter_timer : Event

-- An event that can not happen, such as the end of a call that is not under way, changes nothing;
-- the two buttons are disabled while the engine rotates.
unfoldable pub step : Event → Home → Home
unfolding start_fetch
step connect h = press_connect h
step surge h = if h.rotation then h else press_surge h
step auto h = if h.rotation then h else press_auto h
step tick h = start_fetch h
step (choose c) h = choose_country c h
step (slide s) h = record h { speed = s }
step release h = release_slider h
step (end_auto_fetch reply) h =
    if ltb 0 h.auto_fetches
    then end_fetch false reply (record h { auto_fetches = h.auto_fetches - 1 })
    else h
step (end_manual_fetch reply) h =
    if ltb 0 h.manual_fetches
    then end_fetch true reply (record h { manual_fetches = h.manual_fetches - 1 })
    else h
step (connect_ends ok) h = if ltb 0 h.connects then end_connect ok h else h
step (filter_ends ok) h = if ltb 0 h.filter_calls then end_filter ok h else h
step switch_ends h =
    if ltb 0 h.switches
    then record h { switches = h.switches - 1; switch_timers = h.switch_timers + 1 }
    else h
step connect_timer h =
    if ltb 0 h.connect_timers
    then start_fetch (record h { connect_timers = h.connect_timers - 1; connecting = false })
    else h
step switch_timer h =
    if ltb 0 h.switch_timers
    then start_fetch (record h { switch_timers = h.switch_timers - 1; switching = false })
    else h
step filter_timer h =
    if ltb 0 h.filter_timers
    then start_fetch (record h { filter_timers = h.filter_timers - 1 })
    else h

unfoldable pub run : List Event → Home → Home
run [] h = h
run (e ∷ es) h = run es (step e h)
