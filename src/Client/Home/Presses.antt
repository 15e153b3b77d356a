-- ===== src/Client/Home/Presses.antt =====
-- What the presses of the buttons lead to: a late answer, a call that fails, the filters.
use proxy_redirector.Prelude.{
  ℕ, ◌≡◌, ◌<◌, ◌+◌, ◌-◌, Bool, true, false, some, List, [], ◌∷◌, arith, ltb, Bool-cases, inl, inr,
}
use proxy_redirector.Text.{Text, is_empty}
use proxy_redirector.Client.Home.{
  Home, Candidate, Reply, no_status, no_proxies, no_rotation, no_active, answers, Event, connect,
  end_auto_fetch, end_manual_fetch, connect_ends, filter_ends, connect_timer, take_proxies,
  set_range, speeds_of, start_fetch, set_connected, catch_failure, end_fetch, set_manual,
  press_connect, press_surge, press_auto, apply_filters, choose_country, release_slider,
  end_connect, end_filter, step, run,
}
use proxy_redirector.Client.Home.Laws.{is_connect, NoPress}

-- The state of the connection that an answer of `GetProxies` leaves alone.
record SameLink (h h' : Home) : Type 0 where
  connected : h'.connected ≡ h.connected
  manual : h'.manual ≡ h.manual
  connecting : h'.connecting ≡ h.connecting
  connects : h'.connects ≡ h.connects
  connect_timers : h'.connect_timers ≡ h.connect_timers

take_proxies-SameLink : (ps : List Candidate) (h : Home) → SameLink h (take_proxies ps h)
unfolding take_proxies
take_proxies-SameLink [] h = ground arith
take_proxies-SameLink (p ∷ ps) h = by_speeds (speeds_of (p ∷ ps)) _ (ground arith)
  where
    by_speeds : (ss : List ℕ) (h' : Home) → SameLink h h' → SameLink h (set_range ss h')
    by_speeds [] h' l = l
    by_speeds (s ∷ ss) h' l = ground arith

-- If a fetch is under way when the user disconnects, its late answer, with an active proxy and no
-- rotation, shows the screen as connected again, although the user has disconnected.
pub stale_fetch_reconnects :
    (h : Home) (ps : List Candidate) (ip : Text)
    → h.connected ≡ true
    → h.manual ≡ false
    → 0 < h.auto_fetches
    → is_empty ip ≡ false
    → ((run (connect ∷ end_auto_fetch (answers ps false (some ip)) ∷ []) h).connected ≡ true)
      × ((run (connect ∷ end_auto_fetch (answers ps false (some ip)) ∷ []) h).manual ≡ true)
unfolding run step press_connect set_manual start_fetch end_fetch set_connected
stale_fetch_reconnects h ps ip c m f n = ground (
  arith,
  take_proxies-SameLink ps (record h {
    connected = false;
    connecting = false;
    manual = true;
    manual_fetches = h.manual_fetches + 1;
    auto_fetches = h.auto_fetches - 1;
  }),
)

-- The screen shows that it is connecting, with no call and no timer under way that would end it.
pub record IsStuck (h : Home) : Type 0 where
  pub connecting : h.connecting ≡ true
  pub no_calls : h.connects ≡ 0
  pub no_timers : h.connect_timers ≡ 0

end_fetch-IsStuck :
    (captured : Bool) (reply : Reply) (h : Home) → IsStuck h → IsStuck (end_fetch captured reply h)
unfolding end_fetch catch_failure set_connected
end_fetch-IsStuck captured no_status h d = ground arith
end_fetch-IsStuck captured no_proxies h d = ground arith
end_fetch-IsStuck captured (no_rotation ps) h d = ground (arith, take_proxies-SameLink ps h)
end_fetch-IsStuck captured (no_active ps rotation) h d = ground (arith, take_proxies-SameLink ps h)
end_fetch-IsStuck captured (answers ps rotation active) h d =
    ground (arith, take_proxies-SameLink ps h)

step-IsStuck : (e : Event) (h : Home) → is_connect e ≡ false → IsStuck h → IsStuck (step e h)
unfolding step press_surge press_auto choose_country release_slider apply_filters end_connect
    end_filter start_fetch
step-IsStuck connect h k d = cc
step-IsStuck (end_auto_fetch reply) h k d = elim (Bool-cases (ltb 0 h.auto_fetches)) [
  | inl e ↦ rw e (end_fetch-IsStuck false reply _ (ground arith))
  | inr e ↦ rw e d
]
step-IsStuck (end_manual_fetch reply) h k d = elim (Bool-cases (ltb 0 h.manual_fetches)) [
  | inl e ↦ rw e (end_fetch-IsStuck true reply _ (ground arith))
  | inr e ↦ rw e d
]
step-IsStuck (connect_ends true) h k d = ground arith
step-IsStuck (connect_ends false) h k d = ground arith
step-IsStuck (filter_ends true) h k d = ground arith
step-IsStuck (filter_ends false) h k d = ground arith
step-IsStuck _ h k d = ground arith

run-IsStuck : (es : List Event) (h : Home) → NoPress es → IsStuck h → IsStuck (run es h)
unfolding run
run-IsStuck [] h k d = d
run-IsStuck (e ∷ es) h k d = run-IsStuck es (step e h) k.1 (step-IsStuck e h k.0 d)

failed_connect-IsStuck :
    (h : Home)
    → h.connected ≡ false
    → h.connecting ≡ false
    → h.connects ≡ 0
    → h.connect_timers ≡ 0
    → IsStuck (step (connect_ends false) (step connect h))
unfolding step press_connect set_manual start_fetch end_connect
failed_connect-IsStuck h c k n t = ground arith

-- If the call of `Connect` fails after a press on a screen that is neither connected nor connecting,
-- with no other call and no timer under way, the screen shows that it is connecting until the button
-- is pressed again, whatever else happens.
pub failed_connect_stuck :
    (h : Home) (es : List Event)
    → h.connected ≡ false
    → h.connecting ≡ false
    → h.connects ≡ 0
    → h.connect_timers ≡ 0
    → NoPress es
    → (run (connect ∷ connect_ends false ∷ es) h).connecting ≡ true
unfolding run
failed_connect_stuck h es c k n t quiet =
    (run-IsStuck es _ quiet (failed_connect-IsStuck h c k n t)).connecting

-- A press on the screen that is neither connected nor connecting calls `Connect` with the chosen
-- filters; if that succeeds, the screen stops connecting when its timer ends, and asks again.
pub connect_ends_connecting :
    (h : Home)
    → h.connected ≡ false
    → h.connecting ≡ false
    → let h' = run (connect ∷ connect_ends true ∷ connect_timer ∷ []) h in
      (h'.connecting ≡ false)
      × (h'.manual ≡ false)
      × (h'.calls ≡ (h.country, h.speed) ∷ h.calls)
      × (0 < h'.auto_fetches)
unfolding run step press_connect set_manual start_fetch end_connect
connect_ends_connecting h c k = ground arith
