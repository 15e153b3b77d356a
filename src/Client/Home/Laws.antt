-- ===== src/Client/Home/Laws.antt =====
-- What holds of the home screen until the button is pressed again, and what a late answer does.
use proxy_redirector.Prelude.{
  ℕ, ◌≡◌, Bool, true, false, List, [], ◌∷◌, arith, All, ltb, Bool-cases, inl, inr,
}
use proxy_redirector.Client.Home.{
  Home, Candidate, Reply, no_status, no_proxies, no_rotation, no_active, answers, Event, connect,
  surge, end_manual_fetch, connect_ends, filter_ends, take_proxies, set_range, speeds_of,
  start_fetch, set_connected, catch_failure, end_fetch, press_surge, press_auto, apply_filters,
  choose_country, release_slider, end_connect, end_filter, step, run,
}

abbrev pub is_connect : Event → Bool
is_connect connect = true
is_connect _ = false

-- No event of the list is a press of the button.
abbrev pub NoPress : List Event → Type 0
NoPress = All (λ e. is_connect e ≡ false)

-- The user has disconnected, and every fetch under way was started since.
pub record IsDisconnected (h : Home) : Type 0 where
  pub manual : h.manual ≡ true
  pub connected : h.connected ≡ false
  pub no_stale : h.auto_fetches ≡ 0

-- The answer of `GetProxies` touches the filters only.
take_proxies-IsDisconnected :
    (ps : List Candidate) (h : Home) → IsDisconnected h → IsDisconnected (take_proxies ps h)
unfolding take_proxies
take_proxies-IsDisconnected [] h d = ground arith
take_proxies-IsDisconnected (p ∷ ps) h d = by_speeds (speeds_of (p ∷ ps)) _ (ground arith)
  where
    by_speeds : (ss : List ℕ) (h : Home) → IsDisconnected h → IsDisconnected (set_range ss h)
    by_speeds [] h d = d
    by_speeds (s ∷ ss) h d = ground arith

end_fetch-IsDisconnected :
    (reply : Reply) (h : Home) → IsDisconnected h → IsDisconnected (end_fetch true reply h)
unfolding end_fetch catch_failure set_connected
end_fetch-IsDisconnected no_status h d = d
end_fetch-IsDisconnected no_proxies h d = d
end_fetch-IsDisconnected (no_rotation ps) h d = take_proxies-IsDisconnected ps h d
end_fetch-IsDisconnected (no_active ps rotation) h d =
    ground (arith, take_proxies-IsDisconnected ps h d)
end_fetch-IsDisconnected (answers ps rotation active) h d =
    ground (arith, take_proxies-IsDisconnected ps h d)

step-IsDisconnected :
    (e : Event) (h : Home) → is_connect e ≡ false → IsDisconnected h → IsDisconnected (step e h)
unfolding step press_surge press_auto choose_country release_slider apply_filters end_connect
    end_filter start_fetch
step-IsDisconnected connect h k d = cc
step-IsDisconnected (end_manual_fetch reply) h k d = elim (Bool-cases (ltb 0 h.manual_fetches)) [
  | inl e ↦ rw e (end_fetch-IsDisconnected reply _ (ground arith))
  | inr e ↦ rw e d
]
step-IsDisconnected (connect_ends true) h k d = ground arith
step-IsDisconnected (connect_ends false) h k d = ground arith
step-IsDisconnected (filter_ends true) h k d = ground arith
step-IsDisconnected (filter_ends false) h k d = ground arith
step-IsDisconnected surge h k d = ground arith
step-IsDisconnected _ h k d = ground arith

-- After the user has disconnected, with no fetch under way that was started before, the screen stays
-- disconnected until the button is pressed again, whatever the engine answers.
pub run-IsDisconnected :
    (es : List Event) (h : Home) → NoPress es → IsDisconnected h → IsDisconnected (run es h)
unfolding run
run-IsDisconnected [] h k d = d
run-IsDisconnected (e ∷ es) h k d =
    run-IsDisconnected es (step e h) k.1 (step-IsDisconnected e h k.0 d)
