-- ===== src/Examples/Screens.antt =====
-- The theorems on the screens of the desktop client, client/frontend/src.
use proxy_redirector.Prelude.{ℕ, ◌≡◌, refl, Bool, true, false, none, some, [], ◌∷◌, arith}
use proxy_redirector.Text.{codes}
use proxy_redirector.Client.Home.{
  Home, Candidate, answers, connect, end_auto_fetch, end_manual_fetch, connect_ends, tick, slide,
  run,
}
use proxy_redirector.Client.Home.Laws.{IsDisconnected, run-IsDisconnected}
use proxy_redirector.Client.Home.Presses.{stale_fetch_reconnects, failed_connect_stuck}
use proxy_redirector.Client.Settings.{EngineStatus}

abbrev home_at : Bool → Bool → ℕ → Home
home_at connected manual fetches = record {
  connected = connected;
  manual = manual;
  connecting = false;
  switching = false;
  rotation = false;
  active = none;
  countries = [];
  min_speed = 0;
  max_speed = 0;
  range_set = false;
  country = [];
  speed = 0;
  auto_fetches = fetches;
  manual_fetches = 1;
  connects = 0;
  connect_timers = 0;
  switches = 0;
  switch_timers = 0;
  filter_calls = 0;
  filter_timers = 0;
  calls = [];
}

abbrev german : Candidate
german = record { country = codes "DE"; ping = 40 }

run-IsDisconnected_example : IsDisconnected (
    run
      (tick ∷ end_manual_fetch (answers (german ∷ []) false (some (codes "192.0.2.1"))) ∷ [])
      (home_at false true 0))
run-IsDisconnected_example =
    run-IsDisconnected
      (tick ∷ end_manual_fetch (answers (german ∷ []) false (some (codes "192.0.2.1"))) ∷ [])
      (home_at false true 0) (refl, (refl, tt))
      (record { manual = refl; connected = refl; no_stale = refl })

stale_fetch_reconnects_example :
    ((run
        (connect ∷ end_auto_fetch (answers (german ∷ []) false (some (codes "192.0.2.1"))) ∷ [])
        (home_at true false 1)).connected
      ≡ true)
    × ((run
          (connect ∷ end_auto_fetch (answers (german ∷ []) false (some (codes "192.0.2.1"))) ∷ [])
          (home_at true false 1)).manual
        ≡ true)
stale_fetch_reconnects_example =
    stale_fetch_reconnects (home_at true false 1) (german ∷ []) (codes "192.0.2.1") refl refl
      (omega arith) refl

failed_connect_stuck_example :
    (run (connect ∷ connect_ends false ∷ tick ∷ slide 300 ∷ []) (home_at false true 0)).connecting
    ≡ true
failed_connect_stuck_example =
    failed_connect_stuck (home_at false true 0) (tick ∷ slide 300 ∷ []) refl refl refl refl
      (refl, (refl, tt))

abbrev engine : EngineStatus
engine = record { connected = true; mode = codes "cloud"; alive = 12 }
