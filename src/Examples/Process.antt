-- ===== src/Examples/Process.antt =====
-- The theorem on the process of the server, at some events.
use proxy_redirector.Prelude.{◌≡◌, List, [], ◌∷◌}
use proxy_redirector.Saas.Server.{bootstrap, Event, fires, round_ends, signal, closed, step, run}
use proxy_redirector.Saas.Server.Laws.{no_round_after_signal}

abbrev before : List Event
before = fires 0 ∷ fires 1 ∷ round_ends ∷ fires 0 ∷ []

abbrev behind : List Event
behind = fires 0 ∷ fires 1 ∷ signal ∷ closed ∷ fires 0 ∷ []

no_round_after_signal_example :
    (run behind (step signal (run before bootstrap))).rounds ≡ (run before bootstrap).rounds
no_round_after_signal_example = no_round_after_signal before behind
