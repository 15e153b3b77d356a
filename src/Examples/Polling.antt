-- ===== src/Examples/Polling.antt =====
-- The theorem on the polling of engine/static/app.js, on the page as it is loaded.
use proxy_redirector.Prelude.{◌≡◌, false, List, [], ◌∷◌}
use proxy_redirector.Dashboard.Polling.{
  dashboard, traffic, on_load, run, Event, fire, hide, show, end, switch, json, no_connection,
}
use proxy_redirector.Dashboard.Polling.Startup.{fresh, never_polls}

abbrev events : List Event
events =
    show ∷ fire no_connection ∷ switch traffic ∷ hide ∷ end dashboard json ∷ show ∷ fire json ∷ []

never_polls_example :
    let p = run events (on_load (fresh false)).1 in
    (p.timers ≡ []) × (p.watches_visibility ≡ false) × (p.watches_keys ≡ false)
never_polls_example = never_polls false events
