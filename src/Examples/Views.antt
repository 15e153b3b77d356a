-- ===== src/Examples/Views.antt =====
-- The theorems on the views of the web application, saas/frontend/src/components.
use mathlib.Core.List.{reverse}
use proxy_redirector.Prelude.{◌≡◌, none, some, [], ◌∷◌, ◌++◌, take, arith}
use proxy_redirector.Text.{codes}
use proxy_redirector.Web.Telemetry
use proxy_redirector.Web.Telemetry.{TelemetryEvent, connect, Draw, message, interval}
use proxy_redirector.Web.Telemetry.Laws.{events_of, run-take}

abbrev event : TelemetryEvent
event = record {
  id = codes "tel_1";
  time = codes "14:58:12";
  kind = connect;
  target = codes "api.github.com:443";
  ip = codes "198.51.100.10";
  latency = 192;
}

abbrev draw : Draw
draw = record { target = codes "auth.cloudflare.com"; kind = connect; proxy = none; latency = 150 }

run-take_example :
    Telemetry.run (message (some event) ∷ interval draw 7 (codes "14:58:14") ∷ []) (event ∷ [])
    ≡ take 20 (
        reverse (events_of (message (some event) ∷ interval draw 7 (codes "14:58:14") ∷ []))
        ++ event ∷ [])
run-take_example =
    run-take (message (some event) ∷ interval draw 7 (codes "14:58:14") ∷ []) (event ∷ [])
      (omega arith)
