-- ===== src/Web/Telemetry/Laws.antt =====
-- The stream keeps the newest twenty events.
use mathlib.Core.List.{reverse, reverse-cons}
use proxy_redirector.Prelude.{
  ◌≤◌, ◌≡◌, refl, sym, ap, ◌∙◌, none, some, List, [], ◌∷◌, ◌++◌, take, length, length-take,
  take_all, take-append-take, append_assoc, arith, Bool-cases, inl, inr, if◌then◌else◌,
}
use proxy_redirector.Text.{is_empty}
use proxy_redirector.Web.Telemetry.{
  TelemetryEvent, Logs, push_event, on_message, made_up, on_interval, Tick, message, interval, run,
}

-- The events that the ticks bring, in their order: a message with no ip brings none.
abbrev pub event_of : Tick → List TelemetryEvent
event_of (message none) = []
event_of (message (some e)) = if is_empty e.ip then [] else e ∷ []
event_of (interval d now time) = made_up d now time ∷ []

abbrev pub events_of : List Tick → List TelemetryEvent
events_of [] = []
events_of (t ∷ ts) = event_of t ++ events_of ts

-- One event in front, and the events before it.
push_all : List TelemetryEvent → Logs → Logs
push_all [] logs = logs
push_all (e ∷ es) logs = push_all es (push_event e logs)

run-push_all : (ts : List Tick) (logs : Logs) → run ts logs ≡ push_all (events_of ts) logs
unfolding run push_all on_message on_interval
run-push_all [] logs = refl
run-push_all (message none ∷ ts) logs = run-push_all ts logs
run-push_all (message (some e) ∷ ts) logs = elim (Bool-cases (is_empty e.ip)) [
  | inl h ↦ rw h (run-push_all ts logs)
  | inr h ↦ rw h (run-push_all ts (push_event e logs))
]
run-push_all (interval d now time ∷ ts) logs =
    run-push_all ts (push_event (made_up d now time) logs)

push_all-take :
    (es : List TelemetryEvent) (logs : Logs)
    → length logs ≤ 20
    → push_all es logs ≡ take 20 (reverse es ++ logs)
unfolding push_all push_event
push_all-take [] logs h = sym (take_all 20 logs h)
push_all-take (e ∷ es) logs h =
    push_all-take es (e ∷ take 19 logs) (omega (arith, length-take 19 logs))
    ∙ take-append-take 20 20 (reverse es) (e ∷ logs) (omega arith)
    ∙ ap (take 20) (rw (reverse-cons e es, append_assoc))

-- A stream of at most twenty events shows, after any messages and rounds in any order, the newest
-- twenty of what they brought, the newest first, and of the older events behind them.
pub run-take :
    (ts : List Tick) (logs : Logs)
    → length logs ≤ 20
    → run ts logs ≡ take 20 (reverse (events_of ts) ++ logs)
run-take ts logs h = run-push_all ts logs ∙ push_all-take (events_of ts) logs h
