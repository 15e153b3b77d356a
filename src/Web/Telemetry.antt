-- ===== src/Web/Telemetry.antt =====
-- The stream of events of `OverviewView` in
-- saas/frontend/src/components/views/OverviewView.tsx. Latencies are in tenths of a millisecond; the
-- random choices and the clock are arguments.
pub mod Laws
use proxy_redirector.Prelude.{
  ℕ, zero, suc, Option, none, some, List, [], ◌∷◌, ◌++◌, take, if◌then◌else◌,
}
use proxy_redirector.Text.{Text, codes, is_empty, or_text, decimal}
use proxy_redirector.Web.Pool.{StaticProxy}

pub data Kind : Type 0 where
  connect tls_handshake get relay_forward : Kind

pub record TelemetryEvent : Type 0 where
  pub id : Text
  pub time : Text
  pub kind : Kind
  pub target : Text
  pub ip : Text
  pub latency : ℕ

abbrev pub Logs : Type 0
Logs = List TelemetryEvent

-- `setTelemetryLogs((prev) => [e, ...prev.slice(0, 19)])`
unfoldable pub push_event : TelemetryEvent → Logs → Logs
push_event e logs = e ∷ take 19 logs

-- `ws.onmessage`; `none` is a message that is no JSON, or is falsy.
unfoldable pub on_message : Option TelemetryEvent → Logs → Logs
unfolding push_event
on_message none logs = logs
on_message (some e) logs = if is_empty e.ip then logs else push_event e logs

-- The ip of the proxy that is drawn from the list; the draw from an empty list is `none`.
abbrev pub ip_of : Option StaticProxy → Text
ip_of none = codes "198.51.100.10"
ip_of (some p) = or_text p.ip (codes "198.51.100.10")

-- What a round of the interval draws: an element of `targets`, one of `types`, one of the list of
-- proxies, and a latency.
pub record Draw : Type 0 where
  pub target : Text
  pub kind : Kind
  pub proxy : Option StaticProxy
  pub latency : ℕ

-- A round of the interval, at a moment and its text.
unfoldable pub made_up : Draw → ℕ → Text → TelemetryEvent
made_up d now time = record {
  id = codes "tel_" ++ decimal now;
  time = time;
  kind = d.kind;
  target = d.target;
  ip = ip_of d.proxy;
  latency = d.latency;
}

unfoldable pub on_interval : Draw → ℕ → Text → Logs → Logs
unfolding made_up push_event
on_interval d now time logs = push_event (made_up d now time) logs

-- The messages of the socket and the rounds of the interval, in any order.
pub data Tick : Type 0 where
  message : Option TelemetryEvent → Tick
  interval : Draw → ℕ → Text → Tick

unfoldable pub run : List Tick → Logs → Logs
unfolding on_message on_interval
run [] logs = logs
run (message e ∷ ts) logs = run ts (on_message e logs)
run (interval d now time ∷ ts) logs = run ts (on_interval d now time logs)
