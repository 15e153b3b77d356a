-- ===== src/Saas/Server.antt =====
-- The process of the server: `bootstrap` of saas/src/server.ts with its shutdown, and the intervals
-- of saas/src/workers/proxyHealthWorker.ts and usageAggregator.ts. What a round does is in
-- Saas/Relays and Saas/Usage.
pub mod Laws
use proxy_redirector.Prelude.{
  ℕ, ◌+◌, ◌-◌, Bool, true, false, ◌==◌, Option, none, some, List, [], ◌∷◌, if◌then◌else◌,
}

-- The bodies of the two intervals: `runCheckCycle` and `flushUsage`
pub data Job : Type 0 where
  run_check_cycle flush_usage : Job

-- What the process has of timers: the intervals that fire, with their ids, and the next id.
pub record Intervals : Type 0 where
  pub live : List (ℕ × Job)
  pub next : ℕ

-- `setInterval`, which answers the id, and `clearInterval`
unfoldable pub set_interval : Job → Intervals → ℕ × Intervals
set_interval job i = (i.next, record { live = (i.next, job) ∷ i.live; next = i.next + 1 })

unfoldable pub without : ℕ → List (ℕ × Job) → List (ℕ × Job)
without id [] = []
without id (x ∷ xs) = let rest = without id xs in if x.0 == id then rest else x ∷ rest

unfoldable pub clear_interval : ℕ → Intervals → Intervals
clear_interval id i = record i { live = without id i.live }

-- `start` and `stop` of a worker, which is its field `timer`.
unfoldable pub start : Job → Option ℕ × Intervals → Option ℕ × Intervals
start job (timer, i) = let (id, i') = set_interval job i in (some id, i')

unfoldable pub stop : Option ℕ × Intervals → Option ℕ × Intervals
stop (none, i) = (none, i)
stop (some id, i) = (none, clear_interval id i)

pub data Phase : Type 0 where
  listening closing exited : Phase

-- `rounds` are the rounds begun, the newest first, and `under_way` the number of those that have not
-- ended. The clients of Redis and of the database are open until the process exits.
pub record Process : Type 0 where
  pub health_worker : Option ℕ
  pub usage_aggregator : Option ℕ
  pub intervals : Intervals
  pub phase : Phase
  pub rounds : List Job
  pub under_way : ℕ

-- `bootstrap`
unfoldable pub bootstrap : Process
unfolding start set_interval
bootstrap =
    let (h, i) = start run_check_cycle (none, record { live = []; next = 0 }) in
    let (u, i') = start flush_usage (none, i) in
    record {
      health_worker = h;
      usage_aggregator = u;
      intervals = i';
      phase = listening;
      rounds = [];
      under_way = 0;
    }

-- `shutdown`: the workers are stopped and the listener is told to close.
unfoldable pub shutdown : Process → Process
shutdown p =
    let (h, i) = stop (p.health_worker, p.intervals) in
    let (u, i') = stop (p.usage_aggregator, i) in
    record p { health_worker = h; usage_aggregator = u; intervals = i'; phase = closing }

unfoldable pub job_of : ℕ → List (ℕ × Job) → Option Job
job_of id [] = none
job_of id (x ∷ xs) = let rest = job_of id xs in if x.0 == id then some x.1 else rest

abbrev pub begin : Option Job → Process → Process
begin none p = p
begin (some job) p = record p { rounds = job ∷ p.rounds; under_way = p.under_way + 1 }

-- What can happen: an interval fires, a round ends, SIGINT or SIGTERM comes, and the listener has
-- closed, which runs the callback of `server.close`.
pub data Event : Type 0 where
  fires : ℕ → Event
  round_ends : Event
  signal : Event
  closed : Event

unfoldable pub exit : Phase → Phase
exit closing = exited
exit phase = phase

unfoldable pub alive : Event → Process → Process
alive (fires id) p = begin (job_of id p.intervals.live) p
alive round_ends p = record p { under_way = p.under_way - 1 }
alive signal p = shutdown p
alive closed p = record p { phase = exit p.phase }

-- Nothing happens in a process that has exited.
unfoldable pub step : Event → Process → Process
step e p = elim p.phase [ exited ↦ p | _ ↦ alive e p ]

unfoldable pub run : List Event → Process → Process
run [] p = p
run (e ∷ es) p = run es (step e p)
