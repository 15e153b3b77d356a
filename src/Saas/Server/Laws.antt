-- ===== src/Saas/Server/Laws.antt =====
-- What a signal stops, and what it does not.
use proxy_redirector.Prelude.{
  ◌≡◌, refl, ◌∙◌, ◌⊎◌, inl, inr, Option, none, some, List, [], ◌∷◌, arith,
}
use proxy_redirector.Saas.Server.{
  Job, run_check_cycle, flush_usage, without, clear_interval, set_interval, start, stop, Phase,
  listening, closing, exited, Process, bootstrap, shutdown, job_of, begin, Event, fires, round_ends,
  signal, closed, exit, alive, step, run,
}

-- The workers hold the intervals that fire.
IsHeld : Process → Type 0
IsHeld p =
    (p.intervals.live ≡ (1, flush_usage) ∷ (0, run_check_cycle) ∷ [])
    × (p.health_worker ≡ some 0)
    × (p.usage_aggregator ≡ some 1)

-- No interval is left.
IsQuiet : Process → Type 0
IsQuiet p = (p.intervals.live ≡ []) × (p.health_worker ≡ none) × (p.usage_aggregator ≡ none)

bootstrap-IsHeld : IsHeld bootstrap
unfolding bootstrap IsHeld start set_interval
bootstrap-IsHeld = (refl, refl, refl)

shutdown_quiets : (p : Process) → IsHeld p → IsQuiet (shutdown p)
unfolding IsHeld IsQuiet shutdown stop clear_interval without
shutdown_quiets p (l, h, u) = rw (l, h, u) (refl, refl, refl)

shutdown-IsQuiet : (p : Process) → IsQuiet p → IsQuiet (shutdown p)
unfolding IsQuiet shutdown stop
shutdown-IsQuiet p (l, h, u) = rw (l, h, u) (refl, refl, refl)

-- An event in a process with no interval leaves it so, and begins no round.
abbrev StaysQuiet : Process → Process → Type 0
StaysQuiet p q = IsQuiet q × (q.rounds ≡ p.rounds)

shutdown_rounds : (p : Process) → (shutdown p).rounds ≡ p.rounds
unfolding shutdown
shutdown_rounds p = refl

step_listening : (e : Event) (p : Process) → p.phase ≡ listening → step e p ≡ alive e p
unfolding step
step_listening e p = by_phase p.phase
  where
    by_phase : (ph : Phase) → ph ≡ listening → elim ph [ exited ↦ p | _ ↦ alive e p ] ≡ alive e p
    by_phase listening h = refl
    by_phase closing h = refl
    by_phase exited h = absurd (ground arith)

alive-StaysQuiet : (e : Event) (p : Process) → IsQuiet p → StaysQuiet p (alive e p)
unfolding alive IsQuiet job_of
alive-StaysQuiet (fires id) p (l, h, u) = rw l ((refl, h, u), refl)
alive-StaysQuiet round_ends p q = (q, refl)
alive-StaysQuiet signal p q = (shutdown-IsQuiet p q, shutdown_rounds p)
alive-StaysQuiet closed p q = (q, refl)

step-StaysQuiet : (e : Event) (p : Process) → IsQuiet p → StaysQuiet p (step e p)
unfolding step
step-StaysQuiet e p q = by_phase p.phase
  where
    by_phase : (ph : Phase) → StaysQuiet p (elim ph [ exited ↦ p | _ ↦ alive e p ])
    by_phase listening = alive-StaysQuiet e p q
    by_phase closing = alive-StaysQuiet e p q
    by_phase exited = (q, refl)

run-StaysQuiet : (es : List Event) (p : Process) → IsQuiet p → StaysQuiet p (run es p)
unfolding run
run-StaysQuiet [] p q = (q, refl)
run-StaysQuiet (e ∷ es) p q =
    let (q1, same) = step-StaysQuiet e p q in
    let (q2, rest) = run-StaysQuiet es (step e p) q1 in (q2, rest ∙ same)

-- The workers hold their intervals as long as the process listens, and there is none afterwards.
IsOrderly : Process → Type 0
IsOrderly p = (IsHeld p × (p.phase ≡ listening)) ⊎ IsQuiet p

begin-IsHeld : (o : Option Job) (p : Process) → IsHeld p → IsHeld (begin o p)
unfolding IsHeld
begin-IsHeld none p h = h
begin-IsHeld (some job) p h = h

begin_phase : (o : Option Job) (p : Process) → (begin o p).phase ≡ p.phase
begin_phase none p = refl
begin_phase (some job) p = refl

alive-IsOrderly : (e : Event) (p : Process) → IsHeld p → p.phase ≡ listening → IsOrderly (alive e p)
unfolding alive IsOrderly IsHeld exit
alive-IsOrderly (fires id) p h k =
    let o = job_of id p.intervals.live in inl (begin-IsHeld o p h, begin_phase o p ∙ k)
alive-IsOrderly round_ends p h k = inl (h, k)
alive-IsOrderly signal p h k = inr (shutdown_quiets p h)
alive-IsOrderly closed p h k = inl (h, rw k refl)

step-IsOrderly : (e : Event) (p : Process) → IsOrderly p → IsOrderly (step e p)
unfolding IsOrderly
step-IsOrderly e p (inl (h, k)) = rw (step_listening e p k) (alive-IsOrderly e p h k)
step-IsOrderly e p (inr q) = inr (step-StaysQuiet e p q).0

run-IsOrderly : (es : List Event) (p : Process) → IsOrderly p → IsOrderly (run es p)
unfolding run
run-IsOrderly [] p o = o
run-IsOrderly (e ∷ es) p o = run-IsOrderly es (step e p) (step-IsOrderly e p o)

signal-StaysQuiet : (p : Process) → IsOrderly p → StaysQuiet p (step signal p)
unfolding IsOrderly alive
signal-StaysQuiet p (inl (h, k)) =
    rw (step_listening signal p k) (shutdown_quiets p h, shutdown_rounds p)
signal-StaysQuiet p (inr q) = step-StaysQuiet signal p q

-- Whatever happens after the start of the server, and whatever happens after a signal to stop: no
-- round of a worker begins after the signal.
pub no_round_after_signal :
    (es fs : List Event)
    → (run fs (step signal (run es bootstrap))).rounds ≡ (run es bootstrap).rounds
unfolding IsOrderly bootstrap
no_round_after_signal es fs =
    let p = run es bootstrap in
    let orderly = run-IsOrderly es bootstrap (inl (bootstrap-IsHeld, refl)) in
    let (quiet, same) = signal-StaysQuiet p orderly in
    (run-StaysQuiet fs (step signal p) quiet).1 ∙ same

alive-under_way : (p : Process) → (alive signal p).under_way ≡ p.under_way
unfolding alive shutdown
alive-under_way p = refl

-- A round that is under way when a signal comes does not keep the process: it exits as soon as the
-- listener has closed.
exits_under_way :
    (p : Process)
    → p.phase ≡ listening
    → ((run (signal ∷ closed ∷ []) p).phase ≡ exited)
      × ((run (signal ∷ closed ∷ []) p).under_way ≡ p.under_way)
unfolding run step alive shutdown exit
exits_under_way p h = rw (step_listening signal p h) (refl, refl)
