-- ===== src/Dashboard/Toasts/Laws.antt =====
-- How long a notification stays.
use proxy_redirector.Prelude.{
  ℕ, ◌+◌, ◌-◌, ◌<◌, ◌≡◌, refl, ◌∙◌, max, Bool, false, ◌||◌, Option, none, some, List, [], ◌∷◌, ◌++◌,
  arith, ltb, ◌==◌, if◌then◌else◌,
}
use proxy_redirector.Text.{Text}
use proxy_redirector.Dashboard.Actions.{Kind}
use proxy_redirector.Dashboard.Toasts.{
  Phase, visible, fading, Toast, Container, new_toast, show_toast, fade, pass_by, keep, pass_all,
  Event, show, wait, step, run, no_container,
}

-- The time until a toast is removed.
abbrev life : Phase → ℕ
life (visible left) = left + 300
life (fading left) = left

-- The same of the toast with an id, 0 where there is none.
abbrev life_of : ℕ → List Toast → ℕ
life_of n [] = 0
life_of n (t ∷ ts) = max (if t.id == n then life t.phase else 0) (life_of n ts)

abbrev pub has : ℕ → List Toast → Bool
has n [] = false
has n (t ∷ ts) = t.id == n || has n ts

-- Every toast was made, and has some time left.
abbrev AreLive : ℕ → List Toast → Type 0
AreLive k [] = Unit
AreLive k (t ∷ ts) = (t.id < k) × (0 < life t.phase) × AreLive k ts

-- The time that passes in a sequence of events.
abbrev pub elapsed : List Event → ℕ
elapsed [] = 0
elapsed (show message kind duration ∷ es) = elapsed es
elapsed (wait ms ∷ es) = ms + elapsed es

has-life_of : (n k : ℕ) (ts : List Toast) → AreLive k ts → has n ts ≡ ltb 0 (life_of n ts)
has-life_of n k [] h = refl
has-life_of n k (t ∷ ts) h = ground (arith, has-life_of n k ts)

life_of-fresh : (k : ℕ) (ts : List Toast) → AreLive k ts → life_of k ts ≡ 0
life_of-fresh k [] h = refl
life_of-fresh k (t ∷ ts) h = ground (arith, life_of-fresh k ts)

life_of-append :
    (n : ℕ) (ts : List Toast) (t : Toast)
    → life_of n (ts ++ t ∷ []) ≡ max (life_of n ts) (life_of n (t ∷ []))
life_of-append n [] t = omega arith
life_of-append n (s ∷ ts) t = omega (arith, life_of-append n ts t)

AreLive-append :
    (k : ℕ) (ts : List Toast) (t : Toast)
    → AreLive k ts
    → t.id ≡ k
    → 0 < life t.phase
    → AreLive (k + 1) (ts ++ t ∷ [])
AreLive-append k [] t h e l = (omega arith, l, tt)
AreLive-append k (s ∷ ts) t h e l = (omega (arith, h.0), h.1, AreLive-append k ts t h.2 e l)

-- Time takes the same from every toast, and removes those that have none left.
record IsPassed (ms : ℕ) (t : Toast) (o : Option Toast) : Type 0 where
  lived : (n : ℕ) → life_of n (keep o []) ≡ life_of n (t ∷ []) - ms
  live : (k : ℕ) → t.id < k → AreLive k (keep o [])

fade-IsPassed : (ms left : ℕ) (t : Toast) → life t.phase ≡ left → IsPassed ms t (fade ms left t)
unfolding fade
fade-IsPassed ms left t e = record { lived = λ n. ground arith; live = λ k h. ground arith }

pass_by-IsPassed : (ms : ℕ) (t : Toast) → IsPassed ms t (pass_by ms t.phase t)
unfolding pass_by fade
pass_by-IsPassed ms t = by_phase t.phase refl
  where
    by_phase : (p : Phase) → t.phase ≡ p → IsPassed ms t (pass_by ms p t)
    by_phase (visible left) e = record { lived = λ n. ground arith; live = λ k h. ground arith }
    by_phase (fading left) e = fade-IsPassed ms left t (rw e refl)

life_of-keep :
    (n : ℕ) (o : Option Toast) (ts : List Toast)
    → life_of n (keep o ts) ≡ max (life_of n (keep o [])) (life_of n ts)
life_of-keep n none ts = omega arith
life_of-keep n (some t) ts = omega arith

AreLive-keep :
    (k : ℕ) (o : Option Toast) (ts : List Toast)
    → AreLive k (keep o [])
    → AreLive k ts
    → AreLive k (keep o ts)
AreLive-keep k none ts h hs = hs
AreLive-keep k (some t) ts h hs = (h.0, h.1, hs)

life_of-pass_all : (ms n : ℕ) (ts : List Toast) → life_of n (pass_all ms ts) ≡ life_of n ts - ms
unfolding pass_all
life_of-pass_all ms n [] = omega arith
life_of-pass_all ms n (t ∷ ts) = omega (
  arith,
  life_of-keep n (pass_by ms t.phase t) (pass_all ms ts),
  (pass_by-IsPassed ms t).lived n,
  life_of-pass_all ms n ts,
)

AreLive-pass_all : (ms k : ℕ) (ts : List Toast) → AreLive k ts → AreLive k (pass_all ms ts)
unfolding pass_all
AreLive-pass_all ms k [] h = tt
AreLive-pass_all ms k (t ∷ ts) h =
    AreLive-keep k (pass_by ms t.phase t) (pass_all ms ts) ((pass_by-IsPassed ms t).live k h.0)
      (AreLive-pass_all ms k ts h.2)

abbrev IsValid : Container → Type 0
IsValid c = AreLive c.next_id c.toasts

show_toast-IsValid :
    (message : Text) (kind : Kind) (duration : ℕ) (c : Container)
    → IsValid c
    → IsValid (show_toast message kind duration c)
unfolding show_toast
show_toast-IsValid message kind duration c h =
    AreLive-append c.next_id c.toasts _ h refl (omega arith)

step-IsValid : (e : Event) (c : Container) → IsValid c → IsValid (step e c)
unfolding step
step-IsValid (show message kind duration) c h = show_toast-IsValid message kind duration c h
step-IsValid (wait ms) c h = AreLive-pass_all ms c.next_id c.toasts h

run-IsValid : (es : List Event) (c : Container) → IsValid c → IsValid (run es c)
unfolding run
run-IsValid [] c h = h
run-IsValid (e ∷ es) c h = run-IsValid es (step e c) (step-IsValid e c h)

-- What is shown later has another id.
run-life_of :
    (n : ℕ) (es : List Event) (c : Container)
    → n < c.next_id
    → (life_of n (run es c).toasts ≡ life_of n c.toasts - elapsed es)
unfolding run step show_toast
run-life_of n [] c h = omega arith
run-life_of n (show message kind duration ∷ es) c h = ground (
  arith,
  run-life_of n es (step (show message kind duration) c),
  life_of-append n c.toasts (new_toast c.next_id message kind duration),
)
run-life_of n (wait ms ∷ es) c h =
    omega (arith, run-life_of n es (step (wait ms) c) h, life_of-pass_all ms n c.toasts)

show_toast-life_of :
    (message : Text) (kind : Kind) (duration : ℕ) (c : Container)
    → IsValid c
    → life_of c.next_id (show_toast message kind duration c).toasts ≡ duration + 300
unfolding show_toast
show_toast-life_of message kind duration c h = ground (
  arith,
  life_of-fresh c.next_id c.toasts h,
  life_of-append c.next_id c.toasts (new_toast c.next_id message kind duration),
)

show_toast-next_id :
    (message : Text) (kind : Kind) (duration : ℕ) (c : Container)
    → (show_toast message kind duration c).next_id ≡ c.next_id + 1
unfolding show_toast
show_toast-next_id message kind duration c = refl

-- Whatever was shown before and is shown after it, a toast is on the page exactly until its duration
-- and 300 ms have passed.
pub toast_leaves :
    (before after : List Event) (message : Text) (kind : Kind) (duration : ℕ)
    → let c = run before no_container in
      has c.next_id (run (show message kind duration ∷ after) c).toasts
      ≡ ltb (elapsed after) (duration + 300)
unfolding run step
toast_leaves before after message kind duration =
    let c = run before no_container in
    let h = run-IsValid before no_container tt in
    let c' = show_toast message kind duration c in
    let later : c.next_id < c'.next_id =
      omega (arith, show_toast-next_id message kind duration c) in
    let h' = run-IsValid after c' (show_toast-IsValid message kind duration c h) in
    has-life_of c.next_id _ (run after c').toasts h'
    ∙ ground
        (arith, run-life_of c.next_id after c' later, show_toast-life_of message kind duration c h)
