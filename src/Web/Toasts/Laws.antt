-- ===== src/Web/Toasts/Laws.antt =====
-- How long the notification and the mark stay.
use proxy_redirector.Prelude.{
  ℕ, ◌-◌, ◌<◌, ◌≡◌, refl, true, false, Option, none, some, List, [], ◌∷◌, arith, leb, any,
  Bool-cases, inl, inr,
}
use proxy_redirector.Text.{Text}
use proxy_redirector.Web.Toasts.{
  Notes, show_toast, copy_text, left, cleared, Event, show, copy, wait, step, run, no_notes,
}

-- Something that is shown has a timer that ends within a bound.
abbrev IsTimed : ℕ → Option Text → List ℕ → Type 0
IsTimed bound none ts = Unit
IsTimed bound (some m) ts = any (λ t. leb t bound) ts ≡ true

abbrev IsTimedNotes : Notes → Type 0
IsTimedNotes n = IsTimed 3200 n.toast n.toast_timers × IsTimed 2000 n.copied_id n.copied_timers

any-left :
    (ms bound : ℕ) (ts : List ℕ)
    → any (λ t. leb t ms) ts ≡ false
    → any (λ t. leb t bound) ts ≡ true
    → any (λ t. leb t bound) (left ms ts) ≡ true
any-left ms bound [] h k = cc
any-left ms bound (t ∷ ts) h k = ground (arith, any-left ms bound ts)

cleared-IsTimed :
    (ms bound : ℕ) (o : Option Text) (ts : List ℕ)
    → IsTimed bound o ts
    → IsTimed bound (cleared ms ts o) (left ms ts)
cleared-IsTimed ms bound none ts h = elim (Bool-cases (any (λ t. leb t ms) ts)) [
  | inl e ↦ rw e tt
  | inr e ↦ rw e tt
]
cleared-IsTimed ms bound (some m) ts h = elim (Bool-cases (any (λ t. leb t ms) ts)) [
  | inl e ↦ rw e tt
  | inr e ↦ rw e (any-left ms bound ts e h)
]

step-IsTimed : (e : Event) (n : Notes) → IsTimedNotes n → IsTimedNotes (step e n)
unfolding step show_toast copy_text
step-IsTimed (show message) n h = (refl, h.1)
step-IsTimed (copy said copied id) n h = (refl, refl)
step-IsTimed (wait ms) n h = (
  cleared-IsTimed ms 3200 n.toast n.toast_timers h.0,
  cleared-IsTimed ms 2000 n.copied_id n.copied_timers h.1,
)

run-IsTimed : (es : List Event) (n : Notes) → IsTimedNotes n → IsTimedNotes (run es n)
unfolding run
run-IsTimed [] n h = h
run-IsTimed (e ∷ es) n h = run-IsTimed es (step e n) (step-IsTimed e n h)

cleared_timed :
    (bound : ℕ) (o : Option Text) (ts : List ℕ) → IsTimed bound o ts → cleared bound ts o ≡ none
cleared_timed bound none ts h = ground arith
cleared_timed bound (some m) ts h = rw h refl

-- Whatever was shown and copied, 3.2 seconds without a call later nothing is shown.
pub notes_end :
    (es : List Event)
    → let n = step (wait 3200) (run es no_notes) in (n.toast ≡ none) × (n.copied_id ≡ none)
unfolding step
notes_end es =
    let n = run es no_notes in
    let h = run-IsTimed es no_notes (tt, tt) in
    (cleared_timed 3200 n.toast n.toast_timers h.0, within n.copied_id n.copied_timers h.1)
  where
    sooner : (ts : List ℕ) → any (λ t. leb t 2000) ts ≡ true → any (λ t. leb t 3200) ts ≡ true
    sooner [] k = cc
    sooner (t ∷ ts) k = ground (arith, sooner ts)

    within : (o : Option Text) (ts : List ℕ) → IsTimed 2000 o ts → cleared 3200 ts o ≡ none
    within none ts k = ground arith
    within (some m) ts k = rw (sooner ts k) refl

-- If two messages are shown, the second less than 3.2 seconds after the first, the second is hidden
-- 3.2 seconds after the first: it is shown for less than its own 3.2 seconds.
pub second_cut_short :
    (first second : Text) (ms : ℕ) (n : Notes)
    → n.toast_timers ≡ []
    → 0 < ms
    → ms < 3200
    → let later = run (show first ∷ wait ms ∷ show second ∷ []) n in
      (later.toast ≡ some second)
      × ((step (wait (3199 - ms)) later).toast ≡ some second)
      × ((step (wait (3200 - ms)) later).toast ≡ none)
unfolding run step show_toast
second_cut_short first second ms n none_yet pos short = ground arith
