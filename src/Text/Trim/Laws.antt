-- ===== src/Text/Trim/Laws.antt =====
-- A text with no spaces is not trimmed; texts that are joined are cut apart again.
use proxy_redirector.Prelude.{
  ℕ, ◌≡◌, ◌≢◌, refl, ap, Bool, true, false, ◌&&◌, List, [], ◌∷◌, ◌++◌, All, arith, ◌==◌,
  if◌then◌else◌, Bool-cases, inl, inr,
}
use proxy_redirector.Text.{Text, is_empty}
use proxy_redirector.Text.Trim.{is_space, trim, trim_start, trim_end, in_front, split, join}

-- No character is a space.
abbrev pub NoSpace : Text → Type 0
NoSpace = All (λ c. is_space c ≡ false)

-- No character is `c`.
abbrev pub Lacks : ℕ → Text → Type 0
Lacks c = All (λ x. (x == c) ≡ false)

trim_start-NoSpace : (s : Text) → NoSpace s → trim_start s ≡ s
unfolding trim_start
trim_start-NoSpace [] h = refl
trim_start-NoSpace (c ∷ s) h = rw h.0

trim_end-NoSpace : (s : Text) → NoSpace s → trim_end s ≡ s
unfolding trim_end
trim_end-NoSpace [] h = refl
trim_end-NoSpace (c ∷ s) h = rw (h.0, trim_end-NoSpace s h.1) (by_rest (is_empty s))
  where
    by_rest : (b : Bool) → (if b && false then [] else c ∷ s) ≡ c ∷ s
    by_rest true = refl
    by_rest false = refl

pub trim-NoSpace : (s : Text) → NoSpace s → trim s ≡ s
unfolding trim
trim-NoSpace s h = rw (trim_start-NoSpace s h) (trim_end-NoSpace s h)

-- The part in front of the first `c`.
pub split-append : (c : ℕ) (s rest : Text) → Lacks c s → split c (s ++ c ∷ rest) ≡ s ∷ split c rest
unfolding split
split-append c [] rest h = ground arith
split-append c (x ∷ s) rest h = rw (h.0, split-append c s rest h.1) refl

split-Lacks : (c : ℕ) (s : Text) → Lacks c s → split c s ≡ s ∷ []
unfolding split
split-Lacks c [] h = refl
split-Lacks c (x ∷ s) h = rw (h.0, split-Lacks c s h.1) refl

pub split-join : (c : ℕ) (ss : List Text) → ss ≢ [] → All (Lacks c) ss → split c (join c ss) ≡ ss
unfolding join
split-join c [] ne h = absurd (ne refl)
split-join c (s ∷ []) ne h = split-Lacks c s h.0
split-join c (s ∷ t ∷ ss) ne h =
    rw (split-append c s (join c (t ∷ ss)) h.0) (ap (s ∷◌) (split-join c (t ∷ ss) (λ e. cc) h.1))

in_front-All :
    (P : ℕ → Type 0) (x : ℕ) (ss : List Text) → P x → All (All P) ss → All (All P) (in_front x ss)
in_front-All P x [] e h = ((e, tt), tt)
in_front-All P x (s ∷ ss) e h = ((e, h.0), h.1)

-- No part of a text that is cut at `c` has a `c` in it.
pub split-parts : (c : ℕ) (s : Text) → All (Lacks c) (split c s)
unfolding split
split-parts c [] = (tt, tt)
split-parts c (x ∷ s) = elim (Bool-cases (x == c)) [
  | inl e ↦ rw e (tt, split-parts c s)
  | inr e ↦ rw e (in_front-All _ x (split c s) e (split-parts c s))
]

trim_start-All : (P : ℕ → Type 0) (s : Text) → All P s → All P (trim_start s)
unfolding trim_start
trim_start-All P [] h = h
trim_start-All P (c ∷ s) h = elim (Bool-cases (is_space c)) [
  | inl e ↦ rw e (trim_start-All P s h.1)
  | inr e ↦ rw e h
]

trim_end-All : (P : ℕ → Type 0) (s : Text) → All P s → All P (trim_end s)
unfolding trim_end
trim_end-All P [] h = h
trim_end-All P (c ∷ s) h = elim (Bool-cases (is_empty (trim_end s) && is_space c)) [
  | inl e ↦ rw e tt
  | inr e ↦ rw e (h.0, trim_end-All P s h.1)
]

-- Trimming brings in no character.
pub trim-All : (P : ℕ → Type 0) (s : Text) → All P s → All P (trim s)
unfolding trim
trim-All P s h = trim_end-All P (trim_start s) (trim_start-All P s h)

-- Cutting brings in no character.
pub split-All : (P : ℕ → Type 0) (c : ℕ) (s : Text) → All P s → All (All P) (split c s)
unfolding split
split-All P c [] h = (tt, tt)
split-All P c (x ∷ s) h = elim (Bool-cases (x == c)) [
  | inl e ↦ rw e (tt, split-All P c s h.1)
  | inr e ↦ rw e (in_front-All P x (split c s) h.0 (split-All P c s h.1))
]
