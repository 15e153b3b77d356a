-- ===== src/Prelude/Sorting.antt =====
-- `Array.prototype.sort` with a comparator: a stable sort. `after a b` says that the comparator
-- puts `a` strictly after `b` (it returns a positive number).
use Prim.Native.Nat.{suc}
use mathlib.Core.Path.{◌≡◌, refl}
use mathlib.Core.Bool.{Bool, true, false}
use mathlib.Core.Logic.{inl, inr}
use mathlib.Core.List.{List, [], ◌∷◌, Perm}
use mathlib.Core.List.Perm
use native.Mathlib.Omega.{arith}
use proxy_redirector.Prelude.Tests.{if◌then◌else◌, Bool-cases}
use proxy_redirector.Prelude.Lists.{All, filter, length}

module _ {ℓ} {A : Type ℓ} (after : A → A → Bool) where
  -- `x` stands left of `ys` in the array that is sorted, so it goes before its equals.
  insert_sorted : A → List A → List A
  insert_sorted x [] = x ∷ []
  insert_sorted x (y ∷ ys) =
      let rest = insert_sorted x ys in if after x y then y ∷ rest else x ∷ y ∷ ys

  unfoldable pub sort : List A → List A
  unfolding insert_sorted
  sort [] = []
  sort (x ∷ xs) = insert_sorted x (sort xs)

  -- No element is after one that follows it.
  abbrev pub IsSorted : List A → Type 0
  IsSorted [] = Unit
  IsSorted (x ∷ xs) = All (λ y. after x y ≡ false) xs × IsSorted xs

  insert_sorted-perm : (x : A) (ys : List A) → Perm (insert_sorted x ys) (x ∷ ys)
  unfolding insert_sorted
  insert_sorted-perm x [] = Perm.refl _
  insert_sorted-perm x (y ∷ ys) = elim (Bool-cases (after x y)) [
    | inl e ↦ rw e (Perm.trans (Perm.cons y (insert_sorted-perm x ys)) (Perm.swap x y ys))
    | inr e ↦ rw e (Perm.refl _)
  ]

  pub sort-perm : (xs : List A) → Perm (sort xs) xs
  unfolding sort
  sort-perm [] = Perm.refl _
  sort-perm (x ∷ xs) = Perm.trans (insert_sorted-perm x (sort xs)) (Perm.cons x (sort-perm xs))

-- What a comparator must satisfy for the result to be in order.
pub record IsOrder {ℓ} {A : Type ℓ} (after : A → A → Bool) : Type ℓ where
  pub asymm : (x y : A) → after x y ≡ true → after y x ≡ false
  pub trans : (x y z : A) → after x y ≡ false → after y z ≡ false → after x z ≡ false

module _ {ℓ} {A : Type ℓ} (after : A → A → Bool) where
  All-insert_sorted :
      (P : A → Type 0) (x : A) (ys : List A) → P x → All P ys → All P (insert_sorted after x ys)
  unfolding insert_sorted
  All-insert_sorted P x [] h k = (h, tt)
  All-insert_sorted P x (y ∷ ys) h k = elim (Bool-cases (after x y)) [
    | inl e ↦ rw e (k.0, All-insert_sorted P x ys h k.1)
    | inr e ↦ rw e (h, k)
  ]

  pub All-sort : (P : A → Type 0) (xs : List A) → All P xs → All P (sort after xs)
  unfolding sort
  All-sort P [] h = tt
  All-sort P (x ∷ xs) h = All-insert_sorted P x (sort after xs) h.0 (All-sort P xs h.1)

  insert_sorted-All :
      (P : A → Type 0) (x : A) (ys : List A) → All P (insert_sorted after x ys) → P x × All P ys
  unfolding insert_sorted
  insert_sorted-All P x [] h = (h.0, tt)
  insert_sorted-All P x (y ∷ ys) h = elim (Bool-cases (after x y)) [
    | inl e ↦
        let k : All P (y ∷ insert_sorted after x ys) = rw e at h in
        let rest = insert_sorted-All P x ys k.1 in (rest.0, (k.0, rest.1))
    | inr e ↦ let k : All P (x ∷ y ∷ ys) = rw e at h in (k.0, k.1)
  ]

  -- What holds of every element of the result holds of every element of the list.
  pub sort-All : (P : A → Type 0) (xs : List A) → All P (sort after xs) → All P xs
  unfolding sort
  sort-All P [] h = tt
  sort-All P (x ∷ xs) h =
      let k = insert_sorted-All P x (sort after xs) h in (k.0, sort-All P xs k.1)

  All-after :
      (o : IsOrder after) (x y : A) (ys : List A)
      → after x y ≡ false
      → All (λ z. after y z ≡ false) ys
      → All (λ z. after x z ≡ false) ys
  All-after o x y [] e h = tt
  All-after o x y (z ∷ ys) e h = (o.trans x y z e h.0, All-after o x y ys e h.1)

  insert_sorted-IsSorted :
      (o : IsOrder after) (x : A) (ys : List A)
      → IsSorted after ys
      → IsSorted after (insert_sorted after x ys)
  unfolding insert_sorted
  insert_sorted-IsSorted o x [] h = (tt, tt)
  insert_sorted-IsSorted o x (y ∷ ys) h = elim (Bool-cases (after x y)) [
    | inl e ↦ rw e (
      All-insert_sorted (λ z. after y z ≡ false) x ys (o.asymm x y e) h.0,
      insert_sorted-IsSorted o x ys h.1,
    )
    | inr e ↦ rw e ((e, All-after o x y ys e h.0), h)
  ]

  -- The result is in order.
  pub sort-IsSorted : (o : IsOrder after) (xs : List A) → IsSorted after (sort after xs)
  unfolding sort
  sort-IsSorted o [] = tt
  sort-IsSorted o (x ∷ xs) = insert_sorted-IsSorted o x (sort after xs) (sort-IsSorted o xs)

  filter-insert_sorted :
      (p : A → Bool)
      → ((x y : A) → p x ≡ true → p y ≡ true → after x y ≡ false)
      → (x : A) (ys : List A) → filter p (insert_sorted after x ys) ≡ filter p (x ∷ ys)
  unfolding insert_sorted
  filter-insert_sorted p tie x [] = refl
  filter-insert_sorted p tie x (y ∷ ys) = ground (arith, tie x y, filter-insert_sorted p tie x ys)

  -- Elements that the comparator does not tell apart keep their order.
  pub sort_stable :
      (p : A → Bool)
      → ((x y : A) → p x ≡ true → p y ≡ true → after x y ≡ false)
      → (xs : List A) → filter p (sort after xs) ≡ filter p xs
  unfolding sort
  sort_stable p tie [] = refl
  sort_stable p tie (x ∷ xs) =
      ground (arith, filter-insert_sorted p tie x (sort after xs), sort_stable p tie xs)

  length-insert_sorted : (x : A) (ys : List A) → length (insert_sorted after x ys) ≡ suc (length ys)
  unfolding insert_sorted
  length-insert_sorted x [] = refl
  length-insert_sorted x (y ∷ ys) = ground (arith, length-insert_sorted x ys)

  pub length-sort : (xs : List A) → length (sort after xs) ≡ length xs
  unfolding sort
  length-sort [] = refl
  length-sort (x ∷ xs) = omega (arith, length-insert_sorted x (sort after xs), length-sort xs)
