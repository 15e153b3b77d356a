-- ===== src/Saas/Seed/Loops.antt =====
-- What one loop of the script does, and what it does when it is made again.
use proxy_redirector.Prelude.{
  ◌⊎◌, ◌≡◌, ◌≢◌, refl, ◌∙◌, subst, sym, Bool, true, false, ◌||◌, ◌&&◌, not, Option, none, some,
  List, [], ◌∷◌, arith, Bool-cases, inl, inr,
}
use proxy_redirector.Text.{Text, text_eq}
use proxy_redirector.Text.Laws.{text_eq_iff}
use proxy_redirector.Saas.Seed.{SeedTable, seed_all, after}

module _ {A : Type 0} (t : SeedTable A) where
  open t use {State, Rest, row, upsert, upsert_new, upsert_old, upsert_other}

  -- Two states with the same rows, but for the times of their last changes.
  abbrev pub Same : State → State → Type 0
  Same s s' = (k : Text) → row k s' ≡ row k s

  -- After an upsert the row of the key is the new one, or the changed one.
  pub upsert_either :
      (key : Text) (f : A → A) (new : A) (s s' : State)
      → upsert key f new s ≡ some s'
      → (x : A) × (r : Rest) × (row key s' ≡ some (x, r)) × (x ≡ new ⊎ (y : A) × (x ≡ f y))
  upsert_either key f new s s' h = by_row (row key s) refl
    where
      by_row :
          (o : Option (A × Rest))
          → row key s ≡ o
          → (x : A) × (r : Rest) × (row key s' ≡ some (x, r)) × (x ≡ new ⊎ (y : A) × (x ≡ f y))
      by_row none e = let (r, k) = upsert_new key f new s s' e h in (new, r, k, inl refl)
      by_row (some (y, r)) e = (f y, r, upsert_old key f new y r s s' e h, inr (y, refl))

  -- A change that changes nothing in the row of the key changes no row, but for its time.
  pub upsert_Same :
      (key : Text) (f : A → A) (new x : A) (r : Rest) (s s' : State)
      → row key s ≡ some (x, r)
      → f x ≡ x
      → upsert key f new s ≡ some s'
      → Same s s'
  upsert_Same key f new x r s s' h fix k v = elim (Bool-cases (text_eq v key)) [
    | inl e ↦ rw ((text_eq_iff v key).0 e, upsert_old key f new x r s s' h k, h, fix) refl
    | inr e ↦ upsert_other key f new s s' k v (λ l. ground (arith, text_eq_iff v key))
  ]

-- Whether an entry of the list has the key, and whether no two have the same.
unfoldable pub has_key : {A : Type 0} → (A → Text) → Text → List A → Bool
has_key key k [] = false
has_key key k (x ∷ xs) = text_eq k (key x) || has_key key k xs

unfoldable pub are_distinct : {A : Type 0} → (A → Text) → List A → Bool
unfolding has_key
are_distinct key [] = true
are_distinct key (x ∷ xs) = not (has_key key (key x) xs) && are_distinct key xs

pub after_goes_on :
    {S : Type 0} (s : S) (o : Option S) → (after s o).0 ≡ true → o ≡ some (after s o).1
after_goes_on s none h = absurd (ground arith)
after_goes_on s (some s') h = refl

module _ {A : Type 0} (t : SeedTable A) (key : A → Text) where
  open t use {State, Rest, row, upsert, upsert_other}

  -- The entries stand in the table as they are.
  Settled : List A → State → Type 0
  Settled [] s = Unit
  Settled (x ∷ xs) s = ((r : Rest) × (row (key x) s ≡ some (x, r))) × Settled xs s

  Same-Settled : (xs : List A) (s s' : State) → Same t s s' → Settled xs s → Settled xs s'
  unfolding Settled
  Same-Settled [] s s' h k = tt
  Same-Settled (x ∷ xs) s s' h ((r, e), k) = ((r, h (key x) ∙ e), Same-Settled xs s s' h k)

  -- What a loop does that goes through: its first entry, and the rest.
  seed_first :
      (x : A) (xs : List A) (s : State)
      → (seed_all t key (x ∷ xs) s).0 ≡ true
      → (s1 : State) × (upsert (key x) (λ old. x) x s ≡ some s1)
        × (seed_all t key (x ∷ xs) s ≡ seed_all t key xs s1)
  unfolding seed_all
  seed_first x xs s h = by_upsert (upsert (key x) (λ old. x) x s) refl
    where
      by_upsert :
          (o : Option State)
          → upsert (key x) (λ old. x) x s ≡ o
          → (s1 : State) × (upsert (key x) (λ old. x) x s ≡ some s1)
            × (seed_all t key (x ∷ xs) s ≡ seed_all t key xs s1)
      by_upsert none e = absurd (ground arith)
      by_upsert (some s1) e = (s1, e, rw e refl)

  -- A loop over entries that already stand in the table changes no row, but for its time.
  seed_all-Same :
      (xs : List A) (s : State)
      → (seed_all t key xs s).0 ≡ true
      → Settled xs s
      → Same t s (seed_all t key xs s).1
  unfolding seed_all Settled
  seed_all-Same [] s h k v = refl
  seed_all-Same (x ∷ xs) s h ((r, e), k) v =
      let (s1, u, eq) = seed_first x xs s h in
      let same = upsert_Same t (key x) (λ old. x) x x r s s1 e refl u in
      let rest = seed_all-Same xs s1 (rw (sym eq) h) (Same-Settled xs s s1 same k) v in
      rw eq (rest ∙ same v)

  -- A loop leaves the rows of other keys.
  seed_all_other :
      (xs : List A) (s : State) (k : Text)
      → (seed_all t key xs s).0 ≡ true
      → has_key key k xs ≡ false
      → row k (seed_all t key xs s).1 ≡ row k s
  unfolding seed_all has_key
  seed_all_other [] s k h out = refl
  seed_all_other (x ∷ xs) s k h out =
      let (s1, u, eq) = seed_first x xs s h in
      let rest = seed_all_other xs s1 k (rw (sym eq) h) (ground arith) in
      let ne : k ≢ key x = λ l. ground (arith, text_eq_iff k (key x)) in
      rw eq (rest ∙ upsert_other (key x) (λ old. x) x s s1 u k ne)

  -- A loop over entries of different keys that goes through leaves them all in the table.
  seed_all-Settled :
      (xs : List A) (s : State)
      → (seed_all t key xs s).0 ≡ true
      → are_distinct key xs ≡ true
      → Settled xs (seed_all t key xs s).1
  unfolding seed_all Settled are_distinct
  seed_all-Settled [] s h d = tt
  seed_all-Settled (x ∷ xs) s h d =
      let (s1, u, eq) = seed_first x xs s h in
      let go : (seed_all t key xs s1).0 ≡ true = rw (sym eq) h in
      let (y, r, e, which) = upsert_either t (key x) (λ old. x) x s s1 u in
      let is_x : y ≡ x = elim which [ inl k ↦ k | inr (z, k) ↦ k ] in
      let kept = seed_all_other xs s1 (key x) go (ground arith) in
      rw eq (
        (r, subst (λ z. row (key x) (seed_all t key xs s1).1 ≡ some (z, r)) is_x (kept ∙ e)),
        seed_all-Settled xs s1 go (ground arith),
      )

-- A loop over entries of different keys, made again, changes no row, but for its time.
pub loop_again :
    {A : Type 0} (t : SeedTable A) (key : A → Text) (xs : List A) (s : t.State)
    → are_distinct key xs ≡ true
    → (seed_all t key xs s).0 ≡ true
    → (seed_all t key xs (seed_all t key xs s).1).0 ≡ true
    → Same t (seed_all t key xs s).1 (seed_all t key xs (seed_all t key xs s).1).1
loop_again t key xs s d first second =
    seed_all-Same t key xs (seed_all t key xs s).1 second (seed_all-Settled t key xs s first d)
