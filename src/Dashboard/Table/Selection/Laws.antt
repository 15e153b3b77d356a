-- ===== src/Dashboard/Table/Selection/Laws.antt =====
-- Laws of the set of selected ids.
use proxy_redirector.Prelude.{
  ◌≤◌, ◌<◌, ◌≡◌, refl, true, false, not, ◌&&◌, ◌||◌, List, [], ◌∷◌, ◌++◌, arith, length, Bool-cases,
  inl, inr,
}
use proxy_redirector.Text.{Text, text_eq}
use proxy_redirector.Text.Laws.{text_eq_iff}
use proxy_redirector.Dashboard.Table.Selection.{Ids, has, add, delete, add_all}

-- No id stands twice.
abbrev pub IsDistinct : Ids → Type 0
IsDistinct [] = Unit
IsDistinct (x ∷ xs) = (has xs x ≡ false) × IsDistinct xs

pub has-append : (xs ys : Ids) (id : Text) → has (xs ++ ys) id ≡ (has xs id || has ys id)
has-append [] ys id = refl
has-append (x ∷ xs) ys id = ground (arith, has-append xs ys id)

pub has-add : (xs : Ids) (x id : Text) → has (add xs x) id ≡ (text_eq x id || has xs id)
unfolding add
has-add xs x id = ground (arith, has-append xs (x ∷ []) id, text_eq_iff x id)

pub has-delete : (xs : Ids) (x id : Text) → has (delete xs x) id ≡ (not (text_eq x id) && has xs id)
unfolding delete
has-delete [] x id = ground arith
has-delete (y ∷ ys) x id =
    ground (arith, has-delete ys x id, text_eq_iff y x, text_eq_iff y id, text_eq_iff x id)

pub has-add_all :
    (ids : Ids) (xs : List Text) (id : Text) → has (add_all ids xs) id ≡ (has ids id || has xs id)
unfolding add_all
has-add_all ids [] id = ground arith
has-add_all ids (x ∷ xs) id = ground (arith, has-add_all (add ids x) xs id, has-add ids x id)

append-IsDistinct :
    (xs : Ids) (x : Text) → IsDistinct xs → has xs x ≡ false → IsDistinct (xs ++ x ∷ [])
append-IsDistinct [] x h e = (refl, tt)
append-IsDistinct (y ∷ ys) x h e = (
  ground (arith, has-append ys (x ∷ []) y, text_eq_iff x y, text_eq_iff y x),
  append-IsDistinct ys x h.1 (ground arith),
)

pub add-IsDistinct : (xs : Ids) (x : Text) → IsDistinct xs → IsDistinct (add xs x)
unfolding add
add-IsDistinct xs x h = elim (Bool-cases (has xs x)) [
  | inl e ↦ rw e h
  | inr e ↦ rw e (append-IsDistinct xs x h e)
]

pub add_all-IsDistinct : (ids : Ids) (xs : List Text) → IsDistinct ids → IsDistinct (add_all ids xs)
unfolding add_all
add_all-IsDistinct ids [] h = h
add_all-IsDistinct ids (x ∷ xs) h = add_all-IsDistinct (add ids x) xs (add-IsDistinct ids x h)

pub delete-IsDistinct : (xs : Ids) (x : Text) → IsDistinct xs → IsDistinct (delete xs x)
unfolding delete
delete-IsDistinct [] x h = tt
delete-IsDistinct (y ∷ ys) x h = elim (Bool-cases (text_eq y x)) [
  | inl e ↦ rw e (delete-IsDistinct ys x h.1)
  | inr e ↦ rw e (ground (arith, has-delete ys x y), delete-IsDistinct ys x h.1)
]

length-delete-le : (ys : Ids) (x : Text) → length (delete ys x) ≤ length ys
unfolding delete
length-delete-le [] x = omega arith
length-delete-le (y ∷ ys) x = ground (arith, length-delete-le ys x)

length-delete : (ys : Ids) (x : Text) → has ys x ≡ true → length (delete ys x) < length ys
unfolding delete
length-delete [] x h = cc
length-delete (y ∷ ys) x h = ground (arith, length-delete ys x, length-delete-le ys x)

-- Distinct ids that all stand in a list are no more than the list's.
pub IsDistinct-length :
    (xs ys : Ids)
    → IsDistinct xs
    → ((id : Text) → has xs id ≡ true → has ys id ≡ true)
    → length xs ≤ length ys
IsDistinct-length [] ys d h = omega arith
IsDistinct-length (x ∷ xs) ys d h =
    let here : has ys x ≡ true = h x (ground (arith, text_eq_iff x x)) in
    let shorter = length-delete ys x here in
    let rest =
      IsDistinct-length xs (delete ys x) d.1
        λ id k. ground (arith, has-delete ys x id, h id, text_eq_iff x id, d.0) in
    omega arith
