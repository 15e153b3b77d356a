-- ===== src/Text/Laws.antt =====
-- Laws of the texts: equality, order, replacement, printed numbers.
use proxy_redirector.Prelude.{ℕ, ◌≡◌, refl, ◌↔◌, true, false, [], ◌∷◌, ◌++◌, arith, append_assoc}
use proxy_redirector.Text.{Text, text_eq, text_lt, replace_all, starts_with, includes}

pub text_eq→eq : (a b : Text) → text_eq a b ≡ true → a ≡ b
text_eq→eq [] [] h = refl
text_eq→eq [] (y ∷ ys) h = cc
text_eq→eq (x ∷ xs) [] h = cc
text_eq→eq (x ∷ xs) (y ∷ ys) h = ground (arith, text_eq→eq xs ys)

pub text_eq_refl : (a : Text) → text_eq a a ≡ true
text_eq_refl [] = refl
text_eq_refl (x ∷ xs) = ground (arith, text_eq_refl xs)

pub text_eq_iff : (a b : Text) → (text_eq a b ≡ true) ↔ (a ≡ b)
text_eq_iff a b = (text_eq→eq a b, λ e. rw e (text_eq_refl b))

pub text_lt_asymm : (a b : Text) → text_lt a b ≡ true → text_lt b a ≡ false
text_lt_asymm [] [] h = cc
text_lt_asymm [] (y ∷ ys) h = refl
text_lt_asymm (x ∷ xs) [] h = cc
text_lt_asymm (x ∷ xs) (y ∷ ys) h = ground (arith, text_lt_asymm xs ys)

-- "Not greater" is transitive.
pub text_lt_trans : (a b c : Text) → text_lt b a ≡ false → text_lt c b ≡ false → text_lt c a ≡ false
text_lt_trans [] b [] h k = refl
text_lt_trans [] [] (z ∷ zs) h k = refl
text_lt_trans [] (y ∷ ys) (z ∷ zs) h k = refl
text_lt_trans (x ∷ xs) [] c h k = cc
text_lt_trans (x ∷ xs) (y ∷ ys) [] h k = cc
text_lt_trans (x ∷ xs) (y ∷ ys) (z ∷ zs) h k = ground (arith, text_lt_trans xs ys zs)

pub replace_all-append :
    (c : ℕ) (by xs ys : Text)
    → replace_all c by (xs ++ ys) ≡ replace_all c by xs ++ replace_all c by ys
unfolding replace_all
replace_all-append c by [] ys = refl
replace_all-append c by (x ∷ xs) ys = ground (
  arith,
  replace_all-append c by xs ys,
  append_assoc by (replace_all c by xs) (replace_all c by ys),
)

pub append_cancel : (s t u : Text) → s ++ t ≡ s ++ u → t ≡ u
append_cancel [] t u h = h
append_cancel (c ∷ s) t u h = append_cancel s t u (cc)

starts_with-append : (q s : Text) → starts_with (q ++ s) q ≡ true
starts_with-append [] s = starts_nil s
  where
    starts_nil : (s : Text) → starts_with s [] ≡ true
    starts_nil [] = refl
    starts_nil (c ∷ s) = refl
starts_with-append (c ∷ q) s = ground (arith, starts_with-append q s)

includes-start : (s q : Text) → starts_with s q ≡ true → includes s q ≡ true
includes-start [] [] h = refl
includes-start [] (c ∷ q) h = cc
includes-start (x ∷ s) q h = ground (arith, h)

-- A text includes each of its parts.
pub includes-append : (a q b : Text) → includes (a ++ (q ++ b)) q ≡ true
includes-append [] q b = includes-start (q ++ b) q (starts_with-append q b)
includes-append (x ∷ a) q b = ground (arith, includes-append a q b)

pub includes_behind : (a s q : Text) → includes s q ≡ true → includes (a ++ s) q ≡ true
includes_behind [] s q h = h
includes_behind (x ∷ a) s q h = ground (arith, includes_behind a s q)
