-- ===== src/Text/Numbers.antt =====
-- A printed number is read back.
use proxy_redirector.Prelude.{
  ℕ, zero, suc, ◌+◌, ◌-◌, ◌*◌, ◌/◌, ◌%◌, ◌<◌, ◌≡◌, ◌≢◌, refl, ap, ◌∙◌, true, some, [], ◌∷◌, ◌++◌,
  arith, ltb, All, All-append, Bool-cases, inl, inr,
}
use proxy_redirector.Text.{Text, decimal, decimal_digits, is_digit, parse_digits, parse_int}

abbrev pub IsDigit : ℕ → Type 0
IsDigit c = is_digit c ≡ true

parse_digits-append :
    (acc : ℕ) (xs ys : Text)
    → All IsDigit xs
    → parse_digits acc (xs ++ ys) ≡ parse_digits (parse_digits acc xs) ys
unfolding parse_digits
parse_digits-append acc [] ys h = refl
parse_digits-append acc (x ∷ xs) ys h =
    rw h.0 (parse_digits-append (acc * 10 + (x - b'0')) xs ys h.1)

below_ten : (n : ℕ) → n < 10 → IsDigit (b'0' + n)
below_ten n h = ground arith

decimal_digits-IsDigit : (fuel n : ℕ) → All IsDigit (decimal_digits fuel n)
unfolding decimal_digits
decimal_digits-IsDigit zero n = tt
decimal_digits-IsDigit (suc fuel) n = elim (Bool-cases (ltb n 10)) [
  | inl e ↦ rw e (below_ten n (ground arith), tt)
  | inr e ↦ rw e (
      All-append IsDigit (decimal_digits fuel (n / 10)) _ (decimal_digits-IsDigit fuel (n / 10))
        (below_ten (n % 10) (omega arith), tt))
]

parse_digits_single : (acc d : ℕ) → d < 10 → parse_digits acc ((b'0' + d) ∷ []) ≡ acc * 10 + d
unfolding parse_digits
parse_digits_single acc d h = ground arith

parse_digits-decimal_digits : (fuel n : ℕ) → n < fuel → parse_digits 0 (decimal_digits fuel n) ≡ n
unfolding decimal_digits
parse_digits-decimal_digits zero n h = elim h [ ]
parse_digits-decimal_digits (suc fuel) n h = elim (Bool-cases (ltb n 10)) [
  | inl e ↦ rw e (parse_digits_single 0 n (ground arith) ∙ omega arith)
  | inr e ↦
      let ih = parse_digits-decimal_digits fuel (n / 10) (ground arith) in
      rw
        (
          e,
          parse_digits-append 0 (decimal_digits fuel (n / 10)) _
              (decimal_digits-IsDigit fuel (n / 10)),
          ih,
          parse_digits_single (n / 10) (n % 10) (omega arith),
        )
        (omega arith)
]

parse_int-digits : (s : Text) → All IsDigit s → s ≢ [] → parse_int s ≡ some (parse_digits 0 s)
unfolding parse_int
parse_int-digits [] h ne = absurd (ne refl)
parse_int-digits (c ∷ s) h ne = rw h.0

append_nonempty : (xs : Text) (x : ℕ) → xs ++ x ∷ [] ≢ []
append_nonempty [] x k = cc
append_nonempty (y ∷ ys) x k = cc

decimal_digits_nonempty : (fuel n : ℕ) → decimal_digits (suc fuel) n ≢ []
unfolding decimal_digits
decimal_digits_nonempty fuel n e = elim (Bool-cases (ltb n 10)) [
  | inl h ↦ cc (rw h at e)
  | inr h ↦ append_nonempty (decimal_digits fuel (n / 10)) _ (rw h at e)
]

pub decimal-IsDigit : (n : ℕ) → All IsDigit (decimal n)
unfolding decimal
decimal-IsDigit n = decimal_digits-IsDigit (suc n) n

pub decimal_nonempty : (n : ℕ) → decimal n ≢ []
unfolding decimal
decimal_nonempty n = decimal_digits_nonempty n n

-- `parseInt` reads back every printed number.
pub parse_int-decimal : (n : ℕ) → parse_int (decimal n) ≡ some n
unfolding decimal
parse_int-decimal n =
    parse_int-digits (decimal_digits (suc n) n) (decimal_digits-IsDigit (suc n) n)
      (decimal_digits_nonempty n n)
    ∙ ap some (parse_digits-decimal_digits (suc n) n (omega arith))
