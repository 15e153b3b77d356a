-- ===== src/Text/Integers.antt =====
-- Integers as JavaScript writes and reads them.
use mathlib.Core.Option
use proxy_redirector.Prelude.{
  ℕ, zero, suc, ◌≡◌, ◌≢◌, refl, Option, none, some, [], ◌∷◌, All, arith, ◌==◌, true, false, ◌||◌,
  if◌then◌else◌,
}
use proxy_redirector.Text.{Text, decimal, is_digit, parse_int}
use proxy_redirector.Text.Numbers.{IsDigit, decimal-IsDigit, decimal_nonempty, parse_int-decimal}

-- `negsuc n` is -(n + 1).
pub data ℤ : Type 0 where
  pos : ℕ → ℤ
  negsuc : ℕ → ℤ

abbrev pub negate : ℕ → ℤ
negate zero = pos 0
negate (suc n) = negsuc n

-- `String(z)`
unfoldable pub show_integer : ℤ → Text
show_integer (pos n) = decimal n
show_integer (negsuc n) = b'-' ∷ decimal (suc n)

-- `parseInt(s, 10)` of a text that does not begin with a space; `none` is `NaN`.
unfoldable pub parse_integer : Text → Option ℤ
parse_integer [] = none
parse_integer (c ∷ s) =
    if c == b'-'
    then Option.map negate (parse_int s)
    else if c == b'+'
    then Option.map pos (parse_int s)
    else Option.map pos (parse_int (c ∷ s))

parse_integer-digits :
    (s : Text) → All IsDigit s → s ≢ [] → parse_integer s ≡ Option.map pos (parse_int s)
unfolding parse_integer
parse_integer-digits [] h ne = absurd (ne refl)
parse_integer-digits (c ∷ s) h ne =
    let no_minus : (c == b'-') ≡ false = ground (arith, h.0) in
    let no_plus : (c == b'+') ≡ false = ground (arith, h.0) in rw (no_minus, no_plus) refl

-- `parseInt` reads back every written integer.
pub parse_integer-show_integer : (z : ℤ) → parse_integer (show_integer z) ≡ some z
unfolding show_integer parse_integer
parse_integer-show_integer (pos n) =
    rw
      (
        parse_integer-digits (decimal n) (decimal-IsDigit n) (decimal_nonempty n),
        parse_int-decimal n,
      )
      refl
parse_integer-show_integer (negsuc n) = rw (parse_int-decimal (suc n)) refl

-- A written integer has no character but digits and a minus.
abbrev pub IsDigitOrMinus : ℕ → Type 0
IsDigitOrMinus c = (c == b'-' || is_digit c) ≡ true

digits_only : (s : Text) → All IsDigit s → All IsDigitOrMinus s
digits_only [] h = tt
digits_only (c ∷ s) h = (ground (arith, h.0), digits_only s h.1)

pub show_integer-IsDigitOrMinus : (z : ℤ) → All IsDigitOrMinus (show_integer z)
unfolding show_integer
show_integer-IsDigitOrMinus (pos n) = digits_only (decimal n) (decimal-IsDigit n)
show_integer-IsDigitOrMinus (negsuc n) =
    (refl, digits_only (decimal (suc n)) (decimal-IsDigit (suc n)))
