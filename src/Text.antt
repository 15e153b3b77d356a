-- ===== src/Text.antt =====
-- Texts of the program as lists of UTF-16 code units, with what the source uses of JavaScript's
-- strings. Case mapping is that of the ASCII letters: addresses, protocols and country codes.
pub mod Laws
pub mod Numbers
pub mod Trim
pub mod Integers
use Prim.Native.Char.{code}
use Prim.Native.String
use proxy_redirector.Prelude.{
  ℕ, zero, suc, ◌+◌, ◌-◌, ◌*◌, ◌/◌, ◌%◌, Option, none, some, String, Bool, true, false, ◌&&◌, ◌||◌,
  List, [], ◌∷◌, ◌++◌, map, ltb, leb, ◌==◌, if◌then◌else◌,
}

abbrev pub Text : Type 0
Text = List ℕ

-- A literal of the source.
abbrev pub codes : String → Text
codes String.[] = []
codes (String.◌∷◌ c s) = code c ∷ codes s

-- `a === b`
abbrev pub text_eq : Text → Text → Bool
text_eq [] [] = true
text_eq [] (y ∷ ys) = false
text_eq (x ∷ xs) [] = false
text_eq (x ∷ xs) (y ∷ ys) = x == y && text_eq xs ys

-- `a < b`: by code units
abbrev pub text_lt : Text → Text → Bool
text_lt xs [] = false
text_lt [] (y ∷ ys) = true
text_lt (x ∷ xs) (y ∷ ys) = ltb x y || (x == y && text_lt xs ys)

abbrev pub is_empty : Text → Bool
is_empty [] = true
is_empty (x ∷ xs) = false

-- `a || b`: the empty text and a missing one are falsy.
abbrev pub or_text : Text → Text → Text
or_text a b = if is_empty a then b else a

-- `s.startsWith(p)`
abbrev pub starts_with : Text → Text → Bool
starts_with s [] = true
starts_with [] (c ∷ p) = false
starts_with (d ∷ s) (c ∷ p) = d == c && starts_with s p

-- `s.includes(p)`
abbrev pub includes : Text → Text → Bool
includes [] p = is_empty p
includes (c ∷ s) p = starts_with (c ∷ s) p || includes s p

lower_code : ℕ → ℕ
lower_code c = if leb b'A' c && leb c b'Z' then c + 32 else c

upper_code : ℕ → ℕ
upper_code c = if leb b'a' c && leb c b'z' then c - 32 else c

-- `s.toLowerCase()`
unfoldable pub to_lower : Text → Text
unfolding lower_code
to_lower = map lower_code

-- `s.toUpperCase()`
unfoldable pub to_upper : Text → Text
unfolding upper_code
to_upper = map upper_code

-- `s.replace(/c/g, by)`
unfoldable pub replace_all : ℕ → Text → Text → Text
replace_all c by [] = []
replace_all c by (x ∷ xs) =
    let rest = replace_all c by xs in if x == c then by ++ rest else x ∷ rest

-- `String(n)`; `suc n` rounds of fuel are enough for the digits of `n`.
decimal_digits : ℕ → ℕ → Text
decimal_digits zero n = []
decimal_digits (suc fuel) n =
    let rest = decimal_digits fuel (n / 10) in
    if ltb n 10 then (b'0' + n) ∷ [] else rest ++ (b'0' + n % 10) ∷ []

unfoldable pub decimal : ℕ → Text
unfolding decimal_digits
decimal n = decimal_digits (suc n) n

abbrev pub is_digit : ℕ → Bool
is_digit c = leb b'0' c && leb c b'9'

-- The digits at the beginning of a text, read in base ten behind `acc`.
unfoldable pub parse_digits : ℕ → Text → ℕ
parse_digits acc [] = acc
parse_digits acc (c ∷ s) =
    let more = parse_digits (acc * 10 + (c - b'0')) s in if is_digit c then more else acc

-- `parseInt(s, 10)` of a text that begins with a digit; `none` stands for the other texts, for
-- which the result is `NaN` or needs the skipping of spaces and signs.
unfoldable pub parse_int : Text → Option ℕ
parse_int [] = none
parse_int (c ∷ s) = if is_digit c then some (parse_digits 0 (c ∷ s)) else none
