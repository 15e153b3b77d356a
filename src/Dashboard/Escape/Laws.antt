-- ===== src/Dashboard/Escape/Laws.antt =====
-- What `escape_html` guarantees: no character of its output can close an attribute or open a tag,
-- and a reader of character references gets the text back.
use proxy_redirector.Prelude.{
  ℕ, ◌≡◌, ◌≢◌, refl, ap, ap₂, ◌∙◌, Option, none, some, [], ◌∷◌, ◌++◌, arith, ◌==◌, if◌then◌else◌,
  All, All-append,
}
use proxy_redirector.Text.{Text, codes, text_eq, replace_all}
use proxy_redirector.Text.Laws.{replace_all-append}
use proxy_redirector.Dashboard.Escape.{text, escape_text, escape_html}

-- The specification: one pass, one reference for each special character.
abbrev pub reference : ℕ → Text
reference c =
    if c == b'&'
    then codes "&amp;"
    else if c == b'<'
    then codes "&lt;"
    else if c == b'>'
    then codes "&gt;"
    else if c == b'"'
    then codes "&quot;"
    else if c == 39
    then codes "&#039;"
    else c ∷ []

abbrev pub references : Text → Text
references [] = []
references (c ∷ s) = reference c ++ references s

escape_text-append : (a b : Text) → escape_text (a ++ b) ≡ escape_text a ++ escape_text b
unfolding escape_text
escape_text-append a b = simp replace_all-append

escape_text_single : (c : ℕ) → escape_text (c ∷ []) ≡ reference c
unfolding escape_text replace_all
escape_text_single c = ground arith

escape_text-references : (s : Text) → escape_text s ≡ references s
escape_text-references [] = unfold escape_text replace_all in refl
escape_text-references (c ∷ s) =
    escape_text-append (c ∷ []) s ∙ ap₂ (◌++◌) (escape_text_single c) (escape_text-references s)

-- The five replacements in sequence are one pass that writes a reference for each special
-- character: no replacement touches what another one wrote.
pub escape_html-references : (s : Text) → escape_html (text s) ≡ references s
unfolding escape_html
escape_html-references s = escape_text-references s

-- What may stand in an attribute's value and in an element's text.
abbrev pub IsInert : ℕ → Type 0
IsInert c = (c ≢ b'<') × (c ≢ b'>') × (c ≢ b'"') × (c ≢ 39)

reference-IsInert : (c : ℕ) → All IsInert (reference c)
reference-IsInert c = ground arith

references-IsInert : (s : Text) → All IsInert (references s)
references-IsInert [] = tt
references-IsInert (c ∷ s) =
    All-append IsInert (reference c) (references s) (reference-IsInert c) (references-IsInert s)

-- The output for a text has no `<`, `>`, `"` and no `'`.
pub escape_html-IsInert : (s : Text) → All IsInert (escape_html (text s))
escape_html-IsInert s = rw escape_html-references (references-IsInert s)

-- A reader of the references: after `&` it collects a name up to `;`.
named : Text → Option ℕ
named n =
    if text_eq n (codes "amp")
    then some b'&'
    else if text_eq n (codes "lt")
    then some b'<'
    else if text_eq n (codes "gt")
    then some b'>'
    else if text_eq n (codes "quot")
    then some b'"'
    else if text_eq n (codes "#039")
    then some 39
    else none

flush : Text → Text
flush n = elim (named n) [ none ↦ b'&' ∷ n ++ b';' ∷ [] | some c ↦ c ∷ [] ]

read : Option Text → Text → Text
read none [] = []
read (some n) [] = b'&' ∷ n
read none (c ∷ s) =
    let here = read none s in let later = read (some []) s in if c == b'&' then later else c ∷ here
read (some n) (c ∷ s) =
    let done = read none s in
    let more = read (some (n ++ c ∷ [])) s in if c == b';' then flush n ++ done else more

pub unescape : Text → Text
unescape = read none

read-reference : (c : ℕ) (s : Text) → read none (reference c ++ s) ≡ c ∷ read none s
unfolding read flush named
read-reference c s = ground arith

unescape-references : (s : Text) → read none (references s) ≡ s
unescape-references [] = unfold read in refl
unescape-references (c ∷ s) = read-reference c (references s) ∙ ap (c ∷◌) (unescape-references s)

-- Reading the references gives the text back, quotes included.
pub unescape-escape_html : (s : Text) → unescape (escape_html (text s)) ≡ s
unfolding unescape
unescape-escape_html s = rw escape_html-references (unescape-references s)
