-- ===== src/Dashboard/Countries/Laws.antt =====
-- What the lists of countries hold after a request.
use proxy_redirector.Prelude.{
  ◌≡◌, refl, sym, ◌∙◌, ap, true, Option, none, some, List, [], ◌∷◌, ◌++◌, append_assoc, append-nil,
  if◌then◌else◌, Bool-cases, inl, inr,
}
use proxy_redirector.Text.{Text, codes, includes}
use proxy_redirector.Text.Laws.{includes-append, includes_behind}
use proxy_redirector.Dashboard.Countries.{
  Selects, listed, is_country, option_html, add_html, add_country, add_countries, fetch_countries,
}

-- The HTML of one entry, and of the countries of a list.
abbrev entry : Text → Text
entry c = if is_country c then option_html c else []

abbrev pub options : List Text → Text
options [] = []
options (c ∷ cs) = entry c ++ options cs

add_html_nothing : (o : Option Text) → o ≡ add_html [] o
add_html_nothing none = refl
add_html_nothing (some old) = ap some (sym (append-nil old))

add_html_twice : (a b : Text) (o : Option Text) → add_html b (add_html a o) ≡ add_html (a ++ b) o
add_html_twice a b none = refl
add_html_twice a b (some old) = ap some (append_assoc old a b)

-- Both lists get the HTML.
abbrev Adds : Text → Selects → Selects → Type 0
Adds html s s' =
    (s'.proxy_countries ≡ add_html html s.proxy_countries)
    × (s'.config_countries ≡ add_html html s.config_countries)

add_country-Adds : (c : Text) (s : Selects) → Adds (entry c) s (add_country c s)
unfolding add_country
add_country-Adds c s = elim (Bool-cases (is_country c)) [
  | inl e ↦ rw e (refl, refl)
  | inr e ↦ rw e (add_html_nothing s.proxy_countries, add_html_nothing s.config_countries)
]

-- Both lists get an option for every entry that is a country, in their order.
pub fetch_countries-options :
    (cs : List Text) (s : Selects)
    → let s' = fetch_countries (listed cs) s in
      (s'.proxy_countries ≡ add_html (options cs) s.proxy_countries)
      × (s'.config_countries ≡ add_html (options cs) s.config_countries)
unfolding fetch_countries add_countries
fetch_countries-options [] s =
    (add_html_nothing s.proxy_countries, add_html_nothing s.config_countries)
fetch_countries-options (c ∷ cs) s =
    let (p, q) = fetch_countries-options cs (add_country c s) in
    let (a, b) = add_country-Adds c s in
    (
      p ∙ ap (add_html (options cs)) a ∙ add_html_twice (entry c) (options cs) s.proxy_countries,
      q ∙ ap (add_html (options cs)) b ∙ add_html_twice (entry c) (options cs) s.config_countries,
    )

options-append : (xs ys : List Text) → options (xs ++ ys) ≡ options xs ++ options ys
options-append [] ys = refl
options-append (x ∷ xs) ys =
    ap (entry x ++◌) (options-append xs ys) ∙ sym (append_assoc (entry x) (options xs) (options ys))

option_html-includes : (a b d c : Text) → includes (a ++ (b ++ (option_html c ++ d))) c ≡ true
unfolding option_html
option_html-includes a b d c =
    let rest = codes "\">" ++ (c ++ codes "</option>") in
    let here : includes ((c ++ rest) ++ d) c ≡ true =
      rw (append_assoc c rest d) (includes-append [] c (rest ++ d)) in
    includes_behind a _ c
      (includes_behind b _ c (includes_behind (codes "<option value=\"") ((c ++ rest) ++ d) c here))

-- An entry of the engine's answer that is a country is written into the page's list of countries as
-- it is, whatever characters it has, the special ones of HTML among them.
pub unescaped_country :
    (xs ys : List Text) (c old : Text) (s : Selects)
    → is_country c ≡ true
    → s.proxy_countries ≡ some old
    → (html : Text) × ((fetch_countries (listed (xs ++ c ∷ ys)) s).proxy_countries ≡ some html)
      × (includes html c ≡ true)
unescaped_country xs ys c old s e there =
    let html = old ++ (options xs ++ (option_html c ++ options ys)) in
    let shape : options (xs ++ c ∷ ys) ≡ options xs ++ (option_html c ++ options ys) =
      options-append xs (c ∷ ys) ∙ rw e refl in
    (
      html,
      (fetch_countries-options (xs ++ c ∷ ys) s).0 ∙ rw (there, shape) refl,
      option_html-includes old (options xs) (options ys) c,
    )
