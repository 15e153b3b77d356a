-- ===== src/Dashboard/Countries.antt =====
-- The two lists of countries of engine/static/app.js: `fetchCountries`.
-- What a browser makes of the text of a list is not modelled.
pub mod Laws
use proxy_redirector.Prelude.{
  Bool, not, ◌&&◌, Option, none, some, List, [], ◌∷◌, ◌++◌, if◌then◌else◌,
}
use proxy_redirector.Text.{Text, codes, is_empty, text_eq}

-- The inner HTML of the two lists, where they are on the page.
pub record Selects : Type 0 where
  pub proxy_countries : Option Text
  pub config_countries : Option Text

-- How the request ends; of a list every entry is a text, empty where it is falsy.
pub data Reply : Type 0 where
  fails not_ok no_list : Reply
  listed : List Text → Reply

-- `c && c !== 'GLOBAL' && c !== 'Unknown'`
abbrev pub is_country : Text → Bool
is_country c =
    not (is_empty c) && (not (text_eq c (codes "GLOBAL")) && not (text_eq c (codes "Unknown")))

-- The entry is written as it is, without `escapeHtml`.
unfoldable pub option_html : Text → Text
option_html c = codes "<option value=\"" ++ (c ++ (codes "\">" ++ (c ++ codes "</option>")))

-- `if (sel) sel.innerHTML += …`
abbrev pub add_html : Text → Option Text → Option Text
add_html html none = none
add_html html (some old) = some (old ++ html)

unfoldable pub add_country : Text → Selects → Selects
unfolding option_html
add_country c s =
    if is_country c
    then record s {
      proxy_countries = add_html (option_html c) s.proxy_countries;
      config_countries = add_html (option_html c) s.config_countries;
    }
    else s

unfoldable pub add_countries : List Text → Selects → Selects
unfolding add_country
add_countries [] s = s
add_countries (c ∷ cs) s = add_countries cs (add_country c s)

unfoldable pub fetch_countries : Reply → Selects → Selects
unfolding add_countries
fetch_countries (listed cs) s = add_countries cs s
fetch_countries fails s = s
fetch_countries not_ok s = s
fetch_countries no_list s = s
