-- ===== src/Client/Flag.antt =====
-- `FlagBackground` of client/frontend/src/components/FlagBackground.tsx: the flag of the country
-- behind the screens, which is shown when its image has been loaded.
pub mod Laws
pub mod Settles
use proxy_redirector.Prelude.{
  ℕ, zero, suc, ◌+◌, ◌-◌, ◌%◌, Bool, true, false, ◌||◌, Option, none, some, List, [], ◌∷◌, ◌++◌,
  ltb, if◌then◌else◌, length,
}
use proxy_redirector.Text.{Text, codes, is_empty, text_eq, to_lower}

-- An image that is being loaded, with the `currentSrc` that its `onload` has kept.
pub record Load : Type 0 where
  pub url : Text
  pub kept : Text

-- The property of the component, its state, the images that are being loaded, the oldest first, and
-- the number of timers of the cross-fade.
pub record Flag : Type 0 where
  pub country : Text
  pub current : Text
  pub previous : Text
  pub show_current : Bool
  pub loading : List Load
  pub fades : ℕ

-- `!countryCode || countryCode === 'Unknown' || countryCode === 'GLOBAL'`
unfoldable pub has_no_flag : Text → Bool
has_no_flag c = is_empty c || (text_eq c (codes "Unknown") || text_eq c (codes "GLOBAL"))

unfoldable pub url_of : Text → Text
url_of c = codes "https://flagcdn.com/w1280/" ++ (to_lower c ++ codes ".png")

-- The body of the effect. Where it clears `currentSrc` it runs again, and then does nothing.
unfoldable pub show_country : Flag → Flag
show_country f =
    if has_no_flag f.country
    then if is_empty f.current
      then f
      else record f { previous = f.current; current = []; show_current = false }
    else if text_eq (url_of f.country) f.current
    then f
    else record f {
      loading = f.loading ++ record { url = url_of f.country; kept = f.current } ∷ [];
    }

abbrev pub unmounted : Text → Flag
unmounted c = record {
  country = c;
  current = [];
  previous = [];
  show_current = true;
  loading = [];
  fades = 0;
}

-- The effect runs when the component is mounted.
unfoldable pub mount : Text → Flag
unfolding show_country
mount c = show_country (unmounted c)

-- The effect runs again when the property has changed.
unfoldable pub set_country : Text → Flag → Flag
unfolding show_country
set_country c f = if text_eq c f.country then f else show_country (record f { country = c })

abbrev pub put_back : Load → Option (Load × List Load) → Option (Load × List Load)
put_back l none = none
put_back l (some (m, ms)) = some (m, l ∷ ms)

-- The `i`th of the images that are being loaded, and the others.
abbrev pub pull : ℕ → List Load → Option (Load × List Load)
pull i [] = none
pull zero (l ∷ ls) = some (l, ls)
pull (suc i) (l ∷ ls) = put_back l (pull i ls)

-- `img.onload`; the effect runs again if `currentSrc` has changed.
unfoldable pub on_load : Load → List Load → Flag → Flag
unfolding show_country
on_load l rest f =
    let shown : Flag = record f {
      current = l.url;
      previous = l.kept;
      show_current = false;
      loading = rest;
      fades = f.fades + 1;
    } in
    if text_eq l.url f.current then shown else show_country shown

-- The component gets a country; an image is loaded, or can not be loaded; the timer of 50 ms ends.
pub data Event : Type 0 where
  country_is : Text → Event
  loaded failed : ℕ → Event
  fade_ends : Event

unfoldable pub step : Event → Flag → Flag
unfolding set_country on_load
step (country_is c) f = set_country c f
step (loaded i) f = elim (pull i f.loading) [ none ↦ f | some (l, rest) ↦ on_load l rest f ]
step (failed i) f = elim (pull i f.loading) [
  | none ↦ f
  | some (l, rest) ↦ record f { loading = rest }
]
step fade_ends f =
    if ltb 0 f.fades then record f { show_current = true; fades = f.fades - 1 } else f

unfoldable pub run : List Event → Flag → Flag
run [] f = f
run (e ∷ es) f = run es (step e f)
