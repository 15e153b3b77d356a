-- ===== src/Client/Flag/Laws.antt =====
-- The flag behind the screens always aims at the flag of the country, unless an image fails.
use proxy_redirector.Prelude.{
  ℕ, zero, suc, ◌+◌, ◌<◌, ◌≡◌, ◌⊎◌, refl, inl, inr, Bool, true, false, ◌||◌, Option, none, some,
  List, [], ◌∷◌, ◌++◌, arith, ltb, if◌then◌else◌, length, All, Bool-cases,
}
use proxy_redirector.Text.{Text, is_empty, text_eq}
use proxy_redirector.Text.Laws.{text_eq→eq, text_eq_refl}
use proxy_redirector.Client.Flag.{
  Load, Flag, has_no_flag, url_of, show_country, unmounted, mount, set_country, put_back, pull,
  on_load, Event, country_is, loaded, failed, fade_ends, step, run,
}

-- The image that belongs to the country, none for a country without a flag.
abbrev pub wanted : Flag → Text
wanted f = if has_no_flag f.country then [] else url_of f.country

-- The loads of an address, and those of others.
abbrev pub hits : Text → List Load → ℕ
hits u [] = 0
hits u (l ∷ ls) = (if text_eq u l.url then 1 else 0) + hits u ls

abbrev pub misses : Text → List Load → ℕ
misses u [] = 0
misses u (l ∷ ls) = (if text_eq u l.url then 0 else 1) + misses u ls

-- The flag that is shown is the one of the country, or that one is being loaded.
abbrev pub Aims : Flag → Type 0
Aims f =
    (f.current ≡ wanted f)
    ⊎ ((has_no_flag f.country ≡ false) × (0 < hits (url_of f.country) f.loading))

-- A flag is visible, or a timer will make it so.
abbrev pub IsVisible : Flag → Type 0
IsVisible f = (is_empty f.current || (f.show_current || ltb 0 f.fades)) ≡ true

pub record IsTracking (f : Flag) : Type 0 where
  pub aims : Aims f
  pub visible : IsVisible f

hits-append : (u : Text) (ls : List Load) (l : Load) → hits u (ls ++ l ∷ []) ≡ hits u (l ∷ ls)
hits-append u [] l = refl
hits-append u (m ∷ ls) l = omega (arith, hits-append u ls l)

pub misses-append :
    (u : Text) (ls : List Load) (l : Load) → misses u (ls ++ l ∷ []) ≡ misses u (l ∷ ls)
misses-append u [] l = refl
misses-append u (m ∷ ls) l = omega (arith, misses-append u ls l)

-- What is pulled out of a list is counted with the rest.
pub record IsPulled (u : Text) (l : Load) (rest ls : List Load) : Type 0 where
  pub lengths : length ls ≡ suc (length rest)
  pub hit : hits u ls ≡ hits u (l ∷ rest)
  pub missed : misses u ls ≡ misses u (l ∷ rest)

pub pull-IsPulled :
    (u : Text) (i : ℕ) (ls rest : List Load) (l : Load)
    → pull i ls ≡ some (l, rest)
    → IsPulled u l rest ls
pull-IsPulled u i [] rest l h = cc
pull-IsPulled u zero (m ∷ ls) rest l h = ground arith
pull-IsPulled u (suc i) (m ∷ ls) rest l h = by_rest (pull i ls) (pull-IsPulled u i ls) h
  where
    by_rest :
        (o : Option (Load × List Load))
        → ((ms : List Load) (k : Load) → o ≡ some (k, ms) → IsPulled u k ms ls)
        → put_back m o ≡ some (l, rest)
        → IsPulled u l rest (m ∷ ls)
    by_rest none ih e = cc
    by_rest (some (k, ms)) ih e = ground (arith, ih ms k)

-- The effect makes any state aim at the flag of its country.
show_country-Aims : (f : Flag) → Aims (show_country f)
unfolding show_country
show_country-Aims f = elim (Bool-cases (has_no_flag f.country)) [
  | inl none_known ↦ ground arith
  | inr known ↦
      let new : Load = record { url = url_of f.country; kept = f.current } in
      ground (
        arith,
        text_eq→eq (url_of f.country) f.current,
        text_eq_refl (url_of f.country),
        hits-append (url_of f.country) f.loading new,
      )
]

show_country-IsVisible : (f : Flag) → IsVisible f → IsVisible (show_country f)
unfolding show_country
show_country-IsVisible f v = ground arith

show_country-IsTracking : (f : Flag) → IsVisible f → IsTracking (show_country f)
show_country-IsTracking f v = record {
  aims = show_country-Aims f;
  visible = show_country-IsVisible f v;
}

set_country-IsTracking : (c : Text) (f : Flag) → IsTracking f → IsTracking (set_country c f)
unfolding set_country
set_country-IsTracking c f t = elim (Bool-cases (text_eq c f.country)) [
  | inl same ↦ rw same t
  | inr other ↦ rw other (show_country-IsTracking (record f { country = c }) t.visible)
]

on_load-IsTracking :
    (l : Load) (rest : List Load) (f : Flag)
    → IsPulled (url_of f.country) l rest f.loading
    → IsTracking f
    → IsTracking (on_load l rest f)
unfolding on_load
on_load-IsTracking l rest f p t = elim (Bool-cases (text_eq l.url f.current)) [
  | inl same ↦ rw same (record {
    aims =
        ground
          (arith, text_eq→eq l.url f.current, text_eq→eq (url_of f.country) l.url, t.aims, p.hit);
    visible = ground (arith);
  })
  | inr new ↦ rw new (
      show_country-IsTracking
        (record f {
          current = l.url;
          previous = l.kept;
          show_current = false;
          loading = rest;
          fades = f.fades + 1;
        })
        (ground (arith)))
]

-- No image can not be loaded.
abbrev pub is_failure : Event → Bool
is_failure (failed i) = true
is_failure _ = false

abbrev pub NoFailure : List Event → Type 0
NoFailure = All (λ e. is_failure e ≡ false)

pub step-IsTracking :
    (e : Event) (f : Flag) → is_failure e ≡ false → IsTracking f → IsTracking (step e f)
unfolding step
step-IsTracking (country_is c) f k t = set_country-IsTracking c f t
step-IsTracking (loaded i) f k t = by_pull (pull i f.loading) refl
  where
    by_pull :
        (o : Option (Load × List Load))
        → pull i f.loading ≡ o
        → IsTracking (elim o [ none ↦ f | some (l, rest) ↦ on_load l rest f ])
    by_pull none e = t
    by_pull (some (l, rest)) e =
        on_load-IsTracking l rest f (pull-IsPulled (url_of f.country) i f.loading rest l e) t
step-IsTracking (failed i) f k t = cc
step-IsTracking fade_ends f k t = ground (arith, t.aims, t.visible)

pub run-IsTracking :
    (es : List Event) (f : Flag) → NoFailure es → IsTracking f → IsTracking (run es f)
unfolding run
run-IsTracking [] f k t = t
run-IsTracking (e ∷ es) f k t = run-IsTracking es (step e f) k.1 (step-IsTracking e f k.0 t)

pub mount-IsTracking : (c : Text) → IsTracking (mount c)
unfolding mount
mount-IsTracking c = show_country-IsTracking (unmounted c) refl
