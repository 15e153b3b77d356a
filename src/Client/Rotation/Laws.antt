-- ===== src/Client/Rotation/Laws.antt =====
-- The filter of kinds is always "all" or a choice of names, and the engine's echo keeps the filters.
use proxy_redirector.Prelude.{
  ◌≡◌, ◌≢◌, ◌⊎◌, ◌<◌, refl, true, false, ◌&&◌, not, Option, none, some, List, [], ◌∷◌, arith,
  or_number, Bool-cases, inl, inr, if◌then◌else◌,
}
use proxy_redirector.Text.{Text, text_eq}
use proxy_redirector.Text.Laws.{text_eq_iff}
use proxy_redirector.Dashboard.Table.Selection.{has}
use proxy_redirector.Dashboard.Table.Selection.Laws.{has-append}
use proxy_redirector.Client.Rotation.{
  all_types, without_type, or_all, toggle_type, Filters, RotationStatus, Rotation, read_filters,
  load_initial, poll_status, toggle_rotation, save_config, echo,
}

has-without_type :
    (t : Text) (ts : List Text) (j : Text)
    → has (without_type t ts) j ≡ (not (text_eq t j) && has ts j)
has-without_type t [] j = ground arith
has-without_type t (x ∷ ts) j =
    ground (arith, has-without_type t ts j, text_eq_iff x t, text_eq_iff x j, text_eq_iff t j)

-- "all" stands alone, or names stand without it; something is chosen.
pub record IsChoice (types : List Text) : Type 0 where
  pub not_empty : types ≢ []
  pub alone : (has types all_types ≡ false) ⊎ (types ≡ all_types ∷ [])

or_all-IsChoice : (ts : List Text) → has ts all_types ≡ false → IsChoice (or_all ts)
or_all-IsChoice [] h = record { not_empty = λ e. cc; alone = inr refl }
or_all-IsChoice (t ∷ ts) h = record { not_empty = λ e. cc; alone = inl h }

-- Whatever was chosen, after a press on the box of a kind either "all" is the only choice, or names
-- are chosen, at least one, and "all" is not.
pub toggle_type-IsChoice : (t : Text) (types : List Text) → IsChoice (toggle_type t types)
unfolding toggle_type
toggle_type-IsChoice t types =
    let named = without_type all_types types in
    elim (Bool-cases (text_eq t all_types)) [
      | inl e ↦ rw e (record { not_empty = λ f. cc; alone = inr refl })
      | inr e ↦ rw e (
          or_all-IsChoice _ (elim (Bool-cases (has named t)) [
            | inl k ↦ rw k (
                ground (
                  arith,
                  has-without_type t named all_types,
                  has-without_type all_types types all_types,
                ))
            | inr k ↦ rw k (
                ground (
                  arith,
                  has-append named (t ∷ []) all_types,
                  has-without_type all_types types all_types,
                ))
          ]))
    ]

has-or_all :
    (ts : List Text) (j : Text) → text_eq all_types j ≡ false → has (or_all ts) j ≡ has ts j
has-or_all [] j ne = ground arith
has-or_all (t ∷ ts) j ne = refl

-- A press on the box of a named kind changes whether that kind is chosen, and for no other name.
pub has-toggle_type :
    (t : Text) (types : List Text) (j : Text)
    → text_eq t all_types ≡ false
    → text_eq all_types j ≡ false
    → has (toggle_type t types) j ≡ (if text_eq t j then not (has types t) else has types j)
unfolding toggle_type
has-toggle_type t types j named other =
    let left = without_type all_types types in
    let there = has-without_type all_types types t in
    let here = has-without_type all_types types j in
    rw (named, has-or_all _ j other)
      (elim (Bool-cases (has left t)) [
        | inl k ↦ rw k (
            ground (
              arith,
              has-without_type t left j,
              there,
              here,
              text_eq_iff t j,
              text_eq_iff all_types t,
              text_eq_iff t all_types,
            ))
        | inr k ↦ rw k (
            ground (
              arith,
              has-append left (t ∷ []) j,
              there,
              here,
              text_eq_iff t j,
              text_eq_iff all_types t,
              text_eq_iff t all_types,
            ))
      ])

read_filters-id : (f : Filters) → f.types ≢ [] → 0 < f.interval_sec → read_filters f ≡ f
unfolding read_filters
read_filters-id f some_type pos = by_types f.types refl
  where
    by_types :
        (ts : List Text)
        → f.types ≡ ts
        → record f { types = or_all f.types; interval_sec = or_number f.interval_sec 60 } ≡ f
    by_types [] e = absurd (some_type e)
    by_types (t ∷ ts) e = ground (arith, e)

-- Enabling the rotation, with a kind chosen and a positive interval, calls the engine with the
-- filters of the screen, and an engine that then reports these filters leaves them as they are.
pub toggle_rotation-echo :
    (r : Rotation)
    → r.enabled ≡ false
    → r.filters.types ≢ []
    → 0 < r.filters.interval_sec
    → let r' = toggle_rotation true (some (echo r.filters)) r in
      (r'.enabled ≡ true) × (r'.filters ≡ r.filters) × (r'.calls ≡ r.filters ∷ r.calls)
unfolding toggle_rotation load_initial
toggle_rotation-echo r off types pos = ground (arith, read_filters-id r.filters types pos)

-- A status of the interval never changes the filters, whatever it says; nor does any answer of an
-- engine that does not rotate.
pub poll_keeps_filters :
    (reply : Option RotationStatus) (f : Filters) (r : Rotation)
    → ((poll_status reply r).filters ≡ r.filters)
      × ((load_initial (some (record { enabled = false; filters = f })) r).filters ≡ r.filters)
unfolding poll_status load_initial
poll_keeps_filters none f r = (refl, refl)
poll_keeps_filters (some st) f r = (refl, refl)

-- A call that fails leaves the state of the rotation and the filters as they were.
pub failed_call_keeps :
    (reply : Option RotationStatus) (r : Rotation)
    → ((toggle_rotation false reply r).enabled ≡ r.enabled)
      × ((toggle_rotation false reply r).filters ≡ r.filters)
      × ((save_config false reply r).enabled ≡ r.enabled)
      × ((save_config false reply r).filters ≡ r.filters)
unfolding toggle_rotation save_config
failed_call_keeps reply r = ground arith
