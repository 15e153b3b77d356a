-- ===== src/Client/Rotation.antt =====
-- `RotationScreen` and the checkboxes of `RotationFilters` in client/frontend/src: the local filters
-- and what the engine's answers do to them.
pub mod Laws
use proxy_redirector.Prelude.{
  ℕ, Bool, true, false, not, Option, none, some, List, [], ◌∷◌, ◌++◌, or_number, length, ltb,
  filter, if◌then◌else◌,
}
use proxy_redirector.Text.{Text, codes, text_eq}
use proxy_redirector.Dashboard.Table.Selection.{has}

-- A kind of proxy in the filter: "all" or the name of one.
abbrev pub all_types : Text
all_types = codes "all"

-- `x !== t`
abbrev pub without_type : Text → List Text → List Text
without_type t = filter (λ x. not (text_eq x t))

abbrev pub or_all : List Text → List Text
or_all [] = all_types ∷ []
or_all (t ∷ ts) = t ∷ ts

-- `toggleType`
unfoldable pub toggle_type : Text → List Text → List Text
toggle_type t types =
    let named = without_type all_types types in
    if text_eq t all_types
    then all_types ∷ []
    else or_all (if has named t then without_type t named else named ++ t ∷ [])

pub record Filters : Type 0 where
  pub types : List Text
  pub country : Text
  pub max_speed : ℕ
  pub ssl_only : Bool
  pub pool_size : ℕ
  pub interval_sec : ℕ

-- What `GetRotationStatus` answers, with the falsy value of its type for a missing field.
pub record RotationStatus : Type 0 where
  pub enabled : Bool
  pub filters : Filters

-- `calls` are the filters with which `EnableRotation` was called, the newest first.
pub record Rotation : Type 0 where
  pub enabled : Bool
  pub filters : Filters
  pub status : Option RotationStatus
  pub calls : List Filters

-- The setters of `loadInitial` for an engine that rotates.
unfoldable pub read_filters : Filters → Filters
read_filters f = record f { types = or_all f.types; interval_sec = or_number f.interval_sec 60 }

-- `loadInitial`; a call that fails, or answers nothing, is `none`.
unfoldable pub load_initial : Option RotationStatus → Rotation → Rotation
load_initial none r = r
load_initial (some st) r = record r {
  enabled = st.enabled;
  status = some st;
  filters = if st.enabled then read_filters st.filters else r.filters;
}

-- `pollStatus`
unfoldable pub poll_status : Option RotationStatus → Rotation → Rotation
poll_status none r = r
poll_status (some st) r = record r { enabled = st.enabled; status = some st }

-- `toggleRotation`: whether the call of the engine succeeds, and what `loadInitial` then gets.
unfoldable pub toggle_rotation : Bool → Option RotationStatus → Rotation → Rotation
toggle_rotation ok reply r =
    let called = if r.enabled then r else record r { calls = r.filters ∷ r.calls } in
    if ok then load_initial reply (record called { enabled = not r.enabled }) else called

-- `saveConfig`
unfoldable pub save_config : Bool → Option RotationStatus → Rotation → Rotation
save_config ok reply r =
    let called : Rotation = record r { calls = r.filters ∷ r.calls } in
    if r.enabled then (if ok then load_initial reply called else called) else r

-- A status of an engine that rotates by the given filters.
abbrev pub echo : Filters → RotationStatus
echo f = record { enabled = true; filters = f }
