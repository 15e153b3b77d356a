-- ===== src/Dashboard/Toasts.antt =====
-- The notifications of engine/static/app.js: `showToast` and its two timers. A timer is modelled as
-- the time that is left until it ends; timers end on time.
pub mod Laws
use proxy_redirector.Prelude.{
  ℕ, ◌+◌, ◌-◌, Bool, true, false, Option, none, some, List, [], ◌∷◌, ◌++◌, ltb, if◌then◌else◌,
}
use proxy_redirector.Text.{Text, codes}
use proxy_redirector.Dashboard.Escape.{escape_html, text}
use proxy_redirector.Dashboard.Actions.{Kind, success, error, info}

pub data Icon : Type 0 where
  information check warning : Icon

unfoldable pub icon_of : Kind → Icon
icon_of info = information
icon_of success = check
icon_of error = warning

-- With the time that is left of `duration`, or of the 300 ms of fading out.
pub data Phase : Type 0 where
  visible fading : ℕ → Phase

-- An element of the container; `id` tells the elements apart.
pub record Toast : Type 0 where
  pub id : ℕ
  pub kind : Kind
  pub icon : Icon
  pub html : Text
  pub phase : Phase

-- `next_id` is the number of toasts that were made.
pub record Container : Type 0 where
  pub toasts : List Toast
  pub next_id : ℕ

abbrev pub default_duration : ℕ
default_duration = 3500

abbrev pub new_toast : ℕ → Text → Kind → ℕ → Toast
new_toast id message kind duration = record {
  id = id;
  kind = kind;
  icon = icon_of kind;
  html = escape_html (text message);
  phase = visible duration;
}

unfoldable pub show_toast : Text → Kind → ℕ → Container → Container
show_toast message kind duration c = record {
  toasts = c.toasts ++ new_toast c.next_id message kind duration ∷ [];
  next_id = c.next_id + 1;
}

-- The inner timer: the toast is removed when 300 ms have passed.
unfoldable pub fade : ℕ → ℕ → Toast → Option Toast
fade ms left t = if ltb ms left then some (record t { phase = fading (left - ms) }) else none

-- What is left of a toast some time later.
unfoldable pub pass_by : ℕ → Phase → Toast → Option Toast
unfolding fade
pass_by ms (visible left) t =
    if ltb ms left then some (record t { phase = visible (left - ms) }) else fade (ms - left) 300 t
pass_by ms (fading left) t = fade ms left t

abbrev pub keep : Option Toast → List Toast → List Toast
keep none ts = ts
keep (some t) ts = t ∷ ts

unfoldable pub pass_all : ℕ → List Toast → List Toast
unfolding pass_by
pass_all ms [] = []
pass_all ms (t ∷ ts) = keep (pass_by ms t.phase t) (pass_all ms ts)

pub data Event : Type 0 where
  show : Text → Kind → ℕ → Event
  wait : ℕ → Event

unfoldable pub step : Event → Container → Container
unfolding show_toast pass_all
step (show message kind duration) c = show_toast message kind duration c
step (wait ms) c = record c { toasts = pass_all ms c.toasts }

unfoldable pub run : List Event → Container → Container
run [] c = c
run (e ∷ es) c = run es (step e c)

abbrev pub no_container : Container
no_container = record { toasts = []; next_id = 0 }
