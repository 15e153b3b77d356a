-- ===== src/Web/Toasts.antt =====
-- The notification and the mark of a copied text of saas/frontend/src/App.tsx: `showToast` and
-- `copyText`. Each call starts a timer, and no call stops one. A timer is modelled as the time that is
-- left until it ends; timers end on time.
pub mod Laws
use proxy_redirector.Prelude.{
  ℕ, ◌-◌, ◌+◌, Bool, true, false, Option, none, some, List, [], ◌∷◌, ◌++◌, leb, if◌then◌else◌, any,
}
use proxy_redirector.Text.{Text}

pub record Notes : Type 0 where
  pub toast : Option Text
  pub toast_timers : List ℕ
  pub copied_id : Option Text
  pub copied_timers : List ℕ
  pub clipboard : Option Text

unfoldable pub show_toast : Text → Notes → Notes
show_toast message n = record n { toast = some message; toast_timers = 3200 ∷ n.toast_timers }

-- `said` is the translated `copySuccess`.
unfoldable pub copy_text : Text → Text → Text → Notes → Notes
unfolding show_toast
copy_text said copied id n = show_toast said (record n {
  clipboard = some copied;
  copied_id = some id;
  copied_timers = 2000 ∷ n.copied_timers;
})

-- The timers that have not ended some time later.
abbrev pub left : ℕ → List ℕ → List ℕ
left ms [] = []
left ms (t ∷ ts) = let rest = left ms ts in if leb t ms then rest else (t - ms) ∷ rest

-- `setToast(null)` and `setCopiedId(null)` where a timer has ended.
abbrev pub cleared : ℕ → List ℕ → Option Text → Option Text
cleared ms ts o = if any (λ t. leb t ms) ts then none else o

pub data Event : Type 0 where
  show : Text → Event
  copy : Text → Text → Text → Event
  wait : ℕ → Event

unfoldable pub step : Event → Notes → Notes
unfolding show_toast copy_text
step (show message) n = show_toast message n
step (copy said copied id) n = copy_text said copied id n
step (wait ms) n = record n {
  toast = cleared ms n.toast_timers n.toast;
  toast_timers = left ms n.toast_timers;
  copied_id = cleared ms n.copied_timers n.copied_id;
  copied_timers = left ms n.copied_timers;
}

unfoldable pub run : List Event → Notes → Notes
run [] n = n
run (e ∷ es) n = run es (step e n)

abbrev pub no_notes : Notes
no_notes = record {
  toast = none;
  toast_timers = [];
  copied_id = none;
  copied_timers = [];
  clipboard = none;
}
