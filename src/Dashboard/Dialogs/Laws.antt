-- ===== src/Dashboard/Dialogs/Laws.antt =====
-- Which dialogs a click leaves open.
use proxy_redirector.Prelude.{◌≡◌, refl, true, false, not, ◌&&◌, none, some, List, [], ◌∷◌, arith}
use proxy_redirector.Text.{Text, text_eq}
use proxy_redirector.Text.Laws.{text_eq_iff, text_eq_refl}
use proxy_redirector.Dashboard.Navigation.{Page}
use proxy_redirector.Dashboard.Actions.{Modal}
use proxy_redirector.Dashboard.Dialogs.{id_of, is_open, open_modal, without, close_modal}

is_open-without :
    (id m : Text) (ms : List Text)
    → is_open id (without m ms) ≡ (is_open id ms && not (text_eq id m))
is_open-without id m [] = refl
is_open-without id m (k ∷ ms) =
    ground (arith, text_eq_iff k m, text_eq_iff k id, text_eq_iff id m, is_open-without id m ms)

-- A dialog that was opened, and then closed by its button or by a click beside it, is closed, and a
-- click into it leaves it open; all others are left as they were.
pub open-close :
    (m : Modal) (inside id : Text) (p : Page)
    → text_eq inside (id_of m) ≡ false
    → text_eq id (id_of m) ≡ false
    → let opened = open_modal m p in
      let closed = close_modal m (some (id_of m)) opened in
      (is_open (id_of m) opened.open_modals ≡ true)
      × (close_modal m (some inside) opened ≡ opened)
      × (close_modal m none opened ≡ closed)
      × (is_open (id_of m) closed.open_modals ≡ false)
      × (is_open id closed.open_modals ≡ is_open id p.open_modals)
unfolding open_modal close_modal
open-close m inside id p into other =
    rw (into, text_eq_refl (id_of m))
      (ground (
        arith,
        text_eq_refl (id_of m),
        text_eq_iff id (id_of m),
        text_eq_iff (id_of m) id,
        is_open-without (id_of m) (id_of m) (open_modal m p).open_modals,
        is_open-without id (id_of m) (open_modal m p).open_modals,
      ))
