-- ===== src/Web/Panels/Laws.antt =====
-- What the smaller panels keep.
use proxy_redirector.Prelude.{◌≡◌, refl, ap₂, true, List, [], ◌∷◌, length, arith}
use proxy_redirector.Text.{Text}
use proxy_redirector.Web.Panels.{
  Notification, mark_all_read, unread_count, AdminUser, toggle_if, toggle_user_status, Profile,
  verify_2fa,
}

-- After "mark all as read" no notification counts as unread.
pub unread_count-mark_all_read : (ns : List Notification) → unread_count (mark_all_read ns) ≡ 0
unfolding unread_count mark_all_read
unread_count-mark_all_read [] = refl
unread_count-mark_all_read (n ∷ ns) = unread_count-mark_all_read ns

toggle_if_twice : (id : Text) (u : AdminUser) → toggle_if id (toggle_if id u) ≡ u
toggle_if_twice id u = ground arith

-- Changing the status of a user twice gives the list back.
pub toggle_user_status_twice :
    (id : Text) (us : List AdminUser) → toggle_user_status id (toggle_user_status id us) ≡ us
unfolding toggle_user_status
toggle_user_status_twice id [] = refl
toggle_user_status_twice id (u ∷ us) =
    ap₂ ◌∷◌ (toggle_if_twice id u) (toggle_user_status_twice id us)

-- Any text of six characters enables the second factor.
pub any_code_enables :
    (p : Profile) → length p.two_factor_code ≡ 6 → (verify_2fa p).is_2fa_enabled ≡ true
unfolding verify_2fa
any_code_enables p h = ground arith
