-- ===== src/Dashboard/Dialogs.antt =====
-- The three dialogs of engine/static/app.js: the functions that open and close them, on the class
-- `active` of each, and the sidebar of small screens.
pub mod Laws
use proxy_redirector.Prelude.{
  Bool, true, false, not, ◌||◌, Option, none, some, List, [], ◌∷◌, filter, if◌then◌else◌,
}
use proxy_redirector.Text.{Text, codes, text_eq}
use proxy_redirector.Dashboard.Navigation.{Page}
use proxy_redirector.Dashboard.Actions.{Modal, bulk_import, add_proxy, bulk_adblock}

unfoldable pub id_of : Modal → Text
id_of bulk_import = codes "modal-bulk-import"
id_of add_proxy = codes "modal-add-proxy"
id_of bulk_adblock = codes "modal-bulk-adblock"

abbrev pub is_open : Text → List Text → Bool
is_open id [] = false
is_open id (m ∷ ms) = text_eq m id || is_open id ms

-- `openBulkImportModal`, `openAddProxyModal` and `openBulkAdBlockModal`: adding the class.
unfoldable pub open_modal : Modal → Page → Page
open_modal m p = record p {
  open_modals = if is_open (id_of m) p.open_modals then p.open_modals else id_of m ∷ p.open_modals;
}

abbrev pub without : Text → List Text → List Text
without id = filter (λ m. not (text_eq m id))

-- The functions that close one, with the id of the element that was clicked, where there is an event.
unfoldable pub close_modal : Modal → Option Text → Page → Page
close_modal m none p = record p { open_modals = without (id_of m) p.open_modals }
close_modal m (some target) p =
    if text_eq target (id_of m)
    then record p { open_modals = without (id_of m) p.open_modals }
    else p

-- `toggleMobileNav`: the class `open` of the sidebar, if there is one.
unfoldable pub toggle_mobile_nav : Option Bool → Option Bool
toggle_mobile_nav none = none
toggle_mobile_nav (some shown) = some (not shown)
