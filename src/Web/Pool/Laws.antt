-- ===== src/Web/Pool/Laws.antt =====
-- What the selection and the deletion of proxies leave.
use proxy_redirector.Prelude.{
  ◌≡◌, refl, sym, ap, ap₂, ◌∙◌, Bool, true, false, ◌&&◌, not, List, [], ◌∷◌, filter, length, ltb,
  ◌==◌, All, arith, if◌then◌else◌,
}
use proxy_redirector.Text.{Text}
use proxy_redirector.Text.Laws.{text_eq_iff}
use proxy_redirector.Dashboard.Table.Selection.{Ids, has}
use proxy_redirector.Dashboard.Table.Selection.Laws.{IsDistinct}
use proxy_redirector.Web.Pool.{
  StaticProxy, Pool, passes, filtered_proxies, ids_of, toggle_select_all, delete_proxies,
  press_delete,
}

has-filter :
    (f : StaticProxy → Bool) (px : StaticProxy) (pxs : List StaticProxy)
    → has (ids_of pxs) px.id ≡ false
    → has (ids_of (filter f pxs)) px.id ≡ false
has-filter f px [] h = refl
has-filter f px (y ∷ ys) h = ground (arith, has-filter f px ys)

-- The ids that a test chooses, among some proxies, are those of the proxies that pass.
Chooses : (StaticProxy → Bool) → Ids → List StaticProxy → Type 0
Chooses f ids = All (λ px. has ids px.id ≡ f px)

Chooses-cons :
    (f : StaticProxy → Bool) (x : StaticProxy) (ids : Ids) (pxs : List StaticProxy)
    → has (ids_of pxs) x.id ≡ false
    → Chooses f ids pxs
    → Chooses f (x.id ∷ ids) pxs
unfolding Chooses
Chooses-cons f x ids [] new h = tt
Chooses-cons f x ids (y ∷ ys) new h = (
  ground (arith, h.0, text_eq_iff x.id y.id, text_eq_iff y.id x.id),
  Chooses-cons f x ids ys (ground arith) h.1,
)

filter-Chooses :
    (f : StaticProxy → Bool) (pxs : List StaticProxy)
    → IsDistinct (ids_of pxs)
    → Chooses f (ids_of (filter f pxs)) pxs
unfolding Chooses
filter-Chooses f [] d = tt
filter-Chooses f (x ∷ xs) d = by_test (f x) refl (filter-Chooses f xs d.1)
  where
    by_test :
        (b : Bool)
        → f x ≡ b
        → Chooses f (ids_of (filter f xs)) xs
        → Chooses f (ids_of (if b then x ∷ filter f xs else filter f xs)) (x ∷ xs)
    by_test true e rest =
        (ground (arith, text_eq_iff x.id x.id), Chooses-cons f x (ids_of (filter f xs)) xs d.0 rest)
    by_test false e rest = (has-filter f x xs d.0 ∙ sym e, rest)

delete-Chooses :
    (f : StaticProxy → Bool) (ids : Ids) (pxs : List StaticProxy)
    → Chooses f ids pxs
    → delete_proxies ids pxs ≡ filter (λ px. not (f px)) pxs
unfolding delete_proxies Chooses
delete-Chooses f ids [] h = refl
delete-Chooses f ids (x ∷ xs) h = ground (arith, h.0, delete-Chooses f ids xs h.1)

delete-nil : (pxs : List StaticProxy) → delete_proxies [] pxs ≡ pxs
unfolding delete_proxies
delete-nil [] = refl
delete-nil (x ∷ xs) = ap (x ∷◌) (delete-nil xs)

press_delete-proxies :
    (p : Pool) → (press_delete p).proxies ≡ delete_proxies p.selected_ids p.proxies
unfolding press_delete
press_delete-proxies p = by_ids p.selected_ids p
  where
    by_ids :
        (ids : Ids) (p : Pool)
        → (if ltb 0 (length ids)
            then record p { proxies = delete_proxies ids p.proxies; selected_ids = [] }
            else p).proxies
          ≡ delete_proxies ids p.proxies
    by_ids [] p = sym (delete-nil p.proxies)
    by_ids (id ∷ ids) p = ground arith

toggle_select_all-ids :
    (p : Pool)
    → p.selected_ids ≡ []
    → ((toggle_select_all p).selected_ids ≡ ids_of (filtered_proxies p))
      × ((toggle_select_all p).proxies ≡ p.proxies)
unfolding toggle_select_all
toggle_select_all-ids p h = by_shown (filtered_proxies p) p.selected_ids h
  where
    by_shown :
        (shown : List StaticProxy) (ids : Ids)
        → ids ≡ []
        → let p' : Pool =
            if length ids == length shown
            then record p { selected_ids = [] }
            else record p { selected_ids = ids_of shown } in
          (p'.selected_ids ≡ ids_of shown) × (p'.proxies ≡ p.proxies)
    by_shown [] ids h = ground arith
    by_shown (x ∷ xs) ids h = ground arith

-- If no proxy is selected and no two have the same id, then selecting all and deleting the selected
-- ones removes exactly the proxies that pass the filters, and keeps the order of the others.
pub select_all_delete :
    (p : Pool)
    → p.selected_ids ≡ []
    → IsDistinct (ids_of p.proxies)
    → (press_delete (toggle_select_all p)).proxies ≡ filter (λ px. not (passes p px)) p.proxies
unfolding filtered_proxies
select_all_delete p none_selected d =
    let (ids, same) = toggle_select_all-ids p none_selected in
    press_delete-proxies (toggle_select_all p)
    ∙ ap₂ delete_proxies ids same
    ∙ delete-Chooses (passes p) _ p.proxies (filter-Chooses (passes p) p.proxies d)

has-delete_proxies :
    (ids : Ids) (pxs : List StaticProxy) (id : Text)
    → has (ids_of (delete_proxies ids pxs)) id ≡ (not (has ids id) && has (ids_of pxs) id)
unfolding delete_proxies
has-delete_proxies ids [] id = ground arith
has-delete_proxies ids (x ∷ xs) id =
    ground (arith, has-delete_proxies ids xs id, text_eq_iff x.id id)

-- The button removes a proxy if and only if it is selected, also one that a filter hides by then.
pub has-press_delete :
    (p : Pool) (id : Text)
    → has (ids_of (press_delete p).proxies) id
      ≡ (not (has p.selected_ids id) && has (ids_of p.proxies) id)
has-press_delete p id =
    ap (λ pxs. has (ids_of pxs) id) (press_delete-proxies p)
    ∙ has-delete_proxies p.selected_ids p.proxies id
