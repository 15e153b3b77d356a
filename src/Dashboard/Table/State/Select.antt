-- ===== src/Dashboard/Table/State/Select.antt =====
-- Selecting proxies: what the boxes of the rows, the box in the header and the bar show.
use proxy_redirector.Prelude.{
  ℕ, suc, ◌<◌, ◌≡◌, refl, sym, ◌∙◌, Bool, true, false, ◌&&◌, ◌||◌, if◌then◌else◌, List, [], ◌∷◌,
  arith, ltb, leb, length, length-map, All, All-take, All-drop, Bool-cases, inl, inr, Option, none,
  some,
}
use proxy_redirector.Prelude.Sorting.{All-sort}
use proxy_redirector.Text.{Text, text_eq}
use proxy_redirector.Text.Laws.{text_eq_iff, text_eq_refl}
use proxy_redirector.Dashboard.Escape.{text, escape_html}
use proxy_redirector.Dashboard.Items.{Item, proxy_of, select_id}
use proxy_redirector.Dashboard.Table.Order.{Column, Direction, sorted_items, after}
use proxy_redirector.Dashboard.Table.Page.{page_items}
use proxy_redirector.Dashboard.Table.Selection.{Ids, has, add, add_all}
use proxy_redirector.Dashboard.Table.Selection.Laws.{
  IsDistinct, has-add, has-delete, has-add_all, IsDistinct-length,
}
use proxy_redirector.Dashboard.Table.Rows.{Row, row, rows}
use proxy_redirector.Dashboard.Table.State.{
  Table, Shown, no_proxies, page, update_batch_bar, render_page, render, item_ids,
  toggle_select_all, toggle_select_proxy,
}

selected-update : (t : Table) → (update_batch_bar t).selected ≡ t.selected
unfolding update_batch_bar
selected-update t = refl

selected-render : (t : Table) → (render t).selected ≡ t.selected
unfolding render render_page update_batch_bar
selected-render t = ground arith

-- "Select all" selects, besides what was selected before, exactly the filtered proxies, on every
-- page; clearing the box deselects all proxies, the filtered ones and the others.
pub has-toggle_select_all :
    (checked : Bool) (t : Table) (id : Text)
    → has (toggle_select_all checked t).selected id
      ≡ ((checked && has t.selected id) || (checked && has (item_ids t.filtered) id))
unfolding toggle_select_all
has-toggle_select_all true t id =
    simp (selected-render, selected-update) (has-add_all t.selected (item_ids t.filtered) id)
has-toggle_select_all false t id = simp (selected-render, selected-update)

-- Ticking or clearing the box of one proxy changes the selection of that proxy and of no other.
pub has-toggle_select_proxy :
    (id : Text) (checked : Bool) (t : Table) (j : Text)
    → has (toggle_select_proxy id checked t).selected j
      ≡ (if text_eq id j then checked else has t.selected j)
unfolding toggle_select_proxy
has-toggle_select_proxy id true t j = simp selected-update (ground (arith, has-add t.selected id j))
has-toggle_select_proxy id false t j =
    simp selected-update (ground (arith, has-delete t.selected id j))

master-render :
    (t : Table)
    → 0 < length t.filtered
    → (render t).bar.master_checked ≡ leb (length t.filtered) (length t.selected)
unfolding render render_page update_batch_bar
master-render t h = ground arith

length-item_ids : (items : List Item) → length (item_ids items) ≡ length items
unfolding item_ids
length-item_ids items = length-map _ items

-- If the filtered proxies, at least one, have different ids, the box in the header is ticked after
-- "select all".
pub select_all-master :
    (t : Table)
    → 0 < length t.filtered
    → IsDistinct (item_ids t.filtered)
    → (toggle_select_all true t).bar.master_checked ≡ true
unfolding toggle_select_all update_batch_bar
select_all-master t h d =
    let ids = item_ids t.filtered in
    let enough =
      IsDistinct-length ids (add_all t.selected ids) d
        λ id k. ground (arith, has-add_all t.selected ids id) in
    master-render _ h ∙ ground (arith, enough, length-item_ids t.filtered)

-- The rows in the table's body.
abbrev pub shown_rows : Shown → List Row
shown_rows no_proxies = []
shown_rows (page w rs) = rs

-- The row of the item is drawn with a tick.
abbrev IsTicked : Ids → Item → Type 0
IsTicked ids item = has ids (escape_html (text (select_id (proxy_of item)))) ≡ true

rows-checked :
    (ids : Ids) (k : ℕ) (items : List Item)
    → All (IsTicked ids) items
    → All (λ (r : Row). r.is_checked ≡ true) (rows ids k items)
unfolding rows row
rows-checked ids k [] h = tt
rows-checked ids k (x ∷ xs) h = (h.0, rows-checked ids (suc k) xs h.1)

sorted_items-All :
    (P : Item → Type 0) (c : Option Column) (d : Direction) (items : List Item)
    → All P items
    → All P (sorted_items c d items)
unfolding sorted_items
sorted_items-All P none d items h = h
sorted_items-All P (some c) d items h = All-sort (after c d) P items h

page_items-All {ℓ} :
    {A : Type ℓ} (P : A → Type 0) (n : ℕ) (xs : List A) → All P xs → All P (page_items n xs)
unfolding page_items
page_items-All P n xs h = All-take P _ _ (All-drop P _ xs h)

render-checked :
    (t : Table)
    → All (IsTicked t.selected) t.filtered
    → All (λ (r : Row). r.is_checked ≡ true) (shown_rows (render t).shown)
unfolding render render_page update_batch_bar
render-checked t h = elim (Bool-cases (ltb 0 (length t.filtered))) [
  | inl e ↦
      rw e
        (rows-checked t.selected _ _ (page_items-All _ _ _ (sorted_items-All _ _ _ t.filtered h)))
  | inr e ↦ rw e tt
]

-- The id is written into the row as it is: it has no character that `escapeHtml` replaces.
abbrev pub IsPlain : Item → Type 0
IsPlain item = escape_html (text (select_id (proxy_of item))) ≡ select_id (proxy_of item)

plain-IsTicked :
    (ids : Ids) (items : List Item)
    → All IsPlain items
    → ((id : Text) → has (item_ids items) id ≡ true → has ids id ≡ true)
    → All (IsTicked ids) items
unfolding item_ids
plain-IsTicked ids [] h k = tt
plain-IsTicked ids (x ∷ xs) h k = (
  rw h.0 (k _ (ground (arith, text_eq_refl (select_id (proxy_of x))))),
  plain-IsTicked ids xs h.1 (λ id e. k id (ground arith)),
)

-- If every filtered proxy has an id without special characters, every row that is shown after
-- "select all" is drawn with a tick.
pub shown_ticked :
    (t : Table)
    → All IsPlain t.filtered
    → All (λ (r : Row). r.is_checked ≡ true) (shown_rows (toggle_select_all true t).shown)
unfolding toggle_select_all update_batch_bar
shown_ticked t h = render-checked _ (
    plain-IsTicked _ t.filtered h
      λ id k. ground (arith, has-add_all t.selected (item_ids t.filtered) id))

special_eq : (a b : Text) → ¬ (a ≡ b) → text_eq a b ≡ false
special_eq a b n = elim (Bool-cases (text_eq a b)) [
  | inl e ↦ absurd (n ((text_eq_iff a b).0 e))
  | inr e ↦ e
]

-- The box of a row whose id has a special character does not tick the row: with the proxy's own id
-- just selected, the row is drawn without a tick, unless its escaped id was selected by itself.
pub special_id_unchecked :
    (ids : Ids) (k : ℕ) (item : Item)
    → ¬ (IsPlain item)
    → has ids (escape_html (text (select_id (proxy_of item)))) ≡ false
    → (row (add ids (select_id (proxy_of item))) k item).is_checked ≡ false
unfolding row
special_id_unchecked ids k item special h =
    let id = select_id (proxy_of item) in
    let escaped = escape_html (text id) in
    has-add ids id escaped
    ∙ ground (arith, h, text_eq_iff id escaped, special_eq id escaped (λ e. special (sym e)))
