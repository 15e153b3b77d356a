-- ===== src/Dashboard/Table/State.antt =====
-- The variables of the proxy table in engine/static/app.js and every function that changes them.
pub mod Bounds
pub mod Select
use proxy_redirector.Prelude.{
  ℕ, Bool, true, false, ◌&&◌, List, [], map, ltb, leb, if◌then◌else◌, length,
}
use proxy_redirector.Text.{Text}
use proxy_redirector.Dashboard.Items.{Item, proxy_of, select_id}
use proxy_redirector.Dashboard.Table.Order.{Column, Sorting, sorted_items, click_header}
use proxy_redirector.Dashboard.Table.Filter.{Criteria, QuickFilter, filter_proxies}
use proxy_redirector.Dashboard.Table.Page.{Window, window, page_items, prev_page, next_page}
use proxy_redirector.Dashboard.Table.Selection.{Ids, add, delete, add_all}
use proxy_redirector.Dashboard.Table.Rows.{Row, rows}

-- The table's body: the message that nothing was found, or a window and its rows.
pub data Shown : Type 0 where
  no_proxies : Shown
  page : Window → List Row → Shown

-- The bar of batch actions and the checkbox in the header.
pub record BatchBar : Type 0 where
  pub is_visible : Bool
  pub count : ℕ
  pub master_checked : Bool

pub record Table : Type 0 where
  pub cached : List Item
  pub criteria : Criteria
  pub sorting : Sorting
  pub current_page : ℕ
  pub filtered : List Item
  pub selected : Ids
  pub shown : Shown
  pub bar : BatchBar

-- `updateBatchBar`: the count is written only where the bar is shown.
unfoldable pub update_batch_bar : Table → Table
update_batch_bar t =
    let size = length t.selected in
    record t {
      bar = record {
        is_visible = ltb 0 size;
        count = if ltb 0 size then size else t.bar.count;
        master_checked = ltb 0 (length t.filtered) && leb (length t.filtered) size;
      };
    }

-- `renderProxiesTable(activeFilteredProxies)` for a list that is not empty.
unfoldable pub render_page : Table → Table
render_page t =
    let sorted = sorted_items t.sorting.column t.sorting.direction t.filtered in
    let w = window t.current_page (length sorted) in
    update_batch_bar (record t {
      current_page = w.page;
      shown = page w (rows t.selected w.start_index (page_items t.current_page sorted));
    })

-- `renderProxiesTable(activeFilteredProxies)`: an empty list returns early.
unfoldable pub render : Table → Table
render t = if ltb 0 (length t.filtered) then render_page t else record t { shown = no_proxies }

-- `filterProxiesTable`, once `fetchProxies` has made the variable `cachedProxies`, which the script does
-- not declare: before, reading it raises.
unfoldable pub filter_table : Table → Table
filter_table t = render (record t { filtered = filter_proxies t.criteria t.cached })

-- `fetchProxies`, when the response is there
unfoldable pub load_proxies : List Item → Table → Table
load_proxies items t = filter_table (record t { cached = items })

-- A change of the query or of the country calls `filterProxiesTable`.
unfoldable pub enter_criteria : Text → Text → Table → Table
enter_criteria query country t =
    filter_table (record t { criteria = record t.criteria { query = query; country = country } })

unfoldable pub set_quick_filter : QuickFilter → Table → Table
set_quick_filter quick t =
    filter_table (record t { criteria = record t.criteria { quick = quick } })

unfoldable pub sort_table : Column → Table → Table
sort_table column t = filter_table (record t { sorting = click_header column t.sorting })

unfoldable pub prev_proxy_page : Table → Table
prev_proxy_page t =
    if ltb 1 t.current_page
    then render (record t { current_page = prev_page t.current_page })
    else t

-- `next_page` is `current_page` itself on the last page.
unfoldable pub next_proxy_page : Table → Table
next_proxy_page t =
    let next = next_page (length t.filtered) t.current_page in
    if ltb t.current_page next then render (record t { current_page = next }) else t

pub item_ids : List Item → List Text
unfolding proxy_of select_id
item_ids = map (λ item. select_id (proxy_of item))

unfoldable pub toggle_select_all : Bool → Table → Table
toggle_select_all checked t =
    let selected = if checked then add_all t.selected (item_ids t.filtered) else [] in
    render (update_batch_bar (record t { selected = selected }))

unfoldable pub toggle_select_proxy : Text → Bool → Table → Table
toggle_select_proxy id checked t =
    update_batch_bar
      (record t { selected = if checked then add t.selected id else delete t.selected id })

unfoldable pub deselect_all : Table → Table
deselect_all t = render (update_batch_bar (record t { selected = [] }))

-- What `batchDeleteSelected` does to the table when the server has deleted the selected proxies;
-- `fetchProxies` follows as a step of its own.
unfoldable pub batch_deleted : Table → Table
batch_deleted t = update_batch_bar (record t { selected = [] })

-- A user's action, or a response of the server.
pub data Action : Type 0 where
  load : List Item → Action
  enter : Text → Text → Action
  quick : QuickFilter → Action
  header : Column → Action
  prev next : Action
  select_all : Bool → Action
  select : Text → Bool → Action
  deselect delete_selected : Action

unfoldable pub act : Action → Table → Table
act (load items) t = load_proxies items t
act (enter query country) t = enter_criteria query country t
act (quick q) t = set_quick_filter q t
act (header column) t = sort_table column t
act prev t = prev_proxy_page t
act next t = next_proxy_page t
act (select_all checked) t = toggle_select_all checked t
act (select id checked) t = toggle_select_proxy id checked t
act deselect t = deselect_all t
act delete_selected t = batch_deleted t
