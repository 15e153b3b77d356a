-- ===== src/Dashboard/Table/State/Bounds.antt =====
-- The invariant of the table's variables, kept by every action.
use proxy_redirector.Prelude.{
  ◌≤◌, ◌<◌, ◌≡◌, refl, Bool, true, false, [], arith, ltb, length, Bool-cases, inl, inr,
}
use proxy_redirector.Text.{Text}
use proxy_redirector.Dashboard.Table.Order.Laws.{length-sorted_items}
use proxy_redirector.Dashboard.Table.Filter.{filter_proxies}
use proxy_redirector.Dashboard.Table.Page.{total_pages, prev_page, next_page}
use proxy_redirector.Dashboard.Table.Page.Laws.{window_bounds}
use proxy_redirector.Dashboard.Table.Selection.Laws.{
  IsDistinct, add-IsDistinct, add_all-IsDistinct, delete-IsDistinct,
}
use proxy_redirector.Dashboard.Table.State.{
  Table, update_batch_bar, render_page, render, filter_table, toggle_select_all,
  toggle_select_proxy, deselect_all, batch_deleted, prev_proxy_page, next_proxy_page, Action, load,
  enter, quick, header, prev, next, select_all, select, deselect, delete_selected, act, item_ids,
  load_proxies, enter_criteria, set_quick_filter, sort_table,
}

-- What holds of the filtered rows and of the selection, whatever is shown.
pub record IsCoherent (t : Table) : Type 0 where
  pub page_pos : 1 ≤ t.current_page
  pub filtered_eq : t.filtered ≡ filter_proxies t.criteria t.cached
  pub distinct : IsDistinct t.selected

-- The bar shows the number of selected proxies, and only where some are selected.
pub record IsBarValid (t : Table) : Type 0 where
  pub visible : t.bar.is_visible ≡ ltb 0 (length t.selected)
  pub count : 0 < length t.selected → t.bar.count ≡ length t.selected

pub record IsValid (t : Table) : Type 0 where
  pub coherent : IsCoherent t
  pub bar_valid : IsBarValid t
  pub page_fits : 0 < length t.filtered → t.current_page ≤ total_pages (length t.filtered)

update_batch_bar-IsBarValid : (t : Table) → IsBarValid (update_batch_bar t)
unfolding update_batch_bar
update_batch_bar-IsBarValid t = ground arith

render_page-IsValid : {t : Table} → IsCoherent t → IsValid (render_page t)
unfolding render_page update_batch_bar
render_page-IsValid {t} h =
    let n = length-sorted_items t.sorting.column t.sorting.direction t.filtered in
    let w = window_bounds t.current_page (length t.filtered) in
    record {
      coherent = record { page_pos = rw n w.0; filtered_eq = h.filtered_eq; distinct = h.distinct };
      bar_valid = ground arith;
      page_fits = λ _. rw n w.1;
    }

render-IsValid : {t : Table} → IsCoherent t → IsBarValid t → IsValid (render t)
unfolding render
render-IsValid {t} h b = elim (Bool-cases (ltb 0 (length t.filtered))) [
  | inl e ↦ rw e (render_page-IsValid h)
  | inr e ↦ rw e (record {
    coherent = record { page_pos = h.page_pos; filtered_eq = h.filtered_eq; distinct = h.distinct };
    bar_valid = record { visible = b.visible; count = b.count };
    page_fits = λ k. absurd (ground arith);
  })
]

module _ {t : Table} where
  update_batch_bar-IsCoherent : IsCoherent t → IsCoherent (update_batch_bar t)
  unfolding update_batch_bar
  update_batch_bar-IsCoherent h = record {
    page_pos = h.page_pos;
    filtered_eq = h.filtered_eq;
    distinct = h.distinct;
  }

  update-IsValid :
      IsCoherent t
      → (0 < length t.filtered → t.current_page ≤ total_pages (length t.filtered))
      → IsValid (update_batch_bar t)
  update-IsValid h fits = record {
    coherent = update_batch_bar-IsCoherent h;
    bar_valid = update_batch_bar-IsBarValid t;
    page_fits = unfold update_batch_bar in fits;
  }

  render_update-IsValid : IsCoherent t → IsValid (render (update_batch_bar t))
  render_update-IsValid h =
      render-IsValid (update_batch_bar-IsCoherent h) (update_batch_bar-IsBarValid t)

module _ {t : Table} where
  filter_table-IsValid :
      1 ≤ t.current_page → IsDistinct t.selected → IsBarValid t → IsValid (filter_table t)
  unfolding filter_table
  filter_table-IsValid h d b =
      render-IsValid (record { page_pos = h; filtered_eq = refl; distinct = d })
        (record { visible = b.visible; count = b.count })

  prev-IsValid : IsValid t → IsValid (prev_proxy_page t)
  unfolding prev_proxy_page
  prev-IsValid v = elim (Bool-cases (ltb 1 t.current_page)) [
    | inl e ↦ rw e (
        render-IsValid
          (record {
            page_pos = unfold prev_page in ground arith;
            filtered_eq = v.coherent.filtered_eq;
            distinct = v.coherent.distinct;
          })
          (record { visible = v.bar_valid.visible; count = v.bar_valid.count }))
    | inr e ↦ rw e v
  ]

  next-IsValid : IsValid t → IsValid (next_proxy_page t)
  unfolding next_proxy_page
  next-IsValid v =
      elim (Bool-cases (ltb t.current_page (next_page (length t.filtered) t.current_page))) [
        | inl e ↦ rw e (
            render-IsValid
              (record {
                page_pos = unfold next_page in ground (arith, v.coherent.page_pos);
                filtered_eq = v.coherent.filtered_eq;
                distinct = v.coherent.distinct;
              })
              (record { visible = v.bar_valid.visible; count = v.bar_valid.count }))
        | inr e ↦ rw e v
      ]

  select_all-IsValid : (checked : Bool) → IsValid t → IsValid (toggle_select_all checked t)
  unfolding toggle_select_all
  select_all-IsValid true v = render_update-IsValid (record {
    page_pos = v.coherent.page_pos;
    filtered_eq = v.coherent.filtered_eq;
    distinct = add_all-IsDistinct t.selected (item_ids t.filtered) v.coherent.distinct;
  })
  select_all-IsValid false v = render_update-IsValid (record {
    page_pos = v.coherent.page_pos;
    filtered_eq = v.coherent.filtered_eq;
    distinct = tt;
  })

  select-IsValid :
      (id : Text) (checked : Bool) → IsValid t → IsValid (toggle_select_proxy id checked t)
  unfolding toggle_select_proxy
  select-IsValid id true v =
      update-IsValid
        (record {
          page_pos = v.coherent.page_pos;
          filtered_eq = v.coherent.filtered_eq;
          distinct = add-IsDistinct t.selected id v.coherent.distinct;
        })
        v.page_fits
  select-IsValid id false v =
      update-IsValid
        (record {
          page_pos = v.coherent.page_pos;
          filtered_eq = v.coherent.filtered_eq;
          distinct = delete-IsDistinct t.selected id v.coherent.distinct;
        })
        v.page_fits

  no_selection-IsCoherent : IsValid t → IsCoherent (record t { selected = [] })
  no_selection-IsCoherent v = record {
    page_pos = v.coherent.page_pos;
    filtered_eq = v.coherent.filtered_eq;
    distinct = tt;
  }

-- Every action keeps the table valid: the page number lies between 1 and the number of pages, the
-- filtered items are those of the cached ones that match the criteria, no id is selected twice, and
-- the bar of batch actions shows the number of selected proxies exactly while some are selected.
pub act-IsValid : (a : Action) (t : Table) → IsValid t → IsValid (act a t)
unfolding act load_proxies enter_criteria set_quick_filter sort_table deselect_all batch_deleted
act-IsValid (load items) t v =
    filter_table-IsValid v.coherent.page_pos v.coherent.distinct
      (record { visible = v.bar_valid.visible; count = v.bar_valid.count })
act-IsValid (enter query country) t v =
    filter_table-IsValid v.coherent.page_pos v.coherent.distinct
      (record { visible = v.bar_valid.visible; count = v.bar_valid.count })
act-IsValid (quick q) t v =
    filter_table-IsValid v.coherent.page_pos v.coherent.distinct
      (record { visible = v.bar_valid.visible; count = v.bar_valid.count })
act-IsValid (header column) t v =
    filter_table-IsValid v.coherent.page_pos v.coherent.distinct
      (record { visible = v.bar_valid.visible; count = v.bar_valid.count })
act-IsValid prev t v = prev-IsValid v
act-IsValid next t v = next-IsValid v
act-IsValid (select_all checked) t v = select_all-IsValid checked v
act-IsValid (select id checked) t v = select-IsValid id checked v
act-IsValid deselect t v = render_update-IsValid (no_selection-IsCoherent v)
act-IsValid delete_selected t v = update-IsValid (no_selection-IsCoherent v) v.page_fits
