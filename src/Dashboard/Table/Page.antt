-- ===== src/Dashboard/Table/Page.antt =====
-- The window of `renderProxiesTable`, `prevProxyPage` and `nextProxyPage` of engine/static/app.js.
-- `Math.ceil(n / 25) || 1` and the two clamps are integer arithmetic.
pub mod Laws
use proxy_redirector.Prelude.{
  ℕ, ◌+◌, ◌-◌, ◌*◌, ◌/◌, min, Bool, List, ltb, leb, or_number, if◌then◌else◌, length, slice,
}

-- `proxyPageSize`
abbrev pub page_size : ℕ
page_size = 25

-- `Math.ceil(n / proxyPageSize) || 1`
unfoldable pub total_pages : ℕ → ℕ
total_pages n = or_number ((n + (page_size - 1)) / page_size) 1

-- The two `if`s that bring `proxyCurrentPage` into range.
unfoldable pub clamp_page : ℕ → ℕ → ℕ
clamp_page page total =
    let upper = if ltb total page then total else page in if ltb upper 1 then 1 else upper

-- What is shown besides the rows: `start_index + 1`-`end_index` of `total_items`, the page, and
-- whether the two buttons are disabled.
pub record Window : Type 0 where
  pub page : ℕ
  pub pages : ℕ
  pub start_index : ℕ
  pub end_index : ℕ
  pub total_items : ℕ
  pub prev_disabled : Bool
  pub next_disabled : Bool

unfoldable pub window : ℕ → ℕ → Window
unfolding total_pages clamp_page
window current total_items =
    let pages = total_pages total_items in
    let page = clamp_page current pages in
    let start_index = (page - 1) * page_size in
    record {
      page = page;
      pages = pages;
      start_index = start_index;
      end_index = min (start_index + page_size) total_items;
      total_items = total_items;
      prev_disabled = leb page 1;
      next_disabled = leb pages page;
    }

-- `sorted.slice(startIndex, endIndex)`
unfoldable pub page_items {ℓ} : {A : Type ℓ} → ℕ → List A → List A
page_items current sorted =
    let w = window current (length sorted) in slice w.start_index w.end_index sorted

-- The change of `proxyCurrentPage` by the two buttons.
unfoldable pub prev_page : ℕ → ℕ
prev_page page = if ltb 1 page then page - 1 else page

unfoldable pub next_page : ℕ → ℕ → ℕ
unfolding total_pages
next_page n page = if ltb page (total_pages n) then page + 1 else page
