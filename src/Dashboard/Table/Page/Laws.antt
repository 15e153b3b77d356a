-- ===== src/Dashboard/Table/Page/Laws.antt =====
-- The window lies within the list, and the pages cut the list without loss.
use proxy_redirector.Prelude.{
  ℕ, zero, suc, ◌+◌, ◌-◌, ◌*◌, ◌≤◌, ◌<◌, min, ◌≡◌, refl, ap₂, ◌∙◌, List, [], ◌++◌, arith, length,
  take, drop, take_all, take_add, take-min, length-drop,
}
use proxy_redirector.Dashboard.Table.Page.{
  page_size, total_pages, window, page_items, prev_page, next_page,
}

-- From any page number, the shown page is a page, the buttons are disabled exactly at the ends,
-- and the range of rows lies in the list and is not empty if the list is not.
pub window_bounds :
    (current n : ℕ)
    → (1 ≤ (window current n).page)
      × ((window current n).page ≤ total_pages n)
      × ((window current n).start_index ≤ (window current n).end_index)
      × ((window current n).end_index ≤ n)
      × ((window current n).end_index - (window current n).start_index ≤ page_size)
      × (min n 1 ≤ (window current n).end_index - (window current n).start_index)
unfolding window
window_bounds current n = ground arith

-- The last page ends at the last row.
total_pages_cover : (n : ℕ) → n ≤ total_pages n * page_size
unfolding total_pages
total_pages_cover n = ground arith

window_at :
    (k n : ℕ)
    → suc k ≤ total_pages n
    → ((window (suc k) n).start_index ≡ k * page_size)
      × ((window (suc k) n).end_index - (window (suc k) n).start_index
          ≡ min page_size (n - k * page_size))
unfolding window
window_at k n h = ground arith

-- A page from 1 on holds the 25 items at its place, fewer at the end.
page_items_lem {ℓ} :
    {A : Type ℓ} (k : ℕ) (xs : List A)
    → suc k ≤ total_pages (length xs)
    → page_items (suc k) xs ≡ take page_size (drop (k * page_size) xs)
unfolding page_items
page_items_lem k xs h =
    let (start, size) = window_at k (length xs) h in
    rw (size, start, ← length-drop) (take-min page_size (drop (k * page_size) xs))

-- The rows of the first `k` pages.
abbrev pub pages_upto {ℓ} : {A : Type ℓ} → ℕ → List A → List A
pages_upto zero xs = []
pages_upto (suc k) xs = pages_upto k xs ++ page_items (suc k) xs

pages_upto-take {ℓ} :
    {A : Type ℓ} (k : ℕ) (xs : List A)
    → k ≤ total_pages (length xs)
    → pages_upto k xs ≡ take (k * page_size) xs
pages_upto-take zero xs h = refl
pages_upto-take (suc k) xs h =
    let e : suc k * page_size ≡ k * page_size + page_size = omega arith in
    rw (e, take_add) (ap₂ (◌++◌) (pages_upto-take k xs (omega arith)) (page_items_lem k xs h))

-- The pages from the first to the last, put together, are the whole list: every row is on one
-- page, in its place.
pub pages_cover {ℓ} : {A : Type ℓ} (xs : List A) → pages_upto (total_pages (length xs)) xs ≡ xs
pages_cover xs =
    pages_upto-take (total_pages (length xs)) xs (omega arith)
    ∙ take_all _ xs (total_pages_cover (length xs))

-- From a page of the table before the last one, "next" leads to the following page, which is a
-- page of the table, "previous" leads back from it, and "next" then leads to it again.
pub page_buttons :
    (n page : ℕ)
    → 1 ≤ page
    → page < total_pages n
    → (next_page n page ≡ page + 1)
      × (next_page n page ≤ total_pages n)
      × (prev_page (next_page n page) ≡ page)
      × (next_page n (prev_page (page + 1)) ≡ page + 1)
unfolding prev_page next_page
page_buttons n page h k = ground arith
