-- ===== src/Dashboard/Table/Order.antt =====
-- The comparator of `renderProxiesTable` and the click on a column's header (`sortProxiesTable`).
pub mod Laws
pub mod Columns
use proxy_redirector.Prelude.{
  ℕ, Bool, true, false, Option, none, some, List, or_number, ltb, if◌then◌else◌,
}
use proxy_redirector.Prelude.Sorting.{sort}
use proxy_redirector.Text.{Text, text_lt, to_lower}
use proxy_redirector.Dashboard.Items.{Item, proxy_of, status_of, endpoint, is_alive}

-- `other` stands for every name without a case in the `switch`.
pub data Column : Type 0 where
  endpoint_column type_column country_column alive_column latency_column : Column
  score_column fails_column other : Column

pub data Direction : Type 0 where
  asc desc : Direction

-- `valA` and `valB` are two texts or two numbers.
pub data Key : Type 0 where
  text : Text → Key
  number : ℕ → Key

abbrev pub key_lt : Key → Key → Bool
key_lt (text a) (text b) = text_lt a b
key_lt (number a) (number b) = ltb a b
key_lt (text a) (number b) = false
key_lt (number a) (text b) = false

unfoldable pub sort_key : Column → Item → Key
unfolding proxy_of status_of endpoint is_alive
sort_key endpoint_column item = text (endpoint (proxy_of item))
sort_key type_column item = text (to_lower (proxy_of item).type)
sort_key country_column item = text (to_lower (proxy_of item).country)
sort_key alive_column item = number (if is_alive item then 1 else 0)
sort_key latency_column item =
    number (or_number (status_of item).response_time_ms (or_number (proxy_of item).ping 99999))
sort_key score_column item = number (or_number item.score (or_number (status_of item).score 0))
sort_key fails_column item = number (or_number (status_of item).consecutive_failures 0)
sort_key other item = number 0

-- The comparator returns a positive number: `a` belongs after `b`.
unfoldable pub after : Column → Direction → Item → Item → Bool
after column asc a b =
    if key_lt (sort_key column a) (sort_key column b)
    then false
    else key_lt (sort_key column b) (sort_key column a)
after column desc a b = key_lt (sort_key column a) (sort_key column b)

-- `[...items]`, sorted where a column is chosen.
unfoldable pub sorted_items : Option Column → Direction → List Item → List Item
sorted_items none dir items = items
sorted_items (some column) dir items = sort (after column dir) items

abbrev pub flip : Direction → Direction
flip asc = desc
flip desc = asc

abbrev pub same_column : Column → Column → Bool
same_column endpoint_column endpoint_column = true
same_column type_column type_column = true
same_column country_column country_column = true
same_column alive_column alive_column = true
same_column latency_column latency_column = true
same_column score_column score_column = true
same_column fails_column fails_column = true
same_column other other = true
same_column _ _ = false

abbrev is_sorted_by : Option Column → Column → Bool
is_sorted_by none column = false
is_sorted_by (some chosen) column = same_column chosen column

pub record Sorting : Type 0 where
  pub column : Option Column
  pub direction : Direction

-- The change of `proxySortCol` and `proxySortDir` by a click on a header.
unfoldable pub click_header : Column → Sorting → Sorting
click_header column s =
    if is_sorted_by s.column column
    then record s { direction = flip s.direction }
    else record { column = some column; direction = asc }
