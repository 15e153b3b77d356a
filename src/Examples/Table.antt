-- ===== src/Examples/Table.antt =====
-- The theorems on the proxy table of engine/static/app.js, on a table of two proxies.
use proxy_redirector.Prelude.{refl, true, false, none, some, List, [], ◌∷◌, arith}
use mathlib.Core.List.{Perm}
use proxy_redirector.Text.{Text, codes}
use proxy_redirector.Dashboard.Items.{Item, Proxy, Status}
use proxy_redirector.Dashboard.Table.Order.{Sorting, sorted_items, score_column, desc}
use proxy_redirector.Dashboard.Table.Order.Columns.{AllInOrder, sorted_items-IsSorted}
use proxy_redirector.Dashboard.Table.Filter.{Criteria, other, filter_proxies}
use proxy_redirector.Dashboard.Table.State.{Table, no_proxies, act, load}
use proxy_redirector.Dashboard.Table.State.Bounds.{IsValid, act-IsValid}

abbrev proxy_named : Text → Proxy
proxy_named id = record {
  id = id;
  ip = codes "10.0.0.7";
  port = 1080;
  type = codes "SOCKS5";
  country = codes "de";
  ping = 120;
  alive = true;
}

abbrev status_scored : Status
status_scored = record {
  alive = true;
  response_time_ms = 640;
  ssl_verified = true;
  consecutive_failures = 0;
  total_checks = 4;
  total_successes = 3;
  score = 71;
  tags = [];
}

abbrev item_named : Text → Item
item_named id = record {
  proxy = some (proxy_named id);
  own = proxy_named id;
  status = some status_scored;
  score = 0;
}

abbrev two_items : List Item
two_items = item_named (codes "a1") ∷ item_named (codes "b2") ∷ []

abbrev criteria : Criteria
criteria = record { query = []; country = []; quick = other }

abbrev unsorted : Sorting
unsorted = record { column = none; direction = desc }

abbrev empty_table : Table
empty_table = record {
  cached = [];
  criteria = criteria;
  sorting = unsorted;
  current_page = 1;
  filtered = [];
  selected = [];
  shown = no_proxies;
  bar = record { is_visible = false; count = 0; master_checked = false };
}

empty_table-IsValid : IsValid empty_table
unfolding filter_proxies
empty_table-IsValid = record {
  coherent = record { page_pos = omega arith; filtered_eq = refl; distinct = tt };
  bar_valid = record { visible = refl; count = λ h. omega arith };
  page_fits = λ h. omega arith;
}

act-IsValid_example : IsValid (act (load two_items) empty_table)
act-IsValid_example = act-IsValid (load two_items) empty_table empty_table-IsValid

sorted_items-IsSorted_example :
    Perm (sorted_items (some score_column) desc two_items) two_items
    × AllInOrder score_column desc (sorted_items (some score_column) desc two_items)
sorted_items-IsSorted_example = sorted_items-IsSorted score_column desc two_items
