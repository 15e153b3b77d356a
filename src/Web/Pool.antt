-- ===== src/Web/Pool.antt =====
-- The list of proxies of `App` in saas/frontend/src/App.tsx, its filters, and the selection of
-- `ProxiesView` in saas/frontend/src/components/views/ProxiesView.tsx. Latencies are in tenths of a
-- millisecond, uptimes in hundredths of a percent. What the clock and the random numbers give is an
-- argument.
pub mod Laws
use proxy_redirector.Prelude.{
  ℕ, ◌+◌, ◌-◌, ◌*◌, Bool, true, false, ◌&&◌, ◌||◌, not, Option, none, some, List, [], ◌∷◌, ◌++◌,
  map, filter, length, ltb, leb, ◌==◌, if◌then◌else◌,
}
use proxy_redirector.Text.{Text, codes, text_eq, is_empty, includes, to_lower, to_upper, decimal}
use proxy_redirector.Text.Integers.{ℤ, pos}
use proxy_redirector.Dashboard.Table.Selection.{Ids, has}

pub record StaticProxy : Type 0 where
  pub id : Text
  pub ip : Text
  pub port : ℤ
  pub protocol : Text
  pub country_code : Text
  pub city : Text
  pub isp_name : Text
  pub fraud_score : ℕ
  pub last_latency : ℕ
  pub uptime : ℕ
  pub is_alive : Bool

-- `TestResult` is an entry of `testResults`; the newest stands first and hides the older ones.
pub record TestResult : Type 0 where
  pub proxy : Text
  pub latency : ℕ
  pub ok : Bool

-- `refresh_timers` and `test_timers` are the timers under way.
pub record Pool : Type 0 where
  pub proxies : List StaticProxy
  pub search_query : Text
  pub selected_protocol : Text
  pub selected_country : Text
  pub max_latency : ℕ
  pub lease_region : Text
  pub lease_protocol : Text
  pub lease_modal : Bool
  pub refreshing : Bool
  pub refresh_timers : ℕ
  pub selected_ids : Ids
  pub testing : Option Text
  pub test_timers : ℕ
  pub test_results : List TestResult

abbrev pub all_of : Text
all_of = codes "ALL"

-- The test of `filteredProxies`
unfoldable pub passes : Pool → StaticProxy → Bool
passes p px =
    (text_eq p.selected_protocol all_of || text_eq (to_upper px.protocol) p.selected_protocol)
    && ((text_eq p.selected_country all_of
          || text_eq (to_upper px.country_code) (to_upper p.selected_country))
        && (leb px.last_latency (10 * p.max_latency)
            && (is_empty p.search_query
                || (includes px.ip p.search_query
                    || (includes (to_lower px.country_code) (to_lower p.search_query)
                        || (includes (to_lower px.city) (to_lower p.search_query)
                            || includes (to_lower px.isp_name) (to_lower p.search_query)))))))

-- `filteredProxies`
unfoldable pub filtered_proxies : Pool → List StaticProxy
filtered_proxies p = filter (passes p) p.proxies

abbrev pub ids_of : List StaticProxy → Ids
ids_of = map (λ px. px.id)

-- `toggleSelectAll`
unfoldable pub toggle_select_all : Pool → Pool
unfolding filtered_proxies
toggle_select_all p =
    if length p.selected_ids == length (filtered_proxies p)
    then record p { selected_ids = [] }
    else record p { selected_ids = ids_of (filtered_proxies p) }

-- `toggleSelectOne`
unfoldable pub toggle_select_one : Text → Pool → Pool
toggle_select_one id p =
    if has p.selected_ids id
    then record p { selected_ids = filter (λ i. not (text_eq i id)) p.selected_ids }
    else record p { selected_ids = p.selected_ids ++ id ∷ [] }

-- `handleDeleteSelectedProxies`
unfoldable pub delete_proxies : Ids → List StaticProxy → List StaticProxy
delete_proxies ids = filter (λ px. not (has ids px.id))

-- The button that deletes the selected proxies; it is shown while some are selected.
unfoldable pub press_delete : Pool → Pool
unfolding delete_proxies
press_delete p =
    if ltb 0 (length p.selected_ids)
    then record p { proxies = delete_proxies p.selected_ids p.proxies; selected_ids = [] }
    else p

-- `handleBulkImportProxies`
unfoldable pub bulk_import : List StaticProxy → Pool → Pool
bulk_import imported p = record p { proxies = imported ++ p.proxies }

-- `newProxy` of `handleConfirmLease`
unfoldable pub leased_proxy : Text → Text → ℕ → ℕ → ℕ → StaticProxy
leased_proxy region protocol now host latency = record {
  id = codes "px_" ++ decimal now;
  ip = codes "198.51.100." ++ decimal (host + 50);
  port = if text_eq protocol (codes "socks5") then pos 1080 else pos 8080;
  protocol = protocol;
  country_code = region;
  city =
      if text_eq region (codes "US")
      then codes "Chicago"
      else if text_eq region (codes "DE")
      then codes "Munich"
      else if text_eq region (codes "SG")
      then codes "Singapore"
      else codes "London";
  isp_name = codes "Tier-1 Telecom Provider";
  fraud_score = 0;
  last_latency = latency;
  uptime = 10000;
  is_alive = true;
}

-- `handleConfirmLease`
unfoldable pub confirm_lease : ℕ → ℕ → ℕ → Pool → Pool
unfolding leased_proxy
confirm_lease now host latency p = record p {
  proxies = leased_proxy p.lease_region p.lease_protocol now host latency ∷ p.proxies;
  lease_modal = false;
}

-- `handleRefreshPool`, and the end of its timer
unfoldable pub refresh_pool : Pool → Pool
refresh_pool p = record p { refreshing = true; refresh_timers = p.refresh_timers + 1 }

unfoldable pub end_refresh : Pool → Pool
end_refresh p = record p { refreshing = false; refresh_timers = p.refresh_timers - 1 }

-- `handleTestProxy`, and the end of the timer of a proxy
unfoldable pub test_proxy : Text → Pool → Pool
test_proxy id p = record p { testing = some id; test_timers = p.test_timers + 1 }

unfoldable pub end_test : Text → ℕ → Pool → Pool
end_test id latency p = record p {
  testing = none;
  test_timers = p.test_timers - 1;
  test_results = record { proxy = id; latency = latency; ok = true } ∷ p.test_results;
}
