-- ===== src/Examples/Cloud.antt =====
-- The theorems on the web application, saas/frontend/src, with four proxies and a session.
use proxy_redirector.Prelude.{
  ◌+◌, ◌≡◌, ◌≢◌, refl, true, false, not, Option, none, some, List, [], ◌∷◌, map, filter, All, arith,
}
use proxy_redirector.Text.{Text, codes, includes, decimal, parse_int, parse_digits}
use proxy_redirector.Text.Trim.{split, trim}
use proxy_redirector.Text.Trim.Laws.{NoSpace}
use proxy_redirector.Text.Integers.{pos, parse_integer}
use proxy_redirector.Dashboard.Table.Selection.Laws.{IsDistinct}
use proxy_redirector.Web.Session.{Session, Account, unreachable, refused, success, overview, admin}
use proxy_redirector.Web.Session.Machine.{
  submit, leave, auth_ends, profile_ends, nav, toast_timer, shows_admin, run,
}
use proxy_redirector.Web.Session.Laws.{IsStored, run-IsStored, offline_shows_admin}
use proxy_redirector.Web.Session.Logout.{leave_stays_out, late_profile_signs_in}
use proxy_redirector.Web.Pool.{
  StaticProxy, Pool, all_of, passes, ids_of, toggle_select_all, press_delete,
}
use proxy_redirector.Web.Pool.Laws.{select_all_delete}
use proxy_redirector.Web.Import.{ImportForm, imported, parse_and_import}
use proxy_redirector.Web.Import.Laws.{IsImported, parse_and_import-IsImported}
use proxy_redirector.Web.Export.{Encoders, Credentials, txt, export_proxies}
use proxy_redirector.Web.Export.RoundTrip.{IsPlain, address, parse_and_import-export_proxies}

abbrev session_at : Option Text → Option Account → List (Option Text) → Session
session_at token user calls = record {
  token = token;
  stored = token;
  user = user;
  stats = none;
  active_tab = overview;
  auth_modal = none;
  email = codes "admin@proxyredirector.io";
  password = codes "pw";
  name = codes "System Admin";
  error_msg = [];
  toast = none;
  toast_timers = 0;
  connecting = false;
  session_info = none;
  profile_calls = calls;
  stats_calls = [];
  auths = [];
  connects = 0;
  upgrades = [];
  sent = [];
}

abbrev ann : Account
ann = record {
  id = codes "u1";
  email = codes "ann@a.example";
  name = codes "Ann";
  role = codes "USER";
  subscriptions = [];
}

abbrev signed_in : List (Option Text) → Session
signed_in calls = session_at (some (codes "t1")) (some ann) calls

run-IsStored_example : IsStored (
    run
      (profile_ends 0 (refused []) ∷ submit ∷ auth_ends 0 unreachable ∷ [])
      (signed_in (some (codes "t1") ∷ [])))
run-IsStored_example =
    run-IsStored (profile_ends 0 (refused []) ∷ submit ∷ auth_ends 0 unreachable ∷ [])
      (signed_in (some (codes "t1") ∷ [])) (record { stored = refl })

offline_shows_admin_example :
    let s = session_at none none [] in
    let q = run (submit ∷ auth_ends 0 unreachable ∷ nav admin ∷ []) s in
    ((t : Text) × (q.token ≡ some t) × (q.stored ≡ some t) × (t ≢ []))
    × ((a : Account) × (q.user ≡ some a)
        × (s.email ≢ [] → a.email ≡ s.email)
        × (s.email ≡ [] → a.email ≡ codes "admin@proxyredirector.io"))
    × (shows_admin q ≡ includes s.email (codes "admin"))
offline_shows_admin_example = offline_shows_admin (session_at none none [])

leave_stays_out_example :
    let s' = run (leave ∷ nav admin ∷ toast_timer ∷ []) (signed_in []) in
    (s'.user ≡ none) × (s'.token ≡ none) × (s'.stored ≡ none)
leave_stays_out_example =
    leave_stays_out (nav admin ∷ toast_timer ∷ []) (signed_in []) refl refl refl (refl, (refl, tt))

late_profile_signs_in_example :
    let s' = run (leave ∷ profile_ends 0 (success ann) ∷ []) (signed_in (some (codes "t1") ∷ [])) in
    (s'.user ≡ some ann) × (s'.token ≡ none) × (s'.stored ≡ none)
late_profile_signs_in_example =
    late_profile_signs_in (signed_in (some (codes "t1") ∷ [])) (some (codes "t1")) [] ann refl

abbrev proxy_at : Text → Text → Text → StaticProxy
proxy_at id ip country = record {
  id = id;
  ip = ip;
  port = pos 1080;
  protocol = codes "socks5";
  country_code = country;
  city = codes "New York";
  isp_name = codes "AT&T Business Services";
  fraud_score = 0;
  last_latency = 242;
  uptime = 9999;
  is_alive = true;
}

abbrev first : StaticProxy
first = proxy_at (codes "px_1") (codes "198.51.100.10") (codes "US")

abbrev second : StaticProxy
second = proxy_at (codes "px_2") (codes "198.51.100.20") (codes "DE")

abbrev pool : Pool
pool = record {
  proxies = first ∷ second ∷ [];
  search_query = [];
  selected_protocol = all_of;
  selected_country = codes "DE";
  max_latency = 100;
  lease_region = codes "US";
  lease_protocol = codes "socks5";
  lease_modal = false;
  refreshing = false;
  refresh_timers = 0;
  selected_ids = [];
  testing = none;
  test_timers = 0;
  test_results = [];
}

select_all_delete_example :
    (press_delete (toggle_select_all pool)).proxies
    ≡ filter (λ px. not (passes pool px)) (first ∷ second ∷ [])
select_all_delete_example = select_all_delete pool refl (refl, (refl, tt))

abbrev form : ImportForm
form = record {
  raw_text = codes "192.0.2.7:3128";
  protocol = codes "http";
  default_country = codes "DE";
}

abbrev seven : StaticProxy
seven = record {
  id = codes "px_imported_5_0";
  ip = codes "192.0.2.7";
  port = pos 3128;
  protocol = codes "http";
  country_code = codes "DE";
  city = codes "Frankfurt";
  isp_name = codes "Bulk Imported Enterprise ISP";
  fraud_score = 0;
  last_latency = 160;
  uptime = 9999;
  is_alive = true;
}

seven_imported : parse_and_import form (λ i. 5 + i) (λ i. 160) ≡ imported (seven ∷ [])
unfolding parse_and_import split trim decimal parse_integer parse_int parse_digits
seven_imported = refl

parse_and_import-IsImported_example :
    All (IsImported form) (seven ∷ []) × IsDistinct (ids_of (seven ∷ []))
parse_and_import-IsImported_example =
    parse_and_import-IsImported form (λ i. 5 + i) (λ i. 160) (seven ∷ []) seven_imported

abbrev encoders : Encoders
encoders = record { btoa = λ s. s; encode_component = λ s. s; stringify = λ ps. [] }

abbrev credentials : Credentials
credentials = record { email = some (codes "ann@a.example"); token = some (codes "t1") }

credentials_user : NoSpace (codes "ann@a.example")
credentials_user = ground arith

credentials_pass : NoSpace (codes "t1")
credentials_pass = ground arith

first-IsPlain : IsPlain first
first-IsPlain = record { no_space = ground arith; no_colon = ground arith; port = λ e. cc }

second-IsPlain : IsPlain second
second-IsPlain = record { no_space = ground arith; no_colon = ground arith; port = λ e. cc }

abbrev exported : ImportForm
exported = record {
  raw_text = (export_proxies encoders credentials 5 txt (first ∷ second ∷ [])).content;
  protocol = codes "http";
  default_country = codes "GB";
}

parse_and_import-export_proxies_example :
    (pxs : List StaticProxy) × (parse_and_import exported (λ i. 6 + i) (λ i. 160 + i)
      ≡ imported pxs)
    × (map address pxs ≡ map address (first ∷ second ∷ []))
parse_and_import-export_proxies_example =
    parse_and_import-export_proxies credentials credentials_user credentials_pass encoders 5 first
      (second ∷ []) (codes "http") (codes "GB") (λ i. 6 + i) (λ i. 160 + i)
      (first-IsPlain, (second-IsPlain, tt))
