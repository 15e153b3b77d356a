-- ===== src/Dashboard/Analytics.antt =====
-- `renderAnalyticsTable` of engine/static/app.js: the numbers that it gathers over the first 50
-- proxies by score, and the row that it writes for each.
pub mod Laws
use proxy_redirector.Prelude.{
  ℕ, suc, ◌+◌, ◌*◌, ◌/◌, Bool, List, [], ◌∷◌, ltb, leb, ◌==◌, or_number, if◌then◌else◌, take,
  length,
}
use proxy_redirector.Prelude.Sorting.{sort}
use proxy_redirector.Text.{Text, codes, or_text, text_eq}
use proxy_redirector.Dashboard.Items.{Item, proxy_of, status_of, score_of}

-- `latencyBuckets`
pub record Buckets : Type 0 where
  pub below_500 : ℕ
  pub upto_1500 : ℕ
  pub upto_3000 : ℕ
  pub above_3000 : ℕ

-- The object `countryCounts`, in the order in which its keys were added.
abbrev pub Counts : Type 0
Counts = List (Text × ℕ)

-- `countryCounts[c] = (countryCounts[c] || 0) + 1`
unfoldable pub count_country : Text → Counts → Counts
count_country c [] = (c, 1) ∷ []
count_country c ((d, n) ∷ rest) =
    if text_eq d c then (d, n + 1) ∷ rest else (d, n) ∷ count_country c rest

unfoldable pub count_latency : ℕ → Buckets → Buckets
count_latency ms b =
    if ltb ms 500
    then record b { below_500 = b.below_500 + 1 }
    else if leb ms 1500
    then record b { upto_1500 = b.upto_1500 + 1 }
    else if leb ms 3000
    then record b { upto_3000 = b.upto_3000 + 1 }
    else record b { above_3000 = b.above_3000 + 1 }

-- `successes / checks` where something was checked, the whole otherwise.
pub record Uptime : Type 0 where
  pub successes : ℕ
  pub checks : ℕ

abbrev pub uptime_of : ℕ → ℕ → Uptime
uptime_of checks successes =
    if ltb 0 checks
    then record { successes = successes; checks = checks }
    else record { successes = 1; checks = 1 }

-- `Math.round(uptimeVal)` for `uptimeVal = successes / checks * 100`
unfoldable pub rounded_percent : Uptime → ℕ
rounded_percent u = (200 * u.successes + u.checks) / (2 * u.checks)

-- The variables of the loop; the sum of the uptimes is kept as its terms.
pub record Summary : Type 0 where
  pub total_speed : ℕ
  pub speed_count : ℕ
  pub top_score : ℕ
  pub uptimes : List Uptime
  pub uptime_count : ℕ
  pub countries : Counts
  pub latencies : Buckets

abbrev pub no_summary : Summary
no_summary = record {
  total_speed = 0;
  speed_count = 0;
  top_score = 0;
  uptimes = [];
  uptime_count = 0;
  countries = [];
  latencies = record { below_500 = 0; upto_1500 = 0; upto_3000 = 0; above_3000 = 0 };
}

-- `if (s.response_time_ms > 0) { … }`
unfoldable pub add_speed : ℕ → Summary → Summary
add_speed ms m =
    if ltb 0 ms
    then record m {
      total_speed = m.total_speed + ms;
      speed_count = m.speed_count + 1;
      latencies = count_latency ms m.latencies;
    }
    else m

-- The body of the `forEach`.
unfoldable pub add_item : Item → Summary → Summary
add_item item m =
    let p = proxy_of item in
    let s = status_of item in
    let score = score_of item in
    let counted : Summary = record m {
      top_score = if ltb m.top_score score then score else m.top_score;
      countries = count_country (or_text p.country (codes "Unknown")) m.countries;
    } in
    let timed = add_speed s.response_time_ms counted in
    record timed {
      uptimes = uptime_of s.total_checks s.total_successes ∷ timed.uptimes;
      uptime_count = timed.uptime_count + 1;
    }

unfoldable pub add_items : List Item → Summary → Summary
add_items [] m = m
add_items (item ∷ items) m = add_items items (add_item item m)

-- `scoreB - scoreA` is positive: `a` belongs after `b`.
unfoldable pub score_after : Item → Item → Bool
score_after a b = ltb (score_of a) (score_of b)

unfoldable pub by_score : List Item → List Item
by_score = sort score_after

-- `sorted.slice(0, 50)`
unfoldable pub top_items : List Item → List Item
top_items items = take 50 (by_score items)

-- What is gathered for a list; for an empty one the code returns before the loop.
unfoldable pub summary : List Item → Summary
summary items = add_items (top_items items) no_summary

-- `Math.round(totalSpeed / speedCount)`, shown where at least one time was counted.
unfoldable pub average_speed : Summary → ℕ
average_speed m = (2 * m.total_speed + m.speed_count) / (2 * m.speed_count)
