-- ===== src/Dashboard/Charts.antt =====
-- `renderAnalyticsCharts` of engine/static/app.js: the bars of the countries and of the latencies.
-- A percentage is counted in tenths, rounded as `toFixed(1)` rounds the exact quotient.
pub mod Laws
use proxy_redirector.Prelude.{
  ℕ, ◌+◌, ◌*◌, ◌/◌, Bool, List, [], ◌∷◌, ltb, or_number, if◌then◌else◌, take, map, sum,
}
use proxy_redirector.Prelude.Sorting.{sort}
use proxy_redirector.Text.{Text, codes}
use proxy_redirector.Dashboard.Escape.{escape_html, text}
use proxy_redirector.Dashboard.Analytics.{Counts, Buckets}

pub data Colour : Type 0 where
  green cyan orange red : Colour

pub record Bar : Type 0 where
  pub label : Text
  pub count : ℕ
  pub tenths : ℕ
  pub colour : Colour

-- `((count / total) * 100).toFixed(1)`
unfoldable pub percent_tenths : ℕ → ℕ → ℕ
percent_tenths count total = (2000 * count + total) / (2 * total)

-- `Object.values(counts).reduce((a, b) => a + b, 0) || 1`
abbrev pub total_of : List ℕ → ℕ
total_of counts = or_number (sum counts) 1

-- `b[1] - a[1]` is positive: `a` belongs after `b`.
unfoldable pub count_after : Text × ℕ → Text × ℕ → Bool
count_after (c, m) (d, n) = ltb m n

unfoldable pub sorted_countries : Counts → Counts
sorted_countries = sort count_after

abbrev pub counts_of : Counts → List ℕ
counts_of [] = []
counts_of ((c, n) ∷ rest) = n ∷ counts_of rest

abbrev pub country_bar : ℕ → Text × ℕ → Bar
country_bar total (name, count) = record {
  label = escape_html (text name);
  count = count;
  tenths = percent_tenths count total;
  colour = cyan;
}

-- The empty list stands for the hint that there is no data.
unfoldable pub country_bars : Counts → List Bar
country_bars countries =
    map (country_bar (total_of (counts_of countries))) (take 6 (sorted_countries countries))

abbrev pub latency_counts : Buckets → List ℕ
latency_counts b = b.below_500 ∷ b.upto_1500 ∷ b.upto_3000 ∷ b.above_3000 ∷ []

abbrev pub latency_bar : ℕ → Text → Colour → ℕ → Bar
latency_bar total range colour count = record {
  label = range;
  count = count;
  tenths = percent_tenths count total;
  colour = colour;
}

unfoldable pub latency_bars : Buckets → List Bar
latency_bars b =
    let total = total_of (latency_counts b) in
    latency_bar total (codes "<500ms") green b.below_500
    ∷ latency_bar total (codes "500-1500ms") cyan b.upto_1500
    ∷ latency_bar total (codes "1500-3000ms") orange b.upto_3000
    ∷ latency_bar total (codes ">3000ms") red b.above_3000
    ∷ []
