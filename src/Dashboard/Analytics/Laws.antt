-- ===== src/Dashboard/Analytics/Laws.antt =====
-- The sums of the analytics tab agree with the rows.
use proxy_redirector.Prelude.{
  ℕ, zero, suc, ◌+◌, ◌*◌, ◌/◌, ◌≤◌, ◌<◌, min, ◌≡◌, refl, ◌∙◌, false, List, [], ◌∷◌, arith, length,
  take, filter, length-take, All, if◌then◌else◌,
}
use proxy_redirector.Prelude.Sorting.{IsOrder, IsSorted, sort, sort-IsSorted, sort-All, length-sort}
use proxy_redirector.Text.{Text, codes, or_text, text_eq}
use proxy_redirector.Text.Laws.{text_eq_iff}
use proxy_redirector.Dashboard.Items.{Item, proxy_of, status_of, score_of}
use proxy_redirector.Dashboard.Analytics.{
  Counts, count_country, count_latency, Buckets, Summary, no_summary, add_speed, add_item,
  add_items, score_after, by_score, top_items, summary, rounded_percent, uptime_of,
}

abbrev pub bucket_sum : Buckets → ℕ
bucket_sum b = b.below_500 + b.upto_1500 + b.upto_3000 + b.above_3000

-- The count under a country, 0 where it has no key.
abbrev pub count_of : Text → Counts → ℕ
count_of c [] = 0
count_of c ((d, n) ∷ rest) = if text_eq d c then n else count_of c rest

abbrev pub count_sum : Counts → ℕ
count_sum [] = 0
count_sum ((d, n) ∷ rest) = n + count_sum rest

count_of-count_country :
    (c d : Text) (m : Counts)
    → count_of d (count_country c m) ≡ (if text_eq c d then count_of d m + 1 else count_of d m)
unfolding count_country
count_of-count_country c d [] = ground arith
count_of-count_country c d ((e, n) ∷ rest) =
    ground
      (arith, count_of-count_country c d rest, text_eq_iff e c, text_eq_iff e d, text_eq_iff c d)

count_sum-count_country : (c : Text) (m : Counts) → count_sum (count_country c m) ≡ count_sum m + 1
unfolding count_country
count_sum-count_country c [] = refl
count_sum-count_country c ((e, n) ∷ rest) = ground (arith, count_sum-count_country c rest)

bucket_sum-count_latency :
    (ms : ℕ) (b : Buckets) → bucket_sum (count_latency ms b) ≡ bucket_sum b + 1
unfolding count_latency
bucket_sum-count_latency ms b = ground arith

-- What the loop keeps in step.
pub record IsConsistent (m : Summary) : Type 0 where
  pub histogram : bucket_sum m.latencies ≡ m.speed_count
  pub countries : count_sum m.countries ≡ m.uptime_count
  pub uptimes : length m.uptimes ≡ m.uptime_count
  pub speeds : m.speed_count ≤ m.uptime_count
  pub total : m.speed_count ≤ m.total_speed

add_item-IsConsistent : (i : Item) (m : Summary) → IsConsistent m → IsConsistent (add_item i m)
unfolding add_item add_speed
add_item-IsConsistent i m h = ground (
  arith,
  bucket_sum-count_latency (status_of i).response_time_ms m.latencies,
  count_sum-count_country (or_text (proxy_of i).country (codes "Unknown")) m.countries,
)

add_items-IsConsistent :
    (is : List Item) (m : Summary) → IsConsistent m → IsConsistent (add_items is m)
unfolding add_items
add_items-IsConsistent [] m h = h
add_items-IsConsistent (i ∷ is) m h =
    add_items-IsConsistent is (add_item i m) (add_item-IsConsistent i m h)

uptime_count-add_items :
    (is : List Item) (m : Summary) → (add_items is m).uptime_count ≡ length is + m.uptime_count
unfolding add_items add_item add_speed
uptime_count-add_items [] m = omega arith
uptime_count-add_items (i ∷ is) m = ground (arith, uptime_count-add_items is (add_item i m))

-- For every list of proxies: the four buckets of the histogram add up to the number of timed
-- proxies, the counts of the countries to the number of rows, which is the length of the list but
-- at most 50; each row has an uptime; and as many proxies are timed as there are rows, or fewer.
pub summary-IsConsistent :
    (items : List Item)
    → IsConsistent (summary items) × ((summary items).uptime_count ≡ min 50 (length items))
unfolding summary
summary-IsConsistent items = (
  add_items-IsConsistent (top_items items) no_summary (record {
    histogram = refl;
    countries = refl;
    uptimes = refl;
    speeds = omega arith;
    total = omega arith;
  }),
  uptime_count-add_items (top_items items) no_summary
      ∙ unfold top_items by_score in
        omega (arith, length-take 50 (sort score_after items), length-sort score_after items),
)

abbrev pub country_of : Item → Text
country_of item = or_text (proxy_of item).country (codes "Unknown")

countries-add_item :
    (i : Item) (m : Summary) → (add_item i m).countries ≡ count_country (country_of i) m.countries
unfolding add_item add_speed
countries-add_item i m = ground arith

count_of-add_items :
    (c : Text) (is : List Item) (m : Summary)
    → count_of c (add_items is m).countries
      ≡ length (filter (λ i. text_eq (country_of i) c) is) + count_of c m.countries
unfolding add_items
count_of-add_items c [] m = omega arith
count_of-add_items c (i ∷ is) m = ground (
  arith,
  count_of-add_items c is (add_item i m),
  countries-add_item i m,
  count_of-count_country (country_of i) c m.countries,
)

-- The count shown for a country is the number of rows of that country.
pub count_of-summary :
    (c : Text) (items : List Item)
    → count_of c (summary items).countries
      ≡ length (filter (λ i. text_eq (country_of i) c) (top_items items))
unfolding summary
count_of-summary c items = omega (arith, count_of-add_items c (top_items items) no_summary)

score_after-IsOrder : IsOrder score_after
unfolding score_after
score_after-IsOrder = record { asymm = λ x y h. ground arith; trans = λ x y z h k. ground arith }

top_score-add_item :
    (i : Item) (m : Summary)
    → (m.top_score ≤ (add_item i m).top_score) × (score_of i ≤ (add_item i m).top_score)
unfolding add_item add_speed
top_score-add_item i m = ground arith

top_score-add_items : (is : List Item) (m : Summary) → m.top_score ≤ (add_items is m).top_score
unfolding add_items
top_score-add_items [] m = omega arith
top_score-add_items (i ∷ is) m =
    omega (arith, (top_score-add_item i m).0, top_score-add_items is (add_item i m))

All-bounded :
    (x : Item) (n : ℕ) (is : List Item)
    → All (λ y. score_after x y ≡ false) is
    → score_of x ≤ n
    → All (λ y. score_of y ≤ n) is
unfolding score_after
All-bounded x n [] h k = tt
All-bounded x n (y ∷ ys) h k = (ground (arith, h.0), All-bounded x n ys h.1 k)

sorted_top :
    (is : List Item)
    → IsSorted score_after is
    → All (λ i. score_of i ≤ (add_items (take 50 is) no_summary).top_score) is
sorted_top [] h = tt
sorted_top (x ∷ xs) h =
    let m = add_item x no_summary in
    let n : score_of x ≤ (add_items (take 50 (x ∷ xs)) no_summary).top_score =
      unfold add_items in
      omega (arith, (top_score-add_item x no_summary).1, top_score-add_items (take 49 xs) m) in
    (n, All-bounded x _ xs h.0 n)

-- The score shown as the top one is at least that of every proxy, also of those without a row.
pub summary-top_score :
    (items : List Item) → All (λ i. score_of i ≤ (summary items).top_score) items
unfolding summary top_items by_score
summary-top_score items =
    sort-All score_after _ items
      (sorted_top (sort score_after items) (sort-IsSorted score_after score_after-IsOrder items))

percent_bound : (s c : ℕ) → s ≤ c → 0 < c → (200 * s + c) / (2 * c) ≤ 100
percent_bound s c h k = grind arith

-- A proxy with no more successes than checks is shown with an uptime of at most 100 percent, and
-- one that was never checked with 100 percent.
pub rounded_percent-uptime_of :
    (checks successes : ℕ)
    → successes ≤ checks
    → (rounded_percent (uptime_of checks successes) ≤ 100)
      × (rounded_percent (uptime_of 0 successes) ≡ 100)
unfolding rounded_percent
rounded_percent-uptime_of zero successes h = (omega arith, refl)
rounded_percent-uptime_of (suc c) successes h =
    (ground (arith, percent_bound successes (suc c) h), refl)
