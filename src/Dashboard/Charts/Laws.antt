-- ===== src/Dashboard/Charts/Laws.antt =====
-- The percentages of the bars, and the countries that are left out.
use proxy_redirector.Prelude.{
  ℕ, zero, suc, ◌+◌, ◌*◌, ◌≤◌, ◌<◌, ◌≡◌, false, List, [], ◌∷◌, arith, take, drop, map, sum, All,
  All-take, All-drop, true,
}
use proxy_redirector.Prelude.Sorting.{IsOrder, IsSorted, sort-IsSorted, All-sort}
use proxy_redirector.Text.{Text}
use proxy_redirector.Dashboard.Items.{Item}
use proxy_redirector.Dashboard.Analytics.{Counts, summary}
use proxy_redirector.Dashboard.Analytics.Laws.{summary-IsConsistent}
use proxy_redirector.Dashboard.Charts.{
  Bar, percent_tenths, total_of, count_after, sorted_countries, counts_of, country_bar,
  country_bars, latency_counts, latency_bars,
}

-- What rounding to the nearest tenth means.
percent_tenths_lem :
    (c t : ℕ)
    → 0 < t
    → (2 * t * percent_tenths c t ≤ 2000 * c + t)
      × (2000 * c + t < 2 * t * percent_tenths c t + 2 * t)
unfolding percent_tenths
percent_tenths_lem c t h = grind arith

percent_tenths_bound : (c t : ℕ) → 0 < t → c ≤ t → percent_tenths c t ≤ 1000
percent_tenths_bound c t h le =
    let (low, high) = percent_tenths_lem c t h in grind (arith, low, high)

-- A number between two multiples is between their factors.
between : (t s : ℕ) → 0 < t → 2 * t * s ≤ 2004 * t → 1996 * t < 2 * t * s → (999 ≤ s) × (s ≤ 1002)
between t s h low high = (grind arith, grind arith)

spread : (t p q r s : ℕ) → 2 * t * (p + q + r + s) ≡ 2 * t * p + 2 * t * q + 2 * t * r + 2 * t * s
spread t p q r s = grind arith

-- Four rounded shares of a whole.
four_shares :
    (a b c d t : ℕ)
    → 0 < t
    → a + b + c + d ≡ t
    → let s = percent_tenths a t + percent_tenths b t + percent_tenths c t + percent_tenths d t in
      (999 ≤ s) × (s ≤ 1002)
four_shares a b c d t h e =
    let shares =
      spread t (percent_tenths a t) (percent_tenths b t) (percent_tenths c t)
        (percent_tenths d t) in
    let (al, ah) = percent_tenths_lem a t h in
    let (bl, bh) = percent_tenths_lem b t h in
    let (cl, ch) = percent_tenths_lem c t h in
    let (dl, dh) = percent_tenths_lem d t h in between t _ h (omega arith) (omega arith)

count_after-IsOrder : IsOrder count_after
unfolding count_after
count_after-IsOrder = record { asymm = count_asymm; trans = count_trans }
  where
    count_asymm : (x y : Text × ℕ) → count_after x y ≡ true → count_after y x ≡ false
    count_asymm (c, m) (d, n) h = ground arith

    count_trans :
        (x y z : Text × ℕ)
        → count_after x y ≡ false
        → count_after y z ≡ false
        → count_after x z ≡ false
    count_trans (c, m) (d, n) (e, k) h h' = ground arith

-- What a sorted list is cut into.
cut_sorted :
    (n : ℕ) (xs : Counts)
    → IsSorted count_after xs
    → All (λ x. All (λ y. count_after x y ≡ false) (drop n xs)) (take n xs)
cut_sorted zero xs h = tt
cut_sorted (suc n) [] h = tt
cut_sorted (suc n) (x ∷ xs) h =
    (All-drop (λ y. count_after x y ≡ false) n xs h.0, cut_sorted n xs h.1)

le-sum : (m : Counts) → All (λ x. x.1 ≤ sum (counts_of m)) m
le-sum m = under m (sum (counts_of m)) (omega arith)
  where
    under : (m : Counts) (k : ℕ) → sum (counts_of m) ≤ k → All (λ x. x.1 ≤ k) m
    under [] k h = tt
    under ((c, n) ∷ m) k h = (omega arith, under m k (omega arith))

bars_within :
    (t : ℕ) (m : Counts)
    → 0 < t
    → All (λ x. x.1 ≤ t) m
    → All (λ b. b.tenths ≤ 1000) (map (country_bar t) m)
bars_within t [] pos h = tt
bars_within t ((c, n) ∷ m) pos h = (percent_tenths_bound n t pos h.0, bars_within t m pos h.1)

-- The bars of the countries: at most six, none above 100.0 %, and no country that is left out has
-- more proxies than one that is shown.
pub country_bars_lem :
    (m : Counts)
    → let shown = take 6 (sorted_countries m) in
      let others = drop 6 (sorted_countries m) in
      All (λ b. b.tenths ≤ 1000) (country_bars m)
      × All (λ x. All (λ y. count_after x y ≡ false) others) shown
unfolding country_bars sorted_countries
country_bars_lem m =
    let t = total_of (counts_of m) in
    let enough : sum (counts_of m) ≤ t = ground arith in
    (
      bars_within t (take 6 (sorted_countries m)) (ground arith) (
          All-take (λ x. x.1 ≤ t) 6 (sorted_countries m)
            (All-sort count_after (λ x. x.1 ≤ t) m
              (weaken m (sum (counts_of m)) t enough (le-sum m)))),
      cut_sorted 6 (sorted_countries m) (sort-IsSorted count_after count_after-IsOrder m),
    )
  where
    weaken : (m : Counts) (j k : ℕ) → j ≤ k → All (λ x. x.1 ≤ j) m → All (λ x. x.1 ≤ k) m
    weaken [] j k h a = tt
    weaken (x ∷ m) j k h a = (omega (arith, a.0), weaken m j k h a.1)

abbrev pub tenths_of : List Bar → List ℕ
tenths_of bs = map (λ b. b.tenths) bs

-- If any of the fifty best proxies of a list by score, which the summary is of, is timed, the
-- percentages of the four latencies add up to 100 % but for the rounding, to between 99.9 and 100.2.
pub latency_bars-sum :
    (items : List Item)
    → 0 < (summary items).speed_count
    → let s = sum (tenths_of (latency_bars (summary items).latencies)) in (999 ≤ s) × (s ≤ 1002)
unfolding latency_bars
latency_bars-sum items timed =
    let b = (summary items).latencies in
    let counted = (summary-IsConsistent items).0.histogram in
    let t = total_of (latency_counts b) in
    let whole : b.below_500 + b.upto_1500 + b.upto_3000 + b.above_3000 ≡ t = ground arith in
    let shares =
      four_shares b.below_500 b.upto_1500 b.upto_3000 b.above_3000 t (omega arith) whole in
    (omega (arith, shares.0), omega (arith, shares.1))
