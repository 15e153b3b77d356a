-- ===== src/Client/Flag/Settles.antt =====
-- However the images come in, they come to an end, and the flag of the country is then shown.
use proxy_redirector.Prelude.{
  ℕ, zero, suc, ◌+◌, ◌*◌, ◌%◌, ◌<◌, ◌≤◌, ◌≡◌, ◌≢◌, refl, inl, inr, false, Option, none, some, List,
  [], ◌∷◌, arith, ltb, if◌then◌else◌, length, length-append, Bool-cases,
}
use proxy_redirector.Text.{Text, text_eq}
use proxy_redirector.Text.Laws.{text_eq_refl}
use proxy_redirector.Client.Flag.{
  Load, Flag, has_no_flag, url_of, show_country, mount, set_country, pull, on_load, Event,
  country_is, loaded, failed, step, run,
}
use proxy_redirector.Client.Flag.Laws.{
  wanted, hits, misses, misses-append, IsPulled, pull-IsPulled, Aims, IsVisible, IsTracking,
  NoFailure, step-IsTracking, run-IsTracking, mount-IsTracking,
}

-- An image of another country costs two loads: its own, and one of the flag that is wanted.
abbrev weight : Flag → ℕ
weight f = length f.loading + misses (url_of f.country) f.loading

show_country-weight :
    (f : Flag)
    → weight (show_country f) ≤ weight f + (if text_eq (url_of f.country) f.current then 0 else 1)
unfolding show_country
show_country-weight f = elim (Bool-cases (has_no_flag f.country)) [
  | inl none_known ↦ ground arith
  | inr known ↦ ground (
    arith,
    text_eq_refl (url_of f.country),
    misses-append (url_of f.country) f.loading
        (record { url = url_of f.country; kept = f.current }),
    length-append f.loading (record { url = url_of f.country; kept = f.current } ∷ []),
  )
]

on_load-weight :
    (l : Load) (rest : List Load) (f : Flag)
    → IsPulled (url_of f.country) l rest f.loading
    → weight (on_load l rest f) < weight f
unfolding on_load
on_load-weight l rest f p =
    let shown : Flag = record f {
      current = l.url;
      previous = l.kept;
      show_current = false;
      loading = rest;
      fades = f.fades + 1;
    } in
    elim (Bool-cases (text_eq l.url f.current)) [
      | inl same ↦ rw same (omega (arith, p.lengths, p.missed))
      | inr new ↦ rw new (omega (arith, p.lengths, p.missed, show_country-weight shown))
    ]

pull_below : (i : ℕ) (ls : List Load) → i < length ls → pull i ls ≢ none
pull_below i [] h e = absurd (omega arith)
pull_below zero (l ∷ ls) h e = cc
pull_below (suc i) (l ∷ ls) h e = ground (arith, pull_below i ls)

-- A load makes the weight less.
loaded-weight : (i : ℕ) (f : Flag) → i < length f.loading → weight (step (loaded i) f) < weight f
unfolding step
loaded-weight i f h = by_pull (pull i f.loading) refl
  where
    by_pull :
        (o : Option (Load × List Load))
        → pull i f.loading ≡ o
        → weight (elim o [ none ↦ f | some (l, rest) ↦ on_load l rest f ]) < weight f
    by_pull none e = absurd (pull_below i f.loading h e)
    by_pull (some (l, rest)) e =
        on_load-weight l rest f (pull-IsPulled (url_of f.country) i f.loading rest l e)

misses-le-length : (u : Text) (ls : List Load) → misses u ls ≤ length ls
misses-le-length u [] = omega arith
misses-le-length u (l ∷ ls) = ground (arith, misses-le-length u ls)

-- Each number is that of an image that is being loaded when its turn comes.
abbrev pub AreLoads : List ℕ → Flag → Type 0
AreLoads [] f = Unit
AreLoads (i ∷ is) f = (i < length f.loading) × AreLoads is (step (loaded i) f)

loads-weight : (is : List ℕ) (f : Flag) → AreLoads is f → length is ≤ weight f
loads-weight [] f h = omega arith
loads-weight (i ∷ is) f h =
    omega (arith, loaded-weight i f h.0, loads-weight is (step (loaded i) f) h.1)

-- While the country stays the same and no image fails, at most twice as many images are loaded as are
-- being loaded at first, whatever the order in which they come in.
pub loads_stop : (is : List ℕ) (f : Flag) → AreLoads is f → length is ≤ 2 * length f.loading
loads_stop is f h =
    omega (arith, loads-weight is f h, misses-le-length (url_of f.country) f.loading)

-- Images come in one after the other, in an order that somebody chooses.
unfoldable pub finish : ℕ → (List Load → ℕ) → Flag → Flag
finish zero pick f = f
finish (suc n) pick f = finish n pick (step (loaded (pick f.loading % length f.loading)) f)

loaded_nothing : (i : ℕ) (f : Flag) → f.loading ≡ [] → (step (loaded i) f).loading ≡ []
unfolding step
loaded_nothing i f h = by_pull (pull i f.loading) (rw h refl)
  where
    by_pull :
        (o : Option (Load × List Load))
        → o ≡ none
        → let g : Flag = elim o [ none ↦ f | some (l, rest) ↦ on_load l rest f ] in g.loading ≡ []
    by_pull none e = h
    by_pull (some (l, rest)) e = cc

finish_nothing :
    (n : ℕ) (pick : List Load → ℕ) (f : Flag) → f.loading ≡ [] → (finish n pick f).loading ≡ []
unfolding finish
finish_nothing zero pick f h = h
finish_nothing (suc n) pick f h = finish_nothing n pick _ (loaded_nothing _ f h)

finish_ends :
    (n : ℕ) (pick : List Load → ℕ) (f : Flag) → weight f ≤ n → (finish n pick f).loading ≡ []
unfolding finish
finish_ends zero pick f h = no_weight f.loading (omega arith)
  where
    no_weight : (ls : List Load) → length ls ≤ 0 → ls ≡ []
    no_weight [] k = refl
    no_weight (l ∷ ls) k = absurd (omega arith)
finish_ends (suc n) pick f h = elim (Bool-cases (ltb 0 (length f.loading))) [
  | inl more ↦
      let i = pick f.loading % length f.loading in
      let below : i < length f.loading = grind arith in
      finish_ends n pick (step (loaded i) f) (omega (arith, loaded-weight i f below))
  | inr none_left ↦ finish_nothing n pick _ (loaded_nothing _ f (no_loads f.loading (ground arith)))
]
  where
    no_loads : (ls : List Load) → length ls ≤ 0 → ls ≡ []
    no_loads [] k = refl
    no_loads (l ∷ ls) k = absurd (omega arith)

finish-IsTracking :
    (n : ℕ) (pick : List Load → ℕ) (f : Flag) → IsTracking f → IsTracking (finish n pick f)
unfolding finish
finish-IsTracking zero pick f t = t
finish-IsTracking (suc n) pick f t =
    finish-IsTracking n pick _ (step-IsTracking (loaded _) f refl t)

end_reached : (f : Flag) → f.loading ≡ [] → Aims f → f.current ≡ wanted f
end_reached f e (inl h) = h
end_reached f e (inr h) =
    let none_left : hits (url_of f.country) f.loading ≡ 0 = rw e refl in absurd (omega arith)

-- Whatever countries come and go and in whatever order images come in, if none of them fails: once
-- the country stays the same, after twice as many loads as are under way, chosen in any order, none
-- is under way and the flag is that of the country, visible or about to fade in.
pub finish_shows_country :
    (c : Text) (es : List Event) (pick : List Load → ℕ)
    → NoFailure es
    → let f = run es (mount c) in
      let g = finish (2 * length f.loading) pick f in
      (g.loading ≡ []) × (g.current ≡ wanted g) × IsVisible g
finish_shows_country c es pick ok =
    let f = run es (mount c) in
    let n = 2 * length f.loading in
    let ended =
      finish_ends n pick f (omega (arith, misses-le-length (url_of f.country) f.loading)) in
    let t = finish-IsTracking n pick f (run-IsTracking es (mount c) ok (mount-IsTracking c)) in
    (ended, end_reached (finish n pick f) ended t.aims, t.visible)

-- If the image of a new country can not be loaded, the flag of the old one stays.
pub failed_keeps_flag :
    (c : Text) (f : Flag)
    → f.loading ≡ []
    → has_no_flag c ≡ false
    → text_eq c f.country ≡ false
    → text_eq (url_of c) f.current ≡ false
    → let g = run (country_is c ∷ failed 0 ∷ []) f in
      (g.loading ≡ []) × (g.current ≡ f.current) × (g.country ≡ c) × (g.current ≢ wanted g)
unfolding run step set_country show_country
failed_keeps_flag c f none_yet known new other = ground (arith, text_eq_refl (url_of c))
