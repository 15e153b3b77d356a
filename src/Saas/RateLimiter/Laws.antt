-- ===== src/Saas/RateLimiter/Laws.antt =====
-- How many requests of one key pass.
use proxy_redirector.Prelude.{
  ℕ, zero, suc, ◌+◌, ◌-◌, ◌*◌, ◌≡◌, ◌≢◌, ◌∙◌, true, none, min, arith, ltb, ◌==◌, Bool-cases, inl,
  inr, if◌then◌else◌,
}
use proxy_redirector.Text.{Text}
use proxy_redirector.Saas.RateLimiter.{
  Counters, Verdict, passed, passed_unchecked, limited, decide, start_window, rate_limit_key,
}

module _ (c : Counters) (key : Text) (limit window_sec : ℕ) where
  open c use {State, count, is_up, incr_up, expire_up}

  -- What one request does while the server answers.
  abbrev pub Served : State → Type 0
  Served s =
      (s' : State) × (rate_limit_key c key limit window_sec s
        ≡ (decide limit (count key s + 1), s'))
      × (is_up s' ≡ true)
      × (count key s' ≡ count key s + 1)
      × ((other : Text) → other ≢ key → count other s' ≡ count other s)

  pub serve_one : (s : State) → is_up s ≡ true → Served s
  unfolding rate_limit_key start_window
  serve_one s up =
      let (s1, e1, up1, n1, o1) = incr_up key s up in
      let (s2, e2, up2, o2) = expire_up key (window_sec * 2) s1 up1 in
      elim (Bool-cases ((count key s + 1) == 1)) [
        | inl first ↦ (
          s2,
          rw (e1, rate_limit_key) (rw first (rw (e2, start_window))),
          up2,
          o2 key ∙ n1,
          λ other ne. o2 other ∙ o1 other ne,
        )
        | inr later ↦ (s1, rw (e1, rate_limit_key) (rw later), up1, n1, o1)
      ]

-- The number of requests that pass, of `n` with the same key.
abbrev pub admitted : Verdict → ℕ
admitted passed_unchecked = 1
admitted (passed limit remaining) = 1
admitted (limited limit remaining) = 0

module _ (c : Counters) (key : Text) (limit window_sec : ℕ) where
  open c use {State, count, is_up}

  unfoldable pub passes : ℕ → State → ℕ
  passes zero s = 0
  passes (suc n) s =
      let (verdict, s') = rate_limit_key c key limit window_sec s in admitted verdict + passes n s'

module _ (c : Counters) (key : Text) (limit window_sec : ℕ) where
  open c use {State, count, is_up}

  admitted-decide : (n : ℕ) → admitted (decide limit n) ≡ (if ltb limit n then 0 else 1)
  unfolding decide
  admitted-decide n = ground arith

  -- While the server answers, of `n` requests with the same key exactly as many pass as the limit
  -- leaves room for: the limit less the requests that the window has counted before.
  pub passes_lem :
      (n : ℕ) (s : State)
      → is_up s ≡ true
      → passes c key limit window_sec n s ≡ min n (limit - count key s)
  unfolding passes
  passes_lem zero s up = omega arith
  passes_lem (suc n) s up =
      let (s', e, up', k, o) = serve_one c key limit window_sec s up in
      rw e (ground (arith, admitted-decide (count key s + 1), passes_lem n s' up', k))

-- While the server answers, a request leaves the counts of all other keys alone and counts itself
-- under its own.
pub rate_limit_key_counts :
    (c : Counters) (key : Text) (limit window_sec : ℕ) (s : c.State) (other : Text)
    → c.is_up s ≡ true
    → other ≢ key
    → (c.count other (rate_limit_key c key limit window_sec s).1 ≡ c.count other s)
      × (c.count key (rate_limit_key c key limit window_sec s).1 ≡ c.count key s + 1)
rate_limit_key_counts c key limit window_sec s other up ne =
    let (s', e, up', k, o) = serve_one c key limit window_sec s up in rw e (o other ne, k)

-- Where the server fails at once, the request passes and nothing is counted.
pub rate_limit_key_down :
    (c : Counters) (key : Text) (limit window_sec : ℕ) (s : c.State)
    → c.incr key s ≡ none
    → rate_limit_key c key limit window_sec s ≡ (passed_unchecked, s)
unfolding rate_limit_key
rate_limit_key_down c key limit window_sec s h = rw (h, rate_limit_key)
