-- ===== src/Saas/RateLimiter.antt =====
-- `rateLimiter` of saas/src/middlewares. The Redis server is a parameter: a state with the two
-- commands that the code sends, either of which may fail.
pub mod Laws
use proxy_redirector.Prelude.{
  ℕ, ◌+◌, ◌-◌, ◌*◌, ◌/◌, ◌≡◌, ◌≢◌, Bool, true, Option, none, some, ◌++◌, ltb, ◌==◌, if◌then◌else◌,
}
use proxy_redirector.Text.{Text, codes, decimal}

-- `count key s` is the number under a key, 0 where there is none. `is_up` says that the server
-- answers. The laws are those of INCR, and of EXPIRE before the time has run out.
pub record Counters : Type 1 where
  pub State : Type 0
  pub count : Text → State → ℕ
  pub is_up : State → Bool
  pub incr : Text → State → Option (ℕ × State)
  pub expire : Text → ℕ → State → Option State
  pub incr_up :
      (key : Text) (s : State)
      → is_up s ≡ true
      → (s' : State) × (incr key s ≡ some (count key s + 1, s'))
        × (is_up s' ≡ true)
        × (count key s' ≡ count key s + 1)
        × ((other : Text) → other ≢ key → count other s' ≡ count other s)
  pub expire_up :
      (key : Text) (seconds : ℕ) (s : State)
      → is_up s ≡ true
      → (s' : State) × (expire key seconds s ≡ some s')
        × (is_up s' ≡ true)
        × ((other : Text) → count other s' ≡ count other s)

-- The handler goes on without headers where the server fails, else sets the two headers.
pub data Verdict : Type 0 where
  passed_unchecked : Verdict
  passed : ℕ → ℕ → Verdict
  limited : ℕ → ℕ → Verdict

-- The key of an address in a window of time.
unfoldable pub window_key : Text → ℕ → ℕ → Text
window_key ip now_ms window_sec =
    codes "ratelimit:" ++ ip ++ codes ":" ++ decimal (now_ms / 1000 / window_sec)

-- The rest of the handler behind `incr` and `expire`: the two headers, and the test of the limit.
unfoldable pub decide : ℕ → ℕ → Verdict
decide limit current =
    if ltb limit current then limited limit (limit - current) else passed limit (limit - current)

module _ (c : Counters) where
  open c use {State, incr, expire}

  -- `if (current === 1) await redis.expire(…)`; a failure leaves the count and goes on unchecked.
  unfoldable pub start_window : Text → ℕ → ℕ → ℕ → State → Verdict × State
  start_window key limit window_sec current s =
      if current == 1
      then elim (expire key (window_sec * 2) s) [
        | none ↦ (passed_unchecked, s)
        | some s' ↦ (decide limit current, s')
      ]
      else (decide limit current, s)

  unfoldable pub rate_limit_key : Text → ℕ → ℕ → State → Verdict × State
  rate_limit_key key limit window_sec s = elim (incr key s) [
    | none ↦ (passed_unchecked, s)
    | some (current, s') ↦ start_window key limit window_sec current s'
  ]

  -- The middleware of `rateLimiter(limit, windowSec)` for a request of `ip` at `now_ms`.
  unfoldable pub rate_limit : ℕ → ℕ → Text → ℕ → State → Verdict × State
  rate_limit limit window_sec ip now_ms s =
      rate_limit_key (window_key ip now_ms window_sec) limit window_sec s
