-- ===== src/Saas/Usage.antt =====
-- `flushUsage` of saas/src/workers/usageAggregator.ts: the bytes that Redis has counted for each
-- user are added to the user's row of the day and taken out of Redis. Redis and the table are
-- parameters.
pub mod Laws
use proxy_redirector.Prelude.{
  ℕ, ◌+◌, ◌≡◌, ◌≢◌, Bool, true, false, Option, none, some, List, [], ◌∷◌, ltb, if◌then◌else◌,
}
use proxy_redirector.Text.{Text}

-- `counted user s` is the number under `usage:user:<user>:bytes`, 0 where there is no key, and
-- `log_row user s` the bytes in the user's row of the day, if there is one. `get`, `upsert` and `del`
-- fail by `none`, and then have done nothing. An upsert changes the user's row by its update, or
-- makes it with the bytes given. `incr` is what counts the user's traffic.
pub record UsageStore : Type 1 where
  pub State : Type 0
  pub counted : Text → State → ℕ
  pub log_row : Text → State → Option ℕ
  pub get : Text → State → Option ℕ
  pub upsert : Text → (ℕ → ℕ) → ℕ → State → Option State
  pub del : Text → State → Option State
  pub incr : Text → ℕ → State → State
  pub get_some : (user : Text) (s : State) (n : ℕ) → get user s ≡ some n → n ≡ counted user s
  pub upsert_some :
      (user : Text) (update : ℕ → ℕ) (create : ℕ) (s s' : State)
      → upsert user update create s ≡ some s'
      → (log_row user s'
          ≡ elim (log_row user s) [ none ↦ some create | some bytes ↦ some (update bytes) ])
        × ((other : Text) → other ≢ user → log_row other s' ≡ log_row other s)
        × ((v : Text) → counted v s' ≡ counted v s)
  pub del_some :
      (user : Text) (s s' : State)
      → del user s ≡ some s'
      → (counted user s' ≡ 0)
        × ((other : Text) → other ≢ user → counted other s' ≡ counted other s)
        × ((v : Text) → log_row v s' ≡ log_row v s)
  pub incr_counted :
      (user : Text) (n : ℕ) (s : State)
      → (counted user (incr user n s) ≡ counted user s + n)
        × (log_row user (incr user n s) ≡ log_row user s)

module _ (t : UsageStore) where
  open t use {State, get, upsert, del}

  -- The two commands for a user with traffic: the bytes are the increment of the row of the day, or
  -- its first number, and the counter is deleted; `false` says that one has thrown.
  unfoldable pub log_bytes : Text → ℕ → State → Bool × State
  log_bytes user bytes s = elim (upsert user (λ old. old + bytes) bytes s) [
    | none ↦ (false, s)
    | some s1 ↦ elim (del user s1) [ none ↦ (false, s1) | some s2 ↦ (true, s2) ]
  ]

  -- The body of the loop, behind the reading of the counter, in the state as it then is.
  unfoldable pub after_read : Text → Option ℕ → State → Bool × State
  after_read user none s = (false, s)
  after_read user (some bytes) s = if ltb 0 bytes then log_bytes user bytes s else (true, s)

  -- The body of the loop
  unfoldable pub flush_user : Text → State → Bool × State
  flush_user user s = after_read user (get user s) s

  -- The loop over the users of the keys, which ends where a command throws.
  unfoldable pub flush_usage : List Text → State → Bool × State
  flush_usage [] s = (true, s)
  flush_usage (user ∷ users) s =
      let r = flush_user user s in let rest = flush_usage users r.1 in if r.0 then rest else r
