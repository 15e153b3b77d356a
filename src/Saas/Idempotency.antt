-- ===== src/Saas/Idempotency.antt =====
-- `idempotencyGuard` of saas/src/presentation/middlewares/idempotency.middleware.ts. Redis is a
-- parameter; the handler behind the guard is a function on the state of the application.
pub mod Laws
pub mod Race
use proxy_redirector.Prelude.{
  ℕ, ◌≡◌, Bool, true, ◌&&◌, Option, none, some, ◌++◌, ltb, leb, if◌then◌else◌,
}
use proxy_redirector.Text.{Text, codes, is_empty}

-- A response, with its body as JSON text.
pub record Response : Type 0 where
  pub status : ℕ
  pub body : Text

-- The responses that Redis holds. `get` throws by `none`; an error of `set` is dropped. The laws
-- hold before a key's life time is over.
pub record ResponseCache : Type 1 where
  pub State : Type 0
  pub stored : Text → State → Option Response
  pub is_up : State → Bool
  pub get : Text → State → Option (Option Response)
  pub set : Text → Response → ℕ → State → State
  pub get_up : (key : Text) (s : State) → is_up s ≡ true → get key s ≡ some (stored key s)
  pub set_up :
      (key : Text) (r : Response) (seconds : ℕ) (s : State)
      → is_up s ≡ true
      → (is_up (set key r seconds s) ≡ true) × (stored key (set key r seconds s) ≡ some r)

abbrev pub redis_key : Text → Text
redis_key key = codes "idempotency:" ++ key

-- `res.statusCode >= 200 && res.statusCode < 300`
abbrev pub is_ok : Response → Bool
is_ok r = leb 200 r.status && ltb r.status 300

module _ (c : ResponseCache) (App : Type 0) (handler : App → Response × App) (ttl : ℕ) where
  open c use {State, get, set}

  -- The handler behind the intercepted `res.json`.
  unfoldable pub run_and_store : Text → App × State → Response × (App × State)
  run_and_store key (a, s) =
      let (r, a') = handler a in (r, (a', if is_ok r then set (redis_key key) r ttl s else s))

  -- `next()` without the interception.
  unfoldable pub run_plain : App × State → Response × (App × State)
  run_plain (a, s) = let (r, a') = handler a in (r, (a', s))

  -- The guard from the answer of Redis on, in the state as it then is.
  unfoldable pub after_look :
      Text → Option (Option Response) → App × State → Response × (App × State)
  after_look key none q = run_plain q
  after_look key (some none) q = run_and_store key q
  after_look key (some (some r)) q = (r, q)

  -- A request with the header's text, empty where it is missing.
  unfoldable pub idempotency_guard : Text → App × State → Response × (App × State)
  idempotency_guard key (a, s) =
      if is_empty key then run_plain (a, s) else after_look key (get (redis_key key) s) (a, s)
