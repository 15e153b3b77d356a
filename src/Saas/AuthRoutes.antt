-- ===== src/Saas/AuthRoutes.antt =====
-- The routes of saas/src/modules/auth/auth.routes.ts: the rate limiter, the validation of
-- middlewares/validate.ts by the schemas of auth.schema.ts, and the handlers of auth.controller.ts.
-- The test of an address, which is the validation library's, is a parameter.
pub mod Laws
pub mod SignUp
use proxy_redirector.Prelude.{
  ℕ, ◌/◌, Bool, true, false, Option, none, some, List, [], ◌∷◌, leb, if◌then◌else◌, length,
}
use proxy_redirector.Text.{Text, codes, is_empty}
use proxy_redirector.Saas.Domain.{User, UserRole}
use proxy_redirector.Saas.RateLimiter.{
  Counters, Verdict, passed, passed_unchecked, limited, rate_limit,
}
use proxy_redirector.Saas.Tokens.{Service, Session}
use proxy_redirector.Saas.Tokens
use proxy_redirector.Saas.Accounts.{UserTable, Hasher, DeviceMeta, signed_in, refused}
use proxy_redirector.Saas.Accounts

-- A field of a JSON body: a text, another value, or none.
pub data Field : Type 0 where
  missing other : Field
  str : Text → Field

pub record RegisterBody : Type 0 where
  pub email : Field
  pub password : Field
  pub name : Field

pub record LoginBody : Type 0 where
  pub email : Field
  pub password : Field
  pub fingerprint : Field
  pub device_name : Field
  pub device_os : Field

-- `z.string()` with a test
abbrev pub text_with : (Text → Bool) → Field → Option Text
text_with p missing = none
text_with p other = none
text_with p (str t) = if p t then some t else none

-- `z.string().optional()`; a missing text is empty.
abbrev pub optional : Field → Option Text
optional missing = some []
optional other = none
optional (str t) = some t

-- `.min(n)`
abbrev pub has_length : ℕ → Text → Bool
has_length n t = leb n (length t)

abbrev pub both {ℓ κ} : {A : Type ℓ} {B : Type κ} → Option A → Option B → Option (A × B)
both none b = none
both (some x) none = none
both (some x) (some y) = some (x, y)

-- `registerSchema`: the address and the password.
unfoldable pub parse_register : (Text → Bool) → RegisterBody → Option (Text × Text)
parse_register is_email b =
    elim (both (text_with is_email b.email)
      (both (text_with (has_length 8) b.password) (optional b.name))) [
        | none ↦ none
        | some (email, (password, name)) ↦ some (email, password)
      ]

abbrev pub device_of : Option (Text × (Text × Text)) → Option DeviceMeta
device_of none = none
device_of (some (fingerprint, (name, os))) =
    some (record { fingerprint = fingerprint; device_name = name; device_os = os })

-- `loginSchema`
unfoldable pub parse_login : (Text → Bool) → LoginBody → Option (Text × (Text × DeviceMeta))
parse_login is_email b = both (text_with is_email b.email) (
    both (text_with (has_length 1) b.password) (
      device_of
        (both (optional b.fingerprint) (both (optional b.device_name) (optional b.device_os)))))

-- `refreshSchema`
unfoldable pub parse_refresh : Field → Option Text
parse_refresh = text_with (has_length 1)

-- What `AuthService` returns of a user; the name, which is not modelled, is left out.
pub record PublicUser : Type 0 where
  pub id : Text
  pub email : Text
  pub role : UserRole

abbrev pub public_user : User → PublicUser
public_user u = record { id = u.id; email = u.email; role = u.role }

-- What a response holds: the user and the tokens, the tokens, a message, or an error's code.
pub data Body : Type 0 where
  account : PublicUser → Session → Body
  tokens : Session → Body
  logged_out : Body
  failure : Text → Body

pub record Answer : Type 0 where
  pub status : ℕ
  pub body : Body

abbrev pub failed : ℕ → Text → Answer
failed status code = record { status = status; body = failure code }

-- `AuthController.register` and `AuthController.login`, behind the service.
unfoldable pub register_answer : Accounts.Outcome → Answer
register_answer (signed_in u session) = record {
  status = 201;
  body = account (public_user u) session;
}
register_answer (refused why) = failed 400 (codes "REGISTRATION_FAILED")

unfoldable pub login_answer : Accounts.Outcome → Answer
login_answer (signed_in u session) = record { status = 200; body = account (public_user u) session }
login_answer (refused why) = failed 401 (codes "AUTH_FAILED")

-- `AuthController.refresh`, behind the service.
unfoldable pub refresh_answer : Tokens.Outcome → Answer
refresh_answer (Tokens.refreshed session) = record { status = 200; body = tokens session }
refresh_answer (Tokens.refused why) = failed 401 (codes "REFRESH_FAILED")

pub data Call : Type 0 where
  register_call : RegisterBody → Call
  login_call : LoginBody → Call
  refresh_call logout_call : Field → Call

-- A request, with what the clock, `crypto.randomUUID` and the salt give for it.
pub record Request : Type 0 where
  pub ip : Text
  pub now_ms : ℕ
  pub uuid : Text
  pub salt : ℕ
  pub call : Call

-- The limits of the routes.
unfoldable pub limit_of : Call → Option ℕ
limit_of (register_call b) = some 20
limit_of (login_call b) = some 30
limit_of (refresh_call f) = some 60
limit_of (logout_call f) = none

-- The body that `validateBody` answers where `parse` throws.
abbrev pub invalid_payload : Answer
invalid_payload = failed 400 (codes "INVALID_PAYLOAD")

abbrev pub too_many : Answer
too_many = failed 429 (codes "RATE_LIMITED")

abbrev pub is_limited : Verdict → Bool
is_limited passed_unchecked = false
is_limited (passed limit remaining) = false
is_limited (limited limit remaining) = true

pub record Parts : Type 1 where
  pub counters : Counters
  pub service : Service
  pub users : UserTable
  pub hasher : Hasher
  pub is_email : Text → Bool

module _ (p : Parts) where
  open p use {counters, service, users, hasher, is_email}

  -- The tables behind the routes: of the users, and of the revoked tokens.
  abbrev pub Tables : Type 0
  Tables = users.State × service.redis.State

  unfoldable pub register_route : ℕ → Text → ℕ → Option (Text × Text) → Tables → Answer × Tables
  unfolding register_answer
  register_route now uuid salt none q = (invalid_payload, q)
  register_route now uuid salt (some (email, password)) (t, s) =
      let (o, t') = Accounts.register service users hasher now uuid salt email password t in
      (register_answer o, (t', s))

  unfoldable pub login_route :
      ℕ → Text → Option (Text × (Text × DeviceMeta)) → Tables → Answer × Tables
  unfolding login_answer
  login_route now uuid none q = (invalid_payload, q)
  login_route now uuid (some (email, (password, d))) (t, s) =
      let (o, t') = Accounts.login service users hasher now uuid email password d t in
      (login_answer o, (t', s))

  unfoldable pub refresh_route : ℕ → Text → Option Text → Tables → Answer × Tables
  unfolding refresh_answer
  refresh_route now uuid none q = (invalid_payload, q)
  refresh_route now uuid (some token) (t, s) =
      let (o, s') = Tokens.refresh service now uuid token s in (refresh_answer o, (t, s'))

  -- `AuthController.logout`: no limit and no schema. What is no text does not verify, and the
  -- service drops that error.
  unfoldable pub logout_route : ℕ → Field → Tables → Answer × Tables
  logout_route now missing q = (record { status = 200; body = logged_out }, q)
  logout_route now other q = (record { status = 200; body = logged_out }, q)
  logout_route now (str token) (t, s) = (
    record { status = 200; body = logged_out },
    (t, if is_empty token then s else Tokens.logout service now token s),
  )

  -- The validation and the handler of a route. Tokens count in seconds.
  unfoldable pub run_call : Request → Tables → Answer × Tables
  unfolding register_route login_route refresh_route logout_route
  run_call r q = elim r.call [
    | register_call b ↦ register_route (r.now_ms / 1000) r.uuid r.salt (parse_register is_email b) q
    | login_call b ↦ login_route (r.now_ms / 1000) r.uuid (parse_login is_email b) q
    | refresh_call f ↦ refresh_route (r.now_ms / 1000) r.uuid (parse_refresh f) q
    | logout_call f ↦ logout_route (r.now_ms / 1000) f q
  ]

  -- Behind the rate limiter, which answers in place of the rest of the route.
  unfoldable pub after_limiter :
      Request → Verdict × counters.State → Tables → Answer × (counters.State × Tables)
  unfolding run_call
  after_limiter r (verdict, k) q =
      if is_limited verdict then (too_many, (k, q)) else let (a, q') = run_call r q in (a, (k, q'))

  unfoldable pub limit_route :
      Request → Option ℕ → counters.State × Tables → Answer × (counters.State × Tables)
  unfolding after_limiter
  limit_route r none (k, q) = let (a, q') = run_call r q in (a, (k, q'))
  limit_route r (some limit) (k, q) =
      after_limiter r (rate_limit counters limit 60 r.ip r.now_ms k) q

  unfoldable pub handle : Request → counters.State × Tables → Answer × (counters.State × Tables)
  handle r st = limit_route r (limit_of r.call) st

  unfoldable pub handle_all : List Request → counters.State × Tables → counters.State × Tables
  handle_all [] st = st
  handle_all (r ∷ rs) st = handle_all rs (handle r st).1
