-- ===== src/Saas/Tokens.antt =====
-- Refresh tokens: `refresh` and `logout` of saas/src/modules/auth/auth.service.ts over
-- saas/src/utils/jwt.ts. The JWT library, the Redis server and the table of users are parameters.
-- Times are in seconds.
pub mod Laws
pub mod Refines
pub mod Once
use proxy_redirector.Prelude.{
  ℕ, ◌+◌, ◌≤◌, ◌<◌, ◌≡◌, ◌≢◌, Bool, true, false, Option, none, some, ◌++◌, if◌then◌else◌,
}
use proxy_redirector.Text.{Text, codes, is_empty}
use proxy_redirector.Saas.Domain.{User}
use proxy_redirector.Saas.Guards.{TokenPayload}

-- `sign` and `verify` of jsonwebtoken for one secret and one life time: a signed token verifies
-- until it expires.
pub record Signer : Type 0 where
  pub ttl : ℕ
  pub sign : ℕ → TokenPayload → Text
  pub verify : ℕ → Text → Option TokenPayload
  pub verify_sign :
      (issued now : ℕ) (p : TokenPayload)
      → issued ≤ now
      → now < issued + ttl
      → verify now (sign issued p) ≡ some p

-- The keys under which Redis holds '1', and the two commands, which may fail. `is_up` says that the
-- server answers. The laws hold before a key's life time is over.
pub record Revocations : Type 1 where
  pub State : Type 0
  pub is_set : Text → State → Bool
  pub is_up : State → Bool
  pub get_one : Text → State → Option Bool
  pub set_one : Text → ℕ → State → Option State
  pub get_up : (key : Text) (s : State) → is_up s ≡ true → get_one key s ≡ some (is_set key s)
  pub set_up :
      (key : Text) (seconds : ℕ) (s : State)
      → is_up s ≡ true
      → (s' : State) × (set_one key seconds s ≡ some s')
        × (is_up s' ≡ true)
        × (is_set key s' ≡ true)
        × ((other : Text) → other ≢ key → is_set other s' ≡ is_set other s)

abbrev pub revocation_key : Text → Text
revocation_key jti = codes "token:revoked:" ++ jti

pub record Session : Type 0 where
  pub access_token : Text
  pub refresh_token : Text

-- Why `refresh` throws: the token does not verify, was revoked, or its user is gone.
pub data Refusal : Type 0 where
  invalid_token token_revoked user_not_found : Refusal

pub data Outcome : Type 0 where
  refreshed : Session → Outcome
  refused : Refusal → Outcome

-- The parts that the service is built on; `role_name` spells a role.
pub record Service : Type 1 where
  pub access : Signer
  pub refresher : Signer
  pub redis : Revocations
  pub find_by_id : Text → Option User
  pub role_name : User → Text

module _ (v : Service) where
  open v use {access, refresher, redis, find_by_id, role_name}

  -- `isTokenRevoked`: a server that does not answer has revoked nothing.
  unfoldable pub is_token_revoked : Text → redis.State → Bool
  is_token_revoked jti s =
      if is_empty jti
      then false
      else elim (redis.get_one (revocation_key jti) s) [ none ↦ false | some b ↦ b ]

  -- `revokeRefreshToken`: an error of the server is dropped.
  unfoldable pub revoke_refresh_token : Text → redis.State → redis.State
  revoke_refresh_token jti s =
      if is_empty jti
      then s
      else elim (redis.set_one (revocation_key jti) refresher.ttl s) [ none ↦ s | some s' ↦ s' ]

  unfoldable pub payload_of : User → Text → TokenPayload
  payload_of u jti = record { user_id = u.id; email = u.email; role = role_name u; jti = jti }

  -- The two tokens that are minted; `uuid` is what `crypto.randomUUID` gives.
  unfoldable pub mint : ℕ → Text → User → Session
  mint now uuid u = record {
    access_token = access.sign now (payload_of u (codes ""));
    refresh_token = refresher.sign now (payload_of u uuid);
  }

  unfoldable pub refresh_user : ℕ → Text → Text → Option User → redis.State → Outcome × redis.State
  refresh_user now uuid jti none s = (refused user_not_found, s)
  refresh_user now uuid jti (some u) s = (refreshed (mint now uuid u), revoke_refresh_token jti s)

  unfoldable pub refresh_payload :
      ℕ → Text → Option TokenPayload → redis.State → Outcome × redis.State
  refresh_payload now uuid none s = (refused invalid_token, s)
  refresh_payload now uuid (some p) s =
      if is_token_revoked p.jti s
      then (refused token_revoked, s)
      else refresh_user now uuid p.jti (find_by_id p.user_id) s

  unfoldable pub refresh : ℕ → Text → Text → redis.State → Outcome × redis.State
  refresh now uuid token = refresh_payload now uuid (refresher.verify now token)

  -- `logout` drops every error.
  unfoldable pub logout_payload : Option TokenPayload → redis.State → redis.State
  logout_payload none s = s
  logout_payload (some p) s = revoke_refresh_token p.jti s

  unfoldable pub logout : ℕ → Text → redis.State → redis.State
  logout now token = logout_payload (refresher.verify now token)
