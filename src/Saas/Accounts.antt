-- ===== src/Saas/Accounts.antt =====
-- `register` and `login` of saas/src/modules/auth/auth.service.ts. The tables of users and devices
-- and the hashing of passwords are parameters; the tokens are those of `Service`.
pub mod Laws
use proxy_redirector.Prelude.{ℕ, ◌≡◌, ◌≢◌, Bool, true, false, Option, none, some, if◌then◌else◌}
use proxy_redirector.Text.{Text, codes, is_empty, or_text}
use proxy_redirector.Saas.Domain.{User, user}
use proxy_redirector.Saas.Tokens.{Service, Session, mint}

-- `create` makes a user of the role USER and fails by `none`, as `upsert_device` does: the user's
-- id, the fingerprint, the device's name and its system.
pub record UserTable : Type 1 where
  pub State : Type 0
  pub find_by_email : Text → State → Option User
  pub create : Text → Text → State → Option (User × State)
  pub upsert_device : Text → Text → Text → Text → State → Option State
  pub create_some :
      (email hash : Text) (s s' : State) (u : User)
      → create email hash s ≡ some (u, s')
      → (u.email ≡ email)
        × (u.password_hash ≡ hash)
        × (u.role ≡ user)
        × (find_by_email email s' ≡ some u)
        × ((other : Text) → other ≢ email → find_by_email other s' ≡ find_by_email other s)

-- `hashPassword` with the salt that it draws, and `comparePassword`.
pub record Hasher : Type 0 where
  pub hash : ℕ → Text → Text
  pub compare : Text → Text → Bool
  pub compare_hash : (salt : ℕ) (password : Text) → compare password (hash salt password) ≡ true

-- `deviceMeta`, with empty texts for what is missing.
pub record DeviceMeta : Type 0 where
  pub fingerprint : Text
  pub device_name : Text
  pub device_os : Text

pub data Refusal : Type 0 where
  email_taken invalid_credentials database_error : Refusal

pub data Outcome : Type 0 where
  signed_in : User → Session → Outcome
  refused : Refusal → Outcome

module _ (v : Service) (t : UserTable) (h : Hasher) where
  open t use {State, find_by_email, create, upsert_device}

  -- Behind `prisma.user.create`.
  unfoldable pub created : ℕ → Text → State → Option (User × State) → Outcome × State
  created now uuid s none = (refused database_error, s)
  created now uuid s (some (u, s')) = (signed_in u (mint v now uuid u), s')

  unfoldable pub register : ℕ → Text → ℕ → Text → Text → State → Outcome × State
  register now uuid salt email password s = elim (find_by_email email s) [
    | some u ↦ (refused email_taken, s)
    | none ↦ created now uuid s (create email (h.hash salt password) s)
  ]

  -- `if (deviceMeta?.fingerprint) { … }`
  unfoldable pub note_device : User → DeviceMeta → State → Option State
  note_device u d s =
      if is_empty d.fingerprint
      then some s
      else upsert_device u.id d.fingerprint (or_text d.device_name (codes "Unknown Device"))
          (or_text d.device_os (codes "Unknown OS")) s

  unfoldable pub login_user : ℕ → Text → Text → DeviceMeta → User → State → Outcome × State
  login_user now uuid password d u s =
      if h.compare password u.password_hash
      then elim (note_device u d s) [
        | none ↦ (refused database_error, s)
        | some s' ↦ (signed_in u (mint v now uuid u), s')
      ]
      else (refused invalid_credentials, s)

  unfoldable pub login : ℕ → Text → Text → Text → DeviceMeta → State → Outcome × State
  login now uuid email password d s = elim (find_by_email email s) [
    | none ↦ (refused invalid_credentials, s)
    | some u ↦ login_user now uuid password d u s
  ]
