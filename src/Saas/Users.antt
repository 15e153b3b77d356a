-- ===== src/Saas/Users.antt =====
-- The routes of saas/src/modules/users/users.routes.ts that change something, with the keys of
-- saas/src/utils/crypto.ts, and the sum of saas/src/modules/usage/usage.routes.ts. The tables, the
-- hash and the random bytes are parameters.
pub mod Laws
use proxy_redirector.Prelude.{
  ℕ, ◌+◌, ◌*◌, ◌/◌, ◌≡◌, Bool, true, false, not, ◌&&◌, Option, none, some, List, [], ◌∷◌, ◌++◌,
  take, filter, sum, if◌then◌else◌,
}
use proxy_redirector.Text.{Text, codes, or_text, text_eq}

-- A row of the table of keys.
pub record ApiKey : Type 0 where
  pub user_id : Text
  pub key_hash : Text
  pub prefix : Text
  pub name : Text

-- The `create` of Prisma, which throws by `none`, and a search by the hash.
pub record KeyTable : Type 1 where
  pub State : Type 0
  pub by_hash : Text → State → Option ApiKey
  pub create : ApiKey → State → Option State
  pub create_some :
      (k : ApiKey) (s s' : State)
      → create k s ≡ some s'
      → (by_hash k.key_hash s' ≡ some k)
        × ((other : Text) → text_eq other k.key_hash ≡ false → by_hash other s' ≡ by_hash other s)

pub record NewKey : Type 0 where
  pub key : Text
  pub prefix : Text
  pub hash : Text

-- `generateApiKey`: `hex` is what 24 random bytes are written as, `sha256` the digest.
unfoldable pub generate_api_key : (Text → Text) → Text → NewKey
generate_api_key sha256 hex =
    let raw_key = codes "prk_" ++ hex in
    record { key = raw_key; prefix = take 10 raw_key; hash = sha256 raw_key }

-- `hashKey`
abbrev pub hash_key : (Text → Text) → Text → Text
hash_key sha256 = sha256

-- A response of the routes, or an error that is passed on.
pub data Answer : Type 0 where
  created : Text → Text → Text → Answer
  revoked : Answer
  passed_on : Answer

-- `POST /api-keys`: the name is empty where it is missing.
unfoldable pub create_api_key :
    (t : KeyTable) → (Text → Text) → Text → Text → Text → t.State → Answer × t.State
unfolding generate_api_key
create_api_key t sha256 hex user_id given_name s =
    let name = or_text given_name (codes "Default API Key") in
    let made = generate_api_key sha256 hex in
    elim (t.create
      record { user_id = user_id; key_hash = made.hash; prefix = made.prefix; name = name } s) [
        | none ↦ (passed_on, s)
        | some s' ↦ (created made.key made.prefix name, s')
      ]

-- A row of the table of devices.
pub record Device : Type 0 where
  pub id : Text
  pub user_id : Text
  pub name : Text

-- The `deleteMany` of Prisma, with the number of rows that it has deleted.
pub record DeviceTable : Type 1 where
  pub State : Type 0
  pub rows : State → List Device
  pub delete_many : (Device → Bool) → State → Option (ℕ × State)
  pub delete_many_some :
      (p : Device → Bool) (s s' : State) (n : ℕ)
      → delete_many p s ≡ some (n, s')
      → rows s' ≡ filter (λ d. not (p d)) (rows s)

-- The `where` of the deletion.
unfoldable pub is_own : Text → Text → Device → Bool
is_own device_id user_id d = text_eq d.id device_id && text_eq d.user_id user_id

-- `DELETE /devices/:deviceId`: the number is not looked at.
unfoldable pub revoke_device : (t : DeviceTable) → Text → Text → t.State → Answer × t.State
revoke_device t device_id user_id s = elim (t.delete_many (is_own device_id user_id) s) [
  | none ↦ (passed_on, s)
  | some (n, s') ↦ (revoked, s')
]

-- `(totalBytes / (1024 * 1024 * 1024)).toFixed(2)` of the rows that were found, in hundredths, with
-- the rounding of the exact quotient.
unfoldable pub total_gb_hundredths : List ℕ → ℕ
total_gb_hundredths bytes = (200 * sum bytes + 1024 * 1024 * 1024) / (2 * (1024 * 1024 * 1024))
