-- ===== src/Saas/Guards.antt =====
-- `authenticate` and `authorize` of saas/src/middlewares. The library that verifies a token is a
-- parameter: `verify` gives a token's payload, or `none` where it throws.
pub mod Laws
use proxy_redirector.Prelude.{
  ℕ, ◌≡◌, Bool, true, false, ◌||◌, Option, none, some, List, [], ◌∷◌, ◌==◌, if◌then◌else◌,
}
use proxy_redirector.Text.{Text, codes, starts_with, is_empty, text_eq}

-- `TokenPayload` of saas/src/utils/jwt.ts; an access token has no `jti`.
pub record TokenPayload : Type 0 where
  pub user_id : Text
  pub email : Text
  pub role : Text
  pub jti : Text

pub record Request : Type 0 where
  pub authorization : Option Text
  pub user : Option TokenPayload

-- A middleware answers with a status and an error's code, or passes the request on.
pub data Verdict : Type 0 where
  refuse : ℕ → Text → Verdict
  next : Request → Verdict

-- The text up to the first space.
unfoldable pub until_space : Text → Text
until_space [] = []
until_space (c ∷ s) = let rest = until_space s in if c == 32 then [] else c ∷ rest

-- `s.split(' ')[1]`: the text between the first and the second space.
unfoldable pub second_word : Text → Option Text
second_word [] = none
second_word (c ∷ s) = let rest = second_word s in if c == 32 then some (until_space s) else rest

module _ (verify : Text → Option TokenPayload) where
  unfoldable pub verified : Request → Option TokenPayload → Verdict
  verified req none = refuse 401 (codes "TOKEN_EXPIRED")
  verified req (some payload) = next (record req { user = some payload })

  unfoldable pub verify_word : Option Text → Option TokenPayload
  verify_word none = none
  verify_word (some token) = verify token

  unfoldable pub authenticate_header : Request → Option Text → Verdict
  authenticate_header req none = refuse 401 (codes "UNAUTHORIZED")
  authenticate_header req (some header) =
      if starts_with header (codes "Bearer ")
      then verified req (verify_word (second_word header))
      else refuse 401 (codes "UNAUTHORIZED")

  unfoldable pub authenticate : Request → Verdict
  authenticate req = authenticate_header req req.authorization

-- `roles.includes(role)`
abbrev pub includes_role : List Text → Text → Bool
includes_role [] role = false
includes_role (r ∷ rs) role = text_eq r role || includes_role rs role

unfoldable pub authorize : List Text → Request → Verdict
authorize roles req = elim req.user [
  | none ↦ refuse 401 (codes "UNAUTHORIZED")
  | some payload ↦
      if includes_role roles payload.role then next req else refuse 403 (codes "FORBIDDEN")
]

-- One middleware after the other.
abbrev pub then_check : Verdict → (Request → Verdict) → Verdict
then_check (refuse status code) k = refuse status code
then_check (next req) k = k req

-- `adminRouter.use(authenticate, authorize('ADMIN'))`
unfoldable pub admin_guard : (Text → Option TokenPayload) → Request → Verdict
admin_guard verify req = then_check (authenticate verify req) (authorize (codes "ADMIN" ∷ []))
