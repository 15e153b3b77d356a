-- ===== src/Saas/Guards/Laws.antt =====
-- Who passes the guards.
use proxy_redirector.Prelude.{
  ◌≡◌, ◌≢◌, refl, Option, none, some, [], ◌∷◌, ◌++◌, arith, All, Bool-cases, inl, inr,
  if◌then◌else◌,
}
use proxy_redirector.Text.{Text, codes, text_eq, starts_with}
use proxy_redirector.Saas.Guards.{
  TokenPayload, Request, refuse, next, until_space, second_word, verified, verify_word,
  authenticate, authenticate_header, authorize, admin_guard, then_check,
}

until_space-id : (t : Text) → All (λ c. c ≢ 32) t → until_space t ≡ t
unfolding until_space
until_space-id [] h = refl
until_space-id (c ∷ t) h = ground (arith, until_space-id t h.1)

-- The header that a client sends for a token.
abbrev pub bearer : Text → Text
bearer token = codes "Bearer " ++ token

-- A header made of `Bearer `, and a token without spaces, gives that token to the verification: the
-- request passes, with the token's payload, exactly if the token is valid, and is otherwise refused
-- with 401.
pub authenticate-bearer :
    (verify : Text → Option TokenPayload) (req : Request) (token : Text)
    → req.authorization ≡ some (bearer token)
    → All (λ c. c ≢ 32) token
    → authenticate verify req ≡ verified verify req (verify token)
unfolding authenticate authenticate_header second_word verify_word
authenticate-bearer verify req token h k = rw h (rw (until_space-id token k) refl)

-- A request passes the guard of the administration exactly if its token is valid and of the role
-- ADMIN; the request then carries the token's payload. A valid token of another role is refused
-- with 403.
pub admin_guard_lem :
    (verify : Text → Option TokenPayload) (req : Request) (token : Text) (payload : TokenPayload)
    → req.authorization ≡ some (bearer token)
    → All (λ c. c ≢ 32) token
    → verify token ≡ some payload
    → admin_guard verify req ≡ (
        if text_eq (codes "ADMIN") payload.role
        then next (record req { user = some payload })
        else refuse 403 (codes "FORBIDDEN"))
unfolding admin_guard verified authorize
admin_guard_lem verify req token payload h k v =
    rw (authenticate-bearer verify req token h k) (rw v (ground arith))

-- A request with no valid token never passes, whatever its header.
pub admin_guard_refuses :
    (verify : Text → Option TokenPayload) (req req' : Request)
    → ((token : Text) → verify token ≡ none)
    → admin_guard verify req ≢ next req'
unfolding admin_guard authenticate authenticate_header verified verify_word
admin_guard_refuses verify req req' h = by_header req.authorization
  where
    refused :
        (o : Option Text)
        → verified verify req (verify_word verify o) ≡ refuse 401 (codes "TOKEN_EXPIRED")
    refused none = refl
    refused (some token) = rw h

    by_header :
        (o : Option Text)
        → then_check (authenticate_header verify req o) (authorize (codes "ADMIN" ∷ [])) ≢ next req'
    by_header none = cc
    by_header (some header) = elim (Bool-cases (starts_with header (codes "Bearer "))) [
      | inl e ↦ rw e (rw (refused (second_word header)) (λ k. cc))
      | inr e ↦ rw e (λ k. cc)
    ]
