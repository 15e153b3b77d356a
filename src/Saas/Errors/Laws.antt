-- ===== src/Saas/Errors/Laws.antt =====
-- What a client learns from an error.
use proxy_redirector.Prelude.{ℕ, ◌≤◌, ◌≡◌, refl, arith}
use proxy_redirector.Text.{Text}
use proxy_redirector.Saas.Errors.{
  DomainException, domain, foreign, Request, rfc7807_error_handler, status_code, code,
}

-- Two errors that are no domain exceptions get the same response: nothing of the error is shown.
pub foreign_hidden :
    (m c m' c' : Text) (s t s' t' : ℕ) (req : Request)
    → rfc7807_error_handler (foreign m c s t) req ≡ rfc7807_error_handler (foreign m' c' s' t') req
unfolding rfc7807_error_handler
foreign_hidden m c m' c' s t s' t' req = refl

-- A domain exception is answered with its own status, repeated in the body, which is one of a
-- client's errors or 503, and with its code and message.
pub domain_shown :
    (e : DomainException) (message : Text) (req : Request)
    → ((rfc7807_error_handler (domain e message) req).status
        ≡ (rfc7807_error_handler (domain e message) req).body.status)
      × ((rfc7807_error_handler (domain e message) req).body.detail ≡ message)
      × ((rfc7807_error_handler (domain e message) req).body.code ≡ code e)
      × (400 ≤ (rfc7807_error_handler (domain e message) req).status)
      × ((rfc7807_error_handler (domain e message) req).status ≤ 503)
unfolding rfc7807_error_handler status_code
domain_shown e message req = (refl, refl, refl, ground arith, ground arith)
