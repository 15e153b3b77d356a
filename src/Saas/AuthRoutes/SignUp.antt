-- ===== src/Saas/AuthRoutes/SignUp.antt =====
-- A user signs up, logs in, refreshes once and logs out: the answers of the routes in turn.
use proxy_redirector.Prelude.{
  ℕ, Bool, ◌/◌, ◌+◌, ◌≤◌, ◌<◌, ◌≡◌, ◌≢◌, refl, true, false, none, some, List, [], ◌∷◌, arith,
  length,
}
use proxy_redirector.Text.{Text, codes}
use proxy_redirector.Saas.Domain.{User}
use proxy_redirector.Saas.Accounts.{register, login}
use proxy_redirector.Saas.Accounts.Laws.{no_device, register-login}
use proxy_redirector.Saas.Tokens.{mint, payload_of, revocation_key, refresh}
use proxy_redirector.Saas.Tokens.Laws.{refresh_once, verify-mint}
use proxy_redirector.Saas.AuthRoutes.{
  missing, str, account, public_user, tokens, Answer, failed, Request, Call, register_call,
  login_call, refresh_call, register_answer, login_answer, refresh_answer, parse_register,
  parse_login, parse_refresh, Parts, Tables, register_route, login_route, refresh_route, run_call,
}

-- The bodies that a client sends.
abbrev pub register_body : Text → Text → Call
register_body email password =
    register_call record { email = str email; password = str password; name = missing }

abbrev pub login_body : Text → Text → Call
login_body email password = login_call record {
  email = str email;
  password = str password;
  fingerprint = missing;
  device_name = missing;
  device_os = missing;
}

abbrev pub request_at : ℕ → Text → ℕ → Call → Request
request_at now_ms uuid salt call = record {
  ip = [];
  now_ms = now_ms;
  uuid = uuid;
  salt = salt;
  call = call;
}

-- The answers to requests one after the other, behind the rate limiter.
module _ (p : Parts) where
  abbrev pub answers_of : List Request → Tables p → List Answer
  answers_of [] q = []
  answers_of (r ∷ rs) q = let (a, q') = run_call p r q in a ∷ answers_of rs q'

register_parsed :
    (is_email : Text → Bool) (email password : Text)
    → is_email email ≡ true
    → 8 ≤ length password
    → parse_register is_email record { email = str email; password = str password; name = missing }
      ≡ some (email, password)
unfolding parse_register
register_parsed is_email email password valid long = ground arith

login_parsed :
    (is_email : Text → Bool) (email password : Text)
    → is_email email ≡ true
    → 8 ≤ length password
    → parse_login is_email record {
      email = str email;
      password = str password;
      fingerprint = missing;
      device_name = missing;
      device_os = missing;
    }
      ≡ some (email, (password, no_device))
unfolding parse_login
login_parsed is_email email password valid long = ground arith

module _ (p : Parts) where
  open p use {service, users, hasher, is_email}

  register-run :
      (now salt : ℕ) (uuid email password : Text) (q : Tables p)
      → is_email email ≡ true
      → 8 ≤ length password
      → run_call p (request_at now uuid salt (register_body email password)) q ≡ (
        register_answer (register service users hasher (now / 1000) uuid salt email password q.0).0,
        ((register service users hasher (now / 1000) uuid salt email password q.0).1, q.1),
      )
  unfolding run_call register_route
  register-run now salt uuid email password q valid long =
      rw (register_parsed is_email email password valid long) refl

  login-run :
      (now salt : ℕ) (uuid email password : Text) (q : Tables p)
      → is_email email ≡ true
      → 8 ≤ length password
      → run_call p (request_at now uuid salt (login_body email password)) q ≡ (
        login_answer (login service users hasher (now / 1000) uuid email password no_device q.0).0,
        ((login service users hasher (now / 1000) uuid email password no_device q.0).1, q.1),
      )
  unfolding run_call login_route
  login-run now salt uuid email password q valid long =
      rw (login_parsed is_email email password valid long) refl

  refresh-run :
      (now salt : ℕ) (uuid token : Text) (q : Tables p)
      → 0 < length token
      → let out = refresh service (now / 1000) uuid token q.1 in
        run_call p (request_at now uuid salt (refresh_call (str token))) q
        ≡ (refresh_answer out.0, (q.0, out.1))
  unfolding run_call refresh_route parse_refresh
  refresh-run now salt uuid token q some_text =
      let parsed : parse_refresh (str token) ≡ some token = ground arith in rw parsed refl

  -- A valid address that is free and a password of at least eight characters: the route for signing
  -- up makes the user and answers 201; logging in by the same answers 200, with the same user; the
  -- refresh token of that log-in, sent before it expires, gives new tokens; and sent once more it is
  -- refused with 401. This is while Redis answers and the token's id was never revoked, where the
  -- database makes the user and finds it by its id, and behind the rate limiter.
  pub sign_up_session :
      (n1 n2 n3 n4 salt : ℕ) (uuid uuid' uuid'' email password : Text) (t t' : users.State)
      (s : service.redis.State) (u : User)
      → is_email email ≡ true
      → 8 ≤ length password
      → users.find_by_email email t ≡ none
      → users.create email (hasher.hash salt password) t ≡ some (u, t')
      → service.find_by_id u.id ≡ some u
      → service.redis.is_up s ≡ true
      → service.redis.is_set (revocation_key uuid') s ≡ false
      → uuid' ≢ []
      → n2 / 1000 ≤ n3 / 1000
      → n3 / 1000 < n2 / 1000 + service.refresher.ttl
      → n2 / 1000 ≤ n4 / 1000
      → n4 / 1000 < n2 / 1000 + service.refresher.ttl
      → 0 < length (mint service (n2 / 1000) uuid' u).refresh_token
      → let token = (mint service (n2 / 1000) uuid' u).refresh_token in
        answers_of p
          (request_at n1 uuid salt (register_body email password)
            ∷ request_at n2 uuid' salt (login_body email password)
            ∷ request_at n3 uuid'' salt (refresh_call (str token))
            ∷ request_at n4 uuid'' salt (refresh_call (str token))
            ∷ [])
          (t, s)
        ≡ record { status = 201; body = account (public_user u) (mint service (n1 / 1000) uuid u) }
          ∷ record {
            status = 200;
            body = account (public_user u) (mint service (n2 / 1000) uuid' u);
          }
          ∷ record { status = 200; body = tokens (mint service (n3 / 1000) uuid'' u) }
          ∷ failed 401 (codes "REFRESH_FAILED")
          ∷ []
  unfolding register_answer login_answer refresh_answer payload_of
  sign_up_session n1 n2 n3 n4 salt uuid uuid' uuid'' email password t t' s u valid long free made
        known up unset ne from until from' until' some_text =
      let token = (mint service (n2 / 1000) uuid' u).refresh_token in
      let (registered, role, logged_in, again) =
        register-login service users hasher (n1 / 1000) (n2 / 1000) salt salt uuid uuid' email
          password password t t' u free made in
      let (first, second) =
        refresh_once service (n3 / 1000) (n4 / 1000) uuid'' uuid'' token
          (payload_of service u uuid') u s up
          (verify-mint service (n2 / 1000) (n3 / 1000) uuid' u from until)
          (verify-mint service (n2 / 1000) (n4 / 1000) uuid' u from' until') ne unset known in
      rw (register-run n1 salt uuid email password (t, s) valid long) (
        rw registered (
          rw (login-run n2 salt uuid' email password (t', s) valid long) (
            rw logged_in (
              rw (refresh-run n3 salt uuid'' token (t', s) some_text) (
                rw first (
                  rw
                    (refresh-run n4 salt uuid'' token
                      (t', (refresh service (n3 / 1000) uuid'' token s).1) some_text)
                    (rw second refl)))))))
