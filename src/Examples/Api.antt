-- ===== src/Examples/Api.antt =====
-- The theorems on the API server as a whole, saas/src/app.ts, and on the routes for signing in.
use proxy_redirector.Prelude.{
  ℕ, ◌+◌, ◌/◌, ◌<◌, ◌≡◌, ◌≢◌, ◌⊎◌, refl, true, false, Option, none, some, [], ◌∷◌, arith, ltb,
  if◌then◌else◌, length,
}
use proxy_redirector.Text.{Text, codes}
use proxy_redirector.Saas.Domain.{User}
use proxy_redirector.Saas.Guards
use proxy_redirector.Saas.Guards.{TokenPayload}
use proxy_redirector.Saas.Idempotency.{is_ok}
use proxy_redirector.Saas.Pipeline
use proxy_redirector.Saas.Pipeline.{
  Route, me, overview, HttpRequest, Outcome, Parts, serve, dispatch, request_id_middleware,
  after_guard, guard_of, answer,
}
use proxy_redirector.Saas.Pipeline.Laws.{IsStored, replayed_to_any}
use proxy_redirector.Saas.Pipeline.Access.{no_token_no_effect}
use proxy_redirector.Saas.RateLimiter.{window_key}
use proxy_redirector.Saas.Tokens.{Service, mint, payload_of}
use proxy_redirector.Saas.AuthRoutes
use proxy_redirector.Saas.AuthRoutes.{
  Field, str, missing, Call, refresh_call, limit_of, account, public_user, tokens, failed, too_many,
  run_call, handle, handle_all,
}
use proxy_redirector.Saas.AuthRoutes.Laws.{counted, window_shared}
use proxy_redirector.Saas.AuthRoutes.SignUp.{
  register_body, login_body, request_at, answers_of, sign_up_session,
}
use proxy_redirector.Examples.Sessions.{service}
use proxy_redirector.Examples.Limits.{function_counters}
use proxy_redirector.Examples.Accounts.{user_map, salted, no_users, mail, with_user, new_user}
use proxy_redirector.Examples.Usage.{response_map, no_responses}

abbrev admin : TokenPayload
admin = record { user_id = codes "u1"; email = mail; role = codes "ADMIN"; jti = [] }

-- Every token is valid but the empty one; a handler counts its calls.
abbrev verify_any : Text → Option TokenPayload
verify_any [] = none
verify_any (c ∷ s) = some admin

abbrev parts : Parts
parts = record {
  cache = response_map;
  App = ℕ;
  verify = verify_any;
  refusal_json = λ status code. code;
  problem_json = λ problem. problem.code;
  handler = λ route req n. (Outcome.answers (record { status = 200; body = codes "{}" }), n + 1);
}

abbrev request_with : Text → Option Text → HttpRequest
request_with key authorization = record {
  route = overview;
  idempotency_key = key;
  request_id = [];
  authorization = authorization;
  original_url = codes "/api/v1/admin/overview";
  path = codes "/overview";
}

no_token_no_effect_example :
    let out = serve parts (codes "a-b") (request_with (codes "k") none) (3, no_responses) in
    (out.1 ≡ (3, no_responses))
    × ((out.0.0.status ≡ 401) ⊎ IsStored response_map ℕ 86400 (codes "k") no_responses out.0.0)
no_token_no_effect_example =
    no_token_no_effect parts (codes "a-b") (request_with (codes "k") none) 3 no_responses refl refl

key_given : codes "k" ≢ []
key_given h = ground arith

abbrev first_request : HttpRequest
first_request = request_with (codes "k") (some (codes "Bearer t"))

first_answered :
    (dispatch parts (request_id_middleware (codes "a-b") first_request) 3).0
    ≡ record { status = 200; body = codes "{}" }
unfolding dispatch guard_of Pipeline.route_guard Guards.admin_guard Guards.authenticate
    Guards.authenticate_header Guards.second_word Guards.until_space Guards.verify_word
    Guards.verified Guards.authorize after_guard answer request_id_middleware
first_answered = refl

first_ok : is_ok (dispatch parts (request_id_middleware (codes "a-b") first_request) 3).0 ≡ true
first_ok = rw first_answered refl

replayed_to_any_example :
    let first = serve parts (codes "a-b") first_request (3, no_responses) in
    let second = serve parts (codes "c") (request_with (codes "k") none) (9, first.1.1) in
    (second.0.0 ≡ first.0.0) × (second.1 ≡ (9, first.1.1))
replayed_to_any_example =
    replayed_to_any parts (codes "a-b") (codes "c") first_request (request_with (codes "k") none) 3
      9 no_responses key_given refl refl refl first_ok

abbrev long_password : Text
long_password = codes "password"

abbrev new_ann : User
new_ann = new_user mail (7 ∷ long_password)

abbrev ann_service : Service
ann_service = record service { find_by_id = λ id. some new_ann }

abbrev auth_parts : AuthRoutes.Parts
auth_parts = record {
  counters = function_counters;
  service = ann_service;
  users = user_map;
  hasher = salted;
  is_email = λ email. true;
}

abbrev no_revoked : ann_service.redis.State
no_revoked = some (λ key. false)

abbrev refreshing : AuthRoutes.Request
refreshing = request_at 5000 (codes "j") 7 (refresh_call (str (codes "t")))

abbrev logging_in : AuthRoutes.Request
logging_in = request_at 5000 (codes "j") 7 (login_body mail long_password)

login_limit : limit_of logging_in.call ≡ some 30
unfolding limit_of
login_limit = refl

abbrev already : Text → ℕ
already key = 29

window_shared_example :
    let st = handle_all auth_parts (refreshing ∷ []) (already, (no_users, no_revoked)) in
    let out = handle auth_parts logging_in st in
    (out.0, out.1.1) ≡ (
      if ltb 30 (already (window_key [] 5000 60) + counted (refreshing ∷ []) + 1)
      then (too_many, st.1)
      else run_call auth_parts logging_in st.1)
window_shared_example =
    window_shared auth_parts (window_key [] 5000 60) (refreshing ∷ []) logging_in 30 already
      (no_users, no_revoked) refl (refl, tt) refl login_limit

id_given : codes "j2" ≢ []
id_given h = ground arith

token_given : 0 < length (mint ann_service 6 (codes "j2") new_ann).refresh_token
unfolding mint payload_of
token_given = omega arith

sign_up_session_example :
    let token = (mint ann_service (6000 / 1000) (codes "j2") new_ann).refresh_token in
    answers_of auth_parts
      (request_at 5000 (codes "j1") 7 (register_body mail long_password)
        ∷ request_at 6000 (codes "j2") 7 (login_body mail long_password)
        ∷ request_at 7000 (codes "j3") 7 (refresh_call (str token))
        ∷ request_at 8000 (codes "j3") 7 (refresh_call (str token))
        ∷ [])
      (no_users, no_revoked)
    ≡ record {
      status = 201;
      body = account (public_user new_ann) (mint ann_service (5000 / 1000) (codes "j1") new_ann);
    }
      ∷ record {
        status = 200;
        body = account (public_user new_ann) (mint ann_service (6000 / 1000) (codes "j2") new_ann);
      }
      ∷ record { status = 200; body = tokens (mint ann_service (7000 / 1000) (codes "j3") new_ann) }
      ∷ failed 401 (codes "REFRESH_FAILED")
      ∷ []
sign_up_session_example =
    sign_up_session auth_parts 5000 6000 7000 8000 7 (codes "j1") (codes "j2") (codes "j3") mail
      long_password no_users (with_user mail (7 ∷ long_password) no_users) no_revoked new_ann refl
      (omega arith) refl refl refl refl refl id_given (omega arith) (omega arith) (omega arith)
      (omega arith) token_given
