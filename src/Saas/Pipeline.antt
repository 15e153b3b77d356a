-- ===== src/Saas/Pipeline.antt =====
-- The application of saas/src/app.ts: what a request passes, in order. The handlers of the routes,
-- with the rate limiter and the validation before some of them, are a parameter here, so what is
-- shown holds for all of them; so are the verification of tokens and the JSON of bodies. CORS and
-- the parsing of bodies are left out.
pub mod Laws
pub mod Access
use proxy_redirector.Prelude.{ℕ, Option, none, some, List, [], ◌∷◌, ◌++◌}
use proxy_redirector.Text.{Text, codes, or_text}
use proxy_redirector.Text.Trim.{split}
use proxy_redirector.Saas.Guards.{TokenPayload, Verdict, refuse, next, authenticate, admin_guard}
use proxy_redirector.Saas.Guards
use proxy_redirector.Saas.Errors
use proxy_redirector.Saas.Errors.{Thrown, ProblemDetails, rfc7807_error_handler}
use proxy_redirector.Saas.Idempotency.{Response, ResponseCache, idempotency_guard}

-- The routes of the routers that `createApp` mounts.
pub data Route : Type 0 where
  health : Route
  register login refresh logout : Route
  me create_api_key revoke_device : Route
  plans checkout : Route
  regions connect static_proxies : Route
  heartbeat usage overview : Route

-- The headers that the middlewares read, empty where one is missing, and the addresses.
pub record HttpRequest : Type 0 where
  pub route : Route
  pub idempotency_key : Text
  pub request_id : Text
  pub authorization : Option Text
  pub original_url : Text
  pub path : Text

-- How a handler ends: it answers, or it calls `next(err)`.
pub data Outcome : Type 0 where
  answers : Response → Outcome
  throws : Thrown → Outcome

-- `uuid.replace(/-/g, '')`
abbrev pub concat : List Text → Text
concat [] = []
concat (s ∷ ss) = s ++ concat ss

-- `requestIdMiddleware`; `uuid` is what `crypto.randomUUID` gives.
unfoldable pub request_id_middleware : Text → HttpRequest → HttpRequest
request_id_middleware uuid req = record req {
  request_id = or_text req.request_id (codes "req_" ++ concat (split b'-' uuid));
}

-- The middlewares of the router and of the route.
unfoldable pub route_guard : (Text → Option TokenPayload) → Route → Guards.Request → Verdict
route_guard verify health r = next r
route_guard verify register r = next r
route_guard verify login r = next r
route_guard verify refresh r = next r
route_guard verify logout r = next r
route_guard verify me r = authenticate verify r
route_guard verify create_api_key r = authenticate verify r
route_guard verify revoke_device r = authenticate verify r
route_guard verify plans r = next r
route_guard verify checkout r = authenticate verify r
route_guard verify regions r = authenticate verify r
route_guard verify connect r = authenticate verify r
route_guard verify static_proxies r = authenticate verify r
route_guard verify heartbeat r = next r
route_guard verify usage r = authenticate verify r
route_guard verify overview r = admin_guard verify r

-- What the pipeline is built on: the verification of access tokens, the JSON texts, and the handlers.
pub record Parts : Type 1 where
  pub cache : ResponseCache
  pub App : Type 0
  pub verify : Text → Option TokenPayload
  pub refusal_json : ℕ → Text → Text
  pub problem_json : ProblemDetails → Text
  pub handler : Route → Guards.Request → App → Outcome × App

module _ (p : Parts) where
  open p use {cache, App, verify, refusal_json, problem_json, handler}

  -- The error handler behind all routers.
  unfoldable pub answer : HttpRequest → Outcome → Response
  answer req (answers r) = r
  answer req (throws e) =
      let problem =
        rfc7807_error_handler e record {
          request_id = req.request_id;
          original_url = req.original_url;
          path = req.path;
        } in
      record { status = problem.status; body = problem_json problem.body }

  unfoldable pub after_guard : HttpRequest → Verdict → App → Response × App
  unfolding answer
  after_guard req (refuse status code) a =
      (record { status = status; body = refusal_json status code }, a)
  after_guard req (next r) a = let (o, a') = handler req.route r a in (answer req o, a')

  unfoldable pub guard_of : HttpRequest → Verdict
  unfolding route_guard
  guard_of req =
      route_guard verify req.route (record { authorization = req.authorization; user = none })

  unfoldable pub dispatch : HttpRequest → App → Response × App
  unfolding after_guard guard_of
  dispatch req a = after_guard req (guard_of req) a

  -- `createApp`: the response, and behind it its header `X-Request-Id` and the state of the
  -- application and of Redis.
  unfoldable pub serve :
      Text → HttpRequest → App × cache.State → (Response × Text) × (App × cache.State)
  unfolding request_id_middleware dispatch
  serve uuid req q =
      let req' = request_id_middleware uuid req in
      let (r, q') = idempotency_guard cache App (dispatch req') 86400 req'.idempotency_key q in
      ((r, req'.request_id), q')
