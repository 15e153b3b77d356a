-- ===== src/Saas/Pipeline/Laws.antt =====
-- What a request without a right to its route can reach, and which id an error carries.
use proxy_redirector.Prelude.{
  ℕ, ◌≡◌, ◌≢◌, ◌⊎◌, refl, inl, inr, subst, true, false, Option, none, some, [], ◌∷◌, arith,
  Bool-cases,
}
use proxy_redirector.Text.{Text, codes, is_empty, starts_with}
use proxy_redirector.Saas.Guards.{
  TokenPayload, Verdict, refuse, next, authenticate, authenticate_header, verify_word, second_word,
  verified, authorize, includes_role, admin_guard,
}
use proxy_redirector.Saas.Guards
use proxy_redirector.Saas.Errors
use proxy_redirector.Saas.Errors.{Thrown, domain, foreign, ProblemDetails, rfc7807_error_handler}
use proxy_redirector.Saas.Idempotency.{
  Response, ResponseCache, redis_key, is_ok, idempotency_guard, after_look, run_and_store,
  run_plain,
}
use proxy_redirector.Saas.Idempotency.Laws.{first_request, stored_request}
use proxy_redirector.Saas.Pipeline.{
  Route, health, register, login, refresh, logout, me, create_api_key, revoke_device, plans,
  checkout, regions, connect, static_proxies, heartbeat, usage, overview, HttpRequest, throws,
  request_id_middleware, route_guard, Parts, answer, after_guard, guard_of, dispatch, serve,
}

-- A refusal is never a success.
abbrev NoSuccess : Verdict → Type 0
NoSuccess (refuse status code) = (status ≡ 401) ⊎ (status ≡ 403)
NoSuccess (next r) = Unit

authenticate-NoSuccess :
    (verify : Text → Option TokenPayload) (r : Guards.Request) → NoSuccess (authenticate verify r)
unfolding authenticate authenticate_header verified
authenticate-NoSuccess verify r = by_header r.authorization
  where
    by_payload : (o : Option TokenPayload) → NoSuccess (verified verify r o)
    by_payload none = inl refl
    by_payload (some payload) = tt

    by_header : (o : Option Text) → NoSuccess (authenticate_header verify r o)
    by_header none = inl refl
    by_header (some header) = elim (Bool-cases (starts_with header (codes "Bearer "))) [
      | inl e ↦ rw e (by_payload (verify_word verify (second_word header)))
      | inr e ↦ rw e (inl refl)
    ]

authorize-NoSuccess :
    (v : Verdict) → NoSuccess v → NoSuccess (Guards.then_check v (authorize (codes "ADMIN" ∷ [])))
unfolding authorize
authorize-NoSuccess (refuse status code) h = h
authorize-NoSuccess (next r) h = by_user r.user refl
  where
    by_user : (o : Option TokenPayload) → r.user ≡ o → NoSuccess (authorize (codes "ADMIN" ∷ []) r)
    by_user none e = rw (e, authorize) (inl refl)
    by_user (some payload) e = elim (Bool-cases (includes_role (codes "ADMIN" ∷ []) payload.role)) [
      | inl m ↦ rw (e, authorize) (rw m tt)
      | inr m ↦ rw (e, authorize) (rw m (inr refl))
    ]

route_guard-NoSuccess :
    (verify : Text → Option TokenPayload) (route : Route) (r : Guards.Request)
    → NoSuccess (route_guard verify route r)
unfolding route_guard admin_guard
route_guard-NoSuccess verify health r = tt
route_guard-NoSuccess verify register r = tt
route_guard-NoSuccess verify login r = tt
route_guard-NoSuccess verify refresh r = tt
route_guard-NoSuccess verify logout r = tt
route_guard-NoSuccess verify plans r = tt
route_guard-NoSuccess verify heartbeat r = tt
route_guard-NoSuccess verify overview r =
    authorize-NoSuccess (authenticate verify r) (authenticate-NoSuccess verify r)
route_guard-NoSuccess verify me r = authenticate-NoSuccess verify r
route_guard-NoSuccess verify create_api_key r = authenticate-NoSuccess verify r
route_guard-NoSuccess verify revoke_device r = authenticate-NoSuccess verify r
route_guard-NoSuccess verify checkout r = authenticate-NoSuccess verify r
route_guard-NoSuccess verify regions r = authenticate-NoSuccess verify r
route_guard-NoSuccess verify connect r = authenticate-NoSuccess verify r
route_guard-NoSuccess verify static_proxies r = authenticate-NoSuccess verify r
route_guard-NoSuccess verify usage r = authenticate-NoSuccess verify r

module _ (c : ResponseCache) (App : Type 0) (ttl : ℕ) where
  open c use {State, get}

  -- Something that Redis holds under a key is the response.
  abbrev pub IsStored : Text → State → Response → Type 0
  IsStored key s r = get (redis_key key) s ≡ some (some r)

  -- A handler that refuses, behind the guard of the keys.
  idle_handler :
      (handler : App → Response × App) (key : Text) (a : App) (s : State) (r : Response)
      → handler a ≡ (r, a)
      → is_ok r ≡ false
      → let out = idempotency_guard c App handler ttl key (a, s) in
        (out.1 ≡ (a, s)) × ((out.0 ≡ r) ⊎ IsStored key s out.0)
  unfolding idempotency_guard after_look run_and_store run_plain
  idle_handler handler key a s r e bad = elim (Bool-cases (is_empty key)) [
    | inl no_key ↦ rw no_key (rw e (refl, inl refl))
    | inr has_key ↦ rw has_key (by_look (get (redis_key key) s) refl)
  ]
    where
      by_look :
          (o : Option (Option Response))
          → get (redis_key key) s ≡ o
          → let out = after_look c App handler ttl key o (a, s) in
            (out.1 ≡ (a, s)) × ((out.0 ≡ r) ⊎ IsStored key s out.0)
      by_look none k = rw e (refl, inl refl)
      by_look (some none) k = rw e (rw bad (refl, inl refl))
      by_look (some (some k)) q = (refl, inr q)

problem_names :
    (e : Thrown) (q : Errors.Request)
    → is_empty q.request_id ≡ false
    → (rfc7807_error_handler e q).body.request_id ≡ q.request_id
unfolding rfc7807_error_handler
problem_names (domain x message) q h = rw h refl
problem_names (foreign message code status_code status) q h = rw h refl

id_given :
    (uuid : Text) (req : HttpRequest) → is_empty (request_id_middleware uuid req).request_id ≡ false
unfolding request_id_middleware
id_given uuid req = elim (Bool-cases (is_empty req.request_id)) [
  | inl none_yet ↦ rw none_yet refl
  | inr there ↦ rw there there
]

module _ (p : Parts) where
  open p use {cache, App, verify, refusal_json, handler}

  -- A request that the guard of its route refuses changes neither the application nor Redis, and is
  -- answered by the refusal, with 401 or 403, or by what Redis holds under its key.
  pub refused_request :
      (uuid : Text) (req : HttpRequest) (status : ℕ) (code : Text) (a : App) (s : cache.State)
      → guard_of p req ≡ refuse status code
      → let out = serve p uuid req (a, s) in
        (out.1 ≡ (a, s))
        × ((status ≡ 401) ⊎ (status ≡ 403))
        × ((out.0.0 ≡ record { status = status; body = refusal_json status code })
            ⊎ IsStored cache App 86400 req.idempotency_key s out.0.0)
  unfolding serve dispatch guard_of request_id_middleware after_guard
  refused_request uuid req status code a s h =
      let r' : Guards.Request = record { authorization = req.authorization; user = none } in
      let bad : NoSuccess (refuse status code) =
        subst (λ v. NoSuccess v) h (route_guard-NoSuccess verify req.route r') in
      let idle =
        idle_handler cache App 86400 (dispatch p (request_id_middleware uuid req))
          req.idempotency_key a s (record { status = status; body = refusal_json status code })
          (rw h refl) (ground arith) in
      (idle.0, bad, idle.1)

  -- If a request with a new key is answered with success, any later request with that key gets the
  -- same answer, whatever its route and its token, and reaches no handler.
  pub replayed_to_any :
      (uuid uuid' : Text) (req req' : HttpRequest) (a later : App) (s : cache.State)
      → req.idempotency_key ≢ []
      → req'.idempotency_key ≡ req.idempotency_key
      → cache.is_up s ≡ true
      → cache.stored (redis_key req.idempotency_key) s ≡ none
      → is_ok (dispatch p (request_id_middleware uuid req) a).0 ≡ true
      → let first = serve p uuid req (a, s) in
        let second = serve p uuid' req' (later, first.1.1) in
        (second.0.0 ≡ first.0.0) × (second.1 ≡ (later, first.1.1))
  unfolding serve request_id_middleware
  replayed_to_any uuid uuid' req req' a later s ne same up fresh ok =
      let handler' = dispatch p (request_id_middleware uuid req) in
      let e = first_request cache App handler' 86400 req.idempotency_key a s ne up fresh ok in
      let (still, there) = cache.set_up (redis_key req.idempotency_key) (handler' a).0 86400 s up in
      let e' =
        stored_request cache App (dispatch p (request_id_middleware uuid' req')) 86400
          req.idempotency_key later _ _ ne still there in
      rw same (rw e (rw e' (refl, refl)))

  -- The error of a handler is answered, where no key was given, by the problem of that error, whose
  -- request id is the one in the response's header and is not empty.
  pub error_names_request :
      (uuid : Text) (req : HttpRequest) (r : Guards.Request) (e : Thrown) (a a' : App)
      (s : cache.State)
      → req.idempotency_key ≡ []
      → guard_of p req ≡ next r
      → handler req.route r a ≡ (throws e, a')
      → let out = serve p uuid req (a, s) in
        let problem =
          rfc7807_error_handler e
            record { request_id = out.0.1; original_url = req.original_url; path = req.path } in
        (out.0.0 ≡ record { status = problem.status; body = p.problem_json problem.body })
        × (problem.body.request_id ≡ out.0.1)
        × (out.0.1 ≢ [])
        × (out.1 ≡ (a', s))
  unfolding serve dispatch guard_of request_id_middleware after_guard answer idempotency_guard
      after_look run_plain
  error_names_request uuid req r e a a' s no_key passed threw =
      let given : is_empty (request_id_middleware uuid req).request_id ≡ false =
        id_given uuid req in
      rw (no_key)
        (rw (passed) (rw (threw) (refl, problem_names e _ given, λ k. cc (rw k at given), refl)))
