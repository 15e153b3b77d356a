-- ===== src/Saas/Pipeline/Access.antt =====
-- What a request can reach that presents no valid token, or one of another role.
use proxy_redirector.Prelude.{
  ◌≡◌, ◌⊎◌, refl, inl, inr, ap, Bool, true, false, Option, none, some, [], ◌∷◌, Bool-cases,
}
use proxy_redirector.Text.{Text, codes, starts_with}
use proxy_redirector.Saas.Guards.{
  TokenPayload, Verdict, refuse, next, authenticate, authenticate_header, verify_word, second_word,
  verified, authorize, admin_guard,
}
use proxy_redirector.Saas.Guards
use proxy_redirector.Saas.Idempotency.{Response}
use proxy_redirector.Saas.Pipeline.{
  Route, health, register, login, refresh, logout, me, create_api_key, revoke_device, plans,
  checkout, regions, connect, static_proxies, heartbeat, usage, overview, HttpRequest, route_guard,
  Parts, guard_of, serve,
}
use proxy_redirector.Saas.Pipeline.Laws.{refused_request, IsStored}

-- The routes that are meant for everybody.
abbrev pub is_public : Route → Bool
is_public health = true
is_public register = true
is_public login = true
is_public refresh = true
is_public logout = true
is_public plans = true
is_public heartbeat = true
is_public _ = false

-- The payload of the token that a header presents.
abbrev pub presented : (Text → Option TokenPayload) → Option Text → Option TokenPayload
presented verify none = none
presented verify (some header) = verify_word verify (second_word header)

-- The verdict refuses with 401.
abbrev Refuses : Verdict → Type 0
Refuses v = (code : Text) × (v ≡ refuse 401 code)

authenticate-Refuses :
    (verify : Text → Option TokenPayload) (r : Guards.Request)
    → presented verify r.authorization ≡ none
    → Refuses (authenticate verify r)
unfolding authenticate authenticate_header verified
authenticate-Refuses verify r = by_header r.authorization
  where
    by_header :
        (o : Option Text) → presented verify o ≡ none → Refuses (authenticate_header verify r o)
    by_header none h = (codes "UNAUTHORIZED", refl)
    by_header (some header) h = elim (Bool-cases (starts_with header (codes "Bearer "))) [
      | inl e ↦ rw e (rw h (codes "TOKEN_EXPIRED", refl))
      | inr e ↦ rw e (codes "UNAUTHORIZED", refl)
    ]

admin_guard-Refuses :
    (verify : Text → Option TokenPayload) (r : Guards.Request)
    → presented verify r.authorization ≡ none
    → Refuses (admin_guard verify r)
unfolding admin_guard
admin_guard-Refuses verify r h =
    let (code, e) = authenticate-Refuses verify r h in
    (code, ap (λ v. Guards.then_check v (authorize (codes "ADMIN" ∷ []))) e)

route_guard-Refuses :
    (verify : Text → Option TokenPayload) (route : Route) (r : Guards.Request)
    → is_public route ≡ false
    → presented verify r.authorization ≡ none
    → Refuses (route_guard verify route r)
unfolding route_guard
route_guard-Refuses verify health r k h = cc
route_guard-Refuses verify register r k h = cc
route_guard-Refuses verify login r k h = cc
route_guard-Refuses verify refresh r k h = cc
route_guard-Refuses verify logout r k h = cc
route_guard-Refuses verify plans r k h = cc
route_guard-Refuses verify heartbeat r k h = cc
route_guard-Refuses verify overview r k h = admin_guard-Refuses verify r h
route_guard-Refuses verify me r k h = authenticate-Refuses verify r h
route_guard-Refuses verify create_api_key r k h = authenticate-Refuses verify r h
route_guard-Refuses verify revoke_device r k h = authenticate-Refuses verify r h
route_guard-Refuses verify checkout r k h = authenticate-Refuses verify r h
route_guard-Refuses verify regions r k h = authenticate-Refuses verify r h
route_guard-Refuses verify connect r k h = authenticate-Refuses verify r h
route_guard-Refuses verify static_proxies r k h = authenticate-Refuses verify r h
route_guard-Refuses verify usage r k h = authenticate-Refuses verify r h

module _ (p : Parts) where
  open p use {cache, App, verify, refusal_json}

  -- A request that presents no valid token, to a route that is not for everybody, changes neither
  -- the application nor Redis, and is answered with 401, or by what Redis holds under its key.
  pub no_token_no_effect :
      (uuid : Text) (req : HttpRequest) (a : App) (s : cache.State)
      → is_public req.route ≡ false
      → presented verify req.authorization ≡ none
      → let out = serve p uuid req (a, s) in
        (out.1 ≡ (a, s))
        × ((out.0.0.status ≡ 401) ⊎ IsStored cache App 86400 req.idempotency_key s out.0.0)
  no_token_no_effect uuid req a s closed bad = by_guard (refusal req closed bad)
    where
      refusal :
          (req : HttpRequest)
          → is_public req.route ≡ false
          → presented verify req.authorization ≡ none
          → Refuses (guard_of p req)
      refusal req k h =
          unfold guard_of in
          route_guard-Refuses verify req.route
            (record { authorization = req.authorization; user = none }) k h

      by_answer :
          (r : Response) (code : Text)
          → (r ≡ record { status = 401; body = refusal_json 401 code })
            ⊎ IsStored cache App 86400 req.idempotency_key s r
          → (r.status ≡ 401) ⊎ IsStored cache App 86400 req.idempotency_key s r
      by_answer r code (inl e) = inl (ap (λ (x : Response). x.status) e)
      by_answer r code (inr stored) = inr stored

      by_guard :
          Refuses (guard_of p req)
          → let out = serve p uuid req (a, s) in
            (out.1 ≡ (a, s))
            × ((out.0.0.status ≡ 401) ⊎ IsStored cache App 86400 req.idempotency_key s out.0.0)
      by_guard (code, e) =
          let (same, kind, answered) = refused_request p uuid req 401 code a s e in
          (same, by_answer (serve p uuid req (a, s)).0.0 code answered)
