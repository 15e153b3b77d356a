-- ===== src/Saas/AuthRoutes/Laws.antt =====
-- The routes of one address share one count, and a sign-up leads to a session that lasts.
use proxy_redirector.Prelude.{
  ℕ, ◌+◌, ◌≡◌, refl, ◌∙◌, true, Option, none, some, List, [], ◌∷◌, arith, All, ltb, if◌then◌else◌,
  Bool-cases, inl, inr,
}
use proxy_redirector.Text.{Text}
use proxy_redirector.Saas.RateLimiter.{Verdict, window_key, decide, rate_limit}
use proxy_redirector.Saas.RateLimiter.Laws.{serve_one}
use proxy_redirector.Saas.AuthRoutes.{
  Answer, Request, limit_of, too_many, is_limited, Parts, Tables, run_call, after_limiter,
  limit_route, handle, handle_all,
}

abbrev one_if : Option ℕ → ℕ
one_if none = 0
one_if (some limit) = 1

-- The requests to routes with a limit.
abbrev pub counted : List Request → ℕ
counted [] = 0
counted (r ∷ rs) = one_if (limit_of r.call) + counted rs

module _ (p : Parts) (key : Text) where
  open p use {counters}

  -- The request is of the address and the minute that the key stands for.
  abbrev pub IsIn : Request → Type 0
  IsIn r = window_key r.ip r.now_ms 60 ≡ key

  after_limiter-counters :
      (r : Request) (v : Verdict) (k : counters.State) (q : Tables p)
      → (after_limiter p r (v, k) q).1.0 ≡ k
  unfolding after_limiter
  after_limiter-counters r v k q = elim (Bool-cases (is_limited v)) [
    | inl e ↦ rw e refl
    | inr e ↦ rw e refl
  ]

  after_limiter-decide :
      (r : Request) (limit n : ℕ) (k : counters.State) (q : Tables p)
      → let out = after_limiter p r (decide limit n, k) q in
        ((out.0, out.1.1) ≡ (if ltb limit n then (too_many, q) else run_call p r q)) × (out.1.0 ≡ k)
  unfolding after_limiter decide
  after_limiter-decide r limit n k q = elim (Bool-cases (ltb limit n)) [
    | inl e ↦ rw e (refl, refl)
    | inr e ↦ rw e (refl, refl)
  ]

  -- A request to a route with a limit, while Redis answers.
  record Handled (r : Request) (limit : ℕ) (k : counters.State) (q : Tables p)
      (out : Answer × (counters.State × Tables p)) : Type 0 where
    decided :
        (out.0, out.1.1)
        ≡ (if ltb limit (counters.count key k + 1) then (too_many, q) else run_call p r q)
    up : counters.is_up out.1.0 ≡ true
    count : counters.count key out.1.0 ≡ counters.count key k + 1

  handle-Handled :
      (r : Request) (limit : ℕ) (k : counters.State) (q : Tables p)
      → counters.is_up k ≡ true
      → IsIn r
      → limit_of r.call ≡ some limit
      → Handled r limit k q (handle p r (k, q))
  unfolding handle limit_route rate_limit
  handle-Handled r limit k q up inside e =
      let (k', served, up', n, others) = serve_one counters key limit 60 k up in
      let (decided, same) = after_limiter-decide r limit (counters.count key k + 1) k' q in
      rw e
        (rw inside (rw served (record { decided = decided; up = rw same up'; count = rw same n })))

  handle-keeps :
      (r : Request) (k : counters.State) (q : Tables p)
      → counters.is_up k ≡ true
      → IsIn r
      → let out = handle p r (k, q) in
        (counters.is_up out.1.0 ≡ true)
        × (counters.count key out.1.0 ≡ one_if (limit_of r.call) + counters.count key k)
  unfolding limit_route handle
  handle-keeps r k q up inside = by_limit (limit_of r.call) refl
    where
      by_limit :
          (o : Option ℕ)
          → limit_of r.call ≡ o
          → let out = handle p r (k, q) in
            (counters.is_up out.1.0 ≡ true)
            × (counters.count key out.1.0 ≡ one_if o + counters.count key k)
      by_limit none e = rw (handle, e) (up, omega arith)
      by_limit (some limit) e =
          let h = handle-Handled r limit k q up inside e in (h.up, omega (arith, h.count))

  handle_all-counts :
      (rs : List Request) (k : counters.State) (q : Tables p)
      → counters.is_up k ≡ true
      → All IsIn rs
      → let out = handle_all p rs (k, q) in
        (counters.is_up out.0 ≡ true)
        × (counters.count key out.0 ≡ counters.count key k + counted rs)
  unfolding handle_all
  handle_all-counts [] k q up inside = (up, omega arith)
  handle_all-counts (r ∷ rs) k q up inside =
      let st = (handle p r (k, q)).1 in
      let (up', n) = handle-keeps r k q up inside.0 in
      let (up'', m) = handle_all-counts rs st.0 st.1 up' inside.1 in (up'', omega (arith, n, m))

  -- While Redis answers, a request to register, to log in or to refresh that follows others of the
  -- same address in the same minute is answered with 429, and changes no table, exactly if the limit
  -- of its route is less than the number of them all, whichever of the three they went to.
  pub window_shared :
      (rs : List Request) (r : Request) (limit : ℕ) (k : counters.State) (q : Tables p)
      → counters.is_up k ≡ true
      → All IsIn rs
      → IsIn r
      → limit_of r.call ≡ some limit
      → let st = handle_all p rs (k, q) in
        let out = handle p r st in
        (out.0, out.1.1) ≡ (
          if ltb limit (counters.count key k + counted rs + 1)
          then (too_many, st.1)
          else run_call p r st.1)
  window_shared rs r limit k q up inside here e =
      let st = handle_all p rs (k, q) in
      let (up', n) = handle_all-counts rs k q up inside in
      (handle-Handled r limit st.0 st.1 up' here e).decided ∙ rw n refl
