-- ===== src/Saas/Idempotency/Laws.antt =====
-- A request that is repeated with its key is answered from the cache.
use proxy_redirector.Prelude.{ℕ, ◌≡◌, ◌≢◌, refl, true, false, none, some, [], ◌∷◌}
use proxy_redirector.Text.{Text, is_empty}
use proxy_redirector.Saas.Idempotency.{
  Response, ResponseCache, redis_key, is_ok, idempotency_guard, after_look, run_and_store,
}

pub not_empty : (key : Text) → key ≢ [] → is_empty key ≡ false
not_empty [] ne = absurd (ne refl)
not_empty (k ∷ ks) ne = refl

module _ (c : ResponseCache) (App : Type 0) (handler : App → Response × App) (ttl : ℕ) where
  open c use {State, stored, is_up, get_up, set_up, set}

  -- Where Redis answers, a first request with a key runs the handler, and stores its response if
  -- that is a success.
  pub first_request :
      (key : Text) (a : App) (s : State)
      → key ≢ []
      → is_up s ≡ true
      → stored (redis_key key) s ≡ none
      → is_ok (handler a).0 ≡ true
      → idempotency_guard c App handler ttl key (a, s)
        ≡ ((handler a).0, ((handler a).1, set (redis_key key) (handler a).0 ttl s))
  unfolding idempotency_guard after_look run_and_store
  first_request key a s ne up fresh ok =
      rw (not_empty key ne, get_up (redis_key key) s up) (rw fresh (rw ok refl))

  pub stored_request :
      (key : Text) (a : App) (s : State) (r : Response)
      → key ≢ []
      → is_up s ≡ true
      → stored (redis_key key) s ≡ some r
      → idempotency_guard c App handler ttl key (a, s) ≡ (r, (a, s))
  unfolding idempotency_guard after_look
  stored_request key a s r ne up there =
      rw (not_empty key ne, get_up (redis_key key) s up) (rw there refl)

  -- Where Redis answers, a request with a new key whose handler succeeds runs the handler once: the
  -- same request again, in whatever state the application then is, is answered by the same
  -- response, and changes neither the application nor the cache.
  pub repeated_request :
      (key : Text) (a later : App) (s : State)
      → key ≢ []
      → is_up s ≡ true
      → stored (redis_key key) s ≡ none
      → is_ok (handler a).0 ≡ true
      → let first = idempotency_guard c App handler ttl key (a, s) in
        (first.0 ≡ (handler a).0)
        × (first.1.0 ≡ (handler a).1)
        × (idempotency_guard c App handler ttl key (later, first.1.1)
            ≡ (first.0, (later, first.1.1)))
  repeated_request key a later s ne up fresh ok =
      let e = first_request key a s ne up fresh ok in
      let (still, there) = set_up (redis_key key) (handler a).0 ttl s up in
      rw e (refl, refl, stored_request key later _ _ ne still there)
