-- ===== src/Saas/Idempotency/Race.antt =====
-- Two requests with one key at a time.
use proxy_redirector.Prelude.{ℕ, ◌≡◌, ◌≢◌, refl, true, none, some, []}
use proxy_redirector.Text.{Text}
use proxy_redirector.Saas.Idempotency.{
  Response, ResponseCache, redis_key, is_ok, idempotency_guard, after_look, run_and_store,
}
use proxy_redirector.Saas.Idempotency.Laws.{stored_request}

module _ (c : ResponseCache) (App : Type 0) (handler : App → Response × App) (ttl : ℕ) where
  open c use {State, stored, is_up, get, get_up, set, set_up}

  -- A request that has found nothing, and whose handler succeeds, leaves its response under the key,
  -- whatever stands there by then.
  run_new :
      (key : Text) (a : App) (s : State)
      → is_ok (handler a).0 ≡ true
      → after_look c App handler ttl key (some none) (a, s)
        ≡ ((handler a).0, ((handler a).1, set (redis_key key) (handler a).0 ttl s))
  unfolding after_look run_and_store
  run_new key a s ok = rw ok refl

  -- If two requests with one new key both look before the first is answered, and the handler succeeds
  -- for both, it runs twice, the second time in the state that the first has left. Each gets its own
  -- response, and any later request with the key is answered by that of the second, which the first
  -- has not got.
  pub both_run :
      (key : Text) (a later : App) (s : State)
      → key ≢ []
      → is_up s ≡ true
      → stored (redis_key key) s ≡ none
      → is_ok (handler a).0 ≡ true
      → is_ok (handler (handler a).1).0 ≡ true
      → let looked = get (redis_key key) s in
        let first = after_look c App handler ttl key looked (a, s) in
        let second = after_look c App handler ttl key looked first.1 in
        (first.0 ≡ (handler a).0)
        × (second.0 ≡ (handler (handler a).1).0)
        × (second.1.0 ≡ (handler (handler a).1).1)
        × (idempotency_guard c App handler ttl key (later, second.1.1)
            ≡ (second.0, (later, second.1.1)))
  both_run key a later s ne up fresh ok ok' =
      let a1 = (handler a).1 in
      let s1 = set (redis_key key) (handler a).0 ttl s in
      let (up1, there1) = set_up (redis_key key) (handler a).0 ttl s up in
      let (up2, there2) = set_up (redis_key key) (handler a1).0 ttl s1 up1 in
      let replay = stored_request c App handler ttl key later _ _ ne up2 there2 in
      rw (get_up (redis_key key) s up)
        (rw fresh (rw (run_new key a s ok) (rw (run_new key a1 s1 ok') (refl, refl, refl, replay))))
