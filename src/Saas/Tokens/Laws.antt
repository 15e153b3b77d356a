-- ===== src/Saas/Tokens/Laws.antt =====
-- A refresh token serves once, and not after the logout, while Redis answers.
use proxy_redirector.Prelude.{
  ℕ, ◌+◌, ◌≤◌, ◌<◌, ◌≡◌, ◌≢◌, refl, true, false, Option, none, some, Bool, [], ◌∷◌, ◌∙◌, ap,
}
use proxy_redirector.Text.{Text}
use proxy_redirector.Saas.Domain.{User}
use proxy_redirector.Saas.Guards.{TokenPayload}
use proxy_redirector.Saas.Tokens.{
  Service, revocation_key, token_revoked, refreshed, refused, is_token_revoked,
  revoke_refresh_token, payload_of, mint, refresh_user, refresh_payload, refresh, logout,
  logout_payload,
}

module _ (v : Service) where
  open v use {refresher, redis, find_by_id}

  -- Revoking takes effect at once.
  revoke_effect :
      (jti : Text) (s : redis.State)
      → redis.is_up s ≡ true
      → jti ≢ []
      → (redis.is_up (revoke_refresh_token v jti s) ≡ true)
        × (is_token_revoked v jti (revoke_refresh_token v jti s) ≡ true)
  unfolding is_token_revoked revoke_refresh_token
  revoke_effect [] s up ne = absurd (ne refl)
  revoke_effect (c ∷ jti) s up ne =
      let (s', set, up', is_set, others) =
        redis.set_up (revocation_key (c ∷ jti)) refresher.ttl s up in
      let read = redis.get_up (revocation_key (c ∷ jti)) s' up' in
      (rw set up', rw (set) (rw (read, is_set)))

  refused_if_revoked :
      (now : ℕ) (uuid token : Text) (p : TokenPayload) (s : redis.State)
      → refresher.verify now token ≡ some p
      → is_token_revoked v p.jti s ≡ true
      → refresh v now uuid token s ≡ (refused token_revoked, s)
  unfolding refresh refresh_payload
  refused_if_revoked now uuid token p s valid revoked = rw (valid, refresh_payload) (rw revoked)

  not_revoked :
      (jti : Text) (s : redis.State) (o : Option Bool)
      → redis.get_one (revocation_key jti) s ≡ o
      → o ≢ some true
      → is_token_revoked v jti s ≡ false
  unfolding is_token_revoked
  not_revoked [] s o e ne = refl
  not_revoked (c ∷ jti) s none e ne = rw e
  not_revoked (c ∷ jti) s (some true) e ne = absurd (ne refl)
  not_revoked (c ∷ jti) s (some false) e ne = rw e

  accepted :
      (now : ℕ) (uuid token : Text) (p : TokenPayload) (u : User) (s : redis.State)
      → refresher.verify now token ≡ some p
      → is_token_revoked v p.jti s ≡ false
      → find_by_id p.user_id ≡ some u
      → refresh v now uuid token s ≡ (refreshed (mint v now uuid u), revoke_refresh_token v p.jti s)
  unfolding refresh refresh_payload refresh_user
  accepted now uuid token p u s valid fresh found =
      rw (valid, refresh_payload) (rw fresh (rw (found, refresh_user)))

  -- While Redis answers, a valid refresh token with an id, not revoked and of a user that exists,
  -- gives a new session once: refreshing again by the same token, at any time at which it would
  -- still verify, is refused because it was revoked.
  pub refresh_once :
      (now later : ℕ) (uuid uuid' token : Text) (p : TokenPayload) (u : User) (s : redis.State)
      → redis.is_up s ≡ true
      → refresher.verify now token ≡ some p
      → refresher.verify later token ≡ some p
      → p.jti ≢ []
      → redis.is_set (revocation_key p.jti) s ≡ false
      → find_by_id p.user_id ≡ some u
      → ((refresh v now uuid token s).0 ≡ refreshed (mint v now uuid u))
        × ((refresh v later uuid' token (refresh v now uuid token s).1).0 ≡ refused token_revoked)
  refresh_once now later uuid uuid' token p u s up valid still ne fresh found =
      let unrevoked =
        not_revoked p.jti s (some false) (redis.get_up (revocation_key p.jti) s up ∙ ap some fresh)
          (λ h. cc) in
      let (up', revoked) = revoke_effect p.jti s up ne in
      rw (accepted now uuid token p u s valid unrevoked found)
        (refl, rw (refused_if_revoked later uuid' token p _ still revoked) refl)

  -- While Redis answers, a valid refresh token with an id is refused after its logout.
  pub refresh-logout :
      (now later : ℕ) (uuid token : Text) (p : TokenPayload) (s : redis.State)
      → redis.is_up s ≡ true
      → refresher.verify now token ≡ some p
      → refresher.verify later token ≡ some p
      → p.jti ≢ []
      → (refresh v later uuid token (logout v now token s)).0 ≡ refused token_revoked
  unfolding logout logout_payload
  refresh-logout now later uuid token p s up valid still ne =
      let (up', revoked) = revoke_effect p.jti s up ne in
      rw (valid, logout_payload) (rw (refused_if_revoked later uuid token p _ still revoked))

  revoke_down :
      (jti : Text) (s : redis.State)
      → ((key : Text) (seconds : ℕ) → redis.set_one key seconds s ≡ none)
      → revoke_refresh_token v jti s ≡ s
  unfolding revoke_refresh_token
  revoke_down [] s h = refl
  revoke_down (c ∷ jti) s h = rw h

  -- Where Redis does not answer, a token is taken as not revoked, whatever was revoked before: a
  -- valid token of a user that exists gives a new session, and nothing is stored.
  pub refresh_down :
      (now : ℕ) (uuid token : Text) (p : TokenPayload) (u : User) (s : redis.State)
      → ((key : Text) → redis.get_one key s ≡ none)
      → ((key : Text) (seconds : ℕ) → redis.set_one key seconds s ≡ none)
      → refresher.verify now token ≡ some p
      → find_by_id p.user_id ≡ some u
      → refresh v now uuid token s ≡ (refreshed (mint v now uuid u), s)
  refresh_down now uuid token p u s no_get no_set valid found =
      accepted now uuid token p u s valid (not_revoked p.jti s none (no_get _) (λ h. cc)) found
      ∙ ap (λ r. (refreshed (mint v now uuid u), r)) (revoke_down p.jti s no_set)

  -- The refresh token of a new session verifies until it expires, to the user and the new id.
  pub verify-mint :
      (issued now : ℕ) (uuid : Text) (u : User)
      → issued ≤ now
      → now < issued + refresher.ttl
      → refresher.verify now (mint v issued uuid u).refresh_token ≡ some (payload_of v u uuid)
  unfolding mint
  verify-mint issued now uuid u from until = refresher.verify_sign issued now _ from until
