-- ===== src/Saas/Tokens/Refines.antt =====
-- The service of refresh tokens over any sequence of calls, against a specification that only knows
-- which ids of tokens are spent.
use proxy_redirector.Prelude.{
  ℕ, ◌≡◌, ◌≢◌, refl, sym, ap, ap₂, ◌∙◌, Bool, true, false, ◌||◌, Option, none, some, List, [], ◌∷◌,
  Bool-cases, inl, inr, if◌then◌else◌,
}
use proxy_redirector.Text.{Text, codes, text_eq, is_empty}
use proxy_redirector.Text.Laws.{text_eq→eq, text_eq_iff, append_cancel}
use proxy_redirector.Saas.Domain.{User}
use proxy_redirector.Saas.Guards.{TokenPayload}
use proxy_redirector.Saas.Tokens.{
  Service, Outcome, revocation_key, invalid_token, token_revoked, user_not_found, refreshed,
  refused, is_token_revoked, revoke_refresh_token, mint, refresh_user, refresh_payload, refresh,
  logout, logout_payload,
}

-- A call of the service: `refresh` with the time, the new id and the token, or `logout`.
pub data Call : Type 0 where
  refresh_call : ℕ → Text → Text → Call
  logout_call : ℕ → Text → Call

-- The ids that are spent.
abbrev pub Spent : Type 0
Spent = Text → Bool

-- A token with no id can not be spent.
abbrev pub spend : Text → Spent → Spent
spend jti f other = if is_empty jti then f other else text_eq jti other || f other

module _ (v : Service) where
  open v use {refresher, redis, find_by_id}

  -- What the calls answer, a refresh each, and the store that they leave.
  unfoldable pub run_calls : List Call → redis.State → List Outcome × redis.State
  run_calls [] s = ([], s)
  run_calls (refresh_call now uuid token ∷ cs) s =
      let (o, s') = refresh v now uuid token s in let (os, last) = run_calls cs s' in (o ∷ os, last)
  run_calls (logout_call now token ∷ cs) s = run_calls cs (logout v now token s)

  -- The specification of a refresh: of a token that verifies, is not spent and has a user.
  abbrev pub spec_user : ℕ → Text → Text → Option User → Spent → Outcome × Spent
  spec_user now uuid jti none f = (refused user_not_found, f)
  spec_user now uuid jti (some u) f = (refreshed (mint v now uuid u), spend jti f)

  abbrev pub spec_refresh : ℕ → Text → Option TokenPayload → Spent → Outcome × Spent
  spec_refresh now uuid none f = (refused invalid_token, f)
  spec_refresh now uuid (some p) f =
      if f p.jti
      then (refused token_revoked, f)
      else spec_user now uuid p.jti (find_by_id p.user_id) f

  abbrev pub spec_logout : Option TokenPayload → Spent → Spent
  spec_logout none f = f
  spec_logout (some p) f = spend p.jti f

  unfoldable pub spec_calls : List Call → Spent → List Outcome × Spent
  spec_calls [] f = ([], f)
  spec_calls (refresh_call now uuid token ∷ cs) f =
      let (o, f') = spec_refresh now uuid (refresher.verify now token) f in
      let (os, last) = spec_calls cs f' in (o ∷ os, last)
  spec_calls (logout_call now token ∷ cs) f =
      spec_calls cs (spec_logout (refresher.verify now token) f)

  -- The store answers, and holds exactly the spent ids.
  pub record Implements (s : redis.State) (f : Spent) : Type 0 where
    pub up : redis.is_up s ≡ true
    pub empty : f [] ≡ false
    pub spent : (jti : Text) → jti ≢ [] → redis.is_set (revocation_key jti) s ≡ f jti

  is_token_revoked-spent :
      (jti : Text) (s : redis.State) (f : Spent) → Implements s f → is_token_revoked v jti s ≡ f jti
  unfolding is_token_revoked
  is_token_revoked-spent [] s f h = sym h.empty
  is_token_revoked-spent (c ∷ jti) s f h =
      rw (redis.get_up (revocation_key (c ∷ jti)) s h.up) (h.spent (c ∷ jti) (λ e. cc))

  spend-Implements :
      (jti : Text) (s : redis.State) (f : Spent)
      → Implements s f
      → Implements (revoke_refresh_token v jti s) (spend jti f)
  unfolding revoke_refresh_token
  spend-Implements [] s f h = record { up = h.up; empty = h.empty; spent = h.spent }
  spend-Implements (c ∷ jti) s f h =
      let (s', set, up', is_set, others) =
        redis.set_up (revocation_key (c ∷ jti)) refresher.ttl s h.up in
      rw (set) (record {
        up = up';
        empty = h.empty;
        spent = λ other ne. elim (Bool-cases (text_eq (c ∷ jti) other)) [
          | inl e ↦
              rw e (ap (λ k. redis.is_set (revocation_key k) s') (sym (text_eq→eq _ _ e)) ∙ is_set)
          | inr e ↦ rw e (
              others (revocation_key other) (λ k. cc (
                e,
                (text_eq_iff (c ∷ jti) other).1
                    (sym (append_cancel (codes "token:revoked:") other (c ∷ jti) k)),
              ))
              ∙ h.spent other ne)
        ];
      })

  refresh_user-refines :
      (now : ℕ) (uuid jti : Text) (u : Option User) (s : redis.State) (f : Spent)
      → Implements s f
      → ((refresh_user v now uuid jti u s).0 ≡ (spec_user now uuid jti u f).0)
        × Implements (refresh_user v now uuid jti u s).1 (spec_user now uuid jti u f).1
  unfolding refresh_user
  refresh_user-refines now uuid jti none s f h = (refl, h)
  refresh_user-refines now uuid jti (some u) s f h = (refl, spend-Implements jti s f h)

  refresh_payload-refines :
      (now : ℕ) (uuid : Text) (p : Option TokenPayload) (s : redis.State) (f : Spent)
      → Implements s f
      → ((refresh_payload v now uuid p s).0 ≡ (spec_refresh now uuid p f).0)
        × Implements (refresh_payload v now uuid p s).1 (spec_refresh now uuid p f).1
  unfolding refresh_payload
  refresh_payload-refines now uuid none s f h = (refl, h)
  refresh_payload-refines now uuid (some p) s f h =
      rw (is_token_revoked-spent p.jti s f h) (elim (Bool-cases (f p.jti)) [
        | inl e ↦ rw e (refl, h)
        | inr e ↦ rw e (refresh_user-refines now uuid p.jti (find_by_id p.user_id) s f h)
      ])

  logout_payload-Implements :
      (p : Option TokenPayload) (s : redis.State) (f : Spent)
      → Implements s f
      → Implements (logout_payload v p s) (spec_logout p f)
  unfolding logout_payload
  logout_payload-Implements none s f h = h
  logout_payload-Implements (some p) s f h = spend-Implements p.jti s f h

  -- While Redis answers and no key's life time is over, any sequence of refreshes and logouts answers
  -- exactly as the specification that only keeps the spent ids: a refresh by a token that verifies, is
  -- not spent and has a user gives a session and spends the id, a logout spends it, and every other
  -- refresh is refused. The store ends with exactly the ids that the specification ends with.
  pub run_calls-refines :
      (cs : List Call) (s : redis.State) (f : Spent)
      → Implements s f
      → ((run_calls cs s).0 ≡ (spec_calls cs f).0)
        × Implements (run_calls cs s).1 (spec_calls cs f).1
  unfolding run_calls spec_calls refresh logout
  run_calls-refines [] s f h = (refl, h)
  run_calls-refines (refresh_call now uuid token ∷ cs) s f h =
      let (same, kept) = refresh_payload-refines now uuid (refresher.verify now token) s f h in
      let (rest, last) = run_calls-refines cs _ _ kept in (ap₂ ◌∷◌ same rest, last)
  run_calls-refines (logout_call now token ∷ cs) s f h =
      run_calls-refines cs _ _ (logout_payload-Implements (refresher.verify now token) s f h)
