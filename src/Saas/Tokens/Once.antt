-- ===== src/Saas/Tokens/Once.antt =====
-- How many sessions one refresh token gives over any sequence of calls.
use proxy_redirector.Prelude.{
  ℕ, ◌+◌, ◌≤◌, ◌≡◌, ◌≢◌, refl, subst, sym, Bool, true, false, ◌&&◌, Option, none, some, List, [],
  ◌∷◌, arith, Bool-cases, inl, inr, if◌then◌else◌,
}
use proxy_redirector.Text.{Text, text_eq}
use proxy_redirector.Text.Laws.{text_eq_iff, text_eq_refl}
use proxy_redirector.Saas.Domain.{User}
use proxy_redirector.Saas.Guards.{TokenPayload}
use proxy_redirector.Saas.Tokens.{Service, Outcome, refreshed, refused}
use proxy_redirector.Saas.Tokens.Refines.{
  Call, refresh_call, logout_call, Spent, spend, run_calls, spec_user, spec_refresh, spec_logout,
  spec_calls, Implements, run_calls-refines,
}

abbrev pub is_session : Outcome → Bool
is_session (refreshed s) = true
is_session (refused r) = false

abbrev pub has_id : Text → Option TokenPayload → Bool
has_id jti none = false
has_id jti (some p) = text_eq p.jti jti

abbrev one_if : Bool → ℕ
one_if b = if b then 1 else 0

-- A spent id stays spent.
spend-spent : (jti id : Text) (f : Spent) → f id ≡ true → spend jti f id ≡ true
spend-spent [] id f h = h
spend-spent (c ∷ jti) id f h = ground arith

spend_self : (jti : Text) (f : Spent) → jti ≢ [] → spend jti f jti ≡ true
spend_self [] f ne = absurd (ne refl)
spend_self (c ∷ jti) f ne = rw (text_eq_refl (c ∷ jti)) refl

module _ (v : Service) where
  open v use {refresher, redis, find_by_id}

  -- The sessions among the outcomes of the refreshes by tokens of the id.
  unfoldable pub sessions_of : Text → List Call → List Outcome → ℕ
  sessions_of jti [] os = 0
  sessions_of jti (logout_call now token ∷ cs) os = sessions_of jti cs os
  sessions_of jti (refresh_call now uuid token ∷ cs) [] = 0
  sessions_of jti (refresh_call now uuid token ∷ cs) (o ∷ os) =
      one_if (is_session o && has_id jti (refresher.verify now token)) + sessions_of jti cs os

  -- What a refresh of the specification does to an id: a session only if it was not spent, which
  -- spends it.
  record Steps (jti : Text) (p : Option TokenPayload) (f : Spent) (r : Outcome × Spent)
      : Type 0 where
    keeps : f jti ≡ true → r.1 jti ≡ true
    spends : is_session r.0 && has_id jti p ≡ true → r.1 jti ≡ true
    fresh : is_session r.0 && has_id jti p ≡ true → f jti ≡ false

  spec_user-Steps :
      (now : ℕ) (uuid jti : Text) (p : TokenPayload) (u : Option User) (f : Spent)
      → jti ≢ []
      → f p.jti ≡ false
      → Steps jti (some p) f (spec_user v now uuid p.jti u f)
  spec_user-Steps now uuid jti p none f ne h = record {
    keeps = λ k. k;
    spends = λ k. cc;
    fresh = λ k. cc;
  }
  spec_user-Steps now uuid jti p (some u) f ne h = record {
    keeps = λ k. spend-spent p.jti jti f k;
    spends = λ k. subst (λ j. spend j f jti ≡ true) (sym (same k)) (spend_self jti f ne);
    fresh = λ k. subst (λ j. f j ≡ false) (same k) h;
  }
    where
      same : text_eq p.jti jti ≡ true → p.jti ≡ jti
      same k = (text_eq_iff p.jti jti).0 k

  spec_refresh-Steps :
      (now : ℕ) (uuid jti : Text) (p : Option TokenPayload) (f : Spent)
      → jti ≢ []
      → Steps jti p f (spec_refresh v now uuid p f)
  spec_refresh-Steps now uuid jti none f ne = record {
    keeps = λ k. k;
    spends = λ k. cc;
    fresh = λ k. cc;
  }
  spec_refresh-Steps now uuid jti (some p) f ne = elim (Bool-cases (f p.jti)) [
    | inl e ↦ rw e (record { keeps = λ k. k; spends = λ k. cc; fresh = λ k. cc })
    | inr e ↦ rw e (spec_user-Steps now uuid jti p (find_by_id p.user_id) f ne e)
  ]

  spec_logout-spent :
      (jti : Text) (p : Option TokenPayload) (f : Spent)
      → f jti ≡ true
      → spec_logout v p f jti ≡ true
  spec_logout-spent jti none f h = h
  spec_logout-spent jti (some p) f h = spend-spent p.jti jti f h

  sessions_spent :
      (jti : Text) (cs : List Call) (f : Spent)
      → jti ≢ []
      → f jti ≡ true
      → sessions_of jti cs (spec_calls v cs f).0 ≡ 0
  unfolding sessions_of spec_calls
  sessions_spent jti [] f ne h = refl
  sessions_spent jti (logout_call now token ∷ cs) f ne h =
      sessions_spent jti cs _ ne (spec_logout-spent jti (refresher.verify now token) f h)
  sessions_spent jti (refresh_call now uuid token ∷ cs) f ne h =
      let st = spec_refresh-Steps now uuid jti (refresher.verify now token) f ne in
      let rest =
        sessions_spent jti cs (spec_refresh v now uuid (refresher.verify now token) f).1 ne
          (st.keeps h) in
      elim (Bool-cases (
        is_session (spec_refresh v now uuid (refresher.verify now token) f).0
        && has_id jti (refresher.verify now token))) [
          | inl e ↦ cc (st.fresh e)
          | inr e ↦ rw e (omega (arith, rest))
        ]

  sessions_once :
      (jti : Text) (cs : List Call) (f : Spent)
      → jti ≢ []
      → sessions_of jti cs (spec_calls v cs f).0 ≤ 1
  unfolding sessions_of spec_calls
  sessions_once jti [] f ne = omega arith
  sessions_once jti (logout_call now token ∷ cs) f ne = sessions_once jti cs _ ne
  sessions_once jti (refresh_call now uuid token ∷ cs) f ne =
      let st = spec_refresh-Steps now uuid jti (refresher.verify now token) f ne in
      let f' = (spec_refresh v now uuid (refresher.verify now token) f).1 in
      elim (Bool-cases (
        is_session (spec_refresh v now uuid (refresher.verify now token) f).0
        && has_id jti (refresher.verify now token))) [
          | inl e ↦ rw e (omega (arith, sessions_spent jti cs f' ne (st.spends e)))
          | inr e ↦ rw e (omega (arith, sessions_once jti cs f' ne))
        ]

  -- While Redis answers and no life time of a key is over, whatever sequence of refreshes and logouts
  -- is called, the refreshes by tokens of one id, which is not empty, give at most one session.
  pub run_calls_once :
      (jti : Text) (cs : List Call) (s : redis.State) (f : Spent)
      → Implements v s f
      → jti ≢ []
      → sessions_of jti cs (run_calls v cs s).0 ≤ 1
  run_calls_once jti cs s f h ne =
      subst (λ os. sessions_of jti cs os ≤ 1) (sym (run_calls-refines v cs s f h).0)
        (sessions_once jti cs f ne)
