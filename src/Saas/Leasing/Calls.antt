-- ===== src/Saas/Leasing/Calls.antt =====
-- Sequences of calls of the use case and of the repository.
pub mod Once
use proxy_redirector.Prelude.{
  ℕ, ◌+◌, ◌≤◌, ◌≡◌, ◌≢◌, ◌⊎◌, refl, sym, ap, ◌∙◌, subst, inl, inr, Bool, true, false, Option, none,
  some, List, [], ◌∷◌, arith, All, Bool-cases, if◌then◌else◌,
}
use proxy_redirector.Text.{Text, text_eq}
use proxy_redirector.Text.Laws.{text_eq_iff}
use proxy_redirector.Saas.Domain.{User, pro_user, has_access_to_tier, StaticProxy}
use proxy_redirector.Saas.Leasing.{
  ProxyTable, is_available, assign, release, set_health, Lease, Outcome, leased, refused,
  database_error, lease_of, find_available_static, lease_available, lease_for, execute,
  release_lease, update_health,
}
use proxy_redirector.Saas.Leasing.Laws.{IsAssigned, assign_found}

pub data Call : Type 0 where
  lease_call : Text → Text → ℕ → Call
  release_call : Text → Call
  health_call : Text → Bool → ℕ → ℕ → Call

module _ (t : ProxyTable) where
  open t use {State}

  -- The table behind an update; one that throws changes nothing.
  abbrev pub behind : State → Option (StaticProxy × State) → State
  behind s none = s
  behind s (some (p, s')) = s'

-- The ids that are given away by a call: one, or none.
abbrev pub given : Outcome → List Text
given (leased l) = l.proxy_id ∷ []
given (refused e) = []
given database_error = []

module _ (t : ProxyTable) (find_by_id : Text → Option User) where
  open t use {State}

  unfoldable pub call : Call → State → List Text × State
  call (lease_call user_id country now) s =
      let (o, s') = execute t find_by_id user_id country now s in (given o, s')
  call (release_call id) s = ([], behind t s (release_lease t id s))
  call (health_call id is_alive latency_ms now) s =
      ([], behind t s (update_health t id is_alive latency_ms now s))

-- How often an id stands in a list of at most one.
abbrev pub times : Text → List Text → ℕ
times id [] = 0
times id (x ∷ xs) = (if text_eq x id then 1 else 0) + times id xs

module _ (t : ProxyTable) (find_by_id : Text → Option User) where
  open t use {State, row, update_row, update_none}

  -- How often a proxy is given away in a sequence of calls.
  unfoldable pub times_leased : Text → List Call → State → ℕ
  times_leased id [] s = 0
  times_leased id (c ∷ cs) s =
      let (ids, s') = call t find_by_id c s in times id ids + times_leased id cs s'

-- The call is a release of the proxy.
abbrev pub releases : Text → Call → Bool
releases id (lease_call user_id country now) = false
releases id (release_call other) = text_eq other id
releases id (health_call other is_alive latency_ms now) = false

-- No call of the list releases the proxy.
abbrev pub NoRelease : Text → List Call → Type 0
NoRelease id = All (λ c. releases id c ≡ false)
