-- ===== src/Saas/Leasing.antt =====
-- Leasing a static proxy: saas/src/core/use-cases/proxies/lease-static-proxy.use-case.ts over
-- saas/src/infrastructure/repositories/prisma-proxy.repository.ts. The database is a parameter: a
-- state with the queries that the repository sends.
pub mod Laws
pub mod Race
pub mod Calls
use proxy_redirector.Prelude.{
  ℕ, ◌+◌, ◌*◌, ◌≤◌, ◌≡◌, ◌≢◌, Bool, true, false, ◌&&◌, ◌||◌, not, Option, none, some, if◌then◌else◌,
}
use proxy_redirector.Text.{Text, is_empty, text_eq}
use proxy_redirector.Saas.Domain.{User, pro_user, has_access_to_tier, StaticProxy, ProxyTier}
use proxy_redirector.Saas.Errors.{DomainException, not_found, forbidden}

-- The table of static proxies. `find_first` is a `findFirst` ordered by `fraudScore` upwards, and
-- `update` an `update` by id, which fails where there is no such row;
-- `update_row` is the law of a change that keeps the id.
pub record ProxyTable : Type 1 where
  pub State : Type 0
  pub row : Text → State → Option StaticProxy
  pub find_first : (StaticProxy → Bool) → State → Option StaticProxy
  pub update : Text → (StaticProxy → StaticProxy) → State → Option (StaticProxy × State)
  pub find_first_some :
      (p : StaticProxy → Bool) (s : State) (x : StaticProxy)
      → find_first p s ≡ some x
      → (p x ≡ true)
        × (row x.id s ≡ some x)
        × ((id : Text) (y : StaticProxy)
            → row id s ≡ some y
            → p y ≡ true
            → x.fraud_score ≤ y.fraud_score)
  pub find_first_none :
      (p : StaticProxy → Bool) (s : State)
      → find_first p s ≡ none
      → (id : Text) (y : StaticProxy) → row id s ≡ some y
      → p y ≡ false
  pub update_none :
      (id : Text) (f : StaticProxy → StaticProxy) (s : State)
      → row id s ≡ none
      → update id f s ≡ none
  pub update_row :
      (id : Text) (f : StaticProxy → StaticProxy) (s : State) (x : StaticProxy)
      → row id s ≡ some x
      → (f x).id ≡ x.id
      → (s' : State) × (update id f s ≡ some (f x, s'))
        × (row id s' ≡ some (f x))
        × ((other : Text) → other ≢ id → row other s' ≡ row other s)

-- The `where` of `findAvailableStatic`; an empty country code is none.
unfoldable pub is_available : Text → StaticProxy → Bool
is_available country p =
    p.is_alive
    && elim p.assigned_user_id [ none ↦ true | some id ↦ false ]
    && (is_empty country || text_eq p.country_code country)

-- `leaseDurationDays * 24 * 60 * 60 * 1000`, for the 30 days of the default.
abbrev pub lease_ms : ℕ
lease_ms = 30 * 24 * 60 * 60 * 1000

-- The `data` of `leaseProxyToUser`. Its two readings of the clock are taken as one.
unfoldable pub assign : Text → ℕ → StaticProxy → StaticProxy
assign user_id now p = record p {
  assigned_user_id = some user_id;
  assigned_at = some now;
  lease_expires_at = some (now + lease_ms);
}

-- The `data` of `releaseLease`.
unfoldable pub release : StaticProxy → StaticProxy
release p = record p { assigned_user_id = none; assigned_at = none; lease_expires_at = none }

-- The `data` of `updateHealth`.
unfoldable pub set_health : Bool → ℕ → ℕ → StaticProxy → StaticProxy
set_health is_alive latency_ms now p = record p {
  is_alive = is_alive;
  last_latency_ms = latency_ms;
  last_checked_at = now;
}

-- What `execute` returns.
pub record Lease : Type 0 where
  pub proxy_id : Text
  pub ip : Text
  pub port : ℕ
  pub protocol : Text
  pub country : Text
  pub tier : ProxyTier
  pub lease_expires_at : Option ℕ

-- A lease, a domain exception, or an error of the database.
pub data Outcome : Type 0 where
  leased : Lease → Outcome
  refused : DomainException → Outcome
  database_error : Outcome

unfoldable pub lease_of : StaticProxy → Lease
lease_of p = record {
  proxy_id = p.id;
  ip = p.ip;
  port = p.port;
  protocol = p.protocol;
  country = p.country_code;
  tier = p.tier;
  lease_expires_at = p.lease_expires_at;
}

module _ (t : ProxyTable) where
  open t use {State, find_first, update}

  unfoldable pub find_available_static : Text → State → Option StaticProxy
  find_available_static country = find_first (is_available country)

  -- `leaseProxyToUser` and the object that `execute` makes of the row.
  unfoldable pub lease_proxy_to_user : Text → Text → ℕ → State → Outcome × State
  lease_proxy_to_user id user_id now s = elim (update id (assign user_id now) s) [
    | none ↦ (database_error, s)
    | some (p, s') ↦ (leased (lease_of p), s')
  ]

  unfoldable pub release_lease : Text → State → Option (StaticProxy × State)
  release_lease id = update id release

  unfoldable pub update_health : Text → Bool → ℕ → ℕ → State → Option (StaticProxy × State)
  update_health id is_alive latency_ms now = update id (set_health is_alive latency_ms now)

  unfoldable pub lease_available : Text → ℕ → Option StaticProxy → State → Outcome × State
  lease_available user_id now none s = (refused not_found, s)
  lease_available user_id now (some p) s = lease_proxy_to_user p.id user_id now s

  -- `execute` for the user that `userRepo.findById` found, if any.
  unfoldable pub lease_for : Option User → Text → Text → ℕ → State → Outcome × State
  lease_for none user_id country now s = (refused not_found, s)
  lease_for (some u) user_id country now s =
      if has_access_to_tier pro_user u
      then lease_available user_id now (find_available_static country s) s
      else (refused forbidden, s)

  unfoldable pub execute : (Text → Option User) → Text → Text → ℕ → State → Outcome × State
  execute find_by_id user_id = lease_for (find_by_id user_id) user_id
