-- ===== src/Saas/Leasing/Laws.antt =====
-- What a lease guarantees, and that a refusal changes nothing.
use proxy_redirector.Prelude.{
  ℕ, ◌+◌, ◌≤◌, ◌<◌, ◌≡◌, ◌≢◌, ◌⊎◌, ◌||◌, refl, leb, [], ◌∷◌, Bool, true, false, Option, none, some,
  arith, Bool-cases, inl, inr, sym, ◌∙◌,
}
use mathlib.Core.Bool.{false≢true}
use proxy_redirector.Text.{Text, is_empty}
use proxy_redirector.Text.Laws.{text_eq_iff, text_eq_refl}
use proxy_redirector.Saas.Domain.{
  User, UserRole, user, pro_user, enterprise, admin, support, rank, has_access_to_tier, StaticProxy,
}
use proxy_redirector.Saas.Errors.{DomainException, not_found, forbidden}
use proxy_redirector.Saas.Leasing.{
  ProxyTable, is_available, assign, Lease, Outcome, leased, refused, database_error, lease_of,
  find_available_static, lease_proxy_to_user, lease_available, lease_for, execute,
}

-- A proxy that is free for the country was picked with the least fraud score among those, and now
-- it is the user's, for 30 days; no other row has changed.
pub record IsAssigned (t : ProxyTable) (user_id country : Text) (now : ℕ) (s s' : t.State)
    (l : Lease) : Type 0 where
  pub proxy : StaticProxy
  pub was_row : t.row proxy.id s ≡ some proxy
  pub was_available : is_available country proxy ≡ true
  pub least :
      (id : Text) (y : StaticProxy)
      → t.row id s ≡ some y
      → is_available country y ≡ true
      → proxy.fraud_score ≤ y.fraud_score
  pub is_row : t.row proxy.id s' ≡ some (assign user_id now proxy)
  pub others : (id : Text) → id ≢ proxy.id → t.row id s' ≡ t.row id s
  pub lease : l ≡ lease_of (assign user_id now proxy)

-- The contract of `execute`: a proxy that was alive, of nobody and in the country, with the least
-- fraud score among those, is now the user's until 30 days later.
pub record IsLease (t : ProxyTable) (user_id country : Text) (now : ℕ) (s s' : t.State) (l : Lease)
    : Type 0 where
  pub proxy : StaticProxy
  pub was_row : t.row proxy.id s ≡ some proxy
  pub was_alive : proxy.is_alive ≡ true
  pub was_unassigned : proxy.assigned_user_id ≡ none
  pub was_here : country ≢ [] → proxy.country_code ≡ country
  pub least :
      (id : Text) (y : StaticProxy)
      → t.row id s ≡ some y
      → y.is_alive ≡ true
      → y.assigned_user_id ≡ none
      → (country ≡ []) ⊎ (y.country_code ≡ country)
      → proxy.fraud_score ≤ y.fraud_score
  pub is_row :
      t.row proxy.id s'
      ≡ some (record proxy {
        assigned_user_id = some user_id;
        assigned_at = some now;
        lease_expires_at = some (now + 2_592_000_000);
      })
  pub others : (id : Text) → id ≢ proxy.id → t.row id s' ≡ t.row id s
  pub lease : l ≡ record {
    proxy_id = proxy.id;
    ip = proxy.ip;
    port = proxy.port;
    protocol = proxy.protocol;
    country = proxy.country_code;
    tier = proxy.tier;
    lease_expires_at = some (now + 2_592_000_000);
  }

pub has_access : (u : User) → u.role ≢ user → has_access_to_tier pro_user u ≡ true
unfolding has_access_to_tier rank
has_access u ne = by_role u.role refl
  where
    by_role : (r : UserRole) → u.role ≡ r → leb 2 (rank r) ≡ true
    by_role user e = absurd (ne e)
    by_role pro_user e = refl
    by_role enterprise e = refl
    by_role support e = refl
    by_role admin e = refl

no_access : (u : User) → rank u.role < rank pro_user → has_access_to_tier pro_user u ≡ false
unfolding has_access_to_tier
no_access u low = ground arith

-- What it is to be available.
module _ (country : Text) where
  pub available_free :
      (p : StaticProxy)
      → p.is_alive ≡ true
      → p.assigned_user_id ≡ none
      → (country ≡ []) ⊎ (p.country_code ≡ country)
      → is_available country p ≡ true
  unfolding is_available
  available_free p alive free (inl any) = rw (alive, free, any) refl
  available_free p alive free (inr at) =
      rw (alive, free, at, text_eq_refl country) (any_or_true (is_empty country))
    where
      any_or_true : (b : Bool) → (b || true) ≡ true
      any_or_true true = refl
      any_or_true false = refl

  pub free_available :
      (p : StaticProxy)
      → is_available country p ≡ true
      → (p.is_alive ≡ true)
        × (p.assigned_user_id ≡ none)
        × (country ≢ [] → p.country_code ≡ country)
  unfolding is_available
  free_available p h =
      (ground arith, by_user p.assigned_user_id refl, λ ne. by_country country refl ne)
    where
      by_user : (o : Option Text) → p.assigned_user_id ≡ o → o ≡ none
      by_user none e = refl
      by_user (some id) e = absurd (ground arith)

      by_country : (c : Text) → country ≡ c → c ≢ [] → p.country_code ≡ c
      by_country [] e ne = absurd (ne refl)
      by_country (x ∷ c) e ne = ground (arith, text_eq_iff p.country_code (x ∷ c))

module _ (t : ProxyTable) (user_id country : Text) (now : ℕ) where
  open t use {State, row, find_first, find_first_some, find_first_none, update_row}

  pub assign_found :
      (s : State) (x : StaticProxy)
      → find_first (is_available country) s ≡ some x
      → (s' : State) × (lease_proxy_to_user t x.id user_id now s
          ≡ (leased (lease_of (assign user_id now x)), s'))
        × IsAssigned t user_id country now s s' (lease_of (assign user_id now x))
  unfolding lease_proxy_to_user
  assign_found s x e =
      let (available, at, least) = find_first_some (is_available country) s x e in
      let (s', updated, now_row, others) =
        update_row x.id (assign user_id now) s x at (unfold assign in refl) in
      (
        s',
        rw (updated, lease_proxy_to_user),
        record {
          proxy = x;
          was_row = at;
          was_available = available;
          least = least;
          is_row = now_row;
          others = others;
          lease = refl;
        },
      )

  execute-IsAssigned :
      (find_by_id : Text → Option User) (u : User) (s : State) (id : Text) (y : StaticProxy)
      → find_by_id user_id ≡ some u
      → has_access_to_tier pro_user u ≡ true
      → row id s ≡ some y
      → is_available country y ≡ true
      → (l : Lease) × (s' : State) × (execute t find_by_id user_id country now s ≡ (leased l, s'))
        × IsAssigned t user_id country now s s' l
  unfolding execute lease_for lease_available find_available_static
  execute-IsAssigned find_by_id u s id y found access at free =
      by_pick (find_first (is_available country) s) refl
    where
      by_pick :
          (o : Option StaticProxy)
          → find_first (is_available country) s ≡ o
          → (l : Lease) × (s' : State) × (execute t find_by_id user_id country now s
              ≡ (leased l, s'))
            × IsAssigned t user_id country now s s' l
      by_pick none e =
          absurd (false≢true (sym (find_first_none (is_available country) s e id y at) ∙ free))
      by_pick (some x) e =
          let (s', run, holds) = assign_found s x e in
          (
            lease_of (assign user_id now x),
            s',
            rw (found, execute) (rw access (rw (e, lease_available) run)),
            holds,
          )

  -- If the user exists and is more than a USER, and some proxy is alive, has no user and stands in
  -- the country, or in any where none is asked for, `execute` leases one that is so to the user, and
  -- none of those has a lower fraud score: its row then has the user, the time and an expiry 30 days
  -- later and is otherwise what it was, the answer shows it with that expiry, and no other row changes.
  pub execute-IsLease :
      (find_by_id : Text → Option User) (u : User) (s : State) (id : Text) (y : StaticProxy)
      → find_by_id user_id ≡ some u
      → u.role ≢ user
      → row id s ≡ some y
      → y.is_alive ≡ true
      → y.assigned_user_id ≡ none
      → (country ≡ []) ⊎ (y.country_code ≡ country)
      → (l : Lease) × (s' : State) × (execute t find_by_id user_id country now s ≡ (leased l, s'))
        × IsLease t user_id country now s s' l
  unfolding assign lease_of
  execute-IsLease find_by_id u s id y found role at alive free place =
      let (l, s', run, a) =
        execute-IsAssigned find_by_id u s id y found (has_access u role) at
          (available_free country y alive free place) in
      let (up, unassigned, here) = free_available country a.proxy a.was_available in
      (
        l,
        s',
        run,
        record {
          proxy = a.proxy;
          was_row = a.was_row;
          was_alive = up;
          was_unassigned = unassigned;
          was_here = here;
          least = λ other z there alive' free' place'.
              a.least other z there (available_free country z alive' free' place');
          is_row = a.is_row;
          others = a.others;
          lease = a.lease;
        },
      )

  -- Neither ends in an error of the database, nor changes the table when it refuses.
  execute-IsSafe :
      (find_by_id : Text → Option User) (s : State)
      → ((execute t find_by_id user_id country now s).0 ≢ database_error)
        × ((e : DomainException)
            → (execute t find_by_id user_id country now s).0 ≡ refused e
            → (execute t find_by_id user_id country now s).1 ≡ s)
  unfolding execute
  execute-IsSafe find_by_id s = by_user (find_by_id user_id)
    where
      Safe : Outcome × State → Type 0
      Safe r = (r.0 ≢ database_error) × ((e : DomainException) → r.0 ≡ refused e → r.1 ≡ s)

      refusal : (e : DomainException) → Safe (refused e, s)
      refusal e = (λ h. cc, λ f h. refl)

      by_pick :
          (o : Option StaticProxy)
          → find_first (is_available country) s ≡ o
          → Safe (lease_available t user_id now o s)
      by_pick none e = unfold lease_available in refusal not_found
      by_pick (some x) e =
          let (s', run, holds) = assign_found s x e in
          unfold lease_available in rw run (λ h. cc, λ f h. cc)

      by_user : (o : Option User) → Safe (lease_for t o user_id country now s)
      by_user none = unfold lease_for in refusal not_found
      by_user (some u) =
          unfold lease_for in
          elim (Bool-cases (has_access_to_tier pro_user u)) [
            | inl a ↦ rw a (unfold find_available_static in by_pick _ refl)
            | inr a ↦ rw a (refusal forbidden)
          ]

  -- Whatever the user and the table, `execute` never ends in an error of the database.
  pub execute_answers :
      (find_by_id : Text → Option User) (s : State)
      → (execute t find_by_id user_id country now s).0 ≢ database_error
  execute_answers find_by_id s = (execute-IsSafe find_by_id s).0

  -- Whatever the user and the table, a call that is refused leaves the table as it was.
  pub execute_refusal :
      (find_by_id : Text → Option User) (s : State) (e : DomainException)
      → (execute t find_by_id user_id country now s).0 ≡ refused e
      → (execute t find_by_id user_id country now s).1 ≡ s
  execute_refusal find_by_id s = (execute-IsSafe find_by_id s).1

-- A user below PRO_USER is refused with the exception for a forbidden request, whatever proxies
-- there are.
pub execute_forbidden :
    (t : ProxyTable) (find_by_id : Text → Option User) (u : User) (user_id country : Text) (now : ℕ)
    (s : t.State)
    → find_by_id user_id ≡ some u
    → rank u.role < rank pro_user
    → execute t find_by_id user_id country now s ≡ (refused forbidden, s)
unfolding execute lease_for has_access_to_tier
execute_forbidden t find_by_id u user_id country now s found low =
    rw (found, lease_for) (rw (no_access u low) refl)
