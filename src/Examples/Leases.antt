-- ===== src/Examples/Leases.antt =====
-- The theorems on leasing a static proxy, with a table of one row.
use proxy_redirector.Prelude.{
  ◌≡◌, ◌≢◌, refl, ◌+◌, ◌≤◌, subst, sym, ap, ◌∙◌, Bool, true, false, Bool-cases, inl, inr, Option,
  none, some, List, [], ◌∷◌, if◌then◌else◌, arith,
}
use proxy_redirector.Text.{Text, codes, text_eq}
use proxy_redirector.Text.Laws.{text_eq_iff, text_eq_refl}
use proxy_redirector.Saas.Domain.{
  StaticProxy, static_shared, tier_2_static_isp, User, UserRole, enterprise, user,
}
use proxy_redirector.Saas.Leasing.{
  ProxyTable, is_available, Lease, leased, find_available_static, lease_available, execute,
}
use proxy_redirector.Saas.Leasing.Laws.{IsLease, execute-IsLease}
use proxy_redirector.Saas.Leasing.Race.{both_leased}
use proxy_redirector.Saas.Leasing.Calls.{Call, lease_call, health_call, times_leased}
use proxy_redirector.Saas.Leasing.Calls.Once.{leased_once}

-- A table of at most one row.
abbrev row_of : Text → Option StaticProxy → Option StaticProxy
row_of id none = none
row_of id (some x) = if text_eq x.id id then some x else none

abbrev pick : (StaticProxy → Bool) → Option StaticProxy → Option StaticProxy
pick p none = none
pick p (some x) = if p x then some x else none

abbrev change :
    Text
    → (StaticProxy → StaticProxy)
    → Option StaticProxy
    → Option (StaticProxy × Option StaticProxy)
change id f none = none
change id f (some x) = if text_eq x.id id then some (f x, some (f x)) else none

if_some :
    {A : Type 0} (b : Bool) (x z : A) → (if b then some z else none) ≡ some x → (b ≡ true) × (z ≡ x)
if_some true x z h = (refl, cc)
if_some false x z h = cc

if_passes : {A : Type 0} {b : Bool} {x : A} → b ≡ true → (if b then some x else none) ≡ some x
if_passes h = rw h refl

if_fails : {A : Type 0} {b : Bool} (x : A) → b ≡ false → (if b then some x else none) ≡ none
if_fails x h = rw h refl

pick-some :
    (p : StaticProxy → Bool) (s : Option StaticProxy) (x : StaticProxy)
    → pick p s ≡ some x
    → (p x ≡ true)
      × (row_of x.id s ≡ some x)
      × ((id : Text) (y : StaticProxy)
          → row_of id s ≡ some y
          → p y ≡ true
          → x.fraud_score ≤ y.fraud_score)
pick-some p none x h = ground arith
pick-some p (some z) x h =
    let (passes, same) = if_some (p z) x z h in
    subst
      (λ v.
        (p v ≡ true)
        × (row_of v.id (some z) ≡ some v)
        × ((id : Text) (y : StaticProxy)
            → row_of id (some z) ≡ some y
            → p y ≡ true
            → v.fraud_score ≤ y.fraud_score))
      same
      (
        passes,
        rw (text_eq_refl z.id) refl,
        λ id y k l.
            let (at, other) = if_some (text_eq z.id id) y z k in
            subst (λ w. z.fraud_score ≤ w.fraud_score) other (omega arith),
      )

pick-none :
    (p : StaticProxy → Bool) (s : Option StaticProxy)
    → pick p s ≡ none
    → (id : Text) (y : StaticProxy) → row_of id s ≡ some y
    → p y ≡ false
pick-none p none h id y k = ground arith
pick-none p (some z) h id y k = ground arith

change_row :
    (id : Text) (f : StaticProxy → StaticProxy) (s : Option StaticProxy) (x : StaticProxy)
    → row_of id s ≡ some x
    → (f x).id ≡ x.id
    → (s' : Option StaticProxy) × (change id f s ≡ some (f x, s'))
      × (row_of id s' ≡ some (f x))
      × ((other : Text) → other ≢ id → row_of other s' ≡ row_of other s)
change_row id f none x h k = ground arith
change_row id f (some z) x h k =
    let (at, same) = if_some (text_eq z.id id) x z h in
    let keeps : (f z).id ≡ z.id = subst (λ v. (f v).id ≡ v.id) (sym same) k in
    (
      some (f z),
      rw at (ap (λ v. some (f v, some (f z))) same),
      if_passes (ap (λ v. text_eq v id) keeps ∙ at) ∙ ap (λ v. some (f v)) same,
      λ other ne. elim (Bool-cases (text_eq z.id other)) [
        | inl e ↦ absurd (ne (sym ((text_eq_iff z.id other).0 e) ∙ (text_eq_iff z.id id).0 at))
        | inr e ↦ if_fails (f z) (ap (λ v. text_eq v other) keeps ∙ e) ∙ sym (if_fails z e)
      ],
    )

change-none :
    (id : Text) (f : StaticProxy → StaticProxy) (s : Option StaticProxy)
    → row_of id s ≡ none
    → change id f s ≡ none
change-none id f none h = refl
change-none id f (some z) h = ground arith

abbrev one_row : ProxyTable
one_row = record {
  State = Option StaticProxy;
  row = row_of;
  find_first = pick;
  update = change;
  find_first_some = pick-some;
  find_first_none = pick-none;
  update_none = change-none;
  update_row = change_row;
}

abbrev free_proxy : StaticProxy
free_proxy = record {
  id = codes "x1";
  ip = codes "10.0.0.7";
  port = 1080;
  protocol = codes "socks5";
  pool_type = static_shared;
  tier = tier_2_static_isp;
  country_code = codes "DE";
  fraud_score = 4;
  is_alive = true;
  last_latency_ms = 120;
  last_checked_at = 0;
  assigned_user_id = none;
  assigned_at = none;
  lease_expires_at = none;
}

abbrev user_with : UserRole → User
user_with role = record {
  id = codes "u1";
  email = codes "u1@a.example";
  password_hash = codes "h";
  role = role;
}

abbrev find_enterprise : Text → Option User
find_enterprise id = some (user_with enterprise)

enterprise_is_more : enterprise ≢ user
enterprise_is_more h = ground arith

execute-IsLease_example :
    (l : Lease) × (s' : Option StaticProxy) × (execute one_row find_enterprise
        (codes "u1")
        (codes "DE")
        1000
        (some free_proxy)
      ≡ (leased l, s'))
    × IsLease one_row (codes "u1") (codes "DE") 1000 (some free_proxy) s' l
execute-IsLease_example =
    execute-IsLease one_row (codes "u1") (codes "DE") 1000 find_enterprise (user_with enterprise)
      (some free_proxy) (codes "x1") free_proxy refl enterprise_is_more refl refl refl (inr refl)

free_found : find_available_static one_row (codes "DE") (some free_proxy) ≡ some free_proxy
unfolding find_available_static is_available
free_found = refl

both_leased_example :
    let looked = find_available_static one_row (codes "DE") (some free_proxy) in
    (l1 : Lease) × (l2 : Lease) × (s1 : Option StaticProxy) × (s2 : Option StaticProxy) × (execute
        one_row find_enterprise
        (codes "u1")
        (codes "DE")
        1000
        (some free_proxy)
      ≡ (leased l1, s1))
    × (execute one_row find_enterprise (codes "u2") (codes "DE") 1005 (some free_proxy)
        ≡ lease_available one_row (codes "u2") 1005 looked (some free_proxy))
    × (lease_available one_row (codes "u2") 1005 looked s1 ≡ (leased l2, s2))
    × (free_proxy.assigned_user_id ≡ none)
    × (l1.proxy_id ≡ free_proxy.id)
    × (l1.lease_expires_at ≡ some (1000 + 2_592_000_000))
    × (l2.proxy_id ≡ free_proxy.id)
    × (l2.lease_expires_at ≡ some (1005 + 2_592_000_000))
    × (row_of free_proxy.id s2
        ≡ some (record free_proxy {
          assigned_user_id = some (codes "u2");
          assigned_at = some 1005;
          lease_expires_at = some (1005 + 2_592_000_000);
        }))
both_leased_example =
    both_leased one_row find_enterprise (user_with enterprise) (user_with enterprise) (codes "u1")
      (codes "u2") (codes "DE") 1000 1005 (some free_proxy) free_proxy refl enterprise_is_more refl
      enterprise_is_more free_found

abbrev lease_calls : List Call
lease_calls =
    lease_call (codes "u1") (codes "DE") 1000
    ∷ health_call (codes "x1") true 90 2000
    ∷ lease_call (codes "u2") (codes "DE") 9_000_000_000
    ∷ []

leased_once_example :
    times_leased one_row find_enterprise (codes "x1") lease_calls (some free_proxy) ≤ 1
leased_once_example =
    leased_once one_row find_enterprise (codes "x1") lease_calls (some free_proxy)
      (refl, (refl, (refl, tt)))
