-- ===== src/Saas/Leasing/Calls/Once.antt =====
-- A proxy that nobody releases is given away once.
use proxy_redirector.Prelude.{
  ℕ, ◌≤◌, ◌≡◌, ◌≢◌, ◌⊎◌, refl, sym, ap, ◌∙◌, subst, inl, inr, false, Option, none, some, List, [],
  ◌∷◌, arith, Bool-cases,
}
use proxy_redirector.Text.{Text, text_eq}
use proxy_redirector.Text.Laws.{text_eq_iff}
use proxy_redirector.Saas.Domain.{User, pro_user, has_access_to_tier, StaticProxy}
use proxy_redirector.Saas.Leasing.{
  ProxyTable, is_available, assign, release, set_health, Lease, Outcome, leased, lease_of,
  find_available_static, lease_available, lease_for, execute, release_lease, update_health,
}
use proxy_redirector.Saas.Leasing.Laws.{IsAssigned, assign_found}
use proxy_redirector.Saas.Leasing.Calls.{
  Call, lease_call, release_call, health_call, behind, given, call, times, times_leased, releases,
  NoRelease,
}

module _ (t : ProxyTable) (find_by_id : Text → Option User) where
  open t use {State, row, update_row, update_none}

  -- The proxy is somebody's.
  record IsHeld (id : Text) (s : State) : Type 0 where
    proxy : StaticProxy
    user_id : Text
    at : row id s ≡ some proxy
    held : proxy.assigned_user_id ≡ some user_id

  -- A call of the use case leases a proxy, or does nothing.
  abbrev Result : Text → Text → ℕ → State → Outcome × State → Type 0
  Result user_id country now s out =
      ((given out.0 ≡ []) × (out.1 ≡ s))
      ⊎ ((l : Lease) × (out.0 ≡ leased l) × IsAssigned t user_id country now s out.1 l)

  execute-Result :
      (user_id country : Text) (now : ℕ) (s : State)
      → Result user_id country now s (execute t find_by_id user_id country now s)
  unfolding execute
  execute-Result user_id country now s = by_user (find_by_id user_id)
    where
      by_pick :
          (o : Option StaticProxy)
          → find_available_static t country s ≡ o
          → Result user_id country now s (lease_available t user_id now o s)
      by_pick none e = unfold lease_available in inl (refl, refl)
      by_pick (some x) e =
          let (s', run, holds) =
            assign_found t user_id country now s x (unfold find_available_static in e) in
          unfold lease_available in rw run (inr (lease_of (assign user_id now x), refl, holds))

      by_user :
          (o : Option User) → Result user_id country now s (lease_for t o user_id country now s)
      by_user none = unfold lease_for in inl (refl, refl)
      by_user (some u) =
          unfold lease_for in
          elim (Bool-cases (has_access_to_tier pro_user u)) [
            | inl a ↦ rw a (by_pick (find_available_static t country s) refl)
            | inr a ↦ rw a (inl (refl, refl))
          ]

  held_unavailable :
      (country user_id : Text) (p : StaticProxy)
      → p.assigned_user_id ≡ some user_id
      → is_available country p ≡ false
  unfolding is_available
  held_unavailable country user_id p h = ground arith

  -- An update of another row.
  update_other-IsHeld :
      (id other : Text) (f : StaticProxy → StaticProxy) (s : State)
      → ((p : StaticProxy) → (f p).id ≡ p.id)
      → id ≢ other
      → IsHeld id s
      → IsHeld id (behind t s (t.update other f s))
  update_other-IsHeld id other f s keeps_id ne h = by_row (row other s) refl
    where
      by_row :
          (o : Option StaticProxy) → row other s ≡ o → IsHeld id (behind t s (t.update other f s))
      by_row none e = rw (update_none other f s e) h
      by_row (some y) e =
          let (s', updated, now_row, others) = update_row other f s y e (keeps_id y) in
          rw updated (record {
            proxy = h.proxy;
            user_id = h.user_id;
            at = others id ne ∙ h.at;
            held = h.held;
          })

  -- An update of the held row that keeps its user.
  update_self-IsHeld :
      (id : Text) (f : StaticProxy → StaticProxy) (s : State)
      → ((p : StaticProxy) → (f p).id ≡ p.id)
      → ((p : StaticProxy) → (f p).assigned_user_id ≡ p.assigned_user_id)
      → IsHeld id s
      → IsHeld id (behind t s (t.update id f s))
  update_self-IsHeld id f s keeps_id keeps_user h =
      let (s', updated, now_row, others) = update_row id f s h.proxy h.at (keeps_id h.proxy) in
      rw updated (record {
        proxy = f h.proxy;
        user_id = h.user_id;
        at = now_row;
        held = keeps_user h.proxy ∙ h.held;
      })

  different : (a b : Text) → text_eq a b ≡ false → b ≢ a
  different a b h e = cc (rw ((text_eq_iff a b).1 (sym e)) at h)

  picked_other :
      (id user_id country : Text) (now : ℕ) (s s' : State) (l : Lease)
      → IsHeld id s
      → (holds : IsAssigned t user_id country now s s' l) → id ≢ holds.proxy.id
  picked_other id user_id country now s s' l h holds e =
      let both : some h.proxy ≡ some holds.proxy = sym h.at ∙ ap (λ i. row i s) e ∙ holds.was_row in
      let same : h.proxy ≡ holds.proxy = cc in
      let held : holds.proxy.assigned_user_id ≡ some h.user_id =
        sym (ap (λ (p : StaticProxy). p.assigned_user_id) same) ∙ h.held in
      cc (holds.was_available, held_unavailable country h.user_id holds.proxy held)

  lease_id :
      (user_id country : Text) (now : ℕ) (s s' : State) (l : Lease)
      → (holds : IsAssigned t user_id country now s s' l) → l.proxy_id ≡ holds.proxy.id
  unfolding lease_of assign
  lease_id user_id country now s s' l holds = ap (λ (k : Lease). k.proxy_id) holds.lease

  -- A held proxy is not given away, and stays held.
  lease-Kept :
      (id user_id country : Text) (now : ℕ) (s : State) (out : Outcome × State)
      → IsHeld id s
      → Result user_id country now s out
      → (times id (given out.0) ≡ 0) × IsHeld id out.1
  lease-Kept id user_id country now s out h (inl (nothing, same)) = (rw nothing refl, rw same h)
  lease-Kept id user_id country now s out h (inr (l, e, holds)) =
      let other = picked_other id user_id country now s out.1 l h holds in
      let named = lease_id user_id country now s out.1 l holds in
      (
        rw e (ground (arith, text_eq_iff l.proxy_id id)),
        record {
          proxy = h.proxy;
          user_id = h.user_id;
          at = holds.others id other ∙ h.at;
          held = h.held;
        },
      )

  call-Kept :
      (id : Text) (c : Call) (s : State)
      → releases id c ≡ false
      → IsHeld id s
      → (times id (call t find_by_id c s).0 ≡ 0) × IsHeld id (call t find_by_id c s).1
  unfolding call release_lease update_health release set_health
  call-Kept id (lease_call user_id country now) s k h =
      lease-Kept id user_id country now s _ h (execute-Result user_id country now s)
  call-Kept id (release_call other) s k h =
      (refl, update_other-IsHeld id other release s (λ p. refl) (different other id k) h)
  call-Kept id (health_call other is_alive latency_ms now) s k h =
      elim (Bool-cases (text_eq other id)) [
        | inl e ↦ (
          refl,
          subst (λ i. IsHeld id (behind t s (t.update i (set_health is_alive latency_ms now) s)))
              (sym ((text_eq_iff other id).0 e))
              (update_self-IsHeld id (set_health is_alive latency_ms now) s (λ p. refl) (λ p. refl)
                h),
        )
        | inr e ↦ (
          refl,
          update_other-IsHeld id other (set_health is_alive latency_ms now) s (λ p. refl)
              (different other id e) h,
        )
      ]

  held_stays :
      (id : Text) (cs : List Call) (s : State)
      → NoRelease id cs
      → IsHeld id s
      → times_leased t find_by_id id cs s ≡ 0
  unfolding times_leased
  held_stays id [] s k h = refl
  held_stays id (c ∷ cs) s k h =
      let (none_now, still) = call-Kept id c s k.0 h in
      omega (arith, none_now, held_stays id cs (call t find_by_id c s).1 k.1 still)

  -- What is given away is held.
  abbrev Gives : Text → List Text × State → Type 0
  Gives id r = (times id r.0 ≡ 0) ⊎ ((times id r.0 ≡ 1) × IsHeld id r.1)

  lease-Gives :
      (id user_id country : Text) (now : ℕ) (s : State) (out : Outcome × State)
      → Result user_id country now s out
      → Gives id (given out.0, out.1)
  lease-Gives id user_id country now s out (inl (nothing, same)) = inl (rw nothing refl)
  lease-Gives id user_id country now s out (inr (l, e, holds)) =
      elim (Bool-cases (text_eq l.proxy_id id)) [
        | inr other ↦ inl (rw e (ground arith))
        | inl this ↦
            let named : holds.proxy.id ≡ id =
              sym (lease_id user_id country now s out.1 l holds)
              ∙ (text_eq_iff l.proxy_id id).0 this in
            inr (
              rw e (ground arith),
              record {
                proxy = assign user_id now holds.proxy;
                user_id = user_id;
                at = ap (λ i. row i out.1) (sym named) ∙ holds.is_row;
                held = unfold assign in refl;
              },
            )
      ]

  call-Gives : (id : Text) (c : Call) (s : State) → Gives id (call t find_by_id c s)
  unfolding call
  call-Gives id (lease_call user_id country now) s =
      lease-Gives id user_id country now s _ (execute-Result user_id country now s)
  call-Gives id (release_call other) s = inl refl
  call-Gives id (health_call other is_alive latency_ms now) s = inl refl

  -- In any sequence of calls, of any users and for any countries, with checks of any proxies between
  -- them and at any times, a proxy that no call releases is leased at most once: a lease that has
  -- expired is not one that has ended.
  pub leased_once :
      (id : Text) (cs : List Call) (s : State)
      → NoRelease id cs
      → times_leased t find_by_id id cs s ≤ 1
  unfolding times_leased
  leased_once id [] s k = omega arith
  leased_once id (c ∷ cs) s k =
      by_call (call-Gives id c s) (leased_once id cs (call t find_by_id c s).1 k.1)
    where
      by_call :
          Gives id (call t find_by_id c s)
          → times_leased t find_by_id id cs (call t find_by_id c s).1 ≤ 1
          → times_leased t find_by_id id (c ∷ cs) s ≤ 1
      by_call (inl none_now) le = omega arith
      by_call (inr (one, h)) le = omega (arith, held_stays id cs (call t find_by_id c s).1 k.1 h)
