-- ===== src/Saas/Seed/Laws.antt =====
-- Seeding a database that is already seeded.
use proxy_redirector.Prelude.{◌≡◌, refl, subst, sym, Bool, true, false, some, arith, inl, inr}
use proxy_redirector.Text.{Text}
use proxy_redirector.Saas.SeedData.{
  Account, promote, plans, static_proxies, relay_servers, admin_email, admin_account,
}
use proxy_redirector.Saas.Seed.{SeedTable, seed_all, after, in_turn, Database, Tables, main}
use proxy_redirector.Saas.Seed.Loops.{
  Same, upsert_either, upsert_Same, has_key, are_distinct, after_goes_on, loop_again,
}

promote_twice : (a : Account) → promote (promote a) ≡ promote a
unfolding promote
promote_twice a = refl

promote_new : (hash : Text) → promote (admin_account hash) ≡ admin_account hash
unfolding promote
promote_new hash = refl

-- The administrator, upserted again with any hash, stays as the first upsert has left him.
admin_again :
    (t : SeedTable Account) (hash hash' : Text) (s s1 s2 : t.State)
    → t.upsert admin_email promote (admin_account hash) s ≡ some s1
    → t.upsert admin_email promote (admin_account hash') s1 ≡ some s2
    → Same t s1 s2
admin_again t hash hash' s s1 s2 first second =
    let (x, r, e, which) = upsert_either t admin_email promote (admin_account hash) s s1 first in
    let fix : promote x ≡ x = elim which [
      | inl k ↦ rw k (promote_new hash)
      | inr (y, k) ↦ rw k (promote_twice y)
    ] in
    upsert_Same t admin_email promote (admin_account hash') x r s1 s2 e fix second

plans_distinct : are_distinct (λ x. x.name) plans ≡ true
unfolding are_distinct has_key
plans_distinct = refl

proxies_distinct : are_distinct (λ x. x.ip) static_proxies ≡ true
unfolding are_distinct has_key
proxies_distinct = refl

relays_distinct : are_distinct (λ x. x.public_ip) relay_servers ≡ true
unfolding are_distinct has_key
relays_distinct = refl

in_turn_goes_on :
    {P U X R : Type 0} (p : Bool × P) (u : Bool × U) (x : Bool × X) (r : Bool × R) (old : U × X × R)
    → (in_turn p u x r old).0 ≡ true
    → (p.0 ≡ true)
      × (u.0 ≡ true)
      × (x.0 ≡ true)
      × (r.0 ≡ true)
      × ((in_turn p u x r old).1 ≡ (p.1, u.1, x.1, r.1))
unfolding in_turn
in_turn_goes_on (true, ps) (true, us) (true, xs) (true, rs) old h = (refl, refl, refl, refl, refl)
in_turn_goes_on (true, ps) (true, us) (true, xs) (false, rs) old h = absurd (ground arith)
in_turn_goes_on (true, ps) (true, us) (false, xs) r old h = absurd (ground arith)
in_turn_goes_on (true, ps) (false, us) x r old h = absurd (ground arith)
in_turn_goes_on (false, ps) u x r old h = absurd (ground arith)

module _ (d : Database) where
  open d use {plan_table, user_table, proxy_table, relay_table}

  -- The same rows in all four tables, but for the times of their last changes
  abbrev pub SameTables : Tables d → Tables d → Type 0
  SameTables s s' =
      Same plan_table s.0 s'.0
      × Same user_table s.1 s'.1
      × Same proxy_table s.2 s'.2
      × Same relay_table s.3 s'.3

  abbrev plan_run : Tables d → Bool × plan_table.State
  plan_run s = seed_all plan_table (λ x. x.name) plans s.0

  abbrev admin_run : Text → Tables d → Bool × user_table.State
  admin_run hash s = after s.1 (user_table.upsert admin_email promote (admin_account hash) s.1)

  abbrev proxy_run : Tables d → Bool × proxy_table.State
  proxy_run s = seed_all proxy_table (λ x. x.ip) static_proxies s.2

  abbrev relay_run : Tables d → Bool × relay_table.State
  relay_run s = seed_all relay_table (λ x. x.public_ip) relay_servers s.3

  main_parts :
      (hash : Text) (s : Tables d)
      → (main d hash s).0 ≡ true
      → ((plan_run s).0 ≡ true)
        × ((admin_run hash s).0 ≡ true)
        × ((proxy_run s).0 ≡ true)
        × ((relay_run s).0 ≡ true)
        × ((main d hash s).1
            ≡ ((plan_run s).1, (admin_run hash s).1, (proxy_run s).1, (relay_run s).1))
  unfolding main
  main_parts hash s h =
      in_turn_goes_on (plan_run s) (admin_run hash s) (proxy_run s) (relay_run s) (s.1, s.2, s.3) h

  -- The tables that the four parts leave.
  abbrev left : Text → Tables d → Tables d
  left hash s = ((plan_run s).1, (admin_run hash s).1, (proxy_run s).1, (relay_run s).1)

  left_again :
      (hash hash' : Text) (s : Tables d)
      → (main d hash s).0 ≡ true
      → (main d hash' (left hash s)).0 ≡ true
      → SameTables (left hash s) (main d hash' (left hash s)).1
  left_again hash hash' s h k =
      let (p, u, x, r, e) = main_parts hash s h in
      let (p', u', x', r', e') = main_parts hash' (left hash s) k in
      let upsert = user_table.upsert admin_email promote in
      rw e' (
        loop_again plan_table (λ y. y.name) plans s.0 plans_distinct p p',
        admin_again user_table hash hash' s.1 (admin_run hash s).1 (admin_run hash' (left hash s)).1
            (after_goes_on s.1 (upsert (admin_account hash) s.1) u)
            (after_goes_on (left hash s).1 (upsert (admin_account hash') (left hash s).1) u'),
        loop_again proxy_table (λ y. y.ip) static_proxies s.2 proxies_distinct x x',
        loop_again relay_table (λ y. y.public_ip) relay_servers s.3 relays_distinct r r',
      )

  -- Seeding a database again, with any hash, changes no row of the four tables but for the time of
  -- its last change, if neither run of the script fails.
  pub seed_again :
      (hash hash' : Text) (s : Tables d)
      → (main d hash s).0 ≡ true
      → (main d hash' (main d hash s).1).0 ≡ true
      → SameTables (main d hash s).1 (main d hash' (main d hash s).1).1
  seed_again hash hash' s h =
      let e = (main_parts hash s h).4 in
      subst (λ s1. (main d hash' s1).0 ≡ true → SameTables s1 (main d hash' s1).1) (sym e)
        (left_again hash hash' s h)
