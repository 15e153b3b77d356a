-- ===== src/Saas/Seed.antt =====
-- `main` of saas/prisma/seed.ts: the plans, the administrator, the static proxies and the relays that
-- a new database starts with. The tables are parameters.
pub mod Loops
pub mod Laws
use proxy_redirector.Prelude.{
  ℕ, ◌≡◌, ◌≢◌, Bool, true, false, Option, none, some, List, [], ◌∷◌, if◌then◌else◌,
}
use proxy_redirector.Text.{Text}
use proxy_redirector.Saas.SeedData.{
  Plan, Account, SeedProxy, SeedRelay, plans, admin_email, admin_account, promote, static_proxies,
  relay_servers,
}

-- A table with a unique key. A row has the columns `A`, which the script writes, the time of its last
-- change, which Prisma writes itself where the table has an `updatedAt`, and the others, `Rest`.
-- `row` shows `A` and `Rest`, and `touched` the time. An upsert that throws is `none`; one that does
-- not makes the row of the key or changes it, and no other.
pub record SeedTable (A : Type 0) : Type 1 where
  pub State : Type 0
  pub Rest : Type 0
  pub row : Text → State → Option (A × Rest)
  pub touched : Text → State → ℕ
  pub upsert : Text → (A → A) → A → State → Option State
  pub upsert_new :
      (key : Text) (f : A → A) (new : A) (s s' : State)
      → row key s ≡ none
      → upsert key f new s ≡ some s'
      → (r : Rest) × (row key s' ≡ some (new, r))
  pub upsert_old :
      (key : Text) (f : A → A) (new x : A) (r : Rest) (s s' : State)
      → row key s ≡ some (x, r)
      → upsert key f new s ≡ some s'
      → row key s' ≡ some (f x, r)
  pub upsert_other :
      (key : Text) (f : A → A) (new : A) (s s' : State)
      → upsert key f new s ≡ some s'
      → (other : Text) → other ≢ key
      → row other s' ≡ row other s

-- A command that may throw, as what it leaves and whether the script goes on.
abbrev pub after : {S : Type 0} → S → Option S → Bool × S
after s none = (false, s)
after s (some s') = (true, s')

module _ {A : Type 0} (t : SeedTable A) (key : A → Text) where
  open t use {State, upsert}

  -- One of the loops: each entry is upserted whole, until one throws.
  unfoldable pub seed_all : List A → State → Bool × State
  seed_all [] s = (true, s)
  seed_all (x ∷ xs) s =
      let r = after s (upsert (key x) (λ old. x) x s) in
      let rest = seed_all xs r.1 in if r.0 then rest else r

-- The four parts of the script in turn; where one throws, the tables of those behind it stay.
unfoldable pub in_turn :
    {P U X R : Type 0}
    → Bool × P
    → Bool × U
    → Bool × X
    → Bool × R
    → U × X × R
    → Bool × (P × U × X × R)
in_turn (p, ps) (u, us) (x, xs) (r, rs) (us0, xs0, rs0) =
    if p
    then if u
      then if x then (r, (ps, us, xs, rs)) else (false, (ps, us, xs, rs0))
      else (false, (ps, us, xs0, rs0))
    else (false, (ps, us0, xs0, rs0))

pub record Database : Type 1 where
  pub plan_table : SeedTable Plan
  pub user_table : SeedTable Account
  pub proxy_table : SeedTable SeedProxy
  pub relay_table : SeedTable SeedRelay

abbrev pub Tables : Database → Type 0
Tables d = d.plan_table.State × d.user_table.State × d.proxy_table.State × d.relay_table.State

module _ (d : Database) where
  open d use {plan_table, user_table, proxy_table, relay_table}

  -- `main`, with the hash of the administrator's password, which has a salt of its own each time.
  unfoldable pub main : Text → Tables d → Bool × Tables d
  main hash (ps, us, xs, rs) =
      let p = seed_all plan_table (λ x. x.name) plans ps in
      let u = after us (user_table.upsert admin_email promote (admin_account hash) us) in
      let x = seed_all proxy_table (λ y. y.ip) static_proxies xs in
      let r = seed_all relay_table (λ y. y.public_ip) relay_servers rs in
      in_turn p u x r (us, xs, rs)
