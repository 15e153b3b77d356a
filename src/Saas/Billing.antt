-- ===== src/Saas/Billing.antt =====
-- The checkout of saas/src/modules/billing/billing.routes.ts: the subscription that is created and
-- the change of the user's role.
use proxy_redirector.Prelude.{
  ℕ, ◌+◌, ◌*◌, ◌≡◌, refl, Bool, Option, none, some, List, ◌∷◌, if◌then◌else◌, Bool-cases, inl, inr,
}
use proxy_redirector.Text.{Text, codes, includes, to_lower}
use proxy_redirector.Saas.Domain.{UserRole, pro_user}

pub record Plan : Type 0 where
  pub id : Text
  pub name : Text

-- The `data` of the new subscription.
pub record Subscription : Type 0 where
  pub user_id : Text
  pub plan_id : Text
  pub status : Text
  pub period_start : ℕ
  pub period_end : ℕ

-- The period of 30 days, in milliseconds.
abbrev pub period_ms : ℕ
period_ms = 30 * 24 * 60 * 60 * 1000

-- `plan.name.toLowerCase().includes('pro')`
abbrev pub is_pro_plan : Plan → Bool
is_pro_plan plan = includes (to_lower plan.name) (codes "pro")

-- The state that a checkout changes: the user's role and subscriptions.
pub record Account : Type 0 where
  pub user_id : Text
  pub role : UserRole
  pub subscriptions : List Subscription

-- `prisma.subscription.create`: the subscription for 30 days from now.
abbrev pub subscription : Plan → ℕ → Account → Subscription
subscription plan now a = record {
  user_id = a.user_id;
  plan_id = plan.id;
  status = codes "ACTIVE";
  period_start = now;
  period_end = now + period_ms;
}

abbrev pub subscribed : Plan → ℕ → Account → Account
subscribed plan now a = record a { subscriptions = subscription plan now a ∷ a.subscriptions }

-- The plan that was found, if any; `none` in the result is the answer that there is none. The two
-- readings of the clock are taken as one.
unfoldable pub checkout : Option Plan → ℕ → Account → Option Account
checkout none now a = none
checkout (some plan) now a =
    let added : Account = subscribed plan now a in
    some (if is_pro_plan plan then record added { role = pro_user } else added)

-- A checkout of a plan that is found adds one subscription to it, for 30 days from the given
-- time, and keeps the older ones; the role becomes PRO_USER for a plan whose name holds "pro" in
-- any case and is kept for another.
pub checkout_adds :
    (plan : Plan) (now : ℕ) (a : Account)
    → (b : Account) × (s : Subscription) × (checkout (some plan) now a ≡ some b)
      × (b.subscriptions ≡ s ∷ a.subscriptions)
      × (s.plan_id ≡ plan.id)
      × (s.period_start ≡ now)
      × (s.period_end ≡ now + period_ms)
      × (b.role ≡ (if is_pro_plan plan then pro_user else a.role))
unfolding checkout
checkout_adds plan now a = elim (Bool-cases (is_pro_plan plan)) [
  | inl e ↦ (
    record (subscribed plan now a) { role = pro_user },
    subscription plan now a,
    rw e,
    refl,
    refl,
    refl,
    refl,
    rw e,
  )
  | inr e ↦ (subscribed plan now a, subscription plan now a, rw e, refl, refl, refl, refl, rw e)
]
