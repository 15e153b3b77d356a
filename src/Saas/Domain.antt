-- ===== src/Saas/Domain.antt =====
-- The entities of saas/src/core/domain/entities. Times are in milliseconds since the epoch.
use proxy_redirector.Prelude.{ℕ, Bool, true, false, ◌&&◌, not, Option, none, some, leb}
use proxy_redirector.Text.{Text, is_empty}

pub data UserRole : Type 0 where
  user pro_user enterprise admin support : UserRole

-- `hierarchy`
unfoldable pub rank : UserRole → ℕ
rank user = 1
rank pro_user = 2
rank enterprise = 3
rank support = 4
rank admin = 5

pub record User : Type 0 where
  pub id : Text
  pub email : Text
  pub password_hash : Text
  pub role : UserRole

unfoldable pub has_access_to_tier : UserRole → User → Bool
unfolding rank
has_access_to_tier min_role u = leb (rank min_role) (rank u.role)

pub data ProxyPoolType : Type 0 where
  static_dedicated static_shared dynamic_rotating : ProxyPoolType

pub data ProxyTier : Type 0 where
  tier_1_private_vps tier_2_static_isp tier_3_static_datacenter : ProxyTier

-- The properties of a static proxy that the server's code reads or writes.
pub record StaticProxy : Type 0 where
  pub id : Text
  pub ip : Text
  pub port : ℕ
  pub protocol : Text
  pub pool_type : ProxyPoolType
  pub tier : ProxyTier
  pub country_code : Text
  pub fraud_score : ℕ
  pub is_alive : Bool
  pub last_latency_ms : ℕ
  pub last_checked_at : ℕ
  pub assigned_user_id : Option Text
  pub assigned_at : Option ℕ
  pub lease_expires_at : Option ℕ

-- `Boolean(assignedUserId)`: a missing id and the empty one are falsy.
unfoldable pub is_leased : StaticProxy → Bool
is_leased p = elim p.assigned_user_id [ none ↦ false | some id ↦ not (is_empty id) ]

unfoldable pub is_dedicated : StaticProxy → Bool
is_dedicated p = elim p.pool_type [ static_dedicated ↦ true | _ ↦ false ]

unfoldable pub is_clean_for_vip : StaticProxy → Bool
is_clean_for_vip p = leb p.fraud_score 15 && p.is_alive
