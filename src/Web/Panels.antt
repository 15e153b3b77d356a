-- ===== src/Web/Panels.antt =====
-- The smaller parts of the web application: the colours, the notifications and the plans of
-- saas/frontend/src/App.tsx, and of its components/: DevicesView, MeshView, AdminView and
-- ProfileModal. Latencies are in tenths of a millisecond.
pub mod Laws
use proxy_redirector.Prelude.{
  ℕ, Bool, true, false, not, ◌&&◌, Option, none, some, List, [], ◌∷◌, map, filter, length, ltb,
  ◌==◌, if◌then◌else◌,
}
use proxy_redirector.Text.{Text, codes, text_eq}

pub data Theme : Type 0 where
  dark light cyber : Theme

-- `toggleTheme`
unfoldable pub toggle_theme : Theme → Theme
toggle_theme dark = light
toggle_theme light = cyber
toggle_theme cyber = dark

pub record Notification : Type 0 where
  pub id : Text
  pub title : Text
  pub read : Bool

abbrev pub set_read : Notification → Notification
set_read n = record n { read = true }

-- `handleMarkAllRead`
unfoldable pub mark_all_read : List Notification → List Notification
mark_all_read = map set_read

-- `unreadCount` of the top bar
unfoldable pub unread_count : List Notification → ℕ
unread_count ns = length (filter (λ n. not n.read) ns)

pub record Plan : Type 0 where
  pub id : Text
  pub name : Text
  pub price_monthly : ℕ
  pub bandwidth_limit_gb : ℕ
  pub max_devices : ℕ
  pub allowed_regions : List Text
  pub has_ad_block : Bool
  pub has_dedicated_ips : Bool

-- The plans that are shown where the server can not be reached.
abbrev pub offline_plans : List Plan
offline_plans =
    record {
      id = codes "1";
      name = codes "Free";
      price_monthly = 0;
      bandwidth_limit_gb = 1;
      max_devices = 1;
      allowed_regions = codes "US" ∷ [];
      has_ad_block = true;
      has_dedicated_ips = false;
    }
    ∷ record {
      id = codes "2";
      name = codes "Pro";
      price_monthly = 1200;
      bandwidth_limit_gb = 200;
      max_devices = 5;
      allowed_regions = codes "US" ∷ codes "EU" ∷ codes "ASIA" ∷ [];
      has_ad_block = true;
      has_dedicated_ips = true;
    }
    ∷ record {
      id = codes "3";
      name = codes "Business";
      price_monthly = 3000;
      bandwidth_limit_gb = 1000;
      max_devices = 15;
      allowed_regions = codes "GLOBAL" ∷ [];
      has_ad_block = true;
      has_dedicated_ips = true;
    }
    ∷ []

pub data PlansReply : Type 0 where
  unreachable refused : PlansReply
  listed : List Plan → PlansReply

-- `fetchPlans` from its answer on
unfoldable pub end_plans : PlansReply → List Plan → List Plan
end_plans unreachable ps = offline_plans
end_plans refused ps = ps
end_plans (listed new) ps = new

pub record Device : Type 0 where
  pub id : Text
  pub name : Text
  pub is_current : Bool

-- `handleRevokeDevice`
unfoldable pub revoke_device : Text → List Device → List Device
revoke_device id = filter (λ d. not (text_eq d.id id))

pub record Relay : Type 0 where
  pub id : Text
  pub load_percent : ℕ
  pub latency : ℕ

abbrev pub set_ping : ℕ × ℕ → Relay → Relay
set_ping (latency, load) r = record r { latency = latency; load_percent = load }

-- `handlePingTest` when its timer ends; `draw` gives the latency and the load of a relay.
unfoldable pub end_ping : (Text → ℕ × ℕ) → List Relay → List Relay
end_ping draw = map (λ r. set_ping (draw r.id) r)

pub record AdminUser : Type 0 where
  pub id : Text
  pub role : Text
  pub active : Bool

-- `toggleUserStatus`
abbrev pub toggle_if : Text → AdminUser → AdminUser
toggle_if id u = if text_eq u.id id then record u { active = not u.active } else u

unfoldable pub toggle_user_status : Text → List AdminUser → List AdminUser
toggle_user_status id = map (toggle_if id)

-- What `ProfileModal` says.
pub data Message : Type 0 where
  profile_updated password_short password_changed two_factor_enabled code_expected : Message

pub record Profile : Type 0 where
  pub is_open : Bool
  pub name : Text
  pub current_password : Text
  pub new_password : Text
  pub is_2fa_enabled : Bool
  pub show_qr : Bool
  pub two_factor_code : Text
  pub messages : List Message

abbrev pub say : Message → Profile → Profile
say m p = record p { messages = m ∷ p.messages }

-- `handleUpdateProfile`
unfoldable pub update_profile : Profile → Profile
update_profile p = say profile_updated (record p { is_open = false })

-- `handleUpdatePassword`
unfoldable pub update_password : Profile → Profile
update_password p =
    if ltb (length p.new_password) 8
    then say password_short p
    else say password_changed (record p { current_password = []; new_password = [] })

-- `handleVerify2FA`
unfoldable pub verify_2fa : Profile → Profile
verify_2fa p =
    if length p.two_factor_code == 6
    then say two_factor_enabled
        (record p { is_2fa_enabled = true; show_qr = false; two_factor_code = [] })
    else say code_expected p
