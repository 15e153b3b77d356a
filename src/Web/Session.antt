-- ===== src/Web/Session.antt =====
-- The session of `App` in saas/frontend/src/App.tsx: the token and the user, the handlers of the
-- forms and buttons that change them, and the ends of the requests under way. The list of plans, the
-- language and the colours are left out. A request that fails, or is answered by something that is
-- not JSON, is `unreachable`: it ends in the `catch` block.
pub mod Machine
pub mod Laws
pub mod Logout
use proxy_redirector.Prelude.{
  ℕ, ◌+◌, ◌-◌, Bool, true, false, ◌&&◌, not, Option, none, some, List, [], ◌∷◌, ◌++◌, zero, suc,
  ltb, if◌then◌else◌,
}
use proxy_redirector.Text.{Text, codes, text_eq, is_empty, or_text, includes}

pub record Subscription : Type 0 where
  pub id : Text
  pub status : Text
  pub plan_name : Text
  pub bandwidth_limit_gb : ℕ
  pub price_monthly : ℕ

pub record Account : Type 0 where
  pub id : Text
  pub email : Text
  pub name : Text
  pub role : Text
  pub subscriptions : List Subscription

pub record AdminOverview : Type 0 where
  pub total_users : ℕ
  pub active_subscriptions : ℕ
  pub online_relays : ℕ
  pub static_proxies_count : ℕ

pub data Tab : Type 0 where
  overview proxies mesh api devices billing admin : Tab

pub data AuthMode : Type 0 where
  login register : AuthMode

-- The arguments of `showToast`; those of one call in two languages are one constructor.
pub data Message : Type 0 where
  signed_in signed_in_standalone : Message
  signed_in_as : Text → Message
  session_established live_session : Message
  connect_refused : Text → Message
  subscription_activated subscription_upgraded plan_updated : Message

pub record SessionInfo : Type 0 where
  pub session_id : Text
  pub public_ip : Text
  pub socks_port : ℕ
  pub http_port : ℕ

-- What a request is answered; a refusal has the message of its error, empty where it is missing.
pub data Reply (A : Type 0) : Type 0 where
  unreachable : Reply A
  refused : Text → Reply A
  success : A → Reply A

-- The endpoint and the JSON of a form: only a registration has a name.
pub record AuthRequest : Type 0 where
  pub endpoint : Text
  pub email : Text
  pub password : Text
  pub name : Option Text

-- `stored` is the item 'saas_token' of the local storage. `profile_calls` and `stats_calls` are the
-- tokens of the requests under way, the newest first; `auths`, `connects` and `upgrades` are the
-- other requests under way, `toast_timers` the timers that end a toast. A form keeps the token, the
-- address and the name of its start, an upgrade its token. `sent` are the forms that were sent, the
-- newest first.
pub record Session : Type 0 where
  pub token : Option Text
  pub stored : Option Text
  pub user : Option Account
  pub stats : Option AdminOverview
  pub active_tab : Tab
  pub auth_modal : Option AuthMode
  pub email : Text
  pub password : Text
  pub name : Text
  pub error_msg : Text
  pub toast : Option Message
  pub toast_timers : ℕ
  pub connecting : Bool
  pub session_info : Option SessionInfo
  pub profile_calls : List (Option Text)
  pub stats_calls : List (Option Text)
  pub auths : List (Option Text × Text × Text)
  pub connects : ℕ
  pub upgrades : List (Option Text)
  pub sent : List AuthRequest

abbrev pub show_toast : Message → Session → Session
show_toast m s = record s { toast = some m; toast_timers = s.toast_timers + 1 }

-- `token` as a condition: a missing and an empty one are false.
abbrev pub has_token : Option Text → Bool
has_token none = false
has_token (some t) = not (is_empty t)

abbrev pub same_token : Option Text → Option Text → Bool
same_token none none = true
same_token none (some t) = false
same_token (some t) none = false
same_token (some t) (some u) = text_eq t u

-- `setToken`: only a change runs the effect, which fetches the profile by the new token.
unfoldable pub set_token : Option Text → Session → Session
set_token t s =
    let changed : Session = record s { token = t } in
    if same_token s.token t
    then changed
    else if has_token t
    then record changed { profile_calls = t ∷ s.profile_calls }
    else changed

-- `setToken(token)` with `localStorage.setItem('saas_token', token)`
unfoldable pub keep_token : Text → Session → Session
unfolding set_token
keep_token t s = record (set_token (some t) s) { stored = some t }

-- `setToken(null)` with `localStorage.removeItem('saas_token')`
unfoldable pub drop_token : Session → Session
unfolding set_token
drop_token s = record (set_token none s) { stored = none }

abbrev pub is_admin : Account → Bool
is_admin a = text_eq a.role (codes "ADMIN")

-- `fetchAdminStats()`, with the token of the render that started the handler
unfoldable pub fetch_admin_stats : Option Text → Session → Session
fetch_admin_stats t s = record s { stats_calls = t ∷ s.stats_calls }

-- `fetchProfile` from its answer on; `t` is the token that it was sent with.
unfoldable pub end_profile : Option Text → Reply Account → Session → Session
unfolding fetch_admin_stats
end_profile t unreachable s = s
end_profile t (refused m) s = drop_token s
end_profile t (success a) s =
    let signed : Session = record s { user = some a } in
    if is_admin a then fetch_admin_stats t signed else signed

-- `fetchAdminStats` from its answer on
unfoldable pub end_stats : Reply AdminOverview → Session → Session
end_stats unreachable s = s
end_stats (refused m) s = s
end_stats (success o) s = record s { stats = some o }

abbrev pub is_register : Option AuthMode → Bool
is_register none = false
is_register (some login) = false
is_register (some register) = true

unfoldable pub auth_request : Session → AuthRequest
auth_request s = record {
  endpoint =
      if is_register s.auth_modal
      then codes "/api/v1/auth/register"
      else codes "/api/v1/auth/login";
  email = s.email;
  password = s.password;
  name = if is_register s.auth_modal then some s.name else none;
}

-- `handleAuth` up to its request
unfoldable pub submit_auth : Session → Session
unfolding auth_request
submit_auth s = record s {
  error_msg = [];
  auths = (s.token, s.email, s.name) ∷ s.auths;
  sent = auth_request s ∷ s.sent;
}

abbrev pub mock_token : Text
mock_token = codes "mock_jwt_token_demo_mode_secure_session_12345"

-- The user that `handleAuth` makes up when the server can not be reached.
unfoldable pub mock_user : Text → Text → Account
mock_user email name = record {
  id = codes "usr_demo_admin_1";
  email = or_text email (codes "admin@proxyredirector.io");
  name =
      or_text name
        (if includes email (codes "admin") then codes "System Admin" else codes "Demo User");
  role = if includes email (codes "admin") then codes "ADMIN" else codes "USER";
  subscriptions =
      record {
        id = codes "sub_live_1";
        status = codes "ACTIVE";
        plan_name = codes "Enterprise / Pro Tier";
        bandwidth_limit_gb = 200;
        price_monthly = 1200;
      }
      ∷ [];
}

-- `handleAuth` from its answer on; `t`, `email` and `name` are those of the render that started it.
unfoldable pub end_auth : Option Text → Text → Text → Reply (Text × Account) → Session → Session
unfolding keep_token mock_user fetch_admin_stats
end_auth t email name unreachable s =
    show_toast signed_in_standalone
      (record (keep_token mock_token s) { user = some (mock_user email name); auth_modal = none })
end_auth t email name (refused m) s = record s {
  error_msg = or_text m (codes "Authentication failed");
}
end_auth t email name (success (access, a)) s =
    let signed =
      show_toast signed_in (record (keep_token access s) { user = some a; auth_modal = none }) in
    if is_admin a then fetch_admin_stats t signed else signed
