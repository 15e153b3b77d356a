-- ===== src/Web/Session/Machine.antt =====
-- The buttons of `App` in saas/frontend/src/App.tsx that need no form, those of the side bar, and all
-- events of the session as steps.
use proxy_redirector.Prelude.{
  ℕ, zero, suc, ◌+◌, ◌-◌, Bool, true, false, ◌&&◌, Option, none, some, List, [], ◌∷◌, ltb,
  if◌then◌else◌,
}
use proxy_redirector.Text.{Text, codes, or_text}
use proxy_redirector.Web.Session.{
  Session, Account, AdminOverview, SessionInfo, Tab, admin, AuthMode, login, Reply, unreachable,
  refused, success, signed_in_as, session_established, live_session, connect_refused,
  subscription_activated, subscription_upgraded, plan_updated, show_toast, keep_token, drop_token,
  end_profile, end_stats, submit_auth, end_auth, is_admin, has_token,
}

abbrev pub DemoRole : Type 0
DemoRole = Bool

-- The user of `handleDemoLogin`: `true` is the role 'ADMIN', `false` the role 'USER'.
unfoldable pub demo_user : DemoRole → Account
demo_user is_admin = record {
  id = if is_admin then codes "usr_demo_admin_1" else codes "usr_demo_client_2";
  email = if is_admin then codes "admin@proxyredirector.io" else codes "client@enterprise.com";
  name = if is_admin then codes "System Admin" else codes "Enterprise Client";
  role = if is_admin then codes "ADMIN" else codes "USER";
  subscriptions =
      record {
        id = codes "sub_demo_1";
        status = codes "ACTIVE";
        plan_name = if is_admin then codes "Enterprise Master" else codes "Pro Tier";
        bandwidth_limit_gb = if is_admin then 1000 else 200;
        price_monthly = if is_admin then 3000 else 1200;
      }
      ∷ [];
}

abbrev pub demo_token : DemoRole → Text
demo_token true = codes "mock_jwt_token_admin_session"
demo_token false = codes "mock_jwt_token_user_session"

-- `handleDemoLogin`
unfoldable pub demo_login : DemoRole → Session → Session
unfolding demo_user keep_token
demo_login r s =
    show_toast (signed_in_as (demo_user r).role)
      (record (keep_token (demo_token r) s) { user = some (demo_user r); auth_modal = none })

-- `onLogout` of the side bar
unfoldable pub logout : Session → Session
unfolding drop_token
logout s = drop_token (record s { user = none })

-- `handleConnectRelay` up to its request
unfoldable pub connect_relay : Session → Session
connect_relay s = record s { connecting = true; connects = s.connects + 1 }

-- `handleConnectRelay` from its answer on
unfoldable pub end_connect : Reply SessionInfo → Session → Session
end_connect unreachable s = show_toast live_session (record s {
  connecting = false;
  session_info = some (record {
    session_id = codes "ses_live_9948271049382";
    public_ip = codes "198.51.100.100";
    socks_port = 1080;
    http_port = 8080;
  });
})
end_connect (refused m) s =
    show_toast (connect_refused (or_text m (codes "Failed to connect")))
      (record s { connecting = false })
end_connect (success info) s =
    show_toast session_established (record s { connecting = false; session_info = some info })

-- `handleUpgradePlan` up to its request
unfoldable pub upgrade_plan : Session → Session
upgrade_plan s = record s { upgrades = s.token ∷ s.upgrades }

-- `handleUpgradePlan` from its answer on; only a success fetches the profile.
unfoldable pub end_upgrade : Option Text → Reply (Unit {0}) → Session → Session
end_upgrade t unreachable s = show_toast plan_updated s
end_upgrade t (refused m) s = show_toast subscription_upgraded s
end_upgrade t (success u) s =
    show_toast subscription_activated (record s { profile_calls = t ∷ s.profile_calls })

-- `handleNavClick` of the side bar
unfoldable pub nav_click : Tab → Session → Session
nav_click tab s = elim s.user [
  | none ↦ record s { auth_modal = some login }
  | some a ↦ record s { active_tab = tab }
]

abbrev is_admin_tab : Tab → Bool
is_admin_tab admin = true
is_admin_tab _ = false

-- Whether the view of the administration is shown: `activeTab === 'admin' && user?.role === 'ADMIN'`
unfoldable pub shows_admin : Session → Bool
shows_admin s = elim s.user [ none ↦ false | some a ↦ is_admin_tab s.active_tab && is_admin a ]

-- What stands at a position, and the list without it.
unfoldable pub take_at : {A : Type 0} → ℕ → List A → Option (A × List A)
take_at i [] = none
take_at zero (x ∷ xs) = some (x, xs)
take_at (suc i) (x ∷ xs) = elim (take_at i xs) [ none ↦ none | some (y, ys) ↦ some (y, x ∷ ys) ]

-- What the end of a request does, if it is under way.
abbrev pub on_call : {A : Type 0} → Option (A × List A) → Session → (A → List A → Session) → Session
on_call none s f = s
on_call (some (call, rest)) s f = f call rest

-- The ends of requests name the request by its position.
pub data Event : Type 0 where
  load submit relay upgrade leave toast_timer : Event
  demo : DemoRole → Event
  nav : Tab → Event
  open_auth : AuthMode → Event
  close_auth : Event
  type_email type_password type_name : Text → Event
  profile_ends : ℕ → Reply Account → Event
  stats_ends : ℕ → Reply AdminOverview → Event
  auth_ends : ℕ → Reply (Text × Account) → Event
  relay_ends : Reply SessionInfo → Event
  upgrade_ends : ℕ → Reply (Unit {0}) → Event

-- The event `load` is the first run of the effect, by a token that was stored before. The end of a
-- request that is not under way changes nothing.
unfoldable pub step : Event → Session → Session
unfolding take_at
step load s =
    if has_token s.token then record s { profile_calls = s.token ∷ s.profile_calls } else s
step submit s = submit_auth s
step relay s = connect_relay s
step upgrade s = upgrade_plan s
step leave s = logout s
step toast_timer s =
    if ltb 0 s.toast_timers then record s { toast = none; toast_timers = s.toast_timers - 1 } else s
step (demo r) s = demo_login r s
step (nav tab) s = nav_click tab s
step (open_auth m) s = record s { auth_modal = some m }
step close_auth s = record s { auth_modal = none }
step (type_email t) s = record s { email = t }
step (type_password t) s = record s { password = t }
step (type_name t) s = record s { name = t }
step (profile_ends i reply) s =
    on_call (take_at i s.profile_calls) s
      λ t rest. end_profile t reply (record s { profile_calls = rest })
step (stats_ends i reply) s =
    on_call (take_at i s.stats_calls) s λ t rest. end_stats reply (record s { stats_calls = rest })
step (auth_ends i reply) s =
    on_call (take_at i s.auths) s
      λ call rest. end_auth call.0 call.1 call.2 reply (record s { auths = rest })
step (relay_ends reply) s =
    if ltb 0 s.connects then end_connect reply (record s { connects = s.connects - 1 }) else s
step (upgrade_ends i reply) s =
    on_call (take_at i s.upgrades) s λ t rest. end_upgrade t reply (record s { upgrades = rest })

unfoldable pub run : List Event → Session → Session
run [] s = s
run (e ∷ es) s = run es (step e s)
