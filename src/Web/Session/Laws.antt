-- ===== src/Web/Session/Laws.antt =====
-- What the local storage holds, and who may see the administration.
use proxy_redirector.Prelude.{
  ◌≡◌, ◌≢◌, Option, none, some, List, [], ◌∷◌, refl, arith, ltb, Bool-cases, inl, inr,
}
use proxy_redirector.Text.{Text, codes, or_text, includes}
use proxy_redirector.Web.Session.{
  Session, Account, SessionInfo, Reply, unreachable, refused, success, admin, set_token, keep_token,
  drop_token, end_profile, end_stats, submit_auth, end_auth, fetch_admin_stats, mock_user,
  mock_token,
}
use proxy_redirector.Web.Session.Machine.{
  demo_token, on_call, demo_login, logout, connect_relay, end_connect, upgrade_plan, end_upgrade,
  nav_click, shows_admin, take_at, Event, submit, leave, demo, nav, profile_ends, stats_ends,
  auth_ends, relay_ends, upgrade_ends, step, run,
}

-- The stored token is the one of the session.
pub record IsStored (s : Session) : Type 0 where
  pub stored : s.stored ≡ s.token

keep_token-IsStored : (t : Text) (s : Session) → IsStored (keep_token t s)
unfolding keep_token set_token
keep_token-IsStored t s = ground arith

drop_token-IsStored : (s : Session) → IsStored (drop_token s)
unfolding drop_token set_token
drop_token-IsStored s = ground arith

end_profile-IsStored :
    (t : Option Text) (reply : Reply Account) (s : Session)
    → IsStored s
    → IsStored (end_profile t reply s)
unfolding end_profile fetch_admin_stats
end_profile-IsStored t unreachable s h = h
end_profile-IsStored t (refused m) s h = drop_token-IsStored s
end_profile-IsStored t (success a) s h = ground arith

end_auth-IsStored :
    (t : Option Text) (email name : Text) (reply : Reply (Text × Account)) (s : Session)
    → IsStored s
    → IsStored (end_auth t email name reply s)
unfolding end_auth fetch_admin_stats
end_auth-IsStored t email name unreachable s h = ground (arith, keep_token-IsStored _ s)
end_auth-IsStored t email name (refused m) s h = ground arith
end_auth-IsStored t email name (success (access, a)) s h =
    ground (arith, keep_token-IsStored access s)

end_connect-IsStored :
    (reply : Reply SessionInfo) (s : Session) → IsStored s → IsStored (end_connect reply s)
unfolding end_connect
end_connect-IsStored unreachable s h = ground arith
end_connect-IsStored (refused m) s h = ground arith
end_connect-IsStored (success info) s h = ground arith

end_upgrade-IsStored :
    (t : Option Text) (reply : Reply (Unit {0})) (s : Session)
    → IsStored s
    → IsStored (end_upgrade t reply s)
unfolding end_upgrade
end_upgrade-IsStored t unreachable s h = ground arith
end_upgrade-IsStored t (refused m) s h = ground arith
end_upgrade-IsStored t (success u) s h = ground arith

-- What holds of a session holds after the end of a request, under way or not.
pub on_call-keeps :
    {A : Type 0} (P : Session → Type 0) (call : Option (A × List A)) (s : Session)
    (f : A → List A → Session)
    → P s
    → ((x : A) (rest : List A) → P (f x rest))
    → P (on_call call s f)
on_call-keeps P none s f h k = h
on_call-keeps P (some (x, rest)) s f h k = k x rest

step-IsStored : (e : Event) (s : Session) → IsStored s → IsStored (step e s)
unfolding step submit_auth connect_relay upgrade_plan logout demo_login nav_click end_stats
step-IsStored leave s h = drop_token-IsStored _
step-IsStored (demo r) s h = ground (arith, keep_token-IsStored (demo_token r) s)
step-IsStored (nav tab) s h = ground arith
step-IsStored (profile_ends i reply) s h =
    on_call-keeps IsStored (take_at i s.profile_calls) s _ h
      λ t rest. end_profile-IsStored t reply _ (ground arith)
step-IsStored (stats_ends i unreachable) s h =
    on_call-keeps IsStored (take_at i s.stats_calls) s _ h λ t rest. ground arith
step-IsStored (stats_ends i (refused m)) s h =
    on_call-keeps IsStored (take_at i s.stats_calls) s _ h λ t rest. ground arith
step-IsStored (stats_ends i (success o)) s h =
    on_call-keeps IsStored (take_at i s.stats_calls) s _ h λ t rest. ground arith
step-IsStored (auth_ends i reply) s h =
    on_call-keeps IsStored (take_at i s.auths) s _ h
      λ call rest. end_auth-IsStored call.0 call.1 call.2 reply _ (ground arith)
step-IsStored (relay_ends reply) s h = elim (Bool-cases (ltb 0 s.connects)) [
  | inl e ↦ rw e (end_connect-IsStored reply _ (ground arith))
  | inr e ↦ rw e h
]
step-IsStored (upgrade_ends i reply) s h =
    on_call-keeps IsStored (take_at i s.upgrades) s _ h
      λ t rest. end_upgrade-IsStored t reply _ (ground arith)
step-IsStored _ s h = ground arith

-- Whatever happens to a session whose token is the stored one, in whatever order the answers come,
-- the stored token stays that of the session.
pub run-IsStored : (es : List Event) (s : Session) → IsStored s → IsStored (run es s)
unfolding run
run-IsStored [] s h = h
run-IsStored (e ∷ es) s h = run-IsStored es (step e s) (step-IsStored e s h)

-- If the server can not be reached, sending the form signs in, whatever the password is: there is a
-- token then, which is stored, and a user of the address that was entered, or of the administrator's
-- where that is empty. The view of the administration then opens exactly for the addresses with
-- "admin" in them.
pub offline_shows_admin :
    (s : Session)
    → let q = run (submit ∷ auth_ends 0 unreachable ∷ nav admin ∷ []) s in
      ((t : Text) × (q.token ≡ some t) × (q.stored ≡ some t) × (t ≢ []))
      × ((a : Account) × (q.user ≡ some a)
          × (s.email ≢ [] → a.email ≡ s.email)
          × (s.email ≡ [] → a.email ≡ codes "admin@proxyredirector.io"))
      × (shows_admin q ≡ includes s.email (codes "admin"))
unfolding run step submit_auth take_at end_auth keep_token set_token mock_user nav_click shows_admin
offline_shows_admin s = (
  (mock_token, ground arith, ground arith, λ h. ground arith),
  (mock_user s.email s.name, ground arith, given s.email, missing s.email),
  ground arith,
)
  where
    given : (email : Text) → email ≢ [] → or_text email (codes "admin@proxyredirector.io") ≡ email
    given [] h = absurd (h refl)
    given (c ∷ email) h = refl

    missing :
        (email : Text)
        → email ≡ []
        → or_text email (codes "admin@proxyredirector.io") ≡ codes "admin@proxyredirector.io"
    missing email h = rw h refl
