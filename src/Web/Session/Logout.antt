-- ===== src/Web/Session/Logout.antt =====
-- Signing out, and the answers that come after it.
use proxy_redirector.Prelude.{
  ℕ, ◌≡◌, refl, Bool, true, false, Option, none, some, List, [], ◌∷◌, arith, ltb, All, Bool-cases,
  inl, inr,
}
use proxy_redirector.Text.{Text}
use proxy_redirector.Web.Session.{
  Session, Account, AdminOverview, SessionInfo, Reply, unreachable, refused, success, set_token,
  drop_token, end_profile, end_stats, fetch_admin_stats,
}
use proxy_redirector.Web.Session.Machine.{
  logout, connect_relay, end_connect, nav_click, take_at, Event, load, submit, upgrade, leave, demo,
  profile_ends, stats_ends, auth_ends, relay_ends, upgrade_ends, step, run,
}
use proxy_redirector.Web.Session.Laws.{on_call-keeps}

-- A request of the user: the form, a demo account, an upgrade.
abbrev pub is_request : Event → Bool
is_request submit = true
is_request (demo r) = true
is_request upgrade = true
is_request _ = false

abbrev pub NoRequest : List Event → Type 0
NoRequest = All (λ e. is_request e ≡ false)

-- Nobody is signed in, and no request is under way that would sign somebody in.
pub record IsGuest (s : Session) : Type 0 where
  pub user : s.user ≡ none
  pub token : s.token ≡ none
  pub stored : s.stored ≡ none
  pub no_profiles : s.profile_calls ≡ []
  pub no_auths : s.auths ≡ []
  pub no_upgrades : s.upgrades ≡ []

take_at-nil : {A : Type 0} (i : ℕ) (xs : List A) → xs ≡ [] → take_at i xs ≡ none
unfolding take_at
take_at-nil i [] h = refl
take_at-nil i (x ∷ xs) h = cc

end_connect-IsGuest :
    (reply : Reply SessionInfo) (s : Session) → IsGuest s → IsGuest (end_connect reply s)
unfolding end_connect
end_connect-IsGuest unreachable s h = ground arith
end_connect-IsGuest (refused m) s h = ground arith
end_connect-IsGuest (success info) s h = ground arith

end_stats-IsGuest :
    (reply : Reply AdminOverview) (s : Session) → IsGuest s → IsGuest (end_stats reply s)
unfolding end_stats
end_stats-IsGuest unreachable s h = h
end_stats-IsGuest (refused m) s h = h
end_stats-IsGuest (success o) s h = ground arith

step-IsGuest : (e : Event) (s : Session) → is_request e ≡ false → IsGuest s → IsGuest (step e s)
unfolding step connect_relay logout drop_token set_token nav_click
step-IsGuest submit s q h = cc
step-IsGuest (demo r) s q h = cc
step-IsGuest upgrade s q h = cc
step-IsGuest load s q h = ground arith
step-IsGuest (profile_ends i reply) s q h = rw (take_at-nil i _ h.no_profiles) h
step-IsGuest (stats_ends i reply) s q h =
    on_call-keeps IsGuest (take_at i s.stats_calls) s _ h
      λ t rest. end_stats-IsGuest reply _ (ground arith)
step-IsGuest (auth_ends i reply) s q h = rw (take_at-nil i _ h.no_auths) h
step-IsGuest (relay_ends reply) s q h = elim (Bool-cases (ltb 0 s.connects)) [
  | inl e ↦ rw e (end_connect-IsGuest reply _ (ground arith))
  | inr e ↦ rw e h
]
step-IsGuest (upgrade_ends i reply) s q h = rw (take_at-nil i _ h.no_upgrades) h
step-IsGuest _ s q h = ground arith

run-IsGuest : (es : List Event) (s : Session) → NoRequest es → IsGuest s → IsGuest (run es s)
unfolding run
run-IsGuest [] s q h = h
run-IsGuest (e ∷ es) s q h = run-IsGuest es (step e s) q.1 (step-IsGuest e s q.0 h)

leave-IsGuest :
    (s : Session) → s.profile_calls ≡ [] → s.auths ≡ [] → s.upgrades ≡ [] → IsGuest (step leave s)
unfolding step logout drop_token set_token
leave-IsGuest s p a u = ground arith

-- If no profile, form or upgrade is under way when the user signs out, then nobody is signed in and
-- no token is kept, until the user sends the form, takes a demo account or upgrades, whatever else
-- happens.
pub leave_stays_out :
    (es : List Event) (s : Session)
    → s.profile_calls ≡ []
    → s.auths ≡ []
    → s.upgrades ≡ []
    → NoRequest es
    → let s' = run (leave ∷ es) s in (s'.user ≡ none) × (s'.token ≡ none) × (s'.stored ≡ none)
unfolding run
leave_stays_out es s p a u q =
    let g = run-IsGuest es (step leave s) q (leave-IsGuest s p a u) in (g.user, g.token, g.stored)

-- If the profile is being fetched when the user signs out, its late answer shows the user as signed
-- in again, with no token.
pub late_profile_signs_in :
    (s : Session) (t : Option Text) (rest : List (Option Text)) (a : Account)
    → s.profile_calls ≡ t ∷ rest
    → let s' = run (leave ∷ profile_ends 0 (success a) ∷ []) s in
      (s'.user ≡ some a) × (s'.token ≡ none) × (s'.stored ≡ none)
unfolding run step logout drop_token set_token take_at end_profile fetch_admin_stats
late_profile_signs_in s t rest a h = ground arith

-- A request of the profile that is refused late drops the token that the session has by then, even
-- if it was sent with another, but keeps the user.
pub late_refusal_drops_token :
    (s : Session) (t : Option Text) (new m : Text) (a : Account) (rest : List (Option Text))
    → s.profile_calls ≡ t ∷ rest
    → s.token ≡ some new
    → s.user ≡ some a
    → let s' = run (profile_ends 0 (refused m) ∷ []) s in
      (s'.token ≡ none) × (s'.stored ≡ none) × (s'.user ≡ some a)
unfolding run step take_at end_profile drop_token set_token
late_refusal_drops_token s t new m a rest h tk u = ground arith
