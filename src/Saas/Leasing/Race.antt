-- ===== src/Saas/Leasing/Race.antt =====
-- `execute` looks for a proxy and assigns it in two queries. Two calls whose queries are interleaved
-- may both be told that they have the same proxy.
use proxy_redirector.Prelude.{refl, ◌∙◌, ℕ, ◌+◌, ◌≡◌, ◌≢◌, Option, none, some}
use proxy_redirector.Text.{Text}
use proxy_redirector.Saas.Domain.{User, user, StaticProxy}
use proxy_redirector.Saas.Leasing.{
  ProxyTable, assign, Lease, leased, lease_of, find_available_static, lease_proxy_to_user,
  lease_available, lease_for, execute,
}
use proxy_redirector.Saas.Leasing.Laws.{has_access, free_available}

-- For a user who may lease, `execute` is the look at the table and then what follows it.
execute-look :
    (t : ProxyTable) (find_by_id : Text → Option User) (u : User) (user_id country : Text) (now : ℕ)
    (s : t.State)
    → find_by_id user_id ≡ some u
    → u.role ≢ user
    → execute t find_by_id user_id country now s
      ≡ lease_available t user_id now (find_available_static t country s) s
unfolding execute lease_for
execute-look t find_by_id u user_id country now s found role =
    rw (found, lease_for) (rw (has_access u role) refl)

-- If two calls for the same country, of users who may lease, both look before either assigns, and a
-- proxy is found, then it had no user, both are answered with a lease of it for 30 days, and its row
-- is the second user's: the first user is left without the proxy. The first call is then `execute`
-- as it is, and the second one what `execute` does behind its look.
pub both_leased :
    (t : ProxyTable) (find_by_id : Text → Option User) (u v : User) (first second country : Text)
    (now later : ℕ) (s : t.State) (x : StaticProxy)
    → find_by_id first ≡ some u
    → u.role ≢ user
    → find_by_id second ≡ some v
    → v.role ≢ user
    → find_available_static t country s ≡ some x
    → let looked = find_available_static t country s in
      (l1 : Lease) × (l2 : Lease) × (s1 : t.State) × (s2 : t.State) × (execute t find_by_id first
          country now s
        ≡ (leased l1, s1))
      × (execute t find_by_id second country later s ≡ lease_available t second later looked s)
      × (lease_available t second later looked s1 ≡ (leased l2, s2))
      × (x.assigned_user_id ≡ none)
      × (l1.proxy_id ≡ x.id)
      × (l1.lease_expires_at ≡ some (now + 2_592_000_000))
      × (l2.proxy_id ≡ x.id)
      × (l2.lease_expires_at ≡ some (later + 2_592_000_000))
      × (t.row x.id s2
          ≡ some (record x {
            assigned_user_id = some second;
            assigned_at = some later;
            lease_expires_at = some (later + 2_592_000_000);
          }))
unfolding find_available_static lease_available lease_proxy_to_user assign lease_of
both_leased t find_by_id u v first second country now later s x user1 may1 user2 may2 found =
    let (free, at, least) = t.find_first_some _ s x found in
    let (s1, run1, at1, others1) = t.update_row x.id (assign first now) s x at refl in
    let (s2, run2, at2, others2) = t.update_row x.id (assign second later) s1 _ at1 refl in
    (
      lease_of (assign first now x),
      lease_of (assign second later (assign first now x)),
      s1,
      s2,
      execute-look t find_by_id u first country now s user1 may1
          ∙ rw found (rw (run1, lease_available, lease_proxy_to_user)),
      execute-look t find_by_id v second country later s user2 may2,
      rw found (rw (run2, lease_available, lease_proxy_to_user)),
      (free_available country x free).1,
      refl,
      refl,
      refl,
      refl,
      at2,
    )
