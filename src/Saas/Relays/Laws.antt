-- ===== src/Saas/Relays/Laws.antt =====
-- The relays that a user gets after a round of the worker, and what a heartbeat saves from it.
use proxy_redirector.Prelude.{
  ℕ, ◌+◌, ◌≤◌, ◌≡◌, refl, ap, ◌∙◌, false, Option, none, some, arith, if◌then◌else◌,
}
use proxy_redirector.Text.{Text, is_empty, or_text}
use proxy_redirector.Saas.Relays.{
  Relay, RelayTable, Heartbeat, online, stale_ms, beat, relay_of, is_stale, set_offline, heartbeat,
  run_check_cycle,
}

-- What a round of the worker leaves of a row.
abbrev swept : ℕ → Relay → Relay
swept now x = if is_stale stale_ms now x then set_offline x else x

module _ (t : RelayTable) where
  open t use {State, row, find_first, update_many, upsert, create_session}

  kept_online :
      (b : Heartbeat) (at now : ℕ) (x : Relay)
      → or_text b.status online ≡ online
      → now ≤ at + stale_ms
      → swept now (beat b at x) ≡ beat b at x
  unfolding is_stale beat
  kept_online b at now x on time = ground arith

  -- If a relay that the table holds sends a heartbeat with no status, or the status 'ONLINE', and the
  -- database takes it, then a round of the worker at most 90 seconds later leaves the relay online,
  -- with the load of its heartbeat, whether the round reaches the database or not.
  pub run_check_cycle-heartbeat :
      (b : Heartbeat) (at now : ℕ) (s s' : State) (x r : Relay)
      → row b.public_ip s ≡ some x
      → is_empty b.public_ip ≡ false
      → or_text b.status online ≡ online
      → upsert b.public_ip (beat b at) (relay_of b) at s ≡ some (r, s')
      → now ≤ at + stale_ms
      → row b.public_ip (run_check_cycle t now (heartbeat t b at s).1) ≡ some (beat b at x)
  unfolding run_check_cycle heartbeat beat
  run_check_cycle-heartbeat b at now s s' x r held ip on taken time =
      rw (ip) (rw (taken) (by_round (update_many (is_stale stale_ms now) set_offline s') refl))
    where
      beaten_row : row b.public_ip s' ≡ some (beat b at x)
      beaten_row =
          t.upsert_row b.public_ip (beat b at) (relay_of b) at s s' x r (λ y. refl) held taken

      by_round :
          (o : Option (ℕ × State))
          → update_many (is_stale stale_ms now) set_offline s' ≡ o
          → row b.public_ip (elim o [ none ↦ s' | some (n, s'') ↦ s'' ]) ≡ some (beat b at x)
      by_round none e = beaten_row
      by_round (some (n, s'')) e =
          t.update_many_row (is_stale stale_ms now) set_offline s' s'' n b.public_ip (λ y. refl) e
          ∙ rw (beaten_row) (ap some (kept_online b at now x on time))
