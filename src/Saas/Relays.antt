-- ===== src/Saas/Relays.antt =====
-- The relays: the heartbeat of saas/src/modules/relays/relays.routes.ts, the worker that marks the
-- stale ones in saas/src/workers/proxyHealthWorker.ts, the queries of
-- saas/src/infrastructure/repositories/prisma-relay.repository.ts, and the route that connects a user
-- in saas/src/modules/proxies/proxies.routes.ts. The database is a parameter. Times are in
-- milliseconds, loads in a fixed fraction.
pub mod Laws
use proxy_redirector.Prelude.{
  ℕ, ◌+◌, ◌-◌, ◌≤◌, ◌≡◌, ◌≢◌, Bool, true, false, ◌&&◌, ◌||◌, Option, none, some, [], ◌++◌, ltb,
  if◌then◌else◌,
}
use proxy_redirector.Text.{Text, codes, text_eq, is_empty, or_text, replace_all}

-- A row of the table of relays.
pub record Relay : Type 0 where
  pub id : Text
  pub name : Text
  pub region : Text
  pub country : Text
  pub public_ip : Text
  pub socks_port : ℕ
  pub http_port : ℕ
  pub status : Text
  pub current_load : ℕ
  pub active_sessions : ℕ
  pub last_heartbeat : ℕ

-- The fields that a new row is created with.
pub record NewRelay : Type 0 where
  pub name : Text
  pub public_ip : Text
  pub region : Text
  pub country : Text
  pub status : Text
  pub current_load : ℕ
  pub active_sessions : ℕ

-- A new session of a user by a relay.
pub record NewSession : Type 0 where
  pub user_id : Text
  pub relay_id : Text
  pub session_token : Text
  pub client_ip : Text

-- The commands of Prisma for these tables; a command that throws is `none`. `row` is the relay of an
-- address. A relay that is found passes the test and has the least load of those that pass; an update
-- of many changes the rows that pass; an upsert changes the row of the address, if there is one.
pub record RelayTable : Type 1 where
  pub State : Type 0
  pub row : Text → State → Option Relay
  pub find_first : (Relay → Bool) → State → Option (Option Relay)
  pub update_many : (Relay → Bool) → (Relay → Relay) → State → Option (ℕ × State)
  pub upsert : Text → (Relay → Relay) → NewRelay → ℕ → State → Option (Relay × State)
  pub create_session : NewSession → State → Option (Text × State)
  pub find_first_some :
      (p : Relay → Bool) (s : State) (x : Relay)
      → find_first p s ≡ some (some x)
      → (p x ≡ true)
        × (row x.public_ip s ≡ some x)
        × ((ip : Text) (y : Relay)
            → row ip s ≡ some y
            → p y ≡ true
            → x.current_load ≤ y.current_load)
  pub update_many_row :
      (p : Relay → Bool) (f : Relay → Relay) (s s' : State) (n : ℕ) (ip : Text)
      → ((x : Relay) → (f x).public_ip ≡ x.public_ip)
      → update_many p f s ≡ some (n, s')
      → row ip s' ≡ elim (row ip s) [ none ↦ none | some x ↦ some (if p x then f x else x) ]
  pub upsert_row :
      (ip : Text) (f : Relay → Relay) (new : NewRelay) (now : ℕ) (s s' : State) (x r : Relay)
      → ((y : Relay) → (f y).public_ip ≡ y.public_ip)
      → row ip s ≡ some x
      → upsert ip f new now s ≡ some (r, s')
      → row ip s' ≡ some (f x)

abbrev pub online : Text
online = codes "ONLINE"

abbrev pub offline : Text
offline = codes "OFFLINE"

-- The body of a heartbeat, with the falsy value of its type for a missing field.
pub record Heartbeat : Type 0 where
  pub public_ip : Text
  pub current_load : ℕ
  pub active_sessions : ℕ
  pub status : Text
  pub region : Text
  pub country : Text

-- The `update` of the route's upsert
unfoldable pub beat : Heartbeat → ℕ → Relay → Relay
beat b now r = record r {
  last_heartbeat = now;
  current_load = b.current_load;
  active_sessions = b.active_sessions;
  status = or_text b.status online;
}

-- The `create` of the route's upsert: the load and the sessions are left to their defaults.
unfoldable pub relay_of : Heartbeat → NewRelay
relay_of b = record {
  name = codes "relay-" ++ replace_all b'.' (codes "-") b.public_ip;
  public_ip = b.public_ip;
  region = or_text b.region (codes "US-East");
  country = or_text b.country (codes "US");
  status = online;
  current_load = 0;
  active_sessions = 0;
}

-- The `create` of the repository's upsert
unfoldable pub relay_with_load : Heartbeat → NewRelay
unfolding relay_of
relay_with_load b = record (relay_of b) {
  current_load = b.current_load;
  active_sessions = b.active_sessions;
}

-- `staleThresholdMs` of the worker
abbrev pub stale_ms : ℕ
stale_ms = 90000

-- The `where` of the update of stale relays; a threshold before the first moment is 0, before which
-- no heartbeat is.
unfoldable pub is_stale : ℕ → ℕ → Relay → Bool
is_stale threshold_ms now r = ltb r.last_heartbeat (now - threshold_ms) && text_eq r.status online

abbrev pub set_offline : Relay → Relay
set_offline r = record r { status = offline }

-- The `where` of `findBestOnlineRelay`; an empty region is none.
unfoldable pub is_online_in : Text → Relay → Bool
is_online_in region r = text_eq r.status online && (is_empty region || text_eq r.region region)

-- What the routes answer.
pub data Response : Type 0 where
  missing_ip : Response
  beaten : Text → Response
  unavailable : Response
  connected : Relay → Text → Text → Response
  database_error : Response

module _ (t : RelayTable) where
  open t use {State, find_first, update_many, upsert, create_session}

  -- The route '/heartbeat'
  unfoldable pub heartbeat : Heartbeat → ℕ → State → Response × State
  heartbeat b now s =
      if is_empty b.public_ip
      then (missing_ip, s)
      else elim (upsert b.public_ip (beat b now) (relay_of b) now s) [
        | none ↦ (database_error, s)
        | some (r, s') ↦ (beaten r.id, s')
      ]

  -- `upsertHeartbeat`: the repository sets the status to 'ONLINE' whatever the body says.
  unfoldable pub upsert_heartbeat : Heartbeat → ℕ → State → Option (Text × State)
  upsert_heartbeat b now s =
      elim (upsert b.public_ip (beat (record b { status = online }) now) (relay_with_load b) now
        s) [ none ↦ none | some (r, s') ↦ some (r.id, s') ]

  -- `markStaleOffline`
  unfoldable pub mark_stale_offline : ℕ → ℕ → State → Option (ℕ × State)
  mark_stale_offline threshold_ms now = update_many (is_stale threshold_ms now) set_offline

  -- `runCheckCycle` makes the same update and drops an error.
  unfoldable pub run_check_cycle : ℕ → State → State
  run_check_cycle now s = elim (update_many (is_stale stale_ms now) set_offline s) [
    | none ↦ s
    | some (n, s') ↦ s'
  ]

  -- `findBestOnlineRelay`
  unfoldable pub find_best_online_relay : Text → State → Option (Option Relay)
  find_best_online_relay region = find_first (is_online_in region)

  -- The route '/connect' for a user, with the random token and the address of the request.
  unfoldable pub connect_to : NewSession → Option (Option Relay) → State → Response × State
  connect_to new none s = (database_error, s)
  connect_to new (some none) s = (unavailable, s)
  connect_to new (some (some r)) s = elim (create_session (record new { relay_id = r.id }) s) [
    | none ↦ (database_error, s)
    | some (id, s') ↦ (connected r new.session_token id, s')
  ]

  unfoldable pub connect : Text → Text → Text → Text → State → Response × State
  connect user_id region token ip s =
      let new : NewSession = record {
        user_id = user_id;
        relay_id = [];
        session_token = token;
        client_ip = or_text ip (codes "127.0.0.1");
      } in
      connect_to new (find_best_online_relay region s) s
