-- ===== src/Objects/Launch.antt =====
-- objects.c: launch_new_connection and the connections that it evicts to stay within the limits
-- of a pool, a database and a user.
pub mod Spare
pub mod Sound
pub mod Fuel
pub mod Ends
use self_db_mini.Base.{
  ℕ, zero, suc, ◌+◌, Bool, true, false, not, ◌&&◌, Option, none, some, List, [], ◌∷◌, length,
  is_empty, is_some, ◌==◌, ltb, leb, if◌then◌else◌,
}
use self_db_mini.Base.Int.{pos, increment, le_ℤ, lt_ℤ, add_ℤ, is_zero}
use self_db_mini.Base.Outcome.{Outcome, done, abort, no_fuel, ◌>>=◌}
use self_db_mini.Bouncer.{
  Server, Pool, World, sv_free, sv_login, idle_server_list, used_server_list, tested_server_list,
  new_server_list, waiting_client_list, waiting_cancel_req_list, first_client, last_server, put,
  put_server, put_pool, pool_server_count, sending_auth_query,
}
use self_db_mini.Settings.{
  pool_pool_size, pool_res_pool_size, database_max_connections, user_max_connections,
}
use self_db_mini.Objects.State.{change_server_state}
use self_db_mini.Objects.Env.{Env, Calls}
use self_db_mini.Objects.Release.{usec_sub}

-- The connection that has been idle for longer; the second of two that are equal.
pub compare_connections_by_time : World → Option ℕ → Option ℕ → Option ℕ
compare_connections_by_time w none rhs = rhs
compare_connections_by_time w (some l) none = some l
compare_connections_by_time w (some l) (some r) =
    if ltb (w.server l).request_time (w.server r).request_time then some l else some r

-- The oldest connection of a pool that may be evicted, against the oldest so far. One that is
-- being tested or checked may be evicted only if nobody waits.
pub oldest_of_pool : World → Option ℕ → ℕ → Option ℕ
unfolding compare_connections_by_time
oldest_of_pool w oldest p =
    let idle = compare_connections_by_time w oldest (last_server w (idle_server_list p)) in
    if is_empty (w.client_list (waiting_client_list p))
    then compare_connections_by_time w
        (compare_connections_by_time w idle (last_server w (used_server_list p)))
        (last_server w (tested_server_list p))
    else idle

-- The loop over `pool_list`, for the pools that `chosen` names.
pub oldest_connection : World → (ℕ → Bool) → Option ℕ → List ℕ → Option ℕ
unfolding oldest_of_pool
oldest_connection w chosen oldest [] = oldest
oldest_connection w chosen oldest (p ∷ ps) =
    oldest_connection w chosen (if chosen p then oldest_of_pool w oldest p else oldest) ps

-- `pool->user_credentials == user_credentials`, for the credentials of a user
pub has_credentials : ℕ → Pool → Bool
has_credentials cred pool = is_some pool.user && (pool.credentials == cred)

module _ (calls : Calls) where
  -- The end of the three functions: whether there was a connection to evict.
  pub evict : Option ℕ → World → Outcome (Bool × World)
  evict none w = done (false, w)
  evict (some s) w = do w' ← calls.disconnect_server s true w; done (true, w')

  pub evict_connection : ℕ → World → Outcome (Bool × World)
  unfolding evict
  evict_connection d w = evict (oldest_connection w (λ p. (w.pool p).db == d) none w.pool_list) w

  pub evict_pool_connection : ℕ → World → Outcome (Bool × World)
  unfolding evict
  evict_pool_connection p w = evict (last_server w (idle_server_list p)) w

  pub evict_user_connection : ℕ → World → Outcome (Bool × World)
  unfolding evict
  evict_user_connection cred w =
      evict (oldest_connection w (λ p. has_credentials cred (w.pool p)) none w.pool_list) w

-- `while (evict_if_needed && over()) if (!evict()) break;`
pub evict_while : ℕ → (World → Bool) → (World → Outcome (Bool × World)) → World → Outcome World
evict_while zero over evict w = no_fuel
evict_while (suc fuel) over evict w =
    if over w
    then (do (evicted, w') ← evict w; if evicted then evict_while fuel over evict w' else done w')
    else done w

-- How many connections the pools have that may be evicted: no more rounds can evict one.
pub evictable : World → List ℕ → ℕ
evictable w [] = 0
evictable w (p ∷ ps) =
    length (w.server_list (idle_server_list p))
    + length (w.server_list (used_server_list p))
    + length (w.server_list (tested_server_list p))
    + evictable w ps

-- What `slab_alloc` and the assignments after it make of a server object.
fresh_server : ℕ → World → Server
fresh_server p w = record {
  link = none;
  pool = p;
  state = sv_free;
  outstanding_requests = [];
  ready = false;
  close_needed = false;
  setting_vars = false;
  replication = false;
  connect_time = w.now;
  request_time = 0;
  canceling_clients = [];
  sbuf_empty = true;
  sbuf_closed = true;
}

-- `db->connection_count++` and the same for the user
count_server : ℕ → World → World
count_server p w =
    let pool = w.pool p in
    let d = w.db pool.db in
    record w {
      db = put pool.db (record d { connection_count = increment d.connection_count }) w.db;
      user = elim pool.user [
        | none ↦ w.user
        | some u ↦
            put u (record (w.user u) { connection_count = increment (w.user u).connection_count })
              w.user
      ];
    }

-- A free server object becomes a connection of the pool that logs in.
pub open_server : ℕ → ℕ → World → World
unfolding fresh_server count_server
open_server p s w =
    let w1 = put_server s (fresh_server p w) w in
    let w2 = put_pool p (record (w1.pool p) { last_connect_time = w1.now }) w1 in
    count_server p (change_server_state s sv_login w2)

-- The reserve pool may be used for a client that has waited long.
may_use_reserve : ℕ → ℕ → World → Bool
may_use_reserve p max w =
    not (w.config.res_pool_timeout == 0)
    && not (is_zero (pool_res_pool_size w p))
    && elim (first_client w (waiting_client_list p)) [
      | none ↦ false
      | some c ↦
          leb w.config.res_pool_timeout (usec_sub w.now (w.client c).request_time)
          && lt_ℤ (pos max) (add_ℤ (pool_pool_size w p) (pool_res_pool_size w p))
    ]

-- Whether the next client in the queue wants a replication connection of its own.
next_wants_replication : ℕ → World → Bool
next_wants_replication p w = elim (first_client w (waiting_client_list p)) [
  | none ↦ false
  | some c ↦ (w.client c).replication && not (sending_auth_query (w.client c))
]

module _ (env : Env) (calls : Calls) where
  -- From the label `force_new` on
  pub force_new : ℕ → World → Outcome World
  unfolding open_server
  force_new p w = elim (env.slab_alloc w) [
    | none ↦ done w
    | some s ↦ env.dns_connect s (open_server p s w)
  ]

  -- The limit on the connections of the pool's user
  within_user : Bool → ℕ → World → Outcome World
  unfolding force_new
  within_user evict_if_needed p w = elim (w.pool p).user [
    | none ↦ abort
    | some u ↦
        let max = user_max_connections w u in
        let full = λ (w' : World). le_ℤ max (w'.user u).connection_count in
        if lt_ℤ (pos 0) max
        then (do
          w' ←
              evict_while (suc (evictable w w.pool_list)) (λ w'. evict_if_needed && full w')
                (evict_user_connection calls (w.pool p).credentials) w
          if full w' then done w' else force_new p w')
        else force_new p w
  ]

  -- From the label `allow_new` on: the limit on the connections of the database, then of the user
  allow_new : Bool → ℕ → World → Outcome World
  unfolding within_user
  allow_new evict_if_needed p w =
      let d = (w.pool p).db in
      let max = database_max_connections w d in
      let full = λ (w' : World). le_ℤ max (w'.db d).connection_count in
      if lt_ℤ (pos 0) max
      then (do
        w' ←
            evict_while (suc (evictable w w.pool_list)) (λ w'. evict_if_needed && full w')
              (evict_connection calls d) w
        if full w' then done w' else within_user evict_if_needed p w')
      else within_user evict_if_needed p w

  -- A full pool: the reserve, a replication client, or nothing
  full_pool : Bool → ℕ → ℕ → World → Outcome World
  unfolding allow_new may_use_reserve next_wants_replication
  full_pool evict_if_needed p max w =
      if may_use_reserve p max w
      then allow_new evict_if_needed p w
      else if next_wants_replication p w
      then (do
        w' ←
            evict_while (suc (evictable w (p ∷ [])))
              (λ w'. evict_if_needed && le_ℤ (pos max) (pool_pool_size w' p))
              (evict_pool_connection calls p) w
        if lt_ℤ (pool_pool_size w' p) (pos max) then allow_new evict_if_needed p w' else done w')
      else done w

  retries_too_fast : ℕ → World → Bool
  retries_too_fast p w =
      (w.pool p).last_connect_failed
      && ltb (usec_sub w.now (w.pool p).last_connect_time) w.config.server_login_retry

  pub launch_new_connection : Bool → ℕ → World → Outcome World
  unfolding retries_too_fast full_pool
  launch_new_connection evict_if_needed p w =
      let max = pool_server_count w p in
      let size = pool_pool_size w p in
      if not (is_empty (w.server_list (new_server_list p)))
      then done w
      else if retries_too_fast p w
      then done w
      else if not ((w.db (w.pool p).db).peer_id == 0)
      then (if lt_ℤ (pos max) size then force_new p w else done w)
      else if not (is_empty (w.client_list (waiting_cancel_req_list p)))
          && lt_ℤ (pos max) (add_ℤ size size)
      then force_new p w
      else if lt_ℤ (pos 0) size && le_ℤ size (pos max) && (w.pool p).welcome_msg_ready
      then full_pool evict_if_needed p max w
      else allow_new evict_if_needed p w
