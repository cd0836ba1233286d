-- ===== src/Objects/Release.antt =====
-- objects.c: release_server and what it is made of, down to the client that is served next.
pub mod Cancels
pub mod Switch
pub mod Sound
pub mod Fuel
use self_db_mini.Base.{
  ℕ, zero, suc, ◌+◌, ◌-◌, ◌/◌, ◌%◌, ◌^◌, Bool, true, false, not, ◌&&◌, ◌||◌, none, some, List, [],
  ◌∷◌, ◌==◌, ltb, leb, if◌then◌else◌, is_some, is_empty,
}
use self_db_mini.Base.Int.{pos, negsuc}
use self_db_mini.Base.Outcome.{Outcome, done, abort, ◌>>=◌, ◌>>◌, assert}
use self_db_mini.Bouncer.{
  ClientState, cl_waiting_cancel, cl_active, ServerState, sv_free, sv_justfree, sv_login,
  sv_being_canceled, sv_idle, sv_active, sv_used, sv_tested, Server, World, PoolMode, pool_session,
  put_client, put_server, put_pool, first_client, waiting_client_list, sending_auth_query,
}
use self_db_mini.Settings.{pool_pool_size, pool_server_lifetime, connection_pool_mode}
use self_db_mini.Objects.State.{change_client_state, change_server_state, is_waiting}
use self_db_mini.Objects.Links.{unlink}
use self_db_mini.Objects.Env.{Env, Calls}

-- `usec_t` subtraction
abbrev pub usec_sub : ℕ → ℕ → ℕ
usec_sub a b = (a + 2 ^ 64 - b % 2 ^ 64) % 2 ^ 64

pub is_freed : ServerState → Bool
is_freed sv_free = true
is_freed sv_justfree = true
is_freed _ = false

-- Whether a server connection has been open for longer than its lifetime, and long enough after
-- the last one that was closed for this.
pub life_over : ℕ → World → Bool
life_over s w =
    let p = (w.server s).pool in
    let age = usec_sub w.now (w.server s).connect_time in
    let last_kill = usec_sub w.now (w.pool p).last_lifetime_disconnect in
    let lifetime = pool_server_lifetime w p in
    if ltb age lifetime then false else elim (pool_pool_size w p) [
      | pos n ↦ elim n [ zero ↦ true | suc k ↦ leb (lifetime / suc k) last_kill ]
      | negsuc n ↦ true
    ]

state_unless_reset : World → ServerState
state_unless_reset w =
    if w.config.server_check_delay == 0 && w.config.has_server_check_query then sv_used else sv_idle

is_session : PoolMode → Bool
is_session pool_session = true
is_session _ = false

-- The state of a connection that its client gives back: a reset query has to run first, or a
-- check, or it is idle at once.
pub state_after_service : ℕ → World → Outcome ServerState
unfolding state_unless_reset is_session
state_after_service s w =
    if w.config.has_server_reset_query
    then if w.config.server_reset_query_always then done sv_tested else (do
      mode ← connection_pool_mode w (w.server s).replication (w.server s).pool
      done (if is_session mode then sv_tested else state_unless_reset w))
    else done (state_unless_reset w)

-- `if (server->link) { server->link->link = NULL; server->link = NULL; }`
pub unlink_client : ℕ → World → World
unlink_client s w = elim (w.server s).link [ none ↦ w | some c ↦ unlink c s w ]

login_succeeded : ℕ → World → World
login_succeeded s w =
    put_pool p (record (w.pool p) { last_login_failed = false; last_connect_failed = false }) w
  where
    p : ℕ
    p = (w.server s).pool

-- The switch of `release_server`: the state to come, and the connection out of its old service.
pub leave_service : ServerState → ℕ → World → Outcome (ServerState × World)
unfolding unlink_client login_succeeded
leave_service sv_being_canceled s w = do
  let w' = unlink_client s w
  new ← state_after_service s w'
  done (new, w')
leave_service sv_active s w = do
  let w' = unlink_client s w
  new ← state_after_service s w'
  done (new, w')
leave_service sv_used s w = done (sv_idle, w)
leave_service sv_tested s w = done (sv_idle, w)
leave_service sv_login s w = done (sv_idle, login_succeeded s w)
leave_service _ s w = abort

is_waiting_cancel : ClientState → Bool
is_waiting_cancel cl_waiting_cancel = true
is_waiting_cancel _ = false

-- The cancel requests of a server connection that `drop` names forget the connection; the others
-- remain.
pub unlink_cancels : (ClientState → Bool) → List ℕ → World → List ℕ × World
unlink_cancels drop [] w = ([], w)
unlink_cancels drop (c ∷ cs) w =
    let gone = drop (w.client c).state in
    let w' = if gone then put_client c (record (w.client c) { canceled_server = none }) w else w in
    let (rest, w'') = unlink_cancels drop cs w' in (if gone then rest else c ∷ rest, w'')

pub forget_cancels : (ClientState → Bool) → ℕ → World → World
forget_cancels drop s w =
    let (rest, w') = unlink_cancels drop (w.server s).canceling_clients w in
    put_server s (record (w'.server s) { canceling_clients = rest }) w'

pub note_lifetime_disconnect : ℕ → World → World
note_lifetime_disconnect p w = put_pool p (record (w.pool p) { last_lifetime_disconnect = w.now }) w

is_login : ServerState → Bool
is_login sv_login = true
is_login _ = false

module _ (env : Env) where
  -- The client stops waiting, and what it sent meanwhile is read.
  pub activate_client : ℕ → World → Outcome World
  activate_client c w = do
    let old = w.client c
    assert (is_waiting old.state)
    assert (ltb 0 old.wait_start)
    p ← elim old.pool [ none ↦ abort | some p ↦ done p ]
    let pool = w.pool p
    let waited = (pool.wait_time + usec_sub w.now old.wait_start) % 2 ^ 64
    w' ← change_client_state c cl_active (put_pool p (record pool { wait_time = waited }) w)
    env.sbuf_continue c w'

  -- The client that has waited longest is served by the pool's idle connections.
  reuse_on_release : ℕ → World → Outcome (Bool × World)
  reuse_on_release s w = do
    assert (not (w.server s).replication)
    elim (first_client w (waiting_client_list (w.server s).pool)) [
      | none ↦ done (true, w)
      | some c ↦
          if not (w.client c).replication || sending_auth_query (w.client c)
          then (do w' ← activate_client c w; done (not (is_freed (w'.server s).state), w'))
          else done (true, w)
    ]

  reset_on_release : Calls → ℕ → World → Outcome (Bool × World)
  reset_on_release calls s w =
      if env.send_reset_query s w
      then done (true, w)
      else (do w' ← calls.disconnect_server s false w; done (false, w'))

  -- The connection takes its new state, and is offered to the next client if that is idle.
  enter_state : Calls → ServerState → ℕ → World → Outcome (Bool × World)
  unfolding reset_on_release reuse_on_release
  enter_state calls sv_idle s w = reuse_on_release s (change_server_state s sv_idle w)
  enter_state calls sv_tested s w = reset_on_release calls s (change_server_state s sv_tested w)
  enter_state calls new s w = done (true, change_server_state s new w)

  -- A new replication connection goes to the client that it was opened for.
  release_replication : Calls → ℕ → World → Outcome (Bool × World)
  release_replication calls s w = elim (w.server s).link [
    | some c ↦ (do w' ← activate_client c (change_server_state s sv_active w); done (true, w'))
    | none ↦ (do w' ← calls.disconnect_server s true w; done (false, w'))
  ]

  -- The tail of `release_server`: why a connection that has left its service is not given the
  -- state `new`, in the order of the tests.
  settle : Calls → ServerState → ℕ → World → Outcome (Bool × World)
  unfolding enter_state release_replication
  settle calls new s w =
      if not (is_empty old.outstanding_requests)
      then (do w' ← calls.disconnect_server s true w; done (true, w'))
      else if old.close_needed
      then (do w' ← calls.disconnect_server s true w; done (false, w'))
      else if not (is_empty old.canceling_clients)
      then done (true, change_server_state s sv_being_canceled w)
      else if old.replication
      then release_replication calls s w
      else (do assert (not (is_some old.link)); enter_state calls new s w)
    where
      old : Server
      old = w.server s

  -- `release_server` from the end of its switch on
  finish : Calls → ServerState → ℕ → World → Outcome (Bool × World)
  unfolding settle
  finish calls new s w =
      let w' = forget_cancels is_waiting_cancel s w in
      if not (is_login (w'.server s).state) && life_over s w'
      then (do
        w'' ← calls.disconnect_server s true w'
        done (false, note_lifetime_disconnect (w'.server s).pool w''))
      else settle calls new s w'

  pub release_server : Calls → ℕ → World → Outcome (Bool × World)
  unfolding finish
  release_server calls s w = do
    assert (w.server s).ready
    (new, w') ← leave_service (w.server s).state s w
    finish calls new s w'
