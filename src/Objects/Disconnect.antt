-- ===== src/Objects/Disconnect.antt =====
-- objects.c: unlink_server, disconnect_server and disconnect_client_sqlstate, and the knot of the
-- operations that close and release connections through one another.
pub mod Spare
pub mod Sound
pub mod Clients
pub mod Fuel
pub mod Freed
use self_db_mini.Base.{
  ℕ, zero, suc, Bool, true, false, not, ◌&&◌, ◌||◌, none, some, ◌∷◌, is_some, is_empty,
  if◌then◌else◌, remove,
}
use self_db_mini.Base.Int.{decrement}
use self_db_mini.Base.Outcome.{Outcome, done, abort, no_fuel, ◌>>=◌, ◌>>◌, assert}
use self_db_mini.Bouncer.{
  ClientState, cl_free, cl_justfree, cl_login, cl_waiting, cl_waiting_login, cl_active,
  cl_waiting_cancel, cl_active_cancel, ServerState, sv_free, sv_justfree, sv_login,
  sv_being_canceled, sv_active, sv_active_cancel, Client, Server, World, Database, GlobalUser, put,
  error_to, terminate_to, put_client, put_server, put_pool,
}
use self_db_mini.Objects.State.{change_client_state, change_server_state}
use self_db_mini.Objects.Links.{unlink}
use self_db_mini.Objects.Env.{Env, Calls}
use self_db_mini.Objects.Release.{forget_cancels, release_server}

-- Whether a client that loses its server connection is told why.
told_of_unlink : ClientState → Bool
told_of_unlink cl_active_cancel = false
told_of_unlink _ = true

-- `unlink_server`
pub unlink_server : Calls → ℕ → World → Outcome World
unfolding told_of_unlink
unlink_server calls s w = elim (w.server s).link [
  | none ↦ done w
  | some c ↦ calls.disconnect_client c (told_of_unlink (w.client c).state) (unlink c s w)
]

-- What the end of a connection that was logging in says of its pool.
note_connect_result : ℕ → World → World
note_connect_result s w =
    let p = (w.server s).pool in
    put_pool p
      (if (w.server s).ready
        then record (w.pool p) { last_connect_failed = false }
        else record (w.pool p) { last_login_failed = true; last_connect_failed = true })
      w

-- The switch of `disconnect_server`
pub abandon : Calls → ServerState → ℕ → World → Outcome World
unfolding unlink_server note_connect_result
abandon calls sv_active_cancel s w = unlink_server calls s w
abandon calls sv_active s w = unlink_server calls s w
abandon calls sv_login s w =
    if (w.server s).replication
    then unlink_server calls s (note_connect_result s w)
    else done (note_connect_result s w)
abandon calls sv_free s w = abort
abandon calls sv_justfree s w = abort
abandon calls _ s w = done w

-- A connection that was opened for a cancel request has no session to terminate.
sends_term : Bool → Server → Bool
sends_term send_term old = elim old.state [ sv_login ↦ send_term && not old.ready | _ ↦ send_term ]

-- `db->connection_count--` and the same for the user
pub uncount_server : ℕ → World → World
uncount_server s w =
    let p = w.pool (w.server s).pool in
    let d = w.db p.db in
    record w {
      db = put p.db (record d { connection_count = decrement d.connection_count }) w.db;
      user = elim p.user [
        | none ↦ w.user
        | some u ↦
            put u (record (w.user u) { connection_count = decrement (w.user u).connection_count })
              w.user
      ];
    }

-- `disconnect_server` after its `Assert`: the server is told if `sends` says so.
pub shut_server : Env → Bool → ℕ → World → World
shut_server env sends s w1 =
    let w2 = forget_cancels (λ _. true) s w1 in
    let w3 = record w2 { sent = if sends then terminate_to s ∷ w2.sent else w2.sent } in
    let w4 = change_server_state s sv_justfree (uncount_server s w3) in
    put_server s (record (w4.server s) { sbuf_closed = env.sbuf_close_server s w4 }) w4

pub disconnect_server : Env → Calls → ℕ → Bool → World → Outcome World
unfolding abandon sends_term uncount_server shut_server
disconnect_server env calls s send_term w = do
  let old = w.server s
  w1 ← abandon calls old.state s w
  assert (not (is_some (w1.server s).link))
  done (shut_server env (sends_term send_term old) s w1)

-- `db->client_connection_count--`, where the client was counted
fewer_of_db : Client → World → ℕ → Database
fewer_of_db x w = elim x.db [
  | none ↦ w.db
  | some d ↦
      let n = (w.db d).client_connection_count in
      if x.contributes_db_client_count
      then put d (record (w.db d) { client_connection_count = decrement n }) w.db
      else w.db
]

-- The same for the user that the client logs in as.
fewer_of_user : Client → World → ℕ → GlobalUser
fewer_of_user x w = elim x.login_user_credentials [
  | none ↦ w.user
  | some cred ↦ elim cred.global_user [
    | none ↦ w.user
    | some u ↦
        let n = (w.user u).client_connection_count in
        if x.user_connection_counted
        then put u (record (w.user u) { client_connection_count = decrement n }) w.user
        else w.user
  ]
]

pub uncount_client : Client → World → World
unfolding fewer_of_db fewer_of_user
uncount_client x w = record w { db = fewer_of_db x w; user = fewer_of_user x w }

-- An active client lets go of its server connection: a connection in the middle of something is
-- closed, any other is released.
pub leave_server : Calls → ℕ → World → Outcome World
leave_server calls c w = elim (w.client c).link [
  | none ↦ done w
  | some s ↦
      if not (w.server s).ready
        || not (is_empty (w.server s).outstanding_requests)
        || not (w.server s).sbuf_empty
      then calls.disconnect_server s true (unlink c s w)
      else (do (_, w') ← calls.release_server s w; done w')
]

-- A cancel request drops the connection that forwards it.
drop_forwarding : Calls → ℕ → World → Outcome World
drop_forwarding calls c w = elim (w.client c).link [
  | none ↦ done w
  | some s ↦
      let w' = unlink c s w in
      calls.disconnect_server s false (put_server s (record (w'.server s) { ready = true }) w')
]

-- A cancel request and the connection that it cancels forget each other.
forget_canceled : ℕ → ℕ → World → World
forget_canceled c t w =
    let rest = remove c (w.server t).canceling_clients in
    let w' = put_server t (record (w.server t) { canceling_clients = rest }) w in
    put_client c (record (w'.client c) { canceled_server = none }) w'

is_being_canceled : ServerState → Bool
is_being_canceled sv_being_canceled = true
is_being_canceled _ = false

-- A connection that was held back for its last cancel request is released with it.
drop_canceled : Calls → ℕ → World → Outcome World
unfolding forget_canceled is_being_canceled
drop_canceled calls c w = elim (w.client c).canceled_server [
  | none ↦ done w
  | some t ↦
      let w' = forget_canceled c t w in
      if is_being_canceled (w'.server t).state && is_empty (w'.server t).canceling_clients
      then (do (_, w'') ← calls.release_server t w'; done w'')
      else done w'
]

drop_replication : Calls → ℕ → World → Outcome World
drop_replication calls c w = elim (w.client c).link [
  | none ↦ done w
  | some s ↦
      if (w.client c).replication then calls.disconnect_server s false (unlink c s w) else done w
]

-- The switch of `disconnect_client_sqlstate`
pub leave : Calls → ClientState → ℕ → World → Outcome World
unfolding leave_server drop_forwarding drop_canceled drop_replication
leave calls cl_active c w = leave_server calls c w
leave calls cl_login c w = leave_server calls c w
leave calls cl_active_cancel c w = do w' ← drop_forwarding calls c w; drop_canceled calls c w'
leave calls cl_waiting_cancel c w = do w' ← drop_forwarding calls c w; drop_canceled calls c w'
leave calls cl_waiting c w = drop_replication calls c w
leave calls cl_waiting_login c w = drop_replication calls c w
leave calls cl_free c w = abort
leave calls cl_justfree c w = abort

is_told : Bool → ClientState → Bool
is_told notify cl_waiting_cancel = false
is_told notify _ = notify

-- Credentials and databases that were made up for a client go with it.
without_mocks : World → Client → Client
without_mocks w x = record x {
  login_user_credentials = elim x.login_user_credentials [
    | none ↦ none
    | some cred ↦ if cred.mock_auth then none else some cred
  ];
  db = elim x.db [ none ↦ none | some d ↦ if (w.db d).fake then none else some d ];
}

pub disconnect_client : Env → Calls → ℕ → Bool → World → Outcome World
unfolding uncount_client leave is_told without_mocks
disconnect_client env calls c notify w = do
  let w0 = uncount_client (w.client c) w
  w1 ← leave calls (w0.client c).state c w0
  let told = is_told notify (w1.client c).state
  let w2 = record w1 { sent = if told then error_to c ∷ w1.sent else w1.sent }
  w3 ← change_client_state c cl_justfree (put_client c (without_mocks w2 (w2.client c)) w2)
  let closed = env.sbuf_close_client c w3
  done (put_client c (record (w3.client c) { sbuf_closed = closed }) w3)

-- The operations call one another at most `fuel` deep.
unfoldable pub calls : Env → ℕ → Calls
calls env zero = record {
  disconnect_server = λ s term w. no_fuel;
  disconnect_client = λ c notify w. no_fuel;
  release_server = λ s w. no_fuel;
}
calls env (suc fuel) =
    let inner = calls env fuel in
    record {
      disconnect_server = disconnect_server env inner;
      disconnect_client = disconnect_client env inner;
      release_server = release_server env inner;
    }

-- The operations as the rest of the program calls them.
unfoldable pub closing : Env → Calls
unfolding calls
closing env = calls env 6
