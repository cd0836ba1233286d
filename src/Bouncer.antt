-- ===== src/Bouncer.antt =====
-- pgbouncer-1.25.0/include/bouncer.h: the objects of the pooler and the lists that they stand in.
-- A pointer to an object is its number; a NULL pointer is `none`. The lists of libusual's
-- `struct StatList` are lists of numbers, found by the address that the source writes, such as
-- `&pool->idle_server_list`.
use self_db_mini.Base.{
  ℕ, ◌+◌, Bool, ◌||◌, Option, List, length, head?, get_last?, ◌==◌, if◌then◌else◌, ℕ_discrete,
}
use self_db_mini.Base.Int.{ℤ}

-- `enum SocketState`, the CL_ half: what a client can be in.
pub data ClientState : Type 0 where
  cl_free cl_justfree cl_login cl_waiting cl_waiting_login cl_active : ClientState
  cl_waiting_cancel cl_active_cancel : ClientState

-- `enum SocketState`, the SV_ half: what a server connection can be in.
pub data ServerState : Type 0 where
  sv_free sv_justfree sv_login sv_being_canceled sv_idle sv_active : ServerState
  sv_active_cancel sv_used sv_tested : ServerState

pub ServerState-discrete : Discrete ServerState
ServerState-discrete = hlevel

-- The lists that clients stand in; most belong to a pool.
pub data ClientList : Type 0 where
  justfree_client_list login_client_list : ClientList
  active_client_list waiting_client_list : ℕ → ClientList
  waiting_cancel_req_list active_cancel_req_list : ℕ → ClientList

unfoldable pub ClientList-discrete : Discrete ClientList
unfolding ℕ_discrete
ClientList-discrete = hlevel ℕ_discrete

-- The lists that server connections stand in.
pub data ServerList : Type 0 where
  justfree_server_list : ServerList
  active_server_list active_cancel_server_list being_canceled_server_list : ℕ → ServerList
  idle_server_list used_server_list tested_server_list new_server_list : ℕ → ServerList

unfoldable pub ServerList-discrete : Discrete ServerList
unfolding ℕ_discrete
ServerList-discrete = hlevel ℕ_discrete

-- `enum ResponseAction`: what happens to the response of an outstanding request.
pub data ResponseAction : Type 0 where
  ra_forward ra_skip ra_fake : ResponseAction

-- `OutstandingRequest`; a prepared statement of a server is its number.
pub record OutstandingRequest : Type 0 where
  pub type : ℕ
  pub action : ResponseAction
  pub server_ps : Option ℕ
  pub server_ps_query_id : ℕ

-- `PgCredentials`: the two fields that the handlers of sockets read.
pub record PgCredentials : Type 0 where
  pub global_user : Option ℕ
  pub mock_auth : Bool

-- The fields of `PgSocket` that a client uses.
pub record Client : Type 0 where
  pub link : Option ℕ
  pub pool : Option ℕ
  pub state : ClientState
  pub login_user_credentials : Option PgCredentials
  pub db : Option ℕ
  pub contributes_db_client_count : Bool
  pub user_connection_counted : Bool
  pub wait_for_user_conn : Bool
  pub wait_for_user : Bool
  pub sent_wait_notification : Bool
  -- whether `replication` is other than REPLICATION_NONE
  pub replication : Bool
  pub request_time : ℕ
  pub wait_start : ℕ
  pub canceled_server : Option ℕ
  pub sbuf_closed : Bool

-- The fields of `PgSocket` that a server connection uses.
pub record Server : Type 0 where
  pub link : Option ℕ
  pub pool : ℕ
  pub state : ServerState
  pub outstanding_requests : List OutstandingRequest
  pub ready : Bool
  pub close_needed : Bool
  pub setting_vars : Bool
  pub replication : Bool
  pub connect_time : ℕ
  pub request_time : ℕ
  pub canceling_clients : List ℕ
  pub sbuf_empty : Bool
  pub sbuf_closed : Bool

-- `PoolMode`, `none` being POOL_INHERIT
pub data PoolMode : Type 0 where
  pool_session pool_tx pool_stmt : PoolMode

-- `PgPool`, less its lists. `credentials` is the number of the object `user_credentials`, and
-- `user` its `global_user`; peer pools have none.
pub record Pool : Type 0 where
  pub db : ℕ
  pub credentials : ℕ
  pub user : Option ℕ
  pub wait_time : ℕ
  pub server_assignment_count : ℕ
  pub last_lifetime_disconnect : ℕ
  pub last_connect_time : ℕ
  pub last_connect_failed : Bool
  pub last_login_failed : Bool
  pub welcome_msg_ready : Bool

pub record Database : Type 0 where
  pub peer_id : ℕ
  pub pool_size : ℤ
  pub min_pool_size : ℤ
  pub res_pool_size : ℤ
  pub pool_mode : Option PoolMode
  pub max_db_connections : ℤ
  pub server_lifetime : ℕ
  pub db_paused : Bool
  pub fake : Bool
  pub connection_count : ℤ
  pub client_connection_count : ℤ

pub record GlobalUser : Type 0 where
  pub pool_mode : Option PoolMode
  pub pool_size : ℤ
  pub res_pool_size : ℤ
  pub max_user_connections : ℤ
  pub connection_count : ℤ
  pub client_connection_count : ℤ

-- The `cf_` settings that these handlers read.
pub record Config : Type 0 where
  -- `cf_pause_mode == P_PAUSE`
  pub paused : Bool
  -- `cf_shutdown == SHUTDOWN_WAIT_FOR_SERVERS`
  pub shutdown_wait_for_servers : Bool
  pub server_round_robin : Bool
  -- `*cf_server_reset_query` and `*cf_server_check_query`: whether the texts are not empty
  pub has_server_reset_query : Bool
  pub server_reset_query_always : Bool
  pub has_server_check_query : Bool
  pub server_check_delay : ℕ
  pub pool_mode : PoolMode
  pub default_pool_size : ℤ
  pub min_pool_size : ℤ
  pub res_pool_size : ℤ
  pub res_pool_timeout : ℕ
  pub max_db_connections : ℤ
  pub max_user_connections : ℤ
  pub server_lifetime : ℕ
  pub server_login_retry : ℕ

-- What the handlers send on their own account, for the record: an error to a client, a Terminate
-- packet to a server.
pub data Message : Type 0 where
  error_to : ℕ → Message
  terminate_to : ℕ → Message

-- The memory of the process. `now` is `get_cached_time()`, which is read once for each event.
pub record World : Type 0 where
  pub config : Config
  pub now : ℕ
  pub client : ℕ → Client
  pub server : ℕ → Server
  pub pool : ℕ → Pool
  pub db : ℕ → Database
  pub user : ℕ → GlobalUser
  pub client_list : ClientList → List ℕ
  pub server_list : ServerList → List ℕ
  pub pool_list : List ℕ
  pub sent : List Message

-- A write through a pointer.
abbrev pub put {ℓ} : {A : Type ℓ} → ℕ → A → (ℕ → A) → ℕ → A
put i a f j = if j == i then a else f j

abbrev pub put_client : ℕ → Client → World → World
put_client c x w = record w { client = put c x w.client }

abbrev pub put_server : ℕ → Server → World → World
put_server s x w = record w { server = put s x w.server }

abbrev pub put_pool : ℕ → Pool → World → World
put_pool p x w = record w { pool = put p x w.pool }

abbrev pub put_db : ℕ → Database → World → World
put_db d x w = record w { db = put d x w.db }

abbrev pub put_user : ℕ → GlobalUser → World → World
put_user u x w = record w { user = put u x w.user }

-- `first_socket` and `last_socket`
abbrev pub first_server : World → ServerList → Option ℕ
first_server w l = head? (w.server_list l)

abbrev pub first_client : World → ClientList → Option ℕ
first_client w l = head? (w.client_list l)

abbrev pub last_server : World → ServerList → Option ℕ
last_server w l = get_last? (w.server_list l)

-- The macro `pool_connected_server_count`
unfoldable pub pool_connected_server_count : World → ℕ → ℕ
pool_connected_server_count w p =
    length (w.server_list (active_server_list p))
    + length (w.server_list (being_canceled_server_list p))
    + length (w.server_list (idle_server_list p))
    + length (w.server_list (tested_server_list p))
    + length (w.server_list (used_server_list p))

-- The macro `pool_server_count`
unfoldable pub pool_server_count : World → ℕ → ℕ
unfolding pool_connected_server_count
pool_server_count w p =
    pool_connected_server_count w p
    + length (w.server_list (new_server_list p))
    + length (w.server_list (active_cancel_server_list p))

-- client.c
unfoldable pub sending_auth_query : Client → Bool
sending_auth_query c = c.wait_for_user_conn || c.wait_for_user
