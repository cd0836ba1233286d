-- ===== src/Tests/World.antt =====
-- One pool: client 0 logs in, client 1 is served by connection 1, and connection 0 is idle.
use self_db_mini.Base.{
  ℕ, ◌==◌, true, false, Option, none, some, List, [], ◌∷◌, arith, ◌≡◌, if◌then◌else◌,
}
use self_db_mini.Base.Int.{pos, negsuc}
use self_db_mini.Base.Outcome.{done, holds}
use self_db_mini.Bouncer.{
  ClientState, cl_free, cl_login, cl_active, ServerState, sv_free, sv_idle, sv_active, ClientList,
  login_client_list, active_client_list, ServerList, idle_server_list, active_server_list, Client,
  Server, Pool, Database, GlobalUser, Config, World, pool_tx, sending_auth_query,
  ClientList-discrete, ServerList-discrete,
}
use self_db_mini.Objects.State.{list_of_client, list_of_server}
use self_db_mini.Objects.Links.Sound.{Inv, states_match}
use self_db_mini.Objects.Env.{Env}
use self_db_mini.Objects.Frame.{IsOrderly, Frame-refl}
use self_db_mini.Base.Placement

abbrev pub client_in : ClientState → Option ℕ → Client
client_in st l = record {
  link = l;
  pool = some 0;
  state = st;
  login_user_credentials = none;
  db = some 0;
  contributes_db_client_count = false;
  user_connection_counted = false;
  wait_for_user_conn = false;
  wait_for_user = false;
  sent_wait_notification = false;
  replication = false;
  request_time = 90;
  wait_start = 0;
  canceled_server = none;
  sbuf_closed = false;
}

abbrev pub server_in : ServerState → Option ℕ → Server
server_in st l = record {
  link = l;
  pool = 0;
  state = st;
  outstanding_requests = [];
  ready = true;
  close_needed = false;
  setting_vars = false;
  replication = false;
  connect_time = 50;
  request_time = 80;
  canceling_clients = [];
  sbuf_empty = true;
  sbuf_closed = false;
}

abbrev pub a_client : ℕ → Client
a_client c =
    if c == 0
    then client_in cl_login none
    else if c == 1
    then client_in cl_active (some 1)
    else client_in cl_free none

abbrev pub a_server : ℕ → Server
a_server s =
    if s == 0
    then server_in sv_idle none
    else if s == 1
    then server_in sv_active (some 1)
    else server_in sv_free none

abbrev pub client_lists : ClientList → List ℕ
client_lists login_client_list = 0 ∷ []
client_lists (active_client_list p) = if p == 0 then 1 ∷ [] else []
client_lists _ = []

abbrev pub server_lists : ServerList → List ℕ
server_lists (idle_server_list p) = if p == 0 then 0 ∷ [] else []
server_lists (active_server_list p) = if p == 0 then 1 ∷ [] else []
server_lists _ = []

abbrev a_pool : Pool
a_pool = record {
  db = 0;
  credentials = 0;
  user = some 0;
  wait_time = 0;
  server_assignment_count = 1;
  last_lifetime_disconnect = 0;
  last_connect_time = 50;
  last_connect_failed = false;
  last_login_failed = false;
  welcome_msg_ready = true;
}

abbrev a_database : Database
a_database = record {
  peer_id = 0;
  pool_size = negsuc 0;
  min_pool_size = negsuc 0;
  res_pool_size = negsuc 0;
  pool_mode = none;
  max_db_connections = negsuc 0;
  server_lifetime = 0;
  db_paused = false;
  fake = false;
  connection_count = pos 2;
  client_connection_count = pos 0;
}

abbrev a_user : GlobalUser
a_user = record {
  pool_mode = none;
  pool_size = negsuc 0;
  res_pool_size = negsuc 0;
  max_user_connections = negsuc 0;
  connection_count = pos 2;
  client_connection_count = pos 0;
}

abbrev a_config : Config
a_config = record {
  paused = false;
  shutdown_wait_for_servers = false;
  server_round_robin = false;
  has_server_reset_query = true;
  server_reset_query_always = false;
  has_server_check_query = true;
  server_check_delay = 30;
  pool_mode = pool_tx;
  default_pool_size = pos 20;
  min_pool_size = pos 0;
  res_pool_size = pos 0;
  res_pool_timeout = 5;
  max_db_connections = pos 0;
  max_user_connections = pos 0;
  server_lifetime = 3600;
  server_login_retry = 15;
}

abbrev pub a_world : World
a_world = record {
  config = a_config;
  now = 100;
  client = a_client;
  server = a_server;
  pool = λ p. a_pool;
  db = λ d. a_database;
  user = λ u. a_user;
  client_list = client_lists;
  server_list = server_lists;
  pool_list = 0 ∷ [];
  sent = [];
}

pub a_world-Inv : Inv a_world
unfolding list_of_client list_of_server states_match sending_auth_query Placement.holds
    ClientList-discrete ServerList-discrete
a_world-Inv = record {
  clients_placed = λ a l. ground arith;
  servers_placed = λ a l. ground arith;
  to_server = λ c s h. ground arith;
  to_client = λ c s h. ground arith;
  matching = λ c s h. ground arith;
}

-- Sockets that always succeed, and one server object to spare.
abbrev pub an_env : Env
an_env = record {
  sbuf_pause = λ c w. true;
  sbuf_close_client = λ c w. true;
  sbuf_close_server = λ s w. true;
  sbuf_continue = λ c w. done w;
  send_reset_query = λ s w. true;
  varcache_apply = λ s c w. (true, false);
  slab_alloc = λ w. spare (w.server 2).state;
  dns_connect = λ s w. done w;
}
  where
    spare : ServerState → Option ℕ
    spare sv_free = some 2
    spare _ = none

spare_free : (w : World) (s : ℕ) → an_env.slab_alloc w ≡ some s → (w.server s).state ≡ sv_free
spare_free w s e = ground arith

pub an_env-IsOrderly : IsOrderly an_env
an_env-IsOrderly = record {
  continue_inv = λ c w v. holds v;
  continue_quiet = λ c d w n q. holds q;
  alloc_free = spare_free;
  connect_frame = λ s w v. holds (Frame-refl v);
}
