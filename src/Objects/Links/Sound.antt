-- ===== src/Objects/Links/Sound.antt =====
-- objects.c: the invariant of the sockets, on the lists they stand in, on the links between them
-- and on the states that go together under a link.
use self_db_mini.Base.{ℕ, ◌≡◌, Bool, true, false, ◌&&◌, not, Option, none, some, arith, List}
use self_db_mini.Base.Outcome.{done, Ensures}
use self_db_mini.Base.Placement.{IsPlaced}
use self_db_mini.Bouncer.{
  ClientState, cl_login, cl_waiting, cl_waiting_login, cl_active, cl_waiting_cancel,
  cl_active_cancel, ServerState, sv_login, sv_active, sv_active_cancel, sv_being_canceled,
  ClientList, ServerList, Client, Server, World, put_client, put_server, sending_auth_query,
  ClientList-discrete, ServerList-discrete,
}
use self_db_mini.Objects.State.{
  change_client_state, change_server_state, move_client, corrected, list_of_client,
}
use self_db_mini.Objects.State.Placed.{
  client_home, server_home, change_server_state-ServersPlaced, move_client-ClientsPlaced,
  change_client_state_moves,
}
use self_db_mini.Objects.Links.{link, unlink}

-- Which states of a client and a server connection go together under a link. `owns` is whether
-- the client wants a replication connection of its own, `own` whether the connection is one: a
-- client that waits is linked only to such a connection, and a cancel request never is.
unfoldable pub states_match : ClientState → Bool → ServerState → Bool → Bool
states_match cl_active owns sv_active own = true
states_match cl_login owns sv_active own = true
states_match cl_waiting owns sv_active own = owns && own
states_match cl_waiting owns sv_login own = owns && own
states_match cl_waiting owns sv_being_canceled own = owns && own
states_match cl_waiting_login owns sv_active own = owns && own
states_match cl_waiting_login owns sv_login own = owns && own
states_match cl_waiting_login owns sv_being_canceled own = owns && own
states_match cl_waiting_cancel owns sv_login own = not own
states_match cl_waiting_cancel owns sv_being_canceled own = not own
states_match cl_active_cancel owns sv_login own = not own
states_match cl_active_cancel owns sv_being_canceled own = not own
states_match cl_active_cancel owns sv_active_cancel own = true
states_match _ owns _ own = false

abbrev pub owns_server : Client → Bool
owns_server c = c.replication && not (sending_auth_query c)

abbrev pub may_link : Client → Server → Bool
may_link c s = states_match c.state (owns_server c) s.state s.replication

pub record Sound (client : ℕ → Client) (server : ℕ → Server) (client_list : ClientList → List ℕ)
    (server_list : ServerList → List ℕ) : Type 0 where
  pub clients_placed : IsPlaced ClientList-discrete client_list (λ c. client_home (client c))
  pub servers_placed : IsPlaced ServerList-discrete server_list (λ s. server_home (server s))
  pub to_server : (c s : ℕ) → (client c).link ≡ some s → (server s).link ≡ some c
  pub to_client : (c s : ℕ) → (server s).link ≡ some c → (client c).link ≡ some s
  pub matching : (c s : ℕ) → (client c).link ≡ some s → may_link (client c) (server s) ≡ true

abbrev pub Inv : World → Type 0
Inv w = Sound w.client w.server w.client_list w.server_list

-- Cutting the link of a client and its server connection keeps the invariant of the sockets.
pub unlink-Inv : (c s : ℕ) (w : World) → (w.client c).link ≡ some s → Inv w → Inv (unlink c s w)
unfolding unlink
unlink-Inv c s w e v = record {
  clients_placed = λ a l. ground (arith, v.clients_placed a l);
  servers_placed = λ a l. ground (arith, v.servers_placed a l);
  to_server = λ c' s' h. ground (arith, v.to_server c' s', v.to_server c s, v.to_client c' s');
  to_client = λ c' s' h. ground (arith, v.to_client c' s', v.to_server c s, v.to_client c s);
  matching = λ c' s' h. ground (arith, v.matching c' s', v.to_server c' s', v.to_server c s);
}

-- A link joins an unlinked client and an unlinked server connection in matching states.
pub link-Inv :
    (c s : ℕ) (w : World)
    → (w.client c).link ≡ none
    → (w.server s).link ≡ none
    → may_link (w.client c) (w.server s) ≡ true
    → Inv w
    → Inv (link c s w)
unfolding link sending_auth_query
link-Inv c s w e f m v = record {
  clients_placed = λ a l. ground (arith, v.clients_placed a l);
  servers_placed = λ a l. ground (arith, v.servers_placed a l);
  to_server = λ c' s' h. ground (arith, v.to_server c' s', v.to_client c' s');
  to_client = λ c' s' h. ground (arith, v.to_client c' s', v.to_server c' s');
  matching = λ c' s' h. ground (arith, v.matching c' s', v.to_server c' s', m);
}

-- A write to a client that keeps what the invariant reads.
pub put_client-Inv :
    (c : ℕ) (x : Client) (w : World)
    → x.link ≡ (w.client c).link
    → x.state ≡ (w.client c).state
    → x.pool ≡ (w.client c).pool
    → owns_server x ≡ owns_server (w.client c)
    → Inv w
    → Inv (put_client c x w)
put_client-Inv c x w e f g h v = record {
  clients_placed = λ a l. ground (arith, v.clients_placed a l);
  servers_placed = v.servers_placed;
  to_server = λ c' s' k. ground (arith, v.to_server c' s');
  to_client = λ c' s' k. ground (arith, v.to_client c' s');
  matching = λ c' s' k. ground (arith, v.matching c' s');
}

pub put_server-Inv :
    (s : ℕ) (x : Server) (w : World)
    → x.link ≡ (w.server s).link
    → x.state ≡ (w.server s).state
    → x.pool ≡ (w.server s).pool
    → x.replication ≡ (w.server s).replication
    → Inv w
    → Inv (put_server s x w)
put_server-Inv s x w e f g h v = record {
  clients_placed = v.clients_placed;
  servers_placed = λ a l. ground (arith, v.servers_placed a l);
  to_server = λ c' s' k. ground (arith, v.to_server c' s');
  to_client = λ c' s' k. ground (arith, v.to_client c' s');
  matching = λ c' s' k. ground (arith, v.matching c' s');
}

-- A server connection that has no link changes its state freely.
pub change_server_state-Inv :
    (s : ℕ) (new : ServerState) (w : World)
    → ((c : ℕ)
        → (w.client c).link ≡ some s
        → may_link (w.client c) (record (w.server s) { state = new }) ≡ true)
    → Inv w
    → Inv (change_server_state s new w)
unfolding change_server_state
change_server_state-Inv s new w m v = record {
  clients_placed = v.clients_placed;
  servers_placed =
      unfold change_server_state in change_server_state-ServersPlaced s new w v.servers_placed;
  to_server = λ c' s' k. ground (arith, v.to_server c' s');
  to_client = λ c' s' k. ground (arith, v.to_client c' s');
  matching = λ c' s' k. ground (arith, v.matching c' s', m c');
}

pub move_client-Inv :
    (c : ℕ) (new : ClientState) (from to : Option ClientList) (w : World)
    → list_of_client (w.client c).state (w.client c).pool ≡ done from
    → list_of_client new (w.client c).pool ≡ done to
    → ((s : ℕ)
        → (w.client c).link ≡ some s
        → states_match new (owns_server (w.client c)) (w.server s).state (w.server s).replication
          ≡ true)
    → Inv w
    → Inv (move_client c new from to w)
unfolding move_client sending_auth_query
move_client-Inv c new from to w e e' m v = record {
  clients_placed = move_client-ClientsPlaced c new from to w e e' v.clients_placed;
  servers_placed = v.servers_placed;
  to_server = λ c' s' k. ground (arith, v.to_server c' s');
  to_client = λ c' s' k. ground (arith, v.to_client c' s');
  matching = λ c' s' k. ground (arith, v.matching c' s', m s');
}

pub change_client_state-Inv :
    (c : ℕ) (new : ClientState) (w : World)
    → ((s : ℕ)
        → (w.client c).link ≡ some s
        → states_match
            (corrected (w.client c).state new)
            (owns_server (w.client c))
            (w.server s).state
            (w.server s).replication
          ≡ true)
    → Inv w
    → Ensures Inv (change_client_state c new w)
change_client_state-Inv c new w m v =
    change_client_state_moves c new w λ from to e e'. move_client-Inv c _ from to w e e' m v
