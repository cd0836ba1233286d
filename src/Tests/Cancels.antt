-- ===== src/Tests/Cancels.antt =====
-- The small pooler with a third client, which asks to cancel what connection 1 does, and a
-- connection that logs in to forward that.
use self_db_mini.Base.{ℕ, ◌==◌, true, none, some, List, [], ◌∷◌, arith, refl, head?, if◌then◌else◌}
use self_db_mini.Base.Outcome.{done, Ensures, holds}
use self_db_mini.Base.Placement
use self_db_mini.Bouncer.{
  cl_waiting_cancel, sv_login, ClientList, waiting_cancel_req_list, ServerList, new_server_list,
  Client, Server, World, ClientList-discrete, ServerList-discrete, sending_auth_query,
}
use self_db_mini.Objects.State.{list_of_client, list_of_server}
use self_db_mini.Objects.Links.Sound.{Inv, states_match}
use self_db_mini.Objects.Disconnect
use self_db_mini.Objects.Disconnect.Clients.{calls-KeepsOrder}
use self_db_mini.Objects.Cancel
use self_db_mini.Objects.Cancel.Sound
use self_db_mini.Tests.World.{
  a_world, an_env, an_env-IsOrderly, client_in, server_in, a_client, a_server, client_lists,
  server_lists,
}

abbrev cancel_clients : ℕ → Client
cancel_clients c =
    if c == 2
    then record (client_in cl_waiting_cancel none) { canceled_server = some 1 }
    else a_client c

abbrev cancel_servers : ℕ → Server
cancel_servers s =
    if s == 2
    then server_in sv_login none
    else if s == 1
    then record (a_server s) { canceling_clients = 2 ∷ [] }
    else a_server s

abbrev cancel_client_lists : ClientList → List ℕ
cancel_client_lists (waiting_cancel_req_list p) = if p == 0 then 2 ∷ [] else []
cancel_client_lists l = client_lists l

abbrev cancel_server_lists : ServerList → List ℕ
cancel_server_lists (new_server_list p) = if p == 0 then 2 ∷ [] else []
cancel_server_lists l = server_lists l

abbrev a_cancel_world : World
a_cancel_world = record a_world {
  client = cancel_clients;
  server = cancel_servers;
  client_list = cancel_client_lists;
  server_list = cancel_server_lists;
}

a_cancel_world-Inv : Inv a_cancel_world
unfolding list_of_client list_of_server states_match sending_auth_query Placement.holds
    ClientList-discrete ServerList-discrete
a_cancel_world-Inv = record {
  clients_placed = λ a l. ground arith;
  servers_placed = λ a l. ground arith;
  to_server = λ c s h. ground arith;
  to_client = λ c s h. ground arith;
  matching = λ c s h. ground arith;
}

abbrev a_cancel_env : Cancel.CancelEnv
a_cancel_env = record {
  send_cancel_request = λ s key w. true;
  sbuf_continue_server = λ s w. done w;
}

forward_cancel_request-Inv_example :
    Ensures Inv
      (Cancel.forward_cancel_request a_cancel_env (Disconnect.calls an_env 6) 2 a_cancel_world)
forward_cancel_request-Inv_example =
    Sound.forward_cancel_request-Inv a_cancel_env (λ s w v. holds v) (Disconnect.calls an_env 6)
      (calls-KeepsOrder an_env an_env-IsOrderly 6) 2 a_cancel_world refl refl
      (λ c h. unfold head? in ground (arith, h)) a_cancel_world-Inv
