-- ===== src/Tests/Sockets.antt =====
-- The theorems on the states, links and lists of sockets, at the small pooler.
use self_db_mini.Base.{none, [], ◌∷◌, ℕ, Bool, arith, true, refl, ◌≡◌, ◌≢◌}
use self_db_mini.Base.Outcome.{IsSettled, Ensures, no_fuel, returned}
use self_db_mini.Bouncer.{OutstandingRequest, ra_forward, World, cl_waiting, sv_used}
use self_db_mini.Objects.State.{change_client_state, change_server_state}
use self_db_mini.Objects.State.Placed
use self_db_mini.Objects.Links
use self_db_mini.Objects.Links.Sound as LinksSound
use self_db_mini.Objects.Env.{Calls}
use self_db_mini.Objects.Frame
use self_db_mini.Objects.Disconnect
use self_db_mini.Objects.Disconnect.Clients
use self_db_mini.Objects.Disconnect.Fuel
use self_db_mini.Objects.Launch
use self_db_mini.Objects.Launch.Sound as LaunchSound
use self_db_mini.Objects.Find
use self_db_mini.Objects.Find.Ends
use self_db_mini.Objects.Launch.Ends as LaunchEnds
use self_db_mini.Objects.Disconnect.Freed
use self_db_mini.Objects.Disconnect.Spare
use self_db_mini.Objects.Requests
use self_db_mini.Objects.Requests.Order
use self_db_mini.Objects.Requests.Fifo
use self_db_mini.Objects.Find.Sound as FindSound
use self_db_mini.Tests.World.{a_world, a_world-Inv, an_env, an_env-IsOrderly}

-- The operations that the theorems are run with
abbrev the_calls : Calls
the_calls = Disconnect.calls an_env 6

abbrev the_calls-KeepsOrder : Clients.KeepsOrder the_calls
the_calls-KeepsOrder = Clients.calls-KeepsOrder an_env an_env-IsOrderly 6

change_server_state-ServersPlaced_example :
    Placed.ServersPlaced (change_server_state 0 sv_used a_world)
change_server_state-ServersPlaced_example =
    Placed.change_server_state-ServersPlaced 0 sv_used a_world a_world-Inv.servers_placed

change_client_state-ClientsPlaced_example :
    Ensures Placed.ClientsPlaced (change_client_state 0 cl_waiting a_world)
change_client_state-ClientsPlaced_example =
    Placed.change_client_state-ClientsPlaced 0 cl_waiting a_world a_world-Inv.clients_placed

unlink-Inv_example : LinksSound.Inv (Links.unlink 1 1 a_world)
unlink-Inv_example = LinksSound.unlink-Inv 1 1 a_world refl a_world-Inv

calls-KeepsOrder_example : Clients.KeepsOrder (Disconnect.calls an_env 6)
calls-KeepsOrder_example = Clients.calls-KeepsOrder an_env an_env-IsOrderly 6

launch_new_connection-Frame_example :
    Ensures (Frame.Frame a_world) (Launch.launch_new_connection an_env the_calls true 0 a_world)
launch_new_connection-Frame_example =
    LaunchSound.launch_new_connection-Frame an_env an_env-IsOrderly the_calls
      the_calls-KeepsOrder.servers true 0 a_world a_world-Inv

find_server-Served_example :
    Ensures (FindSound.Served 0) (Find.find_server an_env the_calls 0 a_world)
find_server-Served_example =
    FindSound.find_server-Served an_env an_env-IsOrderly the_calls the_calls-KeepsOrder 0 a_world
      a_world-Inv

calls_settle_example :
    ((s : ℕ) (term : Bool) (w : World)
      → (Disconnect.calls an_env 6).disconnect_server s term w ≢ no_fuel)
    × ((c : ℕ) (notify : Bool) (w : World)
        → (Disconnect.calls an_env 6).disconnect_client c notify w ≢ no_fuel)
    × ((s : ℕ) (w : World) → (Disconnect.calls an_env 6).release_server s w ≢ no_fuel)
calls_settle_example = Fuel.calls_settle an_env (λ c w. returned) 6 (omega arith)

find_server_returns_example :
    Find.find_server an_env (Disconnect.closing an_env) 0 a_world ≢ no_fuel
find_server_returns_example =
    Ends.find_server_returns an_env an_env-IsOrderly (λ c w. returned) (λ s w. returned) 0 a_world
      a_world-Inv

disconnect_client-ClientFreed_example :
    Ensures (Freed.ClientFreed 1) ((Disconnect.calls an_env 6).disconnect_client 1 true a_world)
disconnect_client-ClientFreed_example =
    Freed.disconnect_client-ClientFreed an_env an_env-IsOrderly 5 1 true a_world a_world-Inv

launch_new_connection-IsSettled_example :
    IsSettled (Launch.launch_new_connection an_env the_calls true 0 a_world)
launch_new_connection-IsSettled_example =
    LaunchEnds.launch_new_connection-IsSettled an_env (λ s w. returned) the_calls
      the_calls-KeepsOrder.servers
      (λ s term w e.
        unfold Disconnect.calls in
        Spare.disconnect_server-Without an_env (Disconnect.calls an_env 5) s term w e)
      true 0 a_world a_world-Inv

abbrev a_request_env : Requests.RequestEnv
a_request_env = record {
  queue_response = λ type c w. true;
  has_memory = λ w. true;
  add_prepared_statement = λ s ps w. true;
}

abbrev a_request : ℕ → OutstandingRequest
a_request type = record {
  type = type;
  action = ra_forward;
  server_ps = none;
  server_ps_query_id = 0;
}

abbrev a_busy_world : World
a_busy_world = record a_world {
  server = λ s. record (a_world.server s) {
    outstanding_requests = a_request 81 ∷ a_request 83 ∷ a_request 81 ∷ [];
  };
}

a_busy_world-Inv : LinksSound.Inv a_busy_world
a_busy_world-Inv = record {
  clients_placed = a_world-Inv.clients_placed;
  servers_placed = a_world-Inv.servers_placed;
  to_server = a_world-Inv.to_server;
  to_client = a_world-Inv.to_client;
  matching = a_world-Inv.matching;
}

clear_outstanding_requests_until-Cleared_example :
    Ensures
      (Order.Cleared 1
        (Order.after_first (83 ∷ []) (a_busy_world.server 1).outstanding_requests)
        a_busy_world)
      (Requests.clear_outstanding_requests_until a_request_env the_calls 1 (83 ∷ []) a_busy_world)
clear_outstanding_requests_until-Cleared_example =
    Order.clear_outstanding_requests_until-Cleared a_request_env the_calls the_calls-KeepsOrder 1
      (83 ∷ []) a_busy_world a_busy_world-Inv

pop-add_example :
    Ensures
      (λ r.
        (r.0 ≡ true)
        × Fifo.Popped a_request_env 1
            (81 ∷ [])
            (a_request 81)
            (a_request 83 ∷ a_request 81 ∷ a_request 80 ∷ [])
            r.1)
      (Requests.add_outstanding_request a_request_env 1 80 ra_forward a_busy_world)
pop-add_example =
    Fifo.pop-add a_request_env 1 1 80 ra_forward (81 ∷ []) (a_request 81)
      (a_request 83 ∷ a_request 81 ∷ a_request 80 ∷ []) a_busy_world refl refl
      (unfold Requests.is_fake in refl) refl (unfold Requests.is_fake in refl)
      (unfold Requests.among in refl)
