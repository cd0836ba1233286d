-- ===== src/Objects/State/Placed.antt =====
-- objects.c, change_client_state and change_server_state: which list a socket stands in.
use self_db_mini.Base.{ℕ, ◌≡◌, refl, false, Option, none, arith, ◌==◌, if◌then◌else◌, ap}
use self_db_mini.Base.Outcome.{Outcome, done, abort, no_fuel, Ensures, holds, Ensures-bind}
use self_db_mini.Base.Placement.{IsPlaced, move-IsPlaced}
use self_db_mini.Bouncer.{
  ClientState, ServerState, ClientList, ServerList, Client, Server, World, ClientList-discrete,
  ServerList-discrete,
}
use self_db_mini.Objects.State.{
  corrected, list_of_client, list_of_server, move_client, change_client_state, change_server_state,
  restated,
}

-- Where a client stands, if its pool can be reached.
abbrev pub home_of : Outcome (Option ClientList) → Option ClientList
home_of (done l) = l
home_of abort = none
home_of no_fuel = none

abbrev pub client_home : Client → Option ClientList
client_home c = home_of (list_of_client c.state c.pool)

abbrev pub server_home : Server → Option ServerList
server_home s = list_of_server s.state s.pool

abbrev pub ClientsPlaced : World → Type 0
ClientsPlaced w = IsPlaced ClientList-discrete w.client_list (λ c. client_home (w.client c))

abbrev pub ServersPlaced : World → Type 0
ServersPlaced w = IsPlaced ServerList-discrete w.server_list (λ s. server_home (w.server s))

-- If every server connection stands once in the list that its state names, and in no other, then
-- so it is after change_server_state.
pub change_server_state-ServersPlaced :
    (s : ℕ) (new : ServerState) (w : World)
    → ServersPlaced w
    → ServersPlaced (change_server_state s new w)
unfolding change_server_state
change_server_state-ServersPlaced s new w p =
    move-IsPlaced ServerList-discrete _ (list_of_server new (w.server s).pool) s w.server_list
      (λ i. server_home (w.server i))
      (λ i. server_home (if i == s then record (w.server s) { state = new } else w.server i)) p
      (ground arith) (λ i e. rw e refl)

pub move_client-ClientsPlaced :
    (c : ℕ) (new : ClientState) (from to : Option ClientList) (w : World)
    → list_of_client (w.client c).state (w.client c).pool ≡ done from
    → list_of_client new (w.client c).pool ≡ done to
    → ClientsPlaced w
    → ClientsPlaced (move_client c new from to w)
unfolding move_client
move_client-ClientsPlaced c new from to w e e' p = rw (← ap home_of e) (
    move-IsPlaced ClientList-discrete false to c w.client_list (λ i. client_home (w.client i))
      (λ i. client_home (if i == c then restated (w.client c) new w.now else w.client i)) p
      (ground (arith, e')) (λ i h. rw h refl))

-- A change of state either stops the process or makes the move.
pub change_client_state_moves :
    {P : World → Type 0} (c : ℕ) (new : ClientState) (w : World)
    → ((from to : Option ClientList)
        → list_of_client (w.client c).state (w.client c).pool ≡ done from
        → list_of_client (corrected (w.client c).state new) (w.client c).pool ≡ done to
        → P (move_client c (corrected (w.client c).state new) from to w))
    → Ensures P (change_client_state c new w)
unfolding change_client_state
change_client_state_moves c new w k = Ensures-bind (list_of_client old.state old.pool) λ from e.
    Ensures-bind (list_of_client (corrected old.state new) old.pool) λ to e'. holds (k from to e e')
  where
    old : Client
    old = w.client c

-- If every client stands once in the list that its state names, and in no other, then so it is
-- when change_client_state returns.
pub change_client_state-ClientsPlaced :
    (c : ℕ) (new : ClientState) (w : World)
    → ClientsPlaced w
    → Ensures ClientsPlaced (change_client_state c new w)
change_client_state-ClientsPlaced c new w p =
    change_client_state_moves c new w λ from to e e'. move_client-ClientsPlaced c _ from to w e e' p
