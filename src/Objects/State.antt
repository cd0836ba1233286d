-- ===== src/Objects/State.antt =====
-- objects.c, change_client_state and change_server_state: a change of state moves the socket from
-- the list of its old state to the list of its new one.
pub mod Placed
use self_db_mini.Base.{ℕ, Bool, true, false, ◌||◌, Option, none, some, ◌==◌, if◌then◌else◌}
use self_db_mini.Base.Outcome.{Outcome, done, abort, ◌>>=◌}
use self_db_mini.Base.Placement.{detach, attach}
use self_db_mini.Bouncer.{
  ClientState, cl_free, cl_justfree, cl_login, cl_waiting, cl_waiting_login, cl_active,
  cl_waiting_cancel, cl_active_cancel, ServerState, sv_free, sv_justfree, sv_login,
  sv_being_canceled, sv_idle, sv_active, sv_active_cancel, sv_used, sv_tested, ClientList,
  justfree_client_list, login_client_list, active_client_list, waiting_client_list,
  waiting_cancel_req_list, active_cancel_req_list, ServerList, justfree_server_list,
  active_server_list, active_cancel_server_list, being_canceled_server_list, idle_server_list,
  used_server_list, tested_server_list, new_server_list, Client, Server, World, put_client,
  put_server, ClientList-discrete, ServerList-discrete,
}

-- The list that a client in a state stands in. The lists of a pool cannot be reached through a
-- pool pointer that is NULL.
unfoldable pub list_of_client : ClientState → Option ℕ → Outcome (Option ClientList)
list_of_client cl_free p = done none
list_of_client cl_justfree p = done (some justfree_client_list)
list_of_client cl_login p = done (some login_client_list)
list_of_client cl_waiting (some p) = done (some (waiting_client_list p))
list_of_client cl_waiting_login (some p) = done (some (waiting_client_list p))
list_of_client cl_active (some p) = done (some (active_client_list p))
list_of_client cl_active_cancel (some p) = done (some (active_cancel_req_list p))
list_of_client cl_waiting_cancel (some p) = done (some (waiting_cancel_req_list p))
list_of_client _ none = abort

unfoldable pub list_of_server : ServerState → ℕ → Option ServerList
list_of_server sv_free p = none
list_of_server sv_justfree p = some justfree_server_list
list_of_server sv_login p = some (new_server_list p)
list_of_server sv_used p = some (used_server_list p)
list_of_server sv_tested p = some (tested_server_list p)
list_of_server sv_being_canceled p = some (being_canceled_server_list p)
list_of_server sv_idle p = some (idle_server_list p)
list_of_server sv_active p = some (active_server_list p)
list_of_server sv_active_cancel p = some (active_cancel_server_list p)

-- The switch on the old state corrects the new state of a client that has not logged in.
unfoldable pub corrected : ClientState → ClientState → ClientState
corrected cl_login cl_waiting = cl_waiting_login
corrected cl_waiting_login cl_active = cl_login
corrected _ new = new

unfoldable pub is_waiting : ClientState → Bool
is_waiting cl_waiting = true
is_waiting cl_waiting_login = true
is_waiting _ = false

-- The client with its new state: leaving a waiting state clears the notification flag, and
-- entering one notes the time.
unfoldable pub restated : Client → ClientState → ℕ → Client
unfolding is_waiting
restated c new now = record c {
  state = new;
  sent_wait_notification = if is_waiting c.state then false else c.sent_wait_notification;
  wait_start = if is_waiting new then now else c.wait_start;
}

-- The client goes from one list to another.
unfoldable pub move_client : ℕ → ClientState → Option ClientList → Option ClientList → World → World
unfolding restated
move_client c new from to w = record w {
  client = λ i. if i == c then restated (w.client c) new w.now else w.client i;
  client_list =
      attach ClientList-discrete false to c (detach ClientList-discrete from c w.client_list);
}

unfoldable pub change_client_state : ℕ → ClientState → World → Outcome World
change_client_state c newstate w = do
  let old = w.client c
  let new = corrected old.state newstate
  from ← list_of_client old.state old.pool
  to ← list_of_client new old.pool
  done (move_client c new from to w)

-- Whether the socket goes to the front of its new list: used and idle connections are taken last
-- in first out, unless the connection is to be closed or the round robin setting is on.
unfoldable pub to_front : ServerState → Server → Bool → Bool
to_front sv_used s round_robin = true
to_front sv_idle s round_robin = if s.close_needed || round_robin then false else true
to_front _ s round_robin = false

unfoldable pub change_server_state : ℕ → ServerState → World → World
change_server_state s newstate w =
    let old = w.server s in
    record w {
      server = λ i. if i == s then record old { state = newstate } else w.server i;
      server_list =
          attach ServerList-discrete (to_front newstate old w.config.server_round_robin)
            (list_of_server newstate old.pool) s
            (detach ServerList-discrete (list_of_server old.state old.pool) s w.server_list);
    }
