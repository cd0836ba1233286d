-- ===== src/Objects/Cancel.antt =====
-- objects.c: pause_cancel_request and forward_cancel_request, which send the request of a client to
-- cancel the query of another over a new connection.
pub mod Sound
use self_db_mini.Base.{
  ℕ, Bool, true, false, not, ◌&&◌, Option, none, some, ◌==◌, is_some, if◌then◌else◌,
}
use self_db_mini.Base.Outcome.{Outcome, done, abort, ◌>>=◌, ◌>>◌, assert}
use self_db_mini.Bouncer.{
  ClientState, cl_login, cl_waiting_cancel, cl_active_cancel, ServerState, sv_login,
  sv_active_cancel, World, waiting_cancel_req_list, first_client,
}
use self_db_mini.Objects.State.{change_client_state, change_server_state}
use self_db_mini.Objects.Links.{link}
use self_db_mini.Objects.Env.{Env, Calls}

-- Whose `cancel_key` is sent: that of the request, or of the connection to be canceled.
pub data CancelKey : Type 0 where
  key_of_request key_of_server : ℕ → CancelKey

-- What sockets do here: whether the packet can be sent to a server, and reading on from it.
pub record CancelEnv : Type 0 where
  pub send_cancel_request : ℕ → CancelKey → World → Bool
  pub sbuf_continue_server : ℕ → World → Outcome World

pub is_client_login : ClientState → Bool
is_client_login cl_login = true
is_client_login _ = false

pub waits_to_cancel : ClientState → Bool
waits_to_cancel cl_waiting_cancel = true
waits_to_cancel _ = false

pub is_server_login : ServerState → Bool
is_server_login sv_login = true
is_server_login _ = false

pub pause_cancel_request : Env → Calls → ℕ → World → Outcome World
unfolding is_client_login
pause_cancel_request env calls c w = do
  assert (is_client_login (w.client c).state)
  w' ← change_client_state c cl_waiting_cancel w
  if env.sbuf_pause c w' then done w' else calls.disconnect_client c true w'

module _ (env : CancelEnv) (calls : Calls) where
  -- From the second test of `forwarding_to_peer` on
  send_request : CancelKey → ℕ → ℕ → World → Outcome World
  send_request key c s w =
      if not (env.send_cancel_request s key w) then calls.disconnect_client c false w else (do
        w' ← change_client_state c cl_active_cancel w
        env.sbuf_continue_server s (change_server_state s sv_active_cancel w'))

  pub forward_cancel_request : ℕ → World → Outcome World
  unfolding waits_to_cancel is_server_login send_request
  forward_cancel_request s w = elim (first_client w (waiting_cancel_req_list (w.server s).pool)) [
    | none ↦ abort
    | some c ↦ (do
      assert (waits_to_cancel (w.client c).state)
      assert (is_server_login (w.server s).state)
      let w1 = link c s w
      if not ((w1.db (w1.pool (w1.server s).pool).db).peer_id == 0)
          then send_request (key_of_request c) c s w1
          else elim (w1.client c).canceled_server [
            | none ↦ calls.disconnect_client c false w1
            | some t ↦ send_request (key_of_server t) c s w1
          ])
  ]
