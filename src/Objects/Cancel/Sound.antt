-- ===== src/Objects/Cancel/Sound.antt =====
-- objects.c, forward_cancel_request: the invariant of the sockets.
use self_db_mini.Base.{
  ℕ, ◌≡◌, Bool, true, false, not, Option, none, some, arith, Option-cases, inl, inr, ◌==◌,
}
use self_db_mini.Base.Outcome.{
  Ensures, aborted, Ensures->>=, Ensures-assert, Ensures-if, Ensures-weaken,
}
use self_db_mini.Bouncer.{
  ClientState, cl_active_cancel, ServerState, sv_active_cancel, World, waiting_cancel_req_list,
  first_client,
}
use self_db_mini.Objects.State.{change_client_state, change_server_state, corrected, move_client}
use self_db_mini.Objects.State.Placed.{change_client_state_moves}
use self_db_mini.Objects.Links.{link}
use self_db_mini.Objects.Links.Sound.{
  Inv, link-Inv, change_server_state-Inv, move_client-Inv, states_match, owns_server,
}
use self_db_mini.Objects.Env.{Calls}
use self_db_mini.Objects.Disconnect.Clients.{KeepsOrder}
use self_db_mini.Objects.Cancel

-- A request that waits to be forwarded suits a connection that logs in, and stays suited to it.
cancel_match :
    (c : ClientState) (s : ServerState) (owns own : Bool)
    → Cancel.waits_to_cancel c ≡ true
    → Cancel.is_server_login s ≡ true
    → own ≡ false
    → (states_match c owns s own ≡ true)
      × (states_match (corrected c cl_active_cancel) owns s own ≡ true)
      × (corrected c cl_active_cancel ≡ cl_active_cancel)
unfolding Cancel.waits_to_cancel Cancel.is_server_login states_match corrected
cancel_match c s owns own e f g = ground arith

module _ (env : Cancel.CancelEnv)
    (continues : (s : ℕ) (w : World) → Inv w → Ensures Inv (env.sbuf_continue_server s w))
    (calls : Calls) (keeps : KeepsOrder calls) where
  send_request-Inv :
      (key : Cancel.CancelKey) (c s : ℕ) (w : World)
      → Cancel.waits_to_cancel (w.client c).state ≡ true
      → Cancel.is_server_login (w.server s).state ≡ true
      → (w.server s).replication ≡ false
      → (w.client c).link ≡ some s
      → Inv w
      → Ensures Inv (Cancel.send_request env calls key c s w)
  unfolding Cancel.send_request
  send_request-Inv key c s w e f g l v =
      Ensures-if (not (env.send_cancel_request s key w))
        (λ _. Ensures-weaken (keeps.clients.client_frame c false w v) λ w' h. h.inv)
        (λ _. Ensures->>= forwarded λ w' v'. continues s _ v')
    where
      forwarded :
          Ensures
            (λ w'. Inv (change_server_state s sv_active_cancel w'))
            (change_client_state c cl_active_cancel w)
      forwarded =
          let (_, awake, active) =
            cancel_match (w.client c).state (w.server s).state (owns_server (w.client c))
              (w.server s).replication e f g in
          change_client_state_moves c cl_active_cancel w λ from to h h'.
            let v1 =
              move_client-Inv c _ from to w h h'
                (λ t k. ground (arith, awake, v.to_server c t k, v.to_server c s l, k, l)) v in
            change_server_state-Inv s sv_active_cancel
              (move_client c (corrected (w.client c).state cl_active_cancel) from to w)
              (λ d k.
                unfold states_match move_client in
                ground (arith, active, k, v.to_server d s, v.to_server c s l))
              v1

  with_key :
      (c s : ℕ) (w : World) (canceled : Option ℕ)
      → Inv w
      → ((key : Cancel.CancelKey) → Ensures Inv (Cancel.send_request env calls key c s w))
      → Ensures Inv (elim canceled [
        | none ↦ calls.disconnect_client c false w
        | some t ↦ Cancel.send_request env calls (Cancel.key_of_server t) c s w
      ])
  with_key c s w none v sent = Ensures-weaken (keeps.clients.client_frame c false w v) λ w' h. h.inv
  with_key c s w (some t) v sent = sent (Cancel.key_of_server t)

  -- forward_cancel_request keeps the invariant of the sockets, on each of its ways out, for a
  -- connection that has no link and is not for replication and a first waiting request that has no
  -- link, given operations that keep order.
  pub forward_cancel_request-Inv :
      (s : ℕ) (w : World)
      → (w.server s).link ≡ none
      → (w.server s).replication ≡ false
      → ((c : ℕ)
          → first_client w (waiting_cancel_req_list (w.server s).pool) ≡ some c
          → (w.client c).link ≡ none)
      → Inv w
      → Ensures Inv (Cancel.forward_cancel_request env calls s w)
  unfolding Cancel.forward_cancel_request
  forward_cancel_request-Inv s w e own free v =
      elim (Option-cases (first_client w (waiting_cancel_req_list (w.server s).pool))) [
        | inl h ↦ rw (h, Cancel.forward_cancel_request) aborted
        | inr (c, h) ↦
            rw (h, Cancel.forward_cancel_request)
              (Ensures-assert (Cancel.waits_to_cancel (w.client c).state) λ waits.
                Ensures-assert (Cancel.is_server_login (w.server s).state) λ login.
                  let v1 =
                    link-Inv c s w (free c h) e
                      (cancel_match (w.client c).state (w.server s).state (owns_server (w.client c))
                        (w.server s).replication waits login own).0
                      v in
                  let w1 = link c s w in
                  let sent = λ (key : Cancel.CancelKey).
                    send_request-Inv key c s w1 (unfold link in ground (arith, waits))
                      (unfold link in ground (arith, login)) (unfold link in ground (arith, own))
                      (unfold link in ground arith) v1 in
                  Ensures-if (not ((w1.db (w1.pool (w1.server s).pool).db).peer_id == 0))
                    (λ _. sent (Cancel.key_of_request c))
                    (λ _. with_key c s w1 (w1.client c).canceled_server v1 sent))
      ]
