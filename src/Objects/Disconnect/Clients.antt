-- ===== src/Objects/Disconnect/Clients.antt =====
-- objects.c, disconnect_client: the invariant of the sockets, and that of the knot of the three
-- operations.
use self_db_mini.Base.{
  ℕ, zero, suc, ◌≡◌, refl, Bool, true, false, none, some, ◌∷◌, arith, if◌then◌else◌, Option-cases,
  inl, inr, ap, ◌∙◌, ◌⊎◌, remove,
}
use self_db_mini.Base.Outcome.{
  Ensures, holds, aborted, starved, Ensures->>=, Ensures-if, Ensures-weaken, Ensures-both, ◌>>=◌,
}
use self_db_mini.Bouncer.{
  ClientState, cl_free, cl_justfree, cl_login, cl_waiting, cl_waiting_login, cl_active,
  cl_waiting_cancel, cl_active_cancel, ServerState, sv_active, World, error_to, put_client,
  put_server, sending_auth_query,
}
use self_db_mini.Objects.State.{change_client_state, is_waiting, corrected}
use self_db_mini.Objects.Links.{unlink}
use self_db_mini.Objects.Links.Sound.{Inv, states_match, owns_server}
use self_db_mini.Objects.Env.{Env, Calls}
use self_db_mini.Objects.Frame.{
  IsQuiet, Frame, FrameFlag, IsOrderly, Frame-refl, Frame-trans, then-Frame, unlink-Frame,
  change_client_state-Frame, put_client-Frame, put_server-Frame,
}
use self_db_mini.Objects.Release.Cancels.{SameClient}
use self_db_mini.Objects.Release.Sound.{ClosesServers, release_server-Frame, release_server_unlinks}
use self_db_mini.Objects.Disconnect.Sound.{
  ClosesClients, disconnect_server-Frame, disconnect_server_links,
}
use self_db_mini.Objects.Disconnect

-- What each of the three operations promises to the others.
pub record KeepsOrder (calls : Calls) : Type 0 where
  pub servers : ClosesServers calls
  pub clients : ClosesClients calls
  pub release_frame : (s : ℕ) (w : World) → Inv w → Ensures (FrameFlag w) (calls.release_server s w)
  pub release_unlinks :
      (c s : ℕ) (w : World)
      → (w.client c).link ≡ some s
      → is_waiting (w.client c).state ≡ false
      → (w.server s).state ≡ sv_active
      → Inv w
      → Ensures (λ r. IsQuiet c r.1) (calls.release_server s w)
  pub server_links :
      (s : ℕ) (term : Bool) (w : World) (c : ℕ)
      → (w.server s).link ≡ none
      → Ensures (SameClient c w) (calls.disconnect_server s term w)

-- The client has no server connection after the step, which keeps order.
pub record CutOff (c : ℕ) (w w' : World) : Type 0 where
  pub frame : Frame w w'
  pub unlinked : (w'.client c).link ≡ none

-- The states of a client's server connection, by the state of the client.
pub active_of_awake :
    (st : ClientState) (owns own : Bool) (sv : ServerState)
    → (st ≡ cl_active) ⊎ (st ≡ cl_login)
    → states_match st owns sv own ≡ true
    → sv ≡ sv_active
unfolding states_match
active_of_awake st owns own sv (inl e) m = ground arith
active_of_awake st owns own sv (inr e) m = ground arith

owned_of_waiting :
    (st : ClientState) (owns own : Bool) (sv : ServerState)
    → is_waiting st ≡ true
    → states_match st owns sv own ≡ true
    → owns ≡ true
unfolding states_match is_waiting
owned_of_waiting st owns own sv e m = ground arith

unlink-client_link : (c s : ℕ) (w : World) → ((unlink c s w).client c).link ≡ none
unfolding unlink
unlink-client_link c s w = ground arith

unlink-client_state : (c s : ℕ) (w : World) → ((unlink c s w).client c).state ≡ (w.client c).state
unfolding unlink
unlink-client_state c s w = ground arith

unlink-server_link : (c s : ℕ) (w : World) → ((unlink c s w).server s).link ≡ none
unfolding unlink
unlink-server_link c s w = ground arith

forget_canceled-Frame : (c t : ℕ) (w : World) → Inv w → Frame w (Disconnect.forget_canceled c t w)
unfolding Disconnect.forget_canceled sending_auth_query
forget_canceled-Frame c t w v =
    let x = record (w.server t) { canceling_clients = remove c (w.server t).canceling_clients } in
    let f = put_server-Frame t x w refl refl refl refl v in
    Frame-trans f (put_client-Frame c _ (put_server t x w) refl refl refl refl f.inv)

-- The last steps of a client that has no connection left.
end_client-Frame :
    (c : ℕ) (w : World)
    → (w.client c).link ≡ none
    → Inv w
    → Ensures (Frame w) (
        change_client_state c cl_justfree
          (put_client c (Disconnect.without_mocks w (w.client c)) w))
unfolding Disconnect.without_mocks sending_auth_query
end_client-Frame c w e v =
    let f = put_client-Frame c (Disconnect.without_mocks w (w.client c)) w refl refl refl refl v in
    then-Frame f (
      change_client_state-Frame c cl_justfree _ (unfold corrected is_waiting in ground arith)
        (λ s h. ground (arith, e)) f.inv)

module _ (calls : Calls) (keeps : KeepsOrder calls) where
  -- The connection is taken from its client and closed.
  close_unlinked :
      (c s : ℕ) (term : Bool) (w : World)
      → (w.client c).link ≡ some s
      → Inv w
      → Ensures (CutOff c w) (calls.disconnect_server s term (unlink c s w))
  close_unlinked c s term w e v =
      let f = unlink-Frame c s w e v in
      Ensures-weaken
        (Ensures-both (keeps.servers.server_frame s term (unlink c s w) f.inv)
          (keeps.server_links s term (unlink c s w) c (unlink-server_link c s w)))
        λ w' h. record { frame = Frame-trans f h.0; unlinked = h.1.0 ∙ unlink-client_link c s w }

  leave_server-CutOff :
      (c : ℕ) (w : World)
      → (((w.client c).state ≡ cl_active) ⊎ ((w.client c).state ≡ cl_login))
      → is_waiting (w.client c).state ≡ false
      → Inv w
      → Ensures (CutOff c w) (Disconnect.leave_server calls c w)
  unfolding Disconnect.leave_server
  leave_server-CutOff c w st awake v = elim (Option-cases (w.client c).link) [
    | inl e ↦
        rw (e, Disconnect.leave_server) (holds (record { frame = Frame-refl v; unlinked = e }))
    | inr (s, e) ↦
        rw (e, Disconnect.leave_server)
          (Ensures-if _ (λ _. close_unlinked c s true w e v)
            (λ _.
              Ensures->>=
                (Ensures-both (keeps.release_frame s w v) (
                  keeps.release_unlinks c s w e awake
                    (active_of_awake _ _ _ _ st (v.matching c s e)) v))
                λ r h. holds (record { frame = h.0; unlinked = h.1.0 })))
  ]

  drop_replication-CutOff :
      (c : ℕ) (w : World)
      → is_waiting (w.client c).state ≡ true
      → Inv w
      → Ensures (CutOff c w) (Disconnect.drop_replication calls c w)
  unfolding Disconnect.drop_replication
  drop_replication-CutOff c w st v = elim (Option-cases (w.client c).link) [
    | inl e ↦
        rw (e, Disconnect.drop_replication) (holds (record { frame = Frame-refl v; unlinked = e }))
    | inr (s, e) ↦
        rw (e, Disconnect.drop_replication)
          (Ensures-if (w.client c).replication (λ _. close_unlinked c s false w e v)
            (λ h. absurd (
              ground (
                arith,
                h,
                owned_of_waiting (w.client c).state (owns_server (w.client c))
                    (w.server s).replication (w.server s).state st (v.matching c s e),
              ))))
  ]

  drop_forwarding-Frame :
      (c : ℕ) (w : World)
      → is_waiting (w.client c).state ≡ false
      → Inv w
      → Ensures (λ w'. Frame w w' × IsQuiet c w') (Disconnect.drop_forwarding calls c w)
  unfolding Disconnect.drop_forwarding
  drop_forwarding-Frame c w awake v = elim (Option-cases (w.client c).link) [
    | inl e ↦ rw (e, Disconnect.drop_forwarding) (holds (Frame-refl v, (e, awake)))
    | inr (s, e) ↦
        let f = unlink-Frame c s w e v in
        let g =
          put_server-Frame s (record ((unlink c s w).server s) { ready = true }) (unlink c s w) refl
            refl refl refl f.inv in
        rw (e, Disconnect.drop_forwarding)
          (Ensures-weaken (keeps.servers.server_frame s false _ g.inv) λ w' h. (
            Frame-trans f (Frame-trans g h),
            h.quiet c (
                g.quiet c
                  (unlink-client_link c s w, ap is_waiting (unlink-client_state c s w) ∙ awake)),
          ))
  ]

  drop_canceled-Frame :
      (c : ℕ) (w : World) → Inv w → Ensures (Frame w) (Disconnect.drop_canceled calls c w)
  unfolding Disconnect.drop_canceled
  drop_canceled-Frame c w v = elim (Option-cases (w.client c).canceled_server) [
    | inl e ↦ rw (e, Disconnect.drop_canceled) (holds (Frame-refl v))
    | inr (t, e) ↦
        let f = forget_canceled-Frame c t w v in
        rw (e, Disconnect.drop_canceled)
          (Ensures-if _
            (λ _.
              Ensures->>= (keeps.release_frame t (Disconnect.forget_canceled c t w) f.inv)
                λ r g. holds (Frame-trans f g))
            (λ _. holds f))
  ]

  drop_cancel-CutOff :
      (c : ℕ) (w : World)
      → is_waiting (w.client c).state ≡ false
      → Inv w
      → Ensures
          (CutOff c w)
          (Disconnect.drop_forwarding calls c w >>= λ w'. Disconnect.drop_canceled calls c w')
  drop_cancel-CutOff c w awake v = Ensures->>= (drop_forwarding-Frame c w awake v) λ w' f.
      Ensures-weaken (drop_canceled-Frame c w' f.0.inv)
        λ w'' g. record { frame = Frame-trans f.0 g; unlinked = (g.quiet c f.1).0 }

  -- Whatever its state, the client lets go of its connection.
  pub leave-CutOff :
      (st : ClientState) (c : ℕ) (w : World)
      → (w.client c).state ≡ st
      → Inv w
      → Ensures (CutOff c w) (Disconnect.leave calls st c w)
  unfolding Disconnect.leave is_waiting
  leave-CutOff cl_active c w e v = leave_server-CutOff c w (inl e) (rw e) v
  leave-CutOff cl_login c w e v = leave_server-CutOff c w (inr e) (rw e) v
  leave-CutOff cl_active_cancel c w e v = drop_cancel-CutOff c w (rw e) v
  leave-CutOff cl_waiting_cancel c w e v = drop_cancel-CutOff c w (rw e) v
  leave-CutOff cl_waiting c w e v = drop_replication-CutOff c w (rw e) v
  leave-CutOff cl_waiting_login c w e v = drop_replication-CutOff c w (rw e) v
  leave-CutOff cl_free c w e v = aborted
  leave-CutOff cl_justfree c w e v = aborted

  disconnect_client-Frame :
      (env : Env) (c : ℕ) (notify : Bool) (w : World)
      → Inv w
      → Ensures (Frame w) (Disconnect.disconnect_client env calls c notify w)
  unfolding Disconnect.disconnect_client Disconnect.uncount_client sending_auth_query
  disconnect_client-Frame env c notify w v =
      let w0 = Disconnect.uncount_client (w.client c) w in
      Ensures->>= (leave-CutOff (w0.client c).state c w0 refl v) λ w1 f.
        let told = Disconnect.is_told notify (w1.client c).state in
        let w2 = record w1 { sent = if told then error_to c ∷ w1.sent else w1.sent } in
        Ensures->>= (end_client-Frame c w2 f.unlinked f.frame.inv) λ w3 g.
          let h =
            put_client-Frame c (record (w3.client c) { sbuf_closed = env.sbuf_close_client c w3 })
              w3 refl refl refl refl g.inv in
          holds (record { inv = h.inv; quiet = λ d q. h.quiet d (g.quiet d (f.frame.quiet d q)) })

-- disconnect_server, disconnect_client and release_server, which call one another, keep the
-- invariant of the sockets and leave every client alone that neither waits nor has a connection; a
-- client that does not wait and gives back its active connection has none afterwards; and closing
-- an unlinked connection changes no link and no state of a client.
pub calls-KeepsOrder :
    (env : Env) → IsOrderly env → (fuel : ℕ) → KeepsOrder (Disconnect.calls env fuel)
unfolding Disconnect.calls
calls-KeepsOrder env orderly zero = record {
  servers = record { server_frame = λ s term w v. starved };
  clients = record { client_frame = λ c notify w v. starved };
  release_frame = λ s w v. starved;
  release_unlinks = λ c s w e a h v. starved;
  server_links = λ s term w c e. starved;
}
calls-KeepsOrder env orderly (suc fuel) =
    let inner = Disconnect.calls env fuel in
    let keeps = calls-KeepsOrder env orderly fuel in
    record {
      servers = record {
        server_frame = λ s term w v. disconnect_server-Frame inner keeps.clients env s term w v;
      };
      clients = record {
        client_frame = λ c notify w v. disconnect_client-Frame inner keeps env c notify w v;
      };
      release_frame = λ s w v. release_server-Frame env orderly inner keeps.servers s w v;
      release_unlinks =
          λ c s w e a h v. release_server_unlinks env orderly inner keeps.servers c s w e a h v;
      server_links = λ s term w c e. disconnect_server_links inner keeps.clients env s term w c e;
    }
