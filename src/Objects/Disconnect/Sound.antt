-- ===== src/Objects/Disconnect/Sound.antt =====
-- objects.c, disconnect_server: the invariant of the sockets.
use self_db_mini.Base.{
  ℕ, ◌≡◌, refl, Bool, true, not, none, ◌∷◌, arith, if◌then◌else◌, is_some, Option-cases, inl, inr,
  ◌∙◌,
}
use self_db_mini.Base.Outcome.{Ensures, holds, aborted, Ensures->>=, Ensures-assert, Ensures-if}
use self_db_mini.Bouncer.{
  ServerState, sv_free, sv_justfree, sv_login, sv_active, sv_active_cancel, World, terminate_to,
}
use self_db_mini.Objects.State.{change_server_state}
use self_db_mini.Objects.Links.{unlink}
use self_db_mini.Objects.Links.Sound.{Inv}
use self_db_mini.Objects.Env.{Env, Calls}
use self_db_mini.Objects.Frame.{
  Frame, Frame-refl, Frame-trans, then-Frame, unlink-Frame, change_server_state-Frame,
  put_server-Frame,
}
use self_db_mini.Objects.Release.{forget_cancels}
use self_db_mini.Objects.Release.Cancels.{
  forget_cancels-Frame, server_link-forget_cancels, client-forget_cancels, SameClient,
}
use self_db_mini.Objects.Disconnect

pub record ClosesClients (calls : Calls) : Type 0 where
  pub client_frame :
      (c : ℕ) (notify : Bool) (w : World)
      → Inv w
      → Ensures (Frame w) (calls.disconnect_client c notify w)

-- The end of `disconnect_server`, for a connection that nobody is linked to.
shut_server-Frame :
    (env : Env) (sends : Bool) (s : ℕ) (w : World)
    → (w.server s).link ≡ none
    → Inv w
    → Frame w (Disconnect.shut_server env sends s w)
unfolding Disconnect.shut_server Disconnect.uncount_server
shut_server-Frame env sends s w e v =
    let w2 = forget_cancels (λ _. true) s w in
    let w3 = record w2 { sent = if sends then terminate_to s ∷ w2.sent else w2.sent } in
    let g = forget_cancels-Frame (λ _. true) s w v in
    let h =
      change_server_state-Frame s sv_justfree (Disconnect.uncount_server s w3)
        (server_link-forget_cancels (λ _. true) s w s ∙ e) g.inv in
    Frame-trans g (
      Frame-trans (record { inv = g.inv; quiet = λ d q. q })
        (Frame-trans h (put_server-Frame s _ _ refl refl refl refl h.inv)))

-- A connection that nobody is linked to is closed without further calls, and no client's link
-- changes.
shut_server_links :
    (env : Env) (sends : Bool) (s c : ℕ) (w : World)
    → SameClient c w (Disconnect.shut_server env sends s w)
unfolding Disconnect.shut_server Disconnect.uncount_server change_server_state
shut_server_links env sends s c w = client-forget_cancels (λ _. true) s w c

module _ (calls : Calls) (closes : ClosesClients calls) where
  unlink_server-Frame :
      (s : ℕ) (w : World) → Inv w → Ensures (Frame w) (Disconnect.unlink_server calls s w)
  unfolding Disconnect.unlink_server
  unlink_server-Frame s w v = elim (Option-cases (w.server s).link) [
    | inl e ↦ rw (e, Disconnect.unlink_server) (holds (Frame-refl v))
    | inr (c, e) ↦
        let f = unlink-Frame c s w (v.to_client c s e) v in
        rw (e, Disconnect.unlink_server)
          (then-Frame f (closes.client_frame c _ (unlink c s w) f.inv))
  ]

  abandon-Frame :
      (st : ServerState) (s : ℕ) (w : World)
      → Inv w
      → Ensures (Frame w) (Disconnect.abandon calls st s w)
  unfolding Disconnect.abandon
  abandon-Frame sv_active_cancel s w v = unlink_server-Frame s w v
  abandon-Frame sv_active s w v = unlink_server-Frame s w v
  abandon-Frame sv_login s w v =
      Ensures-if (w.server s).replication
        (λ _. then-Frame (noted s w v) (unlink_server-Frame s _ v)) (λ _. holds (noted s w v))
    where
      noted : (s : ℕ) (w : World) → Inv w → Frame w (Disconnect.note_connect_result s w)
      noted s w v = record { inv = v; quiet = λ d q. q }
  abandon-Frame sv_free s w v = aborted
  abandon-Frame sv_justfree s w v = aborted
  abandon-Frame _ s w v = holds (Frame-refl v)

  abandon_links :
      (st : ServerState) (s : ℕ) (w : World) (c : ℕ)
      → (w.server s).link ≡ none
      → Ensures (SameClient c w) (Disconnect.abandon calls st s w)
  unfolding Disconnect.abandon Disconnect.unlink_server
  abandon_links sv_active_cancel s w c e = rw (e, Disconnect.unlink_server) (holds (refl, refl))
  abandon_links sv_active s w c e = rw (e, Disconnect.unlink_server) (holds (refl, refl))
  abandon_links sv_login s w c e =
      Ensures-if (w.server s).replication
        (λ _. rw (e, Disconnect.unlink_server) (holds (refl, refl))) (λ _. holds (refl, refl))
  abandon_links sv_free s w c e = aborted
  abandon_links sv_justfree s w c e = aborted
  abandon_links _ s w c e = holds (refl, refl)

  pub disconnect_server-Frame :
      (env : Env) (s : ℕ) (term : Bool) (w : World)
      → Inv w
      → Ensures (Frame w) (Disconnect.disconnect_server env calls s term w)
  unfolding Disconnect.disconnect_server
  disconnect_server-Frame env s term w v =
      Ensures->>= (abandon-Frame (w.server s).state s w v) λ w1 f.
        Ensures-assert (not (is_some (w1.server s).link))
          λ e. holds (Frame-trans f (shut_server-Frame env _ s w1 (ground arith) f.inv))

  -- Nor does any client's link change where nobody is linked to the connection.
  pub disconnect_server_links :
      (env : Env) (s : ℕ) (term : Bool) (w : World) (c : ℕ)
      → (w.server s).link ≡ none
      → Ensures (SameClient c w) (Disconnect.disconnect_server env calls s term w)
  unfolding Disconnect.disconnect_server
  disconnect_server_links env s term w c e =
      Ensures->>= (abandon_links (w.server s).state s w c e) λ w1 f.
        Ensures-assert (not (is_some (w1.server s).link))
          λ _. let g = shut_server_links env _ s c w1 in holds (g.0 ∙ f.0, g.1 ∙ f.1)
