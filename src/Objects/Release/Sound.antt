-- ===== src/Objects/Release/Sound.antt =====
-- objects.c, release_server: the invariant of the sockets, given that of what it calls.
use self_db_mini.Base.{
  ℕ, ◌≡◌, refl, Bool, true, false, not, ◌&&◌, ◌||◌, none, some, arith, is_some, is_empty,
  Option-cases, inl, inr, ◌∙◌, sym, ltb,
}
use self_db_mini.Base.Outcome.{
  done, abort, Ensures, holds, Ensures->>=, Ensures-bind, Ensures-assert, Ensures-if,
  Ensures-weaken, ◌>>=◌,
}
use self_db_mini.Bouncer.{
  cl_active, ServerState, sv_idle, sv_active, sv_tested, World, sending_auth_query, first_client,
  waiting_client_list,
}
use self_db_mini.Objects.State.{change_client_state, is_waiting}
use self_db_mini.Objects.Links.Sound.{Inv, owns_server}
use self_db_mini.Objects.Env.{Env, Calls}
use self_db_mini.Objects.Frame.{
  IsQuiet, Frame, IsOrderly, Frame-refl, then-Frame, then-FrameFlag, with_flag, FrameFlag,
  change_server_state-Frame, restate_server-Frame, change_client_state-Frame,
}
use self_db_mini.Objects.Release
use self_db_mini.Objects.Release.Cancels.{
  forget_cancels-Frame, server_link-forget_cancels, server_state-forget_cancels,
}
use self_db_mini.Objects.Release.Switch.{
  awake_lem, Frame-of_parts, quiet_ne, IsLoggingIn, unowned_waiting, login_active, hold_back-Frame,
  replication_active, note_lifetime-Frame, leave_service-Left, leave_active,
}

-- What release_server asks of the operation that it calls.
pub record ClosesServers (calls : Calls) : Type 0 where
  pub server_frame :
      (s : ℕ) (term : Bool) (w : World)
      → Inv w
      → Ensures (Frame w) (calls.disconnect_server s term w)

module _ (env : Env) (orderly : IsOrderly env) where
  wake-Frame :
      (c : ℕ) (w : World)
      → is_waiting (w.client c).state ≡ true
      → ((s : ℕ) → (w.client c).link ≡ some s → (w.server s).state ≡ sv_active)
      → Inv w
      → Ensures (Frame w) (change_client_state c cl_active w >>= env.sbuf_continue c)
  wake-Frame c w waiting active v =
      Ensures->>=
        (change_client_state-Frame c cl_active w (awake_lem _ true true waiting).0
          (λ s e. rw (active s e) (awake_lem _ _ _ waiting).1) v)
        λ w' f.
          Frame-of_parts (env.sbuf_continue c w') (orderly.continue_inv c w' f.inv)
            (λ d q. orderly.continue_quiet c d w' (quiet_ne c d w waiting q) (f.quiet d q))

  -- A waiting client wakes up. If it has a server connection already, that is active.
  pub activate_client-Frame :
      (c : ℕ) (w : World)
      → (is_waiting (w.client c).state ≡ true
          → (s : ℕ) → (w.client c).link ≡ some s
          → (w.server s).state ≡ sv_active)
      → Inv w
      → Ensures (Frame w) (Release.activate_client env c w)
  unfolding Release.activate_client
  activate_client-Frame c w active v = Ensures-assert (is_waiting (w.client c).state) λ waiting.
      Ensures-assert (ltb 0 (w.client c).wait_start) λ _.
        Ensures-bind (elim (w.client c).pool [ none ↦ abort | some p ↦ done p ])
          λ p _.
            then-Frame (record { inv = v; quiet = λ d q. q })
              (wake-Frame c _ waiting (active waiting) v)

  -- The client at the head of the wait queue wants no connection of its own, so it has none.
  reuse_on_release-Frame :
      (s : ℕ) (w : World) → Inv w → Ensures (FrameFlag w) (Release.reuse_on_release env s w)
  unfolding Release.reuse_on_release
  reuse_on_release-Frame s w v = Ensures-assert (not (w.server s).replication) λ _.
      elim (Option-cases (first_client w (waiting_client_list (w.server s).pool))) [
        | inl e ↦ rw e (holds (Frame-refl v))
        | inr (c, e) ↦ rw e (
            Ensures-if (not (w.client c).replication || sending_auth_query (w.client c))
              (λ h.
                Ensures->>=
                  (activate_client-Frame c w
                    (λ waiting t l. absurd (unowned_waiting c t w h waiting (v.matching c t l))) v)
                  λ w' f. holds f)
              (λ _. holds (Frame-refl v)))
      ]

  module _ (calls : Calls) (closes : ClosesServers calls) where
    reset_on_release-Frame :
        (s : ℕ) (w : World) → Inv w → Ensures (FrameFlag w) (Release.reset_on_release env calls s w)
    unfolding Release.reset_on_release
    reset_on_release-Frame s w v =
        Ensures-if (env.send_reset_query s w) (λ _. holds (Frame-refl v))
          (λ _. with_flag false (closes.server_frame s false w v))

    enter_state-Frame :
        (new : ServerState) (s : ℕ) (w : World)
        → (w.server s).link ≡ none
        → Inv w
        → Ensures (FrameFlag w) (Release.enter_state env calls new s w)
    unfolding Release.enter_state
    enter_state-Frame sv_idle s w e v =
        let f = change_server_state-Frame s sv_idle w e v in
        then-FrameFlag f (reuse_on_release-Frame s _ f.inv)
    enter_state-Frame sv_tested s w e v =
        let f = change_server_state-Frame s sv_tested w e v in
        then-FrameFlag f (reset_on_release-Frame s _ f.inv)
    enter_state-Frame new s w e v = holds (change_server_state-Frame s new w e v)

    release_replication-Frame :
        (s : ℕ) (w : World)
        → (w.server s).replication ≡ true
        → IsLoggingIn s w
        → Inv w
        → Ensures (FrameFlag w) (Release.release_replication env calls s w)
    unfolding Release.release_replication
    release_replication-Frame s w own login v = elim (Option-cases (w.server s).link) [
      | inl e ↦
          rw (e, Release.release_replication) (with_flag false (closes.server_frame s true w v))
      | inr (c, e) ↦
          let f =
            restate_server-Frame s sv_active w
              (λ d h. ground (
                arith,
                own,
                login_active (w.client d).state (owns_server (w.client d)) (w.server s).replication,
                login d (v.to_server d s h),
                v.matching d s h,
              ))
              v in
          rw (e, Release.release_replication)
            (with_flag true (
              then-Frame f
                (activate_client-Frame c _ (λ _ t h. replication_active s c t w e h v) f.inv)))
    ]

    settle-Frame :
        (new : ServerState) (s : ℕ) (w : World)
        → IsLoggingIn s w
        → Inv w
        → Ensures (FrameFlag w) (Release.settle env calls new s w)
    unfolding Release.settle
    settle-Frame new s w login v =
        Ensures-if (not (is_empty (w.server s).outstanding_requests))
          (λ _. with_flag true (closes.server_frame s true w v))
          λ _.
            Ensures-if (w.server s).close_needed
              (λ _. with_flag false (closes.server_frame s true w v))
              λ _.
                Ensures-if (not (is_empty (w.server s).canceling_clients))
                  (λ _. holds (hold_back-Frame s w login v))
                  λ _.
                    Ensures-if (w.server s).replication
                      (λ own. release_replication-Frame s w own login v)
                      λ _.
                        Ensures-assert (not (is_some (w.server s).link))
                          λ e. enter_state-Frame new s w (ground arith) v

    -- The tests of `release_server` after the switch.
    finish-Frame :
        (new : ServerState) (s : ℕ) (w : World)
        → IsLoggingIn s w
        → Inv w
        → Ensures (FrameFlag w) (Release.finish env calls new s w)
    unfolding Release.finish
    finish-Frame new s w login v =
        let f = forget_cancels-Frame Release.is_waiting_cancel s w v in
        let w' = Release.forget_cancels Release.is_waiting_cancel s w in
        then-FrameFlag f (
          Ensures-if (not (Release.is_login (w'.server s).state) && Release.life_over s w')
            (λ _.
              Ensures->>= (closes.server_frame s true w' f.inv)
                λ w'' g. holds (note_lifetime-Frame _ g))
            (λ _.
              settle-Frame new s w'
                (λ c h.
                  server_state-forget_cancels Release.is_waiting_cancel s w s
                  ∙ login c (sym (server_link-forget_cancels Release.is_waiting_cancel s w s) ∙ h))
                f.inv))

    -- release_server keeps the invariant of the sockets, whichever state the connection is in and
    -- whichever way it ends, and leaves every client alone that neither waits nor has a
    -- connection.
    pub release_server-Frame :
        (s : ℕ) (w : World) → Inv w → Ensures (FrameFlag w) (Release.release_server env calls s w)
    unfolding Release.release_server
    release_server-Frame s w v = Ensures-assert (w.server s).ready λ _.
        Ensures->>= (leave_service-Left (w.server s).state s w refl v)
          λ r l. then-FrameFlag l.frame (finish-Frame r.0 s r.1 l.logging_in l.frame.inv)

    -- release_server of an active connection leaves its client, if that does not wait, without a
    -- server connection and not waiting.
    pub release_server_unlinks :
        (c s : ℕ) (w : World)
        → (w.client c).link ≡ some s
        → is_waiting (w.client c).state ≡ false
        → (w.server s).state ≡ sv_active
        → Inv w
        → Ensures (λ r. IsQuiet c r.1) (Release.release_server env calls s w)
    unfolding Release.release_server
    release_server_unlinks c s w e awake active v = Ensures-assert (w.server s).ready λ _.
        rw active (
          Ensures->>= (leave_active c s w e awake v) λ r l.
            Ensures-weaken (finish-Frame r.0 s r.1 l.0.logging_in l.0.frame.inv)
              λ r' f. f.quiet c l.1)
