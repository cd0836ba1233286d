-- ===== src/Objects/Release/Fuel.antt =====
-- objects.c, release_server: the fuel of what it calls.
use self_db_mini.Base.{
  ℕ, ◌≡◌, Bool, true, false, not, ◌&&◌, ◌||◌, Option, none, some, arith, is_some, is_empty,
  Option-cases, inl, inr, sym, subst, ltb,
}
use self_db_mini.Base.Outcome.{
  Outcome, done, abort, no_fuel, returned, stopped, IsSettled, IsSettled->>=, IsSettled-assert,
  IsSettled-if, ◌>>=◌,
}
use self_db_mini.Bouncer.{
  ClientState, cl_free, cl_justfree, cl_login, cl_waiting, cl_waiting_login, cl_active,
  cl_waiting_cancel, cl_active_cancel, ServerState, sv_login, sv_being_canceled, sv_idle, sv_active,
  sv_used, sv_tested, World, first_client, waiting_client_list, sending_auth_query,
}
use self_db_mini.Settings.{connection_pool_mode, probably_wrong_pool_pool_mode}
use self_db_mini.Objects.State.{
  change_client_state, change_server_state, is_waiting, corrected, list_of_client,
}
use self_db_mini.Objects.Links.{unlink}
use self_db_mini.Objects.Env.{Env, Calls}
use self_db_mini.Objects.Release
use self_db_mini.Objects.Release.Cancels.{server_link-forget_cancels}

list_of_client-IsSettled : (st : ClientState) (p : Option ℕ) → IsSettled (list_of_client st p)
unfolding list_of_client
list_of_client-IsSettled cl_free p = returned
list_of_client-IsSettled cl_justfree p = returned
list_of_client-IsSettled cl_login p = returned
list_of_client-IsSettled cl_waiting (some p) = returned
list_of_client-IsSettled cl_waiting_login (some p) = returned
list_of_client-IsSettled cl_active (some p) = returned
list_of_client-IsSettled cl_active_cancel (some p) = returned
list_of_client-IsSettled cl_waiting_cancel (some p) = returned
list_of_client-IsSettled _ none = stopped

pub change_client_state-IsSettled :
    (c : ℕ) (new : ClientState) (w : World) → IsSettled (change_client_state c new w)
unfolding change_client_state
change_client_state-IsSettled c new w =
    IsSettled->>= (list_of_client-IsSettled (w.client c).state (w.client c).pool) λ from _.
      IsSettled->>= (list_of_client-IsSettled (corrected (w.client c).state new) (w.client c).pool)
        λ to _. returned

connection_pool_mode-IsSettled :
    (w : World) (own : Bool) (p : ℕ) → IsSettled (connection_pool_mode w own p)
unfolding connection_pool_mode
connection_pool_mode-IsSettled w true p = returned
connection_pool_mode-IsSettled w false p = elim (Option-cases (w.pool p).user) [
  | inl e ↦ rw (e, connection_pool_mode, probably_wrong_pool_pool_mode) stopped
  | inr (u, e) ↦ rw (e, connection_pool_mode, probably_wrong_pool_pool_mode) returned
]

state_after_service-IsSettled : (s : ℕ) (w : World) → IsSettled (Release.state_after_service s w)
unfolding Release.state_after_service
state_after_service-IsSettled s w =
    IsSettled-if w.config.has_server_reset_query
      (λ _.
        IsSettled-if w.config.server_reset_query_always (λ _. returned)
          (λ _.
            IsSettled->>=
              (connection_pool_mode-IsSettled w (w.server s).replication (w.server s).pool)
              λ mode _. returned))
      (λ _. returned)

leave_service-IsSettled :
    (st : ServerState) (s : ℕ) (w : World) → IsSettled (Release.leave_service st s w)
unfolding Release.leave_service
leave_service-IsSettled sv_being_canceled s w =
    IsSettled->>= (state_after_service-IsSettled s _) λ new _. returned
leave_service-IsSettled sv_active s w =
    IsSettled->>= (state_after_service-IsSettled s _) λ new _. returned
leave_service-IsSettled sv_used s w = returned
leave_service-IsSettled sv_tested s w = returned
leave_service-IsSettled sv_login s w = returned
leave_service-IsSettled _ s w = stopped

link-change_server_state :
    (s : ℕ) (new : ServerState) (w : World)
    → ((change_server_state s new w).server s).link ≡ (w.server s).link
unfolding change_server_state
link-change_server_state s new w = ground arith

-- A connection that was held back has no link after the switch.
pub held_back_unlinked :
    (s : ℕ) (w : World) (r : ServerState × World)
    → (w.server s).state ≡ sv_being_canceled
    → Release.leave_service (w.server s).state s w ≡ done r
    → (r.1.server s).link ≡ none
unfolding Release.leave_service Release.unlink_client unlink
held_back_unlinked s w r e h =
    unlinked (Release.state_after_service s (Release.unlink_client s w)) (rw e at h)
  where
    unlinked :
        (m : Outcome ServerState)
        → (m >>= λ new. done (new, Release.unlink_client s w)) ≡ done r
        → (r.1.server s).link ≡ none
    unlinked (done new) k = elim (Option-cases (w.server s).link) [
      | inl l ↦ ground (arith, k, l)
      | inr (c, l) ↦ ground (arith, k, l)
    ]
    unlinked abort k = cc
    unlinked no_fuel k = cc

module _ (env : Env) (continues : (c : ℕ) (w : World) → IsSettled (env.sbuf_continue c w)) where
  pub activate_client-IsSettled : (c : ℕ) (w : World) → IsSettled (Release.activate_client env c w)
  unfolding Release.activate_client
  activate_client-IsSettled c w = IsSettled-assert (is_waiting (w.client c).state) λ _.
      IsSettled-assert (ltb 0 (w.client c).wait_start) λ _. elim (Option-cases (w.client c).pool) [
        | inl e ↦ rw e stopped
        | inr (p, e) ↦
            rw e
              (IsSettled->>= (change_client_state-IsSettled c cl_active _) λ w' _. continues c w')
      ]

  reuse_on_release-IsSettled : (s : ℕ) (w : World) → IsSettled (Release.reuse_on_release env s w)
  unfolding Release.reuse_on_release
  reuse_on_release-IsSettled s w = IsSettled-assert (not (w.server s).replication) λ _.
      elim (Option-cases (first_client w (waiting_client_list (w.server s).pool))) [
        | inl e ↦ rw e returned
        | inr (c, e) ↦ rw e (
            IsSettled-if (not (w.client c).replication || sending_auth_query (w.client c))
              (λ _. IsSettled->>= (activate_client-IsSettled c w) λ w' _. returned) (λ _. returned))
      ]

  -- `release_server` settles if the connection may be closed after the switch. `Allowed` says
  -- which links a connection may have when it is closed.
  module _ (calls : Calls) (Allowed : Option ℕ → Type 0)
      (closes : (s : ℕ) (term : Bool) (w : World)
        → Allowed (w.server s).link
        → IsSettled (calls.disconnect_server s term w)) where
    enter_state-IsSettled :
        (new : ServerState) (s : ℕ) (w : World)
        → Allowed (w.server s).link
        → IsSettled (Release.enter_state env calls new s w)
    unfolding Release.enter_state
    enter_state-IsSettled sv_idle s w a =
        reuse_on_release-IsSettled s (change_server_state s sv_idle w)
    enter_state-IsSettled sv_tested s w a =
        IsSettled-if (env.send_reset_query s (change_server_state s sv_tested w)) (λ _. returned)
          (λ _.
            IsSettled->>=
              (closes s false (change_server_state s sv_tested w)
                (subst Allowed (sym (link-change_server_state s sv_tested w)) a))
              λ w' _. returned)
    enter_state-IsSettled _ s w a = returned

    release_replication-IsSettled :
        (s : ℕ) (w : World)
        → Allowed (w.server s).link
        → IsSettled (Release.release_replication env calls s w)
    unfolding Release.release_replication
    release_replication-IsSettled s w a = elim (Option-cases (w.server s).link) [
      | inl e ↦
          rw (e, Release.release_replication) (IsSettled->>= (closes s true w a) λ w' _. returned)
      | inr (c, e) ↦
          rw (e, Release.release_replication)
            (IsSettled->>= (activate_client-IsSettled c _) λ w' _. returned)
    ]

    settle-IsSettled :
        (new : ServerState) (s : ℕ) (w : World)
        → Allowed (w.server s).link
        → IsSettled (Release.settle env calls new s w)
    unfolding Release.settle
    settle-IsSettled new s w a =
        IsSettled-if (not (is_empty (w.server s).outstanding_requests))
          (λ _. IsSettled->>= (closes s true w a) λ w' _. returned)
          λ _.
            IsSettled-if (w.server s).close_needed
              (λ _. IsSettled->>= (closes s true w a) λ w' _. returned)
              λ _.
                IsSettled-if (not (is_empty (w.server s).canceling_clients)) (λ _. returned)
                  λ _.
                    IsSettled-if (w.server s).replication (λ _. release_replication-IsSettled s w a)
                      λ _.
                        IsSettled-assert (not (is_some (w.server s).link))
                          λ _. enter_state-IsSettled new s w a

    finish-IsSettled :
        (new : ServerState) (s : ℕ) (w : World)
        → Allowed (w.server s).link
        → IsSettled (Release.finish env calls new s w)
    unfolding Release.finish
    finish-IsSettled new s w a =
        let w' = Release.forget_cancels Release.is_waiting_cancel s w in
        let a' =
          subst Allowed (sym (server_link-forget_cancels Release.is_waiting_cancel s w s)) a in
        IsSettled-if (not (Release.is_login (w'.server s).state) && Release.life_over s w')
          (λ _. IsSettled->>= (closes s true w' a') λ w'' _. returned)
          (λ _. settle-IsSettled new s w' a')

    pub release_server-IsSettled :
        (s : ℕ) (w : World)
        → ((r : ServerState × World)
            → Release.leave_service (w.server s).state s w ≡ done r
            → Allowed (r.1.server s).link)
        → IsSettled (Release.release_server env calls s w)
    unfolding Release.release_server
    release_server-IsSettled s w a = IsSettled-assert (w.server s).ready λ _.
        IsSettled->>= (leave_service-IsSettled (w.server s).state s w)
          λ r e. finish-IsSettled r.0 s r.1 (a r e)
