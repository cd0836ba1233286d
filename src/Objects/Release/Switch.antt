-- ===== src/Objects/Release/Switch.antt =====
-- objects.c, release_server: the invariant of the sockets over its switch.
use self_db_mini.Base.{
  ℕ, ◌≡◌, ◌≢◌, Bool, true, false, not, ◌||◌, some, arith, Option-cases, inl, inr,
}
use self_db_mini.Base.Outcome.{
  Outcome, done, abort, no_fuel, Ensures, holds, aborted, starved, Ensures-bind, Ensures-done,
}
use self_db_mini.Bouncer.{
  ClientState, cl_active, ServerState, sv_login, sv_being_canceled, sv_idle, sv_active, sv_used,
  sv_tested, World, sending_auth_query,
}
use self_db_mini.Objects.State.{change_server_state, is_waiting, corrected}
use self_db_mini.Objects.Links.{unlink}
use self_db_mini.Objects.Links.Sound.{Inv, states_match, owns_server, may_link}
use self_db_mini.Objects.Frame.{IsQuiet, Frame, Frame-refl, unlink-Frame, restate_server-Frame}
use self_db_mini.Objects.Release

-- The state that a waiting client wakes up in does not wait, and suits an active connection.
pub awake_lem :
    (st : ClientState) (owns own : Bool)
    → is_waiting st ≡ true
    → (is_waiting (corrected st cl_active) ≡ false)
      × (states_match (corrected st cl_active) owns sv_active own ≡ true)
unfolding is_waiting corrected states_match
awake_lem st owns own e = ground arith

pub Frame-of_parts :
    {w : World} (m : Outcome World)
    → Ensures Inv m
    → ((d : ℕ) → IsQuiet d w → Ensures (IsQuiet d) m)
    → Ensures (Frame w) m
Frame-of_parts (done a) (holds v) k =
    holds (record { inv = v; quiet = λ d q. Ensures-done (k d q) })
Frame-of_parts abort v k = aborted
Frame-of_parts no_fuel v k = starved

pub quiet_ne : (c d : ℕ) (w : World) → is_waiting (w.client c).state ≡ true → IsQuiet d w → c ≢ d
quiet_ne c d w e q h = cc (q.1, e, h)

-- The connection is linked only if it is still logging in.
abbrev pub IsLoggingIn : ℕ → World → Type 0
IsLoggingIn s w = (c : ℕ) → (w.server s).link ≡ some c → (w.server s).state ≡ sv_login

pub unowned_waiting :
    (c t : ℕ) (w : World)
    → (not (w.client c).replication || sending_auth_query (w.client c)) ≡ true
    → is_waiting (w.client c).state ≡ true
    → ¬ (may_link (w.client c) (w.server t) ≡ true)
unfolding states_match is_waiting
unowned_waiting c t w h waiting m = ground arith

-- A link of a connection that logs in suits one that is held back for cancel requests, and a
-- replication connection may become active.
login_hold :
    (st : ClientState) (owns own : Bool)
    → states_match st owns sv_login own ≡ true
    → states_match st owns sv_being_canceled own ≡ true
unfolding states_match
login_hold st owns own = ground arith

pub login_active :
    (st : ClientState) (owns own : Bool)
    → own ≡ true
    → states_match st owns sv_login own ≡ true
    → states_match st owns sv_active own ≡ true
unfolding states_match
login_active st owns own = ground arith

pub hold_back-Frame :
    (s : ℕ) (w : World)
    → IsLoggingIn s w
    → Inv w
    → Frame w (change_server_state s sv_being_canceled w)
hold_back-Frame s w login v =
    restate_server-Frame s sv_being_canceled w
      (λ c h. ground (
        arith,
        login_hold (w.client c).state (owns_server (w.client c)) (w.server s).replication,
        login c (v.to_server c s h),
        v.matching c s h,
      ))
      v

-- After a replication connection is made active, its client has an active connection.
pub replication_active :
    (s c t : ℕ) (w : World)
    → (w.server s).link ≡ some c
    → ((change_server_state s sv_active w).client c).link ≡ some t
    → Inv w
    → ((change_server_state s sv_active w).server t).state ≡ sv_active
unfolding change_server_state
replication_active s c t w e h v = ground (arith, v.to_client c s e)

pub note_lifetime-Frame :
    {w w' : World} (p : ℕ) → Frame w w' → Frame w (Release.note_lifetime_disconnect p w')
unfolding Release.note_lifetime_disconnect
note_lifetime-Frame p f = record { inv = f.inv; quiet = f.quiet }

-- What the switch of `release_server` leaves.
pub record Left (s : ℕ) (w : World) (r : ServerState × World) : Type 0 where
  pub frame : Frame w r.1
  pub logging_in : IsLoggingIn s r.1

unlink_client-Left :
    (s : ℕ) (w : World) (new : ServerState) → Inv w → Left s w (new, Release.unlink_client s w)
unfolding Release.unlink_client
unlink_client-Left s w new v = elim (Option-cases (w.server s).link) [
  | inl e ↦
      rw (e, Release.unlink_client)
        (record { frame = Frame-refl v; logging_in = λ c h. ground (arith, e) })
  | inr (c, e) ↦
      rw (e, Release.unlink_client)
        (record {
          frame = unlink-Frame c s w (v.to_client c s e) v;
          logging_in = unfold unlink in λ d h. ground arith;
        })
]

-- Only a connection that is active or logs in can have a link.
unlinked_service :
    (s : ℕ) (w : World) (st : ServerState)
    → (w.server s).state ≡ st
    → ((owns own : Bool) (c : ClientState) → states_match c owns st own ≡ false)
    → Inv w
    → Left s w (sv_idle, w)
unlinked_service s w st e never v = record {
  frame = Frame-refl v;
  logging_in = λ c h. ground (
    arith,
    e,
    v.matching c s (v.to_client c s h),
    never (owns_server (w.client c)) (w.server s).replication (w.client c).state,
  );
}

pub leave_service-Left :
    (st : ServerState) (s : ℕ) (w : World)
    → (w.server s).state ≡ st
    → Inv w
    → Ensures (Left s w) (Release.leave_service st s w)
unfolding Release.leave_service states_match
leave_service-Left sv_being_canceled s w e v =
    Ensures-bind (Release.state_after_service s (Release.unlink_client s w))
      λ new _. holds (unlink_client-Left s w new v)
leave_service-Left sv_active s w e v =
    Ensures-bind (Release.state_after_service s (Release.unlink_client s w))
      λ new _. holds (unlink_client-Left s w new v)
leave_service-Left sv_used s w e v =
    holds (unlinked_service s w sv_used e (λ owns own c. ground arith) v)
leave_service-Left sv_tested s w e v =
    holds (unlinked_service s w sv_tested e (λ owns own c. ground arith) v)
leave_service-Left sv_login s w e v =
    holds (record { frame = record { inv = v; quiet = λ d q. q }; logging_in = λ c h. e })
leave_service-Left _ s w e v = aborted

-- The client of an active connection that is given back.
pub leave_active :
    (c s : ℕ) (w : World)
    → (w.client c).link ≡ some s
    → is_waiting (w.client c).state ≡ false
    → Inv w
    → Ensures (λ r. Left s w r × IsQuiet c r.1) (Release.leave_service sv_active s w)
unfolding Release.leave_service
leave_active c s w e awake v =
    Ensures-bind (Release.state_after_service s (Release.unlink_client s w))
      λ new _. holds (unlink_client-Left s w new v, unlinked)
  where
    unlinked : IsQuiet c (Release.unlink_client s w)
    unlinked =
        unfold unlink Release.unlink_client in
        rw (v.to_server c s e, Release.unlink_client) (ground arith, ground arith)
