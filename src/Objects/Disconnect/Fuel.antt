-- ===== src/Objects/Disconnect/Fuel.antt =====
-- objects.c: how deep disconnect_server, disconnect_client and release_server call one another.
use self_db_mini.Base.{
  ◌≤◌, ◌-◌, ◌≢◌, ℕ, suc, ◌≡◌, Bool, true, false, not, ◌&&◌, ◌||◌, Option, none, arith, is_some,
  is_empty, Option-cases, inl, inr, ◌⊎◌,
}
use self_db_mini.Base.Outcome.{
  no_fuel, IsSettled-ne, returned, stopped, IsSettled, IsSettled->>=, IsSettled-assert,
  IsSettled-if,
}
use self_db_mini.Bouncer.{
  ClientState, cl_free, cl_justfree, cl_login, cl_waiting, cl_waiting_login, cl_active,
  cl_waiting_cancel, cl_active_cancel, ServerState, sv_free, sv_justfree, sv_login,
  sv_being_canceled, sv_active, sv_active_cancel, World, put_server,
}
use self_db_mini.Objects.Links.{unlink}
use self_db_mini.Objects.Env.{Env, Calls}
use self_db_mini.Objects.Release.Fuel.{
  change_client_state-IsSettled, release_server-IsSettled, held_back_unlinked,
}
use self_db_mini.Objects.Disconnect

-- An operation on a connection or a client settles where `P` holds of the socket's link.
abbrev ServersSettle : Calls → (Option ℕ → Type 0) → Type 0
ServersSettle calls P =
    (s : ℕ) (term : Bool) (w : World)
    → P (w.server s).link
    → IsSettled (calls.disconnect_server s term w)

abbrev ClientsSettle : Calls → (Option ℕ → Type 0) → Type 0
ClientsSettle calls P =
    (c : ℕ) (notify : Bool) (w : World)
    → P (w.client c).link
    → IsSettled (calls.disconnect_client c notify w)

abbrev HeldBackSettle : Calls → Type 0
HeldBackSettle calls =
    (s : ℕ) (w : World)
    → (w.server s).state ≡ sv_being_canceled
    → IsSettled (calls.release_server s w)

abbrev ReleasesSettle : Calls → Type 0
ReleasesSettle calls = (s : ℕ) (w : World) → IsSettled (calls.release_server s w)

abbrev Unlinked : Option ℕ → Type 0
Unlinked l = l ≡ none

abbrev Any : Option ℕ → Type 0
Any l = Unit {0}

unlink_links :
    (c s : ℕ) (w : World)
    → (((unlink c s w).client c).link ≡ none) × (((unlink c s w).server s).link ≡ none)
unfolding unlink
unlink_links c s w = ground arith

being_canceled :
    (st : ServerState) (b : Bool)
    → (Disconnect.is_being_canceled st && b) ≡ true
    → st ≡ sv_being_canceled
unfolding Disconnect.is_being_canceled
being_canceled st b h = ground arith

module _ (env : Env) (calls : Calls) where
  unlink_server-IsSettled :
      (s : ℕ) (w : World)
      → ((w.server s).link ≡ none) ⊎ ClientsSettle calls Unlinked
      → IsSettled (Disconnect.unlink_server calls s w)
  unfolding Disconnect.unlink_server
  unlink_server-IsSettled s w h = elim (Option-cases (w.server s).link) [
    | inl e ↦ rw (e, Disconnect.unlink_server) returned
    | inr (c, e) ↦
        rw (e, Disconnect.unlink_server)
          (elim h [
            | inl n ↦ absurd (cc (n, e))
            | inr clients ↦ clients c _ (unlink c s w) (unlink_links c s w).0
          ])
  ]

  abandon-IsSettled :
      (st : ServerState) (s : ℕ) (w : World)
      → ((w.server s).link ≡ none) ⊎ ClientsSettle calls Unlinked
      → IsSettled (Disconnect.abandon calls st s w)
  unfolding Disconnect.abandon
  abandon-IsSettled sv_active_cancel s w h = unlink_server-IsSettled s w h
  abandon-IsSettled sv_active s w h = unlink_server-IsSettled s w h
  abandon-IsSettled sv_login s w h =
      IsSettled-if (w.server s).replication
        (λ _. unlink_server-IsSettled s (Disconnect.note_connect_result s w) h) (λ _. returned)
  abandon-IsSettled sv_free s w h = stopped
  abandon-IsSettled sv_justfree s w h = stopped
  abandon-IsSettled _ s w h = returned

  -- A connection without a link is closed without further calls, and any other is if clients
  -- without a link can be.
  disconnect_server-IsSettled :
      (s : ℕ) (term : Bool) (w : World)
      → ((w.server s).link ≡ none) ⊎ ClientsSettle calls Unlinked
      → IsSettled (Disconnect.disconnect_server env calls s term w)
  unfolding Disconnect.disconnect_server
  disconnect_server-IsSettled s term w h =
      IsSettled->>= (abandon-IsSettled (w.server s).state s w h)
        λ w1 _. IsSettled-assert (not (is_some (w1.server s).link)) λ _. returned

  drop_canceled-IsSettled :
      HeldBackSettle calls → (c : ℕ) (w : World) → IsSettled (Disconnect.drop_canceled calls c w)
  unfolding Disconnect.drop_canceled
  drop_canceled-IsSettled held c w = elim (Option-cases (w.client c).canceled_server) [
    | inl e ↦ rw (e, Disconnect.drop_canceled) returned
    | inr (t, e) ↦
        let w' = Disconnect.forget_canceled c t w in
        rw (e, Disconnect.drop_canceled)
          (IsSettled-if
            (Disconnect.is_being_canceled (w'.server t).state
              && is_empty (w'.server t).canceling_clients)
            (λ h.
              IsSettled->>= (held t w' (being_canceled (w'.server t).state _ h)) λ r _. returned)
            (λ _. returned))
  ]

  -- What a client needs to let go of its connection: nothing if it has none.
  abbrev CanLetGo : ℕ → World → Type 0
  CanLetGo c w = ((w.client c).link ≡ none) ⊎ (ServersSettle calls Unlinked × ReleasesSettle calls)

  leave_server-IsSettled :
      (c : ℕ) (w : World) → CanLetGo c w → IsSettled (Disconnect.leave_server calls c w)
  unfolding Disconnect.leave_server
  leave_server-IsSettled c w h = elim (Option-cases (w.client c).link) [
    | inl e ↦ rw (e, Disconnect.leave_server) returned
    | inr (s, e) ↦
        rw (e, Disconnect.leave_server)
          (elim h [
            | inl n ↦ absurd (cc (n, e))
            | inr (servers, releases) ↦
                IsSettled-if
                  (not (w.server s).ready
                    || not (is_empty (w.server s).outstanding_requests)
                    || not (w.server s).sbuf_empty)
                  (λ _. servers s true (unlink c s w) (unlink_links c s w).1)
                  (λ _. IsSettled->>= (releases s w) λ r _. returned)
          ])
  ]

  drop_forwarding-IsSettled :
      (c : ℕ) (w : World) → CanLetGo c w → IsSettled (Disconnect.drop_forwarding calls c w)
  unfolding Disconnect.drop_forwarding
  drop_forwarding-IsSettled c w h = elim (Option-cases (w.client c).link) [
    | inl e ↦ rw (e, Disconnect.drop_forwarding) returned
    | inr (s, e) ↦
        rw (e, Disconnect.drop_forwarding)
          (elim h [
            | inl n ↦ absurd (cc (n, e))
            | inr (servers, releases) ↦
                let u = unlink c s w in
                servers s false (put_server s (record (u.server s) { ready = true }) u)
                  (ground (arith, (unlink_links c s w).1))
          ])
  ]

  drop_replication-IsSettled :
      (c : ℕ) (w : World) → CanLetGo c w → IsSettled (Disconnect.drop_replication calls c w)
  unfolding Disconnect.drop_replication
  drop_replication-IsSettled c w h = elim (Option-cases (w.client c).link) [
    | inl e ↦ rw (e, Disconnect.drop_replication) returned
    | inr (s, e) ↦
        rw (e, Disconnect.drop_replication)
          (elim h [
            | inl n ↦ absurd (cc (n, e))
            | inr (servers, releases) ↦
                IsSettled-if (w.client c).replication
                  (λ _. servers s false (unlink c s w) (unlink_links c s w).1) (λ _. returned)
          ])
  ]

  leave-IsSettled :
      HeldBackSettle calls
      → (st : ClientState) (c : ℕ) (w : World) → CanLetGo c w
      → IsSettled (Disconnect.leave calls st c w)
  unfolding Disconnect.leave
  leave-IsSettled held cl_active c w h = leave_server-IsSettled c w h
  leave-IsSettled held cl_login c w h = leave_server-IsSettled c w h
  leave-IsSettled held cl_active_cancel c w h =
      IsSettled->>= (drop_forwarding-IsSettled c w h) λ w' _. drop_canceled-IsSettled held c w'
  leave-IsSettled held cl_waiting_cancel c w h =
      IsSettled->>= (drop_forwarding-IsSettled c w h) λ w' _. drop_canceled-IsSettled held c w'
  leave-IsSettled held cl_waiting c w h = drop_replication-IsSettled c w h
  leave-IsSettled held cl_waiting_login c w h = drop_replication-IsSettled c w h
  leave-IsSettled held cl_free c w h = stopped
  leave-IsSettled held cl_justfree c w h = stopped

  disconnect_client-IsSettled :
      HeldBackSettle calls
      → (c : ℕ) (notify : Bool) (w : World) → CanLetGo c w
      → IsSettled (Disconnect.disconnect_client env calls c notify w)
  unfolding Disconnect.disconnect_client Disconnect.uncount_client
  disconnect_client-IsSettled held c notify w h =
      IsSettled->>=
        (leave-IsSettled held (w.client c).state c (Disconnect.uncount_client (w.client c) w) h)
        λ w1 _. IsSettled->>= (change_client_state-IsSettled c cl_justfree _) λ w3 _. returned

module _ (env : Env) (continues : (c : ℕ) (w : World) → IsSettled (env.sbuf_continue c w)) where
  level : ℕ → Calls
  level = Disconnect.calls env

  Unlinked-servers : (n : ℕ) → ServersSettle (level (suc n)) Unlinked
  unfolding level Disconnect.calls
  Unlinked-servers n s term w e = disconnect_server-IsSettled env (level n) s term w (inl e)

  held_back : (n : ℕ) → HeldBackSettle (level (suc (suc n)))
  unfolding level Disconnect.calls
  held_back n s w e =
      release_server-IsSettled env continues (level (suc n)) Unlinked (Unlinked-servers n) s w
        λ r h. held_back_unlinked s w r e h

  Unlinked-clients : (n : ℕ) → ClientsSettle (level (suc (suc (suc n)))) Unlinked
  unfolding level Disconnect.calls
  Unlinked-clients n c notify w e =
      disconnect_client-IsSettled env (level (suc (suc n))) (held_back n) c notify w (inl e)

  servers : (n : ℕ) → ServersSettle (level (suc (suc (suc (suc n))))) Any
  unfolding level Disconnect.calls
  servers n s term w _ =
      disconnect_server-IsSettled env (level (suc (suc (suc n)))) s term w
        (inr (Unlinked-clients n))

  releases : (n : ℕ) → ReleasesSettle (level (suc (suc (suc (suc (suc n))))))
  unfolding level Disconnect.calls
  releases n s w =
      release_server-IsSettled env continues (level (suc (suc (suc (suc n))))) Any (servers n) s w
        λ r h. tt

  clients : (n : ℕ) → ClientsSettle (level (suc (suc (suc (suc (suc (suc n))))))) Any
  unfolding level Disconnect.calls
  clients n c notify w _ =
      disconnect_client-IsSettled env (level (suc (suc (suc (suc (suc n))))))
        (held_back (suc (suc (suc n)))) c notify w
        (inr (Unlinked-servers (suc (suc (suc (suc n)))), releases n))

-- The mutual recursion of disconnect_server, disconnect_client and release_server is at most six
-- calls deep, from any state of the sockets: with six levels or more none of the three runs out,
-- if reading on from a client returns.
pub calls_settle :
    (env : Env)
    → ((c : ℕ) (w : World) → IsSettled (env.sbuf_continue c w))
    → (fuel : ℕ) → 6 ≤ fuel
    → ((s : ℕ) (term : Bool) (w : World)
        → (Disconnect.calls env fuel).disconnect_server s term w ≢ no_fuel)
      × ((c : ℕ) (notify : Bool) (w : World)
          → (Disconnect.calls env fuel).disconnect_client c notify w ≢ no_fuel)
      × ((s : ℕ) (w : World) → (Disconnect.calls env fuel).release_server s w ≢ no_fuel)
unfolding level
calls_settle env continues fuel h =
    let e : fuel ≡ suc (suc (suc (suc (suc (suc (fuel - 6)))))) = omega arith in
    rw e (
      λ s term w. IsSettled-ne (servers env continues (suc (suc (fuel - 6))) s term w tt),
      λ c notify w. IsSettled-ne (clients env continues (fuel - 6) c notify w tt),
      λ s w. IsSettled-ne (releases env continues (suc (fuel - 6)) s w),
    )
