-- ===== src/Objects/Find/Sound.antt =====
-- objects.c, find_server: the invariant of the sockets, and the connection of a client that may
-- go on.
use self_db_mini.Base.{
  ℕ, zero, suc, ◌≡◌, refl, Bool, true, false, not, ◌&&◌, ◌||◌, Option, none, some, arith, length,
  is_some, is_some→some, is_some→none, Option-cases, inl, inr, ◌∙◌, ap, ◌==◌, if◌then◌else◌,
}
use self_db_mini.Base.Outcome.{
  done, abort, Ensures, holds, aborted, starved, Ensures->>=, Ensures-if, Ensures-assert,
  Ensures-weaken, Ensures-both, ◌>>=◌,
}
use self_db_mini.Bouncer.{
  cl_waiting, sv_idle, sv_active, World, put_client, put_server, idle_server_list, first_server,
  sending_auth_query,
}
use self_db_mini.Objects.State.{change_server_state}
use self_db_mini.Objects.Links.{link}
use self_db_mini.Objects.Links.Sound.{Inv, change_client_state-Inv, put_server-Inv, put_client-Inv}
use self_db_mini.Objects.Env.{Env, Calls}
use self_db_mini.Objects.Frame.{
  Frame, FrameFlag, IsOrderly, Frame-refl, Frame-trans, then-Frame, with_flag,
}
use self_db_mini.Objects.Release.Cancels.{SameClient}
use self_db_mini.Objects.Disconnect.Clients.{KeepsOrder, active_of_awake}
use self_db_mini.Objects.Launch.Sound.{launch_new_connection-Frame}
use self_db_mini.Objects.Find
use self_db_mini.Objects.Find.Idle.{
  first_idle, idle_unlinked, assign-Inv, serving_cases, serving_lem,
}

-- What `find_server` promises: a client that may go on has an active connection of its own.
abbrev pub Served : ℕ → Bool × World → Type 0
Served c r =
    Inv r.1
    × (r.0 ≡ true
        → (s : ℕ) × ((r.1.client c).link ≡ some s)
          × ((r.1.server s).link ≡ some c)
          × ((r.1.server s).state ≡ sv_active))

module _ (env : Env) (orderly : IsOrderly env) (calls : Calls) (keeps : KeepsOrder calls) where
  pause_client-Inv :
      (c : ℕ) (w : World)
      → (w.client c).link ≡ none
      → Inv w
      → Ensures Inv (Find.pause_client env calls c w)
  unfolding Find.pause_client
  pause_client-Inv c w e v = Ensures-assert (Find.is_serving (w.client c).state) λ _.
      Ensures-if w.config.shutdown_wait_for_servers
        (λ _. Ensures-weaken (keeps.clients.client_frame c true w v) λ w' f. f.inv)
        (λ _.
          Ensures->>= (change_client_state-Inv c cl_waiting w (λ s h. ground (arith, e)) v) λ w' v'.
            Ensures-if (env.sbuf_pause c w') (λ _. holds v')
              (λ _. Ensures-weaken (keeps.clients.client_frame c true w' v') λ w'' f. f.inv))

  check_fast_fail-Frame :
      (c : ℕ) (w : World) → Inv w → Ensures (FrameFlag w) (Find.check_fast_fail env calls c w)
  unfolding Find.check_fast_fail
  check_fast_fail-Frame c w v = elim (Option-cases (w.client c).pool) [
    | inl e ↦ rw (e, Find.check_fast_fail) (holds (Frame-refl v))
    | inr (p, e) ↦
        rw (e, Find.check_fast_fail)
          (Ensures-if (not (w.pool p).last_login_failed) (λ _. holds (Frame-refl v))
            (λ _.
              Ensures-if (0 == Find.open_count p w)
                (λ _. Ensures->>= (keeps.clients.client_frame c true w v) λ w1 f. with_flag false (
                  then-Frame f
                    (launch_new_connection-Frame env orderly calls keeps.servers true p w1 f.inv)))
                (λ _. holds (Frame-refl v))))
  ]

  -- What `find_idle` hands over is free to be linked, and the client is as it was.
  abbrev pub IsFree : ℕ → World → Option ℕ → World → Type 0
  IsFree c w found w' =
      (s : ℕ)
      → found ≡ some s
      → ((w'.server s).state ≡ sv_idle) × ((w'.server s).link ≡ none) × SameClient c w w'

  nothing-Free : (c : ℕ) (w w' : World) → IsFree c w none w'
  nothing-Free c w w' s h = absurd (cc h)

  pub find_idle-Free :
      (fuel p c : ℕ) (w : World)
      → Inv w
      → Ensures
          (λ (r : Option ℕ × World). Frame w r.1 × IsFree c w r.0 r.1)
          (Find.find_idle env calls fuel p w)
  unfolding Find.find_idle
  find_idle-Free zero p c w v = starved
  find_idle-Free (suc fuel) p c w v = elim (Option-cases (first_server w (idle_server_list p))) [
    | inl e ↦ rw (e, Find.find_idle) (holds (Frame-refl v, nothing-Free c w w))
    | inr (s, e) ↦
        let idle = first_idle p s w e v in
        let free = idle_unlinked s w idle v in
        rw (e, Find.find_idle)
          (Ensures-if _
            (λ _.
              Ensures->>=
                (Ensures-both (keeps.servers.server_frame s true w v)
                  (keeps.server_links s true w c free))
                λ w' h. Ensures-weaken (find_idle-Free fuel p c w' h.0.inv) λ r g. (
                  Frame-trans h.0 g.0,
                  λ t k. let (i, u, same) = g.1 t k in (i, u, (same.0 ∙ h.1.0, same.1 ∙ h.1.1)),
                ))
            (λ _. holds {a = (some s, w)} (Frame-refl v, λ t k. ground (arith, idle, free, k))))
  ]

  choose_server-Free :
      (c p : ℕ) (w : World)
      → Inv w
      → Ensures
          (λ (r : Bool × Option ℕ × World). Frame w r.2 × IsFree c w r.1 r.2)
          (Find.choose_server env calls c p w)
  unfolding Find.choose_server
  choose_server-Free c p w v =
      Ensures-if (w.config.paused || (w.db (w.pool p).db).db_paused)
        (λ _. holds {a = (true, none, w)} (Frame-refl v, nothing-Free c w w))
        λ _.
          Ensures-if ((w.client c).replication && not (sending_auth_query (w.client c)))
            (λ _.
              Ensures->>= (launch_new_connection-Frame env orderly calls keeps.servers true p w v)
                λ w' f. holds {a = (true, none, w')} (f, nothing-Free c w w'))
            λ _.
              Ensures->>=
                (find_idle-Free (suc (length (w.server_list (idle_server_list p)))) p c w v)
                λ r h. after r h
    where
      after :
          (r : Option ℕ × World)
          → Frame w r.1 × IsFree c w r.0 r.1
          → Ensures
              (λ (q : Bool × Option ℕ × World). Frame w q.2 × IsFree c w q.1 q.2)
              (elim r.0 [
                | some s ↦ done (true, some s, r.1)
                | none ↦ (Find.check_fast_fail env calls c r.1 >>= λ q. done (q.0, none, q.1))
              ])
      after (some s, w') h = holds h
      after (none, w') h =
          Ensures->>= (check_fast_fail-Frame c w' h.0.inv)
            λ q f. holds {a = (q.0, none, q.1)} (Frame-trans h.0 f, nothing-Free c w q.1)

  not-Served : (c : ℕ) (w : World) → Inv w → Served c (false, w)
  not-Served c w v = (v, λ h. absurd (cc h))

  assign-Served :
      (c s : ℕ) (w : World) → Inv (Find.assign c s w) → Served c (true, Find.assign c s w)
  unfolding Find.assign link change_server_state
  assign-Served c s w v = (v, λ h. (s, ground arith, ground arith, ground arith))

  use_server-Served :
      (varchange : Bool) (c s : ℕ) (w : World)
      → Inv (Find.assign c s w)
      → Ensures (Served c) (Find.use_server env calls varchange c s w)
  unfolding Find.use_server
  use_server-Served varchange c s w v =
      let w1 = Find.assign c s w in
      let x = record (w1.server s) { setting_vars = true; ready = false } in
      let v2 = put_server-Inv s x w1 refl refl refl refl v in
      Ensures-if (not varchange) (λ _. holds (assign-Served c s w v))
        λ _.
          Ensures-if (env.sbuf_pause c (put_server s x w1))
            (λ _. holds (not-Served c (put_server s x w1) v2))
            λ _.
              Ensures->>= (keeps.clients.client_frame c true (put_server s x w1) v2)
                λ w3 f. holds (not-Served c w3 f.inv)

  apply_and_use-Served :
      (c s : ℕ) (w : World)
      → Find.is_serving (w.client c).state ≡ true
      → (w.client c).link ≡ none
      → (w.server s).link ≡ none
      → Inv w
      → Ensures (Served c) (Find.apply_and_use env calls c s w)
  unfolding Find.apply_and_use
  apply_and_use-Served c s w st e f v =
      let (awake, m) = serving_lem (w.client c).state st in
      Ensures-assert (Find.is_idle (w.server s).state) λ _.
        Ensures-if (env.varcache_apply s c w).0
          (λ _. use_server-Served (env.varcache_apply s c w).1 c s w (assign-Inv c s w e f m v))
          λ _. Ensures->>= (keeps.servers.server_frame s true w v) λ w' g.
            Ensures->>= (pause_client-Inv c w' (g.quiet c (e, awake)).0 g.inv)
              λ w'' v''. holds (not-Served c w'' v'')

  go_on-Served :
      (c : ℕ) (w : World) (found : Option ℕ) (w' : World)
      → Find.is_serving (w.client c).state ≡ true
      → (w.client c).link ≡ none
      → Frame w w'
      → IsFree c w found w'
      → Ensures (Served c) (elim found [
        | some s ↦ Find.apply_and_use env calls c s w'
        | none ↦ (Find.pause_client env calls c w' >>= λ w2. done (false, w2))
      ])
  go_on-Served c w (some s) w' st e f free =
      let (idle, unlinked, same) = free s refl in
      apply_and_use-Served c s w' (ap Find.is_serving same.1 ∙ st) (same.0 ∙ e) unlinked f.inv
  go_on-Served c w none w' st e f free =
      Ensures->>=
        (pause_client-Inv c w' (f.quiet c (e, (serving_lem (w.client c).state st).0)).0 f.inv)
        λ w2 v2. holds (not-Served c w2 v2)

  serve-Served :
      (c : ℕ) (pool : Option ℕ) (w : World)
      → Find.is_serving (w.client c).state ≡ true
      → (w.client c).link ≡ none
      → Inv w
      → Ensures (Served c) (elim pool [
        | none ↦ abort
        | some p ↦
            (Find.choose_server env calls c p w >>= λ (r : Bool × Option ℕ × World).
            if not r.0 then done (false, r.2) else elim r.1 [
              | some s ↦ Find.apply_and_use env calls c s r.2
              | none ↦ (Find.pause_client env calls c r.2 >>= λ w2. done (false, w2))
            ])
      ])
  serve-Served c none w st e v = aborted
  serve-Served c (some p) w st e v = Ensures->>= (choose_server-Free c p w v) λ r h.
      Ensures-if (not r.0) (λ _. holds (not-Served c r.2 h.0.inv))
        λ _. go_on-Served c w r.1 r.2 st e h.0 h.1

  -- find_server, given operations that keep order, leaves every socket in the list of its state
  -- and every link two-way and between matching states; if it says that the client may go on, the
  -- client is linked to a server connection that is active and linked back to it.
  pub find_server-Served :
      (c : ℕ) (w : World) → Inv w → Ensures (Served c) (Find.find_server env calls c w)
  unfolding Find.find_server sending_auth_query
  find_server-Served c w v =
      let w0 = put_client c (record (w.client c) { wait_start = 0 }) w in
      let v0 = put_client-Inv c (record (w.client c) { wait_start = 0 }) w refl refl refl refl v in
      Ensures-assert (Find.is_serving (w.client c).state) λ st.
        Ensures-if (is_some (w.client c).link)
          (λ h.
            let (s, e) = is_some→some (w.client c).link h in
            holds (
              v0,
              λ _. (
                s,
                ground (arith, e),
                v.to_server c s e,
                active_of_awake _ _ _ _ (serving_cases _ st) (v.matching c s e),
              ),
            ))
          (λ h.
            serve-Served c (w.client c).pool w0 (ground (arith, st))
              (ground (arith, is_some→none (w.client c).link h)) v0)
