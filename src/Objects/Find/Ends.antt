-- ===== src/Objects/Find/Ends.antt =====
-- objects.c, find_server: its loop, and the fuel of what it calls.
use self_db_mini.Base.{
  ℕ, zero, suc, ◌<◌, ◌≢◌, refl, Bool, true, false, not, ◌&&◌, ◌||◌, Option, none, some, arith,
  Option-cases, inl, inr, ◌==◌, length, is_some, count-head?, if◌then◌else◌,
}
use self_db_mini.Base.Outcome.{
  done, abort, no_fuel, ◌>>=◌, Ensures-at, IsSettled, returned, stopped, IsSettled->>=,
  IsSettled-if, IsSettled-assert, IsSettled-ne, ne-IsSettled,
}
use self_db_mini.Base.Placement.{holds}
use self_db_mini.Bouncer.{
  World, first_server, idle_server_list, cl_waiting, sending_auth_query, put_client,
  ServerList-discrete,
}
use self_db_mini.Objects.Links.Sound.{Inv, put_client-Inv}
use self_db_mini.Objects.Env.{Env, Calls}
use self_db_mini.Objects.Frame.{IsOrderly}
use self_db_mini.Objects.Release.Fuel.{change_client_state-IsSettled}
use self_db_mini.Objects.Disconnect
use self_db_mini.Objects.Disconnect.Spare.{disconnect_server-Without}
use self_db_mini.Objects.Disconnect.Clients.{KeepsOrder, calls-KeepsOrder}
use self_db_mini.Objects.Disconnect.Fuel.{calls_settle}
use self_db_mini.Objects.Launch.Spare.{is_spare, length-without}
use self_db_mini.Objects.Launch.Fuel.{ShutsSpare}
use self_db_mini.Objects.Launch.Ends.{launch_new_connection-IsSettled}
use self_db_mini.Objects.Find
use self_db_mini.Objects.Find.Idle.{first_idle}
use self_db_mini.Objects.Find.Sound.{find_idle-Free}

module _ (env : Env) (orderly : IsOrderly env)
    (connects : (s : ℕ) (w : World) → IsSettled (env.dns_connect s w)) (calls : Calls)
    (keeps : KeepsOrder calls) (shuts : ShutsSpare calls)
    (servers : (s : ℕ) (term : Bool) (w : World) → IsSettled (calls.disconnect_server s term w))
    (clients : (c : ℕ) (notify : Bool) (w : World)
      → IsSettled (calls.disconnect_client c notify w)) where
  pause_client-IsSettled : (c : ℕ) (w : World) → IsSettled (Find.pause_client env calls c w)
  unfolding Find.pause_client
  pause_client-IsSettled c w = IsSettled-assert (Find.is_serving (w.client c).state) λ _.
      IsSettled-if w.config.shutdown_wait_for_servers (λ _. clients c true w)
        (λ _.
          IsSettled->>= (change_client_state-IsSettled c cl_waiting w)
            λ w' _. IsSettled-if (env.sbuf_pause c w') (λ _. returned) (λ _. clients c true w'))

  check_fast_fail-IsSettled :
      (c : ℕ) (w : World) → Inv w → IsSettled (Find.check_fast_fail env calls c w)
  unfolding Find.check_fast_fail
  check_fast_fail-IsSettled c w v = elim (Option-cases (w.client c).pool) [
    | inl e ↦ rw (e, Find.check_fast_fail) returned
    | inr (p, e) ↦
        rw (e, Find.check_fast_fail)
          (IsSettled-if (not (w.pool p).last_login_failed) (λ _. returned)
            (λ _.
              IsSettled-if (0 == Find.open_count p w)
                (λ _. IsSettled->>= (clients c true w) λ w1 k.
                  IsSettled->>=
                    (launch_new_connection-IsSettled env connects calls keeps.servers shuts true p
                      w1 (Ensures-at (keeps.clients.client_frame c true w v) k).inv)
                    λ w2 _. returned)
                (λ _. returned)))
  ]

  find_idle-IsSettled :
      (fuel p : ℕ) (w : World)
      → Inv w
      → length (w.server_list (idle_server_list p)) < fuel
      → IsSettled (Find.find_idle env calls fuel p w)
  unfolding Find.find_idle
  find_idle-IsSettled zero p w v h = absurd (omega (arith, h))
  find_idle-IsSettled (suc fuel) p w v h =
      elim (Option-cases (first_server w (idle_server_list p))) [
        | inl e ↦ rw (e, Find.find_idle) returned
        | inr (s, e) ↦
            rw (e, Find.find_idle)
              (IsSettled-if ((w.server s).close_needed || not (w.server s).ready)
                (λ _. IsSettled->>= (servers s true w) λ w' k.
                  find_idle-IsSettled fuel p w'
                    (Ensures-at (keeps.servers.server_frame s true w v) k).inv
                    (omega (
                      arith,
                      h,
                      count-head? s (w.server_list (idle_server_list p)) e,
                      length-without s (idle_server_list p) w w'
                          (unfold holds ServerList-discrete in refl)
                          (Ensures-at
                            (shuts s true w
                              (unfold is_spare in ground (arith, first_idle p s w e v))).0
                            k).0
                          v.servers_placed,
                    )))
                (λ _. returned))
      ]

  choose_server-IsSettled :
      (c p : ℕ) (w : World) → Inv w → IsSettled (Find.choose_server env calls c p w)
  unfolding Find.choose_server
  choose_server-IsSettled c p w v =
      IsSettled-if (w.config.paused || (w.db (w.pool p).db).db_paused) (λ _. returned)
        λ _.
          IsSettled-if ((w.client c).replication && not (sending_auth_query (w.client c)))
            (λ _.
              IsSettled->>=
                (launch_new_connection-IsSettled env connects calls keeps.servers shuts true p w v)
                λ w' _. returned)
            λ _.
              IsSettled->>=
                (find_idle-IsSettled (suc (length (w.server_list (idle_server_list p)))) p w v
                  (omega arith))
                λ r k.
                  after r
                    (Ensures-at
                      (find_idle-Free env orderly calls keeps
                        (suc (length (w.server_list (idle_server_list p)))) p c w v)
                      k).0.inv
    where
      after :
          (r : Option ℕ × World)
          → Inv r.1
          → IsSettled {A = Bool × Option ℕ × World} (elim r.0 [
            | some s ↦ done (true, some s, r.1)
            | none ↦ (Find.check_fast_fail env calls c r.1 >>= λ q. done (q.0, none, q.1))
          ])
      after (some s, w') v' = returned
      after (none, w') v' = IsSettled->>= (check_fast_fail-IsSettled c w' v') λ q _. returned

  apply_and_use-IsSettled : (c s : ℕ) (w : World) → IsSettled (Find.apply_and_use env calls c s w)
  unfolding Find.apply_and_use Find.use_server
  apply_and_use-IsSettled c s w = IsSettled-assert (Find.is_idle (w.server s).state) λ _.
      IsSettled-if (env.varcache_apply s c w).0
        (λ _.
          IsSettled-if (not (env.varcache_apply s c w).1) (λ _. returned)
            λ _.
              IsSettled-if (env.sbuf_pause c _) (λ _. returned)
                λ _. IsSettled->>= (clients c true _) λ w3 _. returned)
        (λ _.
          IsSettled->>= (servers s true w)
            λ w' _. IsSettled->>= (pause_client-IsSettled c w') λ w'' _. returned)

  serve-IsSettled :
      (c : ℕ) (pool : Option ℕ) (w : World)
      → Inv w
      → IsSettled {A = Bool × World} (elim pool [
        | none ↦ abort
        | some p ↦
            (Find.choose_server env calls c p w >>= λ (r : Bool × Option ℕ × World).
            if not r.0 then done (false, r.2) else elim r.1 [
              | some s ↦ Find.apply_and_use env calls c s r.2
              | none ↦ (Find.pause_client env calls c r.2 >>= λ w2. done (false, w2))
            ])
      ])
  serve-IsSettled c none w v = stopped
  serve-IsSettled c (some p) w v =
      IsSettled->>= (choose_server-IsSettled c p w v)
        λ r _. IsSettled-if (not r.0) (λ _. returned) λ _. go_on r.1 r.2
    where
      go_on :
          (found : Option ℕ) (w' : World)
          → IsSettled {A = Bool × World} (elim found [
            | some s ↦ Find.apply_and_use env calls c s w'
            | none ↦ (Find.pause_client env calls c w' >>= λ w2. done (false, w2))
          ])
      go_on (some s) w' = apply_and_use-IsSettled c s w'
      go_on none w' = IsSettled->>= (pause_client-IsSettled c w') λ w2 _. returned

  find_server-IsSettled : (c : ℕ) (w : World) → Inv w → IsSettled (Find.find_server env calls c w)
  unfolding Find.find_server sending_auth_query
  find_server-IsSettled c w v = IsSettled-assert (Find.is_serving (w.client c).state) λ _.
      IsSettled-if (is_some (w.client c).link) (λ _. returned)
        λ _.
          serve-IsSettled c (w.client c).pool
            (put_client c (record (w.client c) { wait_start = 0 }) w)
            (put_client-Inv c (record (w.client c) { wait_start = 0 }) w refl refl refl refl v)

-- find_server, with the closing operations six levels deep, never runs out of fuel where the
-- invariant holds: its own loop and those of launch_new_connection close a connection in each
-- round and end. Reading on from a client, and starting a connection, are taken to return.
pub find_server_returns :
    (env : Env)
    → IsOrderly env
    → ((c : ℕ) (w : World) → IsSettled (env.sbuf_continue c w))
    → ((s : ℕ) (w : World) → IsSettled (env.dns_connect s w))
    → (c : ℕ) (w : World) → Inv w
    → Find.find_server env (Disconnect.closing env) c w ≢ no_fuel
unfolding Disconnect.closing
find_server_returns env orderly continues connects c w v =
    let (servers, clients, releases) = calls_settle env continues 6 (omega arith) in
    IsSettled-ne (
      find_server-IsSettled env orderly connects (Disconnect.calls env 6)
        (calls-KeepsOrder env orderly 6)
        (unfold Disconnect.calls in
          λ s term w' e. disconnect_server-Without env (Disconnect.calls env 5) s term w' e)
        (λ s term w'. ne-IsSettled _ (servers s term w'))
        (λ d notify w'. ne-IsSettled _ (clients d notify w')) c w v)
