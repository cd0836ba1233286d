-- ===== src/Objects/Launch/Sound.antt =====
-- objects.c, launch_new_connection: the invariant of the sockets.
use self_db_mini.Base.{
  ℕ, zero, suc, ◌≡◌, refl, Bool, true, not, ◌&&◌, Option, none, some, arith, is_empty, Option-cases,
  inl, inr, ◌==◌,
}
use self_db_mini.Base.Int.{pos, le_ℤ, lt_ℤ, add_ℤ}
use self_db_mini.Base.Outcome.{Outcome, Ensures, holds, aborted, starved, Ensures->>=, Ensures-if}
use self_db_mini.Bouncer.{
  Server, World, sv_free, sv_login, put_server, put_pool, waiting_cancel_req_list, new_server_list,
  pool_server_count,
}
use self_db_mini.Settings.{pool_pool_size, database_max_connections, user_max_connections}
use self_db_mini.Objects.State.{list_of_server}
use self_db_mini.Objects.Links.Sound.{Inv, states_match}
use self_db_mini.Objects.Env.{Env, Calls}
use self_db_mini.Objects.Frame.{
  Frame, FrameFlag, IsOrderly, Frame-refl, then-Frame, with_flag, change_server_state-Frame,
}
use self_db_mini.Objects.Release.Sound.{ClosesServers}
use self_db_mini.Objects.Launch

-- A server object that is not in use has no link, and may be written over.
reuse_server-Inv :
    (s : ℕ) (x : Server) (w : World)
    → (w.server s).state ≡ sv_free
    → x.state ≡ sv_free
    → x.link ≡ none
    → Inv w
    → Inv (put_server s x w)
unfolding list_of_server states_match
reuse_server-Inv s x w e f g v = record {
  clients_placed = v.clients_placed;
  servers_placed = λ a l. ground (arith, v.servers_placed a l);
  to_server = λ c t h. ground (arith, v.to_server c t, v.matching c t h);
  to_client = λ c t h. ground (arith, v.to_client c t);
  matching = λ c t h. ground (arith, v.matching c t h);
}

open_server-Frame :
    (p s : ℕ) (w : World)
    → (w.server s).state ≡ sv_free
    → Inv w
    → Frame w (Launch.open_server p s w)
unfolding Launch.open_server
open_server-Frame p s w e v =
    let x = Launch.fresh_server p w in
    let w1 = put_server s x w in
    let w2 = put_pool p (record (w1.pool p) { last_connect_time = w1.now }) w1 in
    let v1 = reuse_server-Inv s x w e refl refl v in
    let f = change_server_state-Frame s sv_login w2 (ground arith) v1 in
    record { inv = f.inv; quiet = f.quiet }

module _ (calls : Calls) (closes : ClosesServers calls) where
  pub evict-Frame :
      (o : Option ℕ) (w : World) → Inv w → Ensures (FrameFlag w) (Launch.evict calls o w)
  unfolding Launch.evict
  evict-Frame none w v = holds (Frame-refl v)
  evict-Frame (some s) w v = with_flag true (closes.server_frame s true w v)

pub evict_while-Frame :
    (fuel : ℕ) (over : World → Bool) (evict : World → Outcome (Bool × World)) (w : World)
    → ((w' : World) → Inv w' → Ensures (FrameFlag w') (evict w'))
    → Inv w
    → Ensures (Frame w) (Launch.evict_while fuel over evict w)
unfolding Launch.evict_while
evict_while-Frame zero over evict w k v = starved
evict_while-Frame (suc fuel) over evict w k v =
    Ensures-if (over w)
      (λ _. Ensures->>= (k w v) λ r f.
        Ensures-if r.0 (λ _. then-Frame f (evict_while-Frame fuel over evict r.1 k f.inv))
          (λ _. holds f))
      (λ _. holds (Frame-refl v))

module _ (env : Env) (orderly : IsOrderly env) (calls : Calls) (closes : ClosesServers calls) where
  force_new-Frame : (p : ℕ) (w : World) → Inv w → Ensures (Frame w) (Launch.force_new env calls p w)
  unfolding Launch.force_new
  force_new-Frame p w v = elim (Option-cases (env.slab_alloc w)) [
    | inl e ↦ rw (e, Launch.force_new) (holds (Frame-refl v))
    | inr (s, e) ↦
        let f = open_server-Frame p s w (orderly.alloc_free w s e) v in
        rw (e, Launch.force_new) (then-Frame f (orderly.connect_frame s _ f.inv))
  ]

  within_user-Frame :
      (evict : Bool) (p : ℕ) (w : World)
      → Inv w
      → Ensures (Frame w) (Launch.within_user env calls evict p w)
  unfolding Launch.within_user
  within_user-Frame evict p w v = elim (Option-cases (w.pool p).user) [
    | inl e ↦ rw (e, Launch.within_user) aborted
    | inr (u, e) ↦
        rw (e, Launch.within_user)
          (Ensures-if (lt_ℤ (pos 0) (user_max_connections w u))
            (λ _.
              Ensures->>=
                (evict_while-Frame _ _ (Launch.evict_user_connection calls (w.pool p).credentials) w
                  (unfold Launch.evict_user_connection in λ w' v'. evict-Frame calls closes _ w' v')
                  v)
                λ w' f.
                  Ensures-if (le_ℤ (user_max_connections w u) (w'.user u).connection_count)
                    (λ _. holds f) (λ _. then-Frame f (force_new-Frame p w' f.inv)))
            (λ _. force_new-Frame p w v))
  ]

  allow_new-Frame :
      (evict : Bool) (p : ℕ) (w : World)
      → Inv w
      → Ensures (Frame w) (Launch.allow_new env calls evict p w)
  unfolding Launch.allow_new
  allow_new-Frame evict p w v =
      let d = (w.pool p).db in
      Ensures-if (lt_ℤ (pos 0) (database_max_connections w d))
        (λ _.
          Ensures->>=
            (evict_while-Frame _ _ (Launch.evict_connection calls d) w
              (unfold Launch.evict_connection in λ w' v'. evict-Frame calls closes _ w' v') v)
            λ w' f.
              Ensures-if (le_ℤ (database_max_connections w d) (w'.db d).connection_count)
                (λ _. holds f) (λ _. then-Frame f (within_user-Frame evict p w' f.inv)))
        (λ _. within_user-Frame evict p w v)

  full_pool-Frame :
      (evict : Bool) (p max : ℕ) (w : World)
      → Inv w
      → Ensures (Frame w) (Launch.full_pool env calls evict p max w)
  unfolding Launch.full_pool
  full_pool-Frame evict p max w v =
      Ensures-if (Launch.may_use_reserve p max w) (λ _. allow_new-Frame evict p w v)
        λ _.
          Ensures-if (Launch.next_wants_replication p w)
            (λ _.
              Ensures->>=
                (evict_while-Frame _ _ (Launch.evict_pool_connection calls p) w
                  (unfold Launch.evict_pool_connection in λ w' v'. evict-Frame calls closes _ w' v')
                  v)
                λ w' f.
                  Ensures-if (lt_ℤ (pool_pool_size w' p) (pos max))
                    (λ _. then-Frame f (allow_new-Frame evict p w' f.inv)) (λ _. holds f))
            (λ _. holds (Frame-refl v))

  -- launch_new_connection, with the connections that it evicts on the way, keeps the invariant of
  -- the sockets and leaves every client alone that neither waits nor has a connection.
  pub launch_new_connection-Frame :
      (evict : Bool) (p : ℕ) (w : World)
      → Inv w
      → Ensures (Frame w) (Launch.launch_new_connection env calls evict p w)
  unfolding Launch.launch_new_connection
  launch_new_connection-Frame evict p w v =
      Ensures-if (not (is_empty (w.server_list (new_server_list p)))) (λ _. holds (Frame-refl v))
        λ _.
          Ensures-if (Launch.retries_too_fast env calls p w) (λ _. holds (Frame-refl v))
            λ _.
              Ensures-if (not ((w.db (w.pool p).db).peer_id == 0))
                (λ _.
                  Ensures-if (lt_ℤ (pos (pool_server_count w p)) (pool_pool_size w p))
                    (λ _. force_new-Frame p w v) (λ _. holds (Frame-refl v)))
                λ _.
                  Ensures-if
                    (not (is_empty (w.client_list (waiting_cancel_req_list p)))
                      && lt_ℤ (pos (pool_server_count w p))
                          (add_ℤ (pool_pool_size w p) (pool_pool_size w p)))
                    (λ _. force_new-Frame p w v)
                    λ _.
                      Ensures-if
                        (lt_ℤ (pos 0) (pool_pool_size w p)
                          && le_ℤ (pool_pool_size w p) (pos (pool_server_count w p))
                          && (w.pool p).welcome_msg_ready)
                        (λ _. full_pool-Frame evict p (pool_server_count w p) w v)
                        (λ _. allow_new-Frame evict p w v)
