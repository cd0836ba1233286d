-- ===== src/Objects/Launch/Ends.antt =====
-- objects.c, launch_new_connection: the fuel of its parts.
use self_db_mini.Base.{
  ℕ, refl, Bool, not, ◌&&◌, [], ◌∷◌, arith, is_empty, Option-cases, inl, inr, ◌==◌,
}
use self_db_mini.Base.Int.{pos, le_ℤ, lt_ℤ, add_ℤ}
use self_db_mini.Base.Outcome.{
  Ensures-at, IsSettled, returned, stopped, IsSettled->>=, IsSettled-if,
}
use self_db_mini.Bouncer.{World, waiting_cancel_req_list, new_server_list, pool_server_count}
use self_db_mini.Settings.{pool_pool_size, database_max_connections, user_max_connections}
use self_db_mini.Objects.Links.Sound.{Inv}
use self_db_mini.Objects.Env.{Env, Calls}
use self_db_mini.Objects.Release.Sound.{ClosesServers}
use self_db_mini.Objects.Launch
use self_db_mini.Objects.Launch.Sound.{evict-Frame, evict_while-Frame}
use self_db_mini.Objects.Launch.Fuel.{ShutsSpare, evict_oldest, evict_last, evict_while-IsSettled}

module _ (env : Env) (connects : (s : ℕ) (w : World) → IsSettled (env.dns_connect s w))
    (calls : Calls) (closes : ClosesServers calls) (shuts : ShutsSpare calls) where
  force_new-IsSettled : (p : ℕ) (w : World) → IsSettled (Launch.force_new env calls p w)
  unfolding Launch.force_new
  force_new-IsSettled p w = elim (Option-cases (env.slab_alloc w)) [
    | inl e ↦ rw (e, Launch.force_new) returned
    | inr (s, e) ↦ rw (e, Launch.force_new) (connects s _)
  ]

  within_user-IsSettled :
      (evict : Bool) (p : ℕ) (w : World)
      → Inv w
      → IsSettled (Launch.within_user env calls evict p w)
  unfolding Launch.within_user
  within_user-IsSettled evict p w v = elim (Option-cases (w.pool p).user) [
    | inl e ↦ rw (e, Launch.within_user) stopped
    | inr (u, e) ↦
        rw (e, Launch.within_user)
          (IsSettled-if (lt_ℤ (pos 0) (user_max_connections w u))
            (λ _.
              IsSettled->>=
                (evict_while-IsSettled _ _
                  (Launch.evict_user_connection calls (w.pool p).credentials) w.pool_list
                  w.pool_list w
                  (unfold Launch.evict_user_connection in
                    λ w' e' v'.
                      evict_oldest calls closes shuts
                        (λ w'' q. Launch.has_credentials (w.pool p).credentials (w''.pool q))
                        w.pool_list w' e' v')
                  refl v (omega arith))
                λ w' _.
                  IsSettled-if (le_ℤ (user_max_connections w u) (w'.user u).connection_count)
                    (λ _. returned) (λ _. force_new-IsSettled p w'))
            (λ _. force_new-IsSettled p w))
  ]

  allow_new-IsSettled :
      (evict : Bool) (p : ℕ) (w : World) → Inv w → IsSettled (Launch.allow_new env calls evict p w)
  unfolding Launch.allow_new
  allow_new-IsSettled evict p w v =
      let d = (w.pool p).db in
      IsSettled-if (lt_ℤ (pos 0) (database_max_connections w d))
        (λ _.
          IsSettled->>=
            (evict_while-IsSettled _ _ (Launch.evict_connection calls d) w.pool_list w.pool_list w
              (unfold Launch.evict_connection in
                λ w' e' v'.
                  evict_oldest calls closes shuts (λ w'' q. (w''.pool q).db == d) w.pool_list w' e'
                    v')
              refl v (omega arith))
            λ w' k.
              IsSettled-if (le_ℤ (database_max_connections w d) (w'.db d).connection_count)
                (λ _. returned)
                (λ _.
                  within_user-IsSettled evict p w'
                    (Ensures-at
                      (evict_while-Frame _ _ (Launch.evict_connection calls d) w
                        (unfold Launch.evict_connection in
                          λ w' v'. evict-Frame calls closes _ w' v')
                        v)
                      k).inv))
        (λ _. within_user-IsSettled evict p w v)

  full_pool-IsSettled :
      (evict : Bool) (p max : ℕ) (w : World)
      → Inv w
      → IsSettled (Launch.full_pool env calls evict p max w)
  unfolding Launch.full_pool
  full_pool-IsSettled evict p max w v =
      IsSettled-if (Launch.may_use_reserve p max w) (λ _. allow_new-IsSettled evict p w v)
        λ _.
          IsSettled-if (Launch.next_wants_replication p w)
            (λ _.
              IsSettled->>=
                (evict_while-IsSettled _ _ (Launch.evict_pool_connection calls p) w.pool_list
                  (p ∷ []) w (λ w' e' v'. evict_last calls closes shuts p w' v') refl v
                  (omega arith))
                λ w' k.
                  IsSettled-if (lt_ℤ (pool_pool_size w' p) (pos max))
                    (λ _.
                      allow_new-IsSettled evict p w'
                        (Ensures-at
                          (evict_while-Frame _ _ (Launch.evict_pool_connection calls p) w
                            (unfold Launch.evict_pool_connection in
                              λ w' v'. evict-Frame calls closes _ w' v')
                            v)
                          k).inv)
                    (λ _. returned))
            (λ _. returned)

  -- launch_new_connection does not run out of fuel where the invariant holds, if the start of a
  -- connection returns and closing a spare connection returns and takes it from its list.
  pub launch_new_connection-IsSettled :
      (evict : Bool) (p : ℕ) (w : World)
      → Inv w
      → IsSettled (Launch.launch_new_connection env calls evict p w)
  unfolding Launch.launch_new_connection
  launch_new_connection-IsSettled evict p w v =
      IsSettled-if (not (is_empty (w.server_list (new_server_list p)))) (λ _. returned)
        λ _.
          IsSettled-if (Launch.retries_too_fast env calls p w) (λ _. returned)
            λ _.
              IsSettled-if (not ((w.db (w.pool p).db).peer_id == 0))
                (λ _.
                  IsSettled-if (lt_ℤ (pos (pool_server_count w p)) (pool_pool_size w p))
                    (λ _. force_new-IsSettled p w) (λ _. returned))
                λ _.
                  IsSettled-if
                    (not (is_empty (w.client_list (waiting_cancel_req_list p)))
                      && lt_ℤ (pos (pool_server_count w p))
                          (add_ℤ (pool_pool_size w p) (pool_pool_size w p)))
                    (λ _. force_new-IsSettled p w)
                    λ _.
                      IsSettled-if
                        (lt_ℤ (pos 0) (pool_pool_size w p)
                          && le_ℤ (pool_pool_size w p) (pos (pool_server_count w p))
                          && (w.pool p).welcome_msg_ready)
                        (λ _. full_pool-IsSettled evict p (pool_server_count w p) w v)
                        (λ _. allow_new-IsSettled evict p w v)
