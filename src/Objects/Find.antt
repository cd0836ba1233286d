-- ===== src/Objects/Find.antt =====
-- objects.c: find_server, which links a client to an idle connection of its pool or puts it into
-- the wait queue, and the functions that it is made of.
pub mod Idle
pub mod Sound
pub mod Ends
use self_db_mini.Base.{
  ℕ, zero, suc, ◌+◌, ◌%◌, ◌^◌, Bool, true, false, not, ◌&&◌, ◌||◌, Option, none, some, length,
  is_some, ◌==◌, if◌then◌else◌,
}
use self_db_mini.Base.Outcome.{Outcome, done, abort, no_fuel, ◌>>=◌, ◌>>◌, assert}
use self_db_mini.Bouncer.{
  ClientState, cl_login, cl_active, cl_waiting, ServerState, sv_idle, sv_active, World,
  idle_server_list, active_cancel_server_list, first_server, put_client, put_server, put_pool,
  pool_connected_server_count, sending_auth_query,
}
use self_db_mini.Objects.State.{change_client_state, change_server_state}
use self_db_mini.Objects.Links.{link}
use self_db_mini.Objects.Env.{Env, Calls}
use self_db_mini.Objects.Launch.{launch_new_connection}

pub is_serving : ClientState → Bool
is_serving cl_active = true
is_serving cl_login = true
is_serving _ = false

pub is_idle : ServerState → Bool
is_idle sv_idle = true
is_idle _ = false

-- The client and the connection are linked, and the assignment is counted.
pub assign : ℕ → ℕ → World → World
assign c s w =
    let w1 = link c s w in
    let p = (w1.server s).pool in
    change_server_state s sv_active (
      put_pool p
        (record (w1.pool p) {
          server_assignment_count = ((w1.pool p).server_assignment_count + 1) % 2 ^ 64;
        })
        w1)

-- `pool_server_count(pool) - statlist_count(&pool->new_server_list)`, which is a sum of counts
open_count : ℕ → World → ℕ
open_count p w =
    pool_connected_server_count w p + length (w.server_list (active_cancel_server_list p))

module _ (env : Env) (calls : Calls) where
  -- The client goes into the wait queue.
  pub pause_client : ℕ → World → Outcome World
  unfolding is_serving
  pause_client c w = do
    assert (is_serving (w.client c).state)
    if w.config.shutdown_wait_for_servers then calls.disconnect_client c true w else (do
      w' ← change_client_state c cl_waiting w
      if env.sbuf_pause c w' then done w' else calls.disconnect_client c true w')

  -- False if the client is turned away, because the pool has no connection and cannot get one.
  pub check_fast_fail : ℕ → World → Outcome (Bool × World)
  check_fast_fail c w = elim (w.client c).pool [
    | none ↦ done (true, w)
    | some p ↦
        if not (w.pool p).last_login_failed
        then done (true, w)
        else if 0 == open_count p w
        then (do
          w1 ← calls.disconnect_client c true w
          w2 ← launch_new_connection env calls true p w1
          done (false, w2))
        else done (true, w)
  ]

  -- The `while (1)` loop: idle connections that are obsolete or dirty are closed, until one can be
  -- used or none is left.
  pub find_idle : ℕ → ℕ → World → Outcome (Option ℕ × World)
  find_idle zero p w = no_fuel
  find_idle (suc fuel) p w = elim (first_server w (idle_server_list p)) [
    | none ↦ done (none, w)
    | some s ↦
        if (w.server s).close_needed || not (w.server s).ready
        then (do w' ← calls.disconnect_server s true w; find_idle fuel p w')
        else done (some s, w)
  ]

  -- The connection for the client, if there is one, and whether the client may go on.
  choose_server : ℕ → ℕ → World → Outcome (Bool × Option ℕ × World)
  unfolding find_idle check_fast_fail
  choose_server c p w =
      if w.config.paused || (w.db (w.pool p).db).db_paused
      then done (true, none, w)
      else if (w.client c).replication && not (sending_auth_query (w.client c))
      then (do w' ← launch_new_connection env calls true p w; done (true, none, w'))
      else (do
        (found, w') ← find_idle (suc (length (w.server_list (idle_server_list p)))) p w
        elim found [
          | some s ↦ done (true, some s, w')
          | none ↦ (do (ok, w'') ← check_fast_fail c w'; done (ok, none, w''))
        ])

  -- The last part of `find_server`, for a connection whose session variables have been set, or
  -- are being set if `varchange`.
  use_server : Bool → ℕ → ℕ → World → Outcome (Bool × World)
  unfolding assign
  use_server varchange c s w =
      let w1 = assign c s w in
      if not varchange
      then done (true, w1)
      else let w2 = put_server s (record (w1.server s) { setting_vars = true; ready = false }) w1 in
        if env.sbuf_pause c w2
        then done (false, w2)
        else (do w3 ← calls.disconnect_client c true w2; done (false, w3))

  apply_and_use : ℕ → ℕ → World → Outcome (Bool × World)
  unfolding use_server pause_client
  apply_and_use c s w = do
    assert (is_idle (w.server s).state)
    let (ok, varchange) = env.varcache_apply s c w
    if ok
        then use_server varchange c s w
        else (do w' ← calls.disconnect_server s true w; w'' ← pause_client c w'; done (false, w''))

  pub find_server : ℕ → World → Outcome (Bool × World)
  unfolding choose_server apply_and_use pause_client
  find_server c w = do
    assert (is_serving (w.client c).state)
    let w0 = put_client c (record (w.client c) { wait_start = 0 }) w
    if is_some (w.client c).link then done (true, w0) else (elim (w.client c).pool [
      | none ↦ abort
      | some p ↦ (do
        (go_on, found, w1) ← choose_server c p w0
        if not go_on then done (false, w1) else (elim found [
          | some s ↦ apply_and_use c s w1
          | none ↦ (do w2 ← pause_client c w1; done (false, w2))
        ]))
    ])
