-- ===== src/Objects/Disconnect/Spare.antt =====
-- objects.c, disconnect_server: a spare connection, one that is idle, used or tested.
use self_db_mini.Base.{ℕ, ◌≡◌, refl, Bool, true, false, not, Option, some, List, is_some, ap₂}
use self_db_mini.Base.Placement.{attach, detach}
use self_db_mini.Base.Outcome.{
  done, Ensures, holds, Ensures-assert, IsSettled, IsSettled-assert, returned,
}
use self_db_mini.Bouncer.{
  World, ServerState, sv_idle, sv_used, sv_tested, ServerList, justfree_server_list,
  ServerList-discrete,
}
use self_db_mini.Objects.State.{list_of_server, change_server_state, to_front}
use self_db_mini.Objects.Env.{Env, Calls}
use self_db_mini.Objects.Release.Cancels.{lists-forget_cancels, server_home-forget_cancels}
use self_db_mini.Objects.Launch.Spare.{lists_without, is_spare}
use self_db_mini.Objects.Disconnect

-- What closing a spare connection leaves.
abbrev pub Without : ℕ → World → World → Type 0
Without s w w' = (w'.server_list ≡ lists_without s w) × (w'.pool_list ≡ w.pool_list)

shut_server-Without :
    (env : Env) (sends : Bool) (s : ℕ) (w : World)
    → Without s w (Disconnect.shut_server env sends s w)
unfolding Disconnect.shut_server Disconnect.uncount_server change_server_state to_front
    list_of_server
shut_server-Without env sends s w =
    let (l, p) = lists-forget_cancels (λ _. true) s w in
    (
      ap₂
          (λ (home : Option ServerList) (lists : ServerList → List ℕ).
            attach ServerList-discrete false (some justfree_server_list) s
              (detach ServerList-discrete home s lists))
          (server_home-forget_cancels (λ _. true) s w s) l,
      p,
    )

abandon_spare :
    (calls : Calls) (st : ServerState) (s : ℕ) (w : World)
    → is_spare st ≡ true
    → Disconnect.abandon calls st s w ≡ done w
unfolding Disconnect.abandon
abandon_spare calls sv_idle s w e = refl
abandon_spare calls sv_used s w e = refl
abandon_spare calls sv_tested s w e = refl
abandon_spare calls _ s w e = absurd (unfold is_spare in cc e)

-- Closing a spare connection needs no further calls.
pub disconnect_server-Without :
    (env : Env) (calls : Calls) (s : ℕ) (term : Bool) (w : World)
    → is_spare (w.server s).state ≡ true
    → Ensures (Without s w) (Disconnect.disconnect_server env calls s term w)
      × IsSettled (Disconnect.disconnect_server env calls s term w)
unfolding Disconnect.disconnect_server
disconnect_server-Without env calls s term w spare =
    rw (abandon_spare calls (w.server s).state s w spare) (
      Ensures-assert (not (is_some (w.server s).link)) (λ _. holds (shut_server-Without env _ s w)),
      IsSettled-assert (not (is_some (w.server s).link)) (λ _. returned),
    )
