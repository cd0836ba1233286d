-- ===== src/Objects/Disconnect/Freed.antt =====
-- What is left of a client that disconnect_client has closed.
use self_db_mini.Base.{ℕ, suc, ◌≡◌, refl, Bool, none, ◌∷◌, arith, if◌then◌else◌}
use self_db_mini.Base.Outcome.{Ensures, holds, Ensures->>=}
use self_db_mini.Bouncer.{cl_justfree, World, error_to, put_client}
use self_db_mini.Objects.State.{change_client_state, move_client, corrected}
use self_db_mini.Objects.State.Placed.{change_client_state_moves}
use self_db_mini.Objects.Links.Sound.{Inv}
use self_db_mini.Objects.Env.{Env}
use self_db_mini.Objects.Frame.{IsOrderly}
use self_db_mini.Objects.Disconnect
use self_db_mini.Objects.Disconnect.Clients.{calls-KeepsOrder, leave-CutOff}

-- The client waits to be freed, and has no server connection.
abbrev pub ClientFreed : ℕ → World → Type 0
ClientFreed c w = ((w.client c).state ≡ cl_justfree) × ((w.client c).link ≡ none)

free-ClientFreed :
    (c : ℕ) (w : World)
    → (w.client c).link ≡ none
    → Ensures (ClientFreed c) (
        change_client_state c cl_justfree
          (put_client c (Disconnect.without_mocks w (w.client c)) w))
unfolding Disconnect.without_mocks
free-ClientFreed c w e =
    change_client_state_moves c cl_justfree _
      λ from to h h'. unfold move_client corrected in (ground arith, ground (arith, e))

-- When disconnect_client returns, where the invariant held before, the client is in state
-- cl_justfree and has no server connection, whatever its state was.
pub disconnect_client-ClientFreed :
    (env : Env)
    → IsOrderly env
    → (fuel c : ℕ) (notify : Bool) (w : World) → Inv w
    → Ensures (ClientFreed c) ((Disconnect.calls env (suc fuel)).disconnect_client c notify w)
unfolding Disconnect.calls Disconnect.disconnect_client Disconnect.uncount_client
disconnect_client-ClientFreed env orderly fuel c notify w v =
    let inner = Disconnect.calls env fuel in
    let w0 = Disconnect.uncount_client (w.client c) w in
    Ensures->>=
      (leave-CutOff inner (calls-KeepsOrder env orderly fuel) (w0.client c).state c w0 refl v)
      λ w1 f.
        let told = Disconnect.is_told notify (w1.client c).state in
        let w2 = record w1 { sent = if told then error_to c ∷ w1.sent else w1.sent } in
        Ensures->>= (free-ClientFreed c w2 f.unlinked)
          λ w3 g. holds (ground (arith, g.0), ground (arith, g.1))
