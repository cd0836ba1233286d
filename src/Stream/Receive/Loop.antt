-- ===== src/Stream/Receive/Loop.antt =====
-- The main loop as a whole.
use self_db_mini.Base.{ℕ, ◌≡◌, none, List, [], ◌++◌}
use self_db_mini.Base.Outcome.{Outcome, Meets}
use self_db_mini.Stream.IoBuf.{IoBuf}
use self_db_mini.Stream.IoBuf.Holds.{Holds}
use self_db_mini.Stream.SBuf.{SBuf, Proto}
use self_db_mini.Stream.Pending.Forwards.{at_hand, Carries, Ready}
use self_db_mini.Stream.Receive.{RecvAnswer, LoopEnv}
use self_db_mini.Stream.Receive.Streams.{Streams, LoopEnd, IsLoopHandler}

module _ (len : ℕ) (proto : Proto) (env : LoopEnv) (ok : IsLoopHandler len proto env) where
  -- What is asked of the rounds to come.
  abbrev Continues : List RecvAnswer → (SBuf → Outcome SBuf) → Type 0
  Continues answers next =
      (t : SBuf) (p u : List ℕ)
      → Carries len t p u
      → Ready t
      → Meets (LoopEnd len proto answers (at_hand t) (t.sent ++ p) u) (next t)

  -- At the start the buffer carries some bytes, or there is none as yet.
  pub data Starts (s : SBuf) : List ℕ → List ℕ → Type 0 where
    with_buffer : {p u : List ℕ} → Carries len s p u → Starts s p u
    without_buffer : s.io ≡ none → s.extra_packets ≡ [] → Starts s [] []
