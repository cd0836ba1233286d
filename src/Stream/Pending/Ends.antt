-- ===== src/Stream/Pending/Ends.antt =====
-- `sbuf_process_pending` as a whole.
use self_db_mini.Base.{ℕ, ◌≤◌, ◌≢◌, Bool, true, false, List, ◌++◌, length}
use self_db_mini.Base.Outcome.{Outcome}
use self_db_mini.Stream.IoBuf.{IoBuf}
use self_db_mini.Stream.IoBuf.Holds.{Holds}
use self_db_mini.Stream.SBuf.{SBuf, Proto, act_unset}
use self_db_mini.Stream.Pending.Forwards.{
  Packet, at_hand, Ready, Forwards, Sends, Paused, IsPacketHandler,
}

module _ (len : ℕ) (proto : Proto) (handler : IsPacketHandler len proto) where
  -- What the start of a packet comes to.
  data Started (s : SBuf) (p u : List ℕ) : Bool × SBuf → Type 0 where
    ready :
        {t : SBuf} (f : Forwards len proto (at_hand s) (s.sent ++ p) u t)
        → length f.rest ≤ length u
        → t.pkt_action ≢ act_unset
        → Started s p u (true, t)
    not_yet : {t : SBuf} → Paused len proto (at_hand s) (s.sent ++ p) u t → Started s p u (false, t)

  -- All was parsed, or not enough of a packet is there or the socket was closed.
  pub data Ended (k : Packet) (out u : List ℕ) : Bool × SBuf → Type 0 where
    all_parsed : {s : SBuf} → Forwards len proto k out u s → Ready s → Ended k out u (true, s)
    paused : {s : SBuf} → Paused len proto k out u s → Ended k out u (false, s)
