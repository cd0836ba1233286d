-- ===== src/Stream/Prepare.antt =====
-- pgbouncer-1.25.0/src/sbuf.c: what a handler of packets asks of its socket.
pub mod Passed
use self_db_mini.Base.{ℕ, Bool, true, false, Option, none, [], ltb, leb, ◌==◌, ◌||◌, not}
use self_db_mini.Base.Outcome.{Outcome, done, assert, ◌>>◌}
use self_db_mini.Stream.SBuf.{
  SBuf, WaitType, w_none, act_unset, act_send, act_skip, act_call, assert_active,
}

abbrev pub is_waiting : WaitType → Bool
is_waiting w_none = false
is_waiting _ = true

module _ (cf_sbuf_len : ℕ) where
  -- The first asserts of the functions below.
  abbrev pub at_packet_start : SBuf → Outcome (Unit {0})
  at_packet_start sbuf = do assert_active cf_sbuf_len sbuf; assert (sbuf.pkt_remain == 0)

  unfoldable pub sbuf_prepare_send : Option ℕ → ℕ → SBuf → Outcome SBuf
  sbuf_prepare_send dst amount sbuf = do
    at_packet_start sbuf
    assert (ltb 0 amount)
    done (record sbuf { pkt_action = act_send; pkt_remain = amount; dst = dst })

  unfoldable pub sbuf_prepare_skip : ℕ → SBuf → Outcome SBuf
  sbuf_prepare_skip amount sbuf = do
    at_packet_start sbuf
    assert (ltb 0 amount)
    done (record sbuf { pkt_action = act_skip; skip_remain = amount; pkt_remain = amount })

  unfoldable pub sbuf_prepare_skip_then_send_leftover : Option ℕ → ℕ → ℕ → SBuf → Outcome SBuf
  sbuf_prepare_skip_then_send_leftover dst skip_amount total_amount sbuf = do
    at_packet_start sbuf
    assert (ltb 0 total_amount)
    assert (leb skip_amount total_amount)
    done (record sbuf {
      pkt_action = act_skip;
      pkt_remain = total_amount;
      skip_remain = skip_amount;
      dst = dst;
    })

  unfoldable pub sbuf_prepare_fetch : ℕ → SBuf → Outcome SBuf
  sbuf_prepare_fetch amount sbuf = do
    at_packet_start sbuf
    assert (ltb 0 amount)
    done (record sbuf { pkt_action = act_call; skip_remain = amount; pkt_remain = amount })

  -- The answer of `event_del` only leads to a log line.
  unfoldable pub sbuf_close : SBuf → Outcome (Bool × SBuf)
  sbuf_close sbuf = do
    assert (not (is_waiting sbuf.wait_type) || ltb 0 sbuf.sock)
    done (
      true,
      record sbuf {
        dst = none;
        sock = 0;
        pkt_remain = 0;
        pkt_action = act_unset;
        wait_type = w_none;
        io = none;
        extra_packets = [];
      },
    )
