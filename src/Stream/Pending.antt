-- ===== src/Stream/Pending.antt =====
-- pgbouncer-1.25.0/src/sbuf.c: the bytes of a socket go through the handler of packets to another.
pub mod Forwards
pub mod Sends
pub mod Rounds
pub mod Ends
pub mod Errors
pub mod Delivery
use self_db_mini.Base.{
  ℕ, zero, suc, ◌+◌, ◌-◌, ◌%◌, ◌^◌, Bool, true, false, ◌&&◌, ◌||◌, not, Option, none, some, List,
  [], ◌∷◌, ◌++◌, ltb, leb, ◌==◌, if◌then◌else◌, is_empty, is_some, take, drop, length, min,
}
use self_db_mini.Base.Outcome.{Outcome, done, abort, no_fuel, assert, ◌>>=◌, ◌>>◌}
use self_db_mini.Stream.IoBuf.{
  IoBuf, iobuf_sane, iobuf_amount_pending, iobuf_amount_parse, iobuf_amount_recv, iobuf_parse_all,
  iobuf_parse_limit, iobuf_tag_send, iobuf_tag_skip, iobuf_try_resync,
}
use self_db_mini.Stream.SBuf.{
  ev_read, ev_recv_failed, ev_send_failed, ev_connect_failed, ev_connect_ok, ev_flush,
  ev_pkt_callback, PktAction, Proto, SBuf, SBufEvent, SendAnswer, TlsState, WaitType, act_call,
  act_send, act_skip, act_unset, assert_active, assert_sanity, broken, deref, ev_tls_ready, is_read,
  is_recv, sbuf_small_pkt, skips, tls_do_handshake, tls_in_handshake, tls_none, tls_ok, w_connect,
  w_none, w_once, w_recv, w_send, would_block, wrote,
}
use self_db_mini.Stream.Sending.{
  answered, block_send, fail_send, has_data, mbuf_for, sbuf_call_proto, sbuf_flush, sbuf_queue_send,
  sbuf_send_pending_extra_packets, sbuf_send_pending_iobuf, send_extra_loop, send_iobuf_loop,
  sending, with_extra_sent, with_sent,
}

-- What a round of `sbuf_process_pending` comes to: the next round, `break`, the label
-- `need_more_data`, or the result false.
pub data Round : Type 0 where
  further enough need_more failed : SBuf → Round

module _ (cf_sbuf_len : ℕ) (proto : Proto) where
  -- `mbuf_rewind_writer` or `mbuf_free`, when all is read
  abbrev without_extra : SBuf → SBuf
  without_extra sbuf = record sbuf { extra_packets = [] }

  -- The extra packets of an earlier round, and what stands before them.
  unfoldable pub flush_extra : SBuf → Outcome (Bool × SBuf)
  unfolding sbuf_send_pending_iobuf sbuf_send_pending_extra_packets
  flush_extra sbuf = if is_empty sbuf.extra_packets then done (true, sbuf) else do
    (ok, sbuf1) ←
        if sbuf.extra_packet_queue_after
        then sbuf_send_pending_iobuf cf_sbuf_len proto sbuf
        else done (true, sbuf)
    if not ok then done (false, sbuf1) else do
      (ok2, sbuf2) ← sbuf_send_pending_extra_packets cf_sbuf_len proto sbuf1
      done (ok2, if ok2 then without_extra sbuf2 else sbuf2)

  -- The start of a packet: the handler decides.
  unfoldable pub start_packet : SBuf → Outcome (Bool × SBuf)
  unfolding sbuf_call_proto
  start_packet sbuf = if not (sbuf.pkt_remain == 0) then done (true, sbuf) else do
    (ok, sbuf') ← sbuf_call_proto cf_sbuf_len proto ev_read sbuf
    if not ok then done (false, sbuf') else do assert (ltb 0 sbuf'.pkt_remain); done (true, sbuf')

  -- Pending data goes before anything is skipped.
  unfoldable pub flush_before_skip : SBuf → Outcome (Bool × SBuf)
  unfolding sbuf_send_pending_iobuf iobuf_amount_pending
  flush_before_skip sbuf = if not (skips sbuf.pkt_action) then done (true, sbuf) else do
    io ← deref sbuf.io
    if ltb 0 (iobuf_amount_pending io)
        then sbuf_send_pending_iobuf cf_sbuf_len proto sbuf
        else done (true, sbuf)

  abbrev with_io : SBuf → IoBuf → SBuf
  with_io sbuf io = record sbuf { io = some io }

  skip_all : ℕ → IoBuf → SBuf → Outcome SBuf
  unfolding iobuf_tag_skip
  skip_all avail io sbuf = do
    io' ← iobuf_tag_skip avail io
    done (record sbuf { io = some io'; skip_remain = sbuf.skip_remain - avail })

  skip_then_send : ℕ → IoBuf → SBuf → Outcome SBuf
  unfolding iobuf_tag_send iobuf_tag_skip
  skip_then_send avail io sbuf = do
    io1 ← if sbuf.skip_remain == 0 then done io else iobuf_tag_skip sbuf.skip_remain io
    io2 ← iobuf_tag_send (avail - sbuf.skip_remain) io1
    done (record sbuf { io = some io2; skip_remain = 0 })

  -- `case ACT_SKIP`
  unfoldable pub skip_bytes : ℕ → SBuf → Outcome SBuf
  unfolding skip_all skip_then_send
  skip_bytes avail sbuf = do
    io ← deref sbuf.io
    if leb avail sbuf.skip_remain then skip_all avail io sbuf else skip_then_send avail io sbuf

  abbrev pkt_done : ℕ → SBuf → SBuf
  pkt_done avail sbuf = record sbuf { pkt_remain = sbuf.pkt_remain - avail }

  -- The `switch`, and what follows it in the loop.
  unfoldable pub act_on : PktAction → ℕ → SBuf → Outcome Round
  unfolding skip_bytes sbuf_call_proto iobuf_tag_send
  act_on act_unset avail sbuf = done (further (pkt_done avail sbuf))
  act_on act_send avail sbuf = do
    io ← deref sbuf.io
    io' ← iobuf_tag_send avail io
    done (further (pkt_done avail (with_io sbuf io')))
  act_on act_skip avail sbuf = do
    sbuf' ← skip_bytes avail sbuf
    done (further (pkt_done avail sbuf'))
  act_on act_call avail sbuf = do
    (ok, sbuf1) ← sbuf_call_proto cf_sbuf_len proto ev_pkt_callback sbuf
    if not ok
        then done (need_more sbuf1)
        else do sbuf2 ← skip_bytes avail sbuf1; done (further (pkt_done avail sbuf2))

  -- One round; `full` tells whether the buffer was full at the start.
  unfoldable pub process_round : Bool → SBuf → Outcome Round
  unfolding flush_extra start_packet flush_before_skip act_on iobuf_amount_parse
  process_round full sbuf = do
    (ok, sbuf1) ← flush_extra sbuf
    if not ok then done (failed sbuf1) else do
      assert_active cf_sbuf_len sbuf1
      io ← deref sbuf1.io
      let avail = iobuf_amount_parse io
      if avail == 0 || (full && leb avail sbuf_small_pkt) then done (enough sbuf1) else do
        (started, sbuf2) ← start_packet sbuf1
        if not started then done (need_more sbuf2) else do
          (flushed, sbuf3) ← flush_before_skip sbuf2
          if not flushed
              then done (failed sbuf3)
              else act_on sbuf3.pkt_action (min avail sbuf3.pkt_remain) sbuf3

  -- The label `need_more_data`; the result is false.
  unfoldable pub resync_full : SBuf → Outcome SBuf
  unfolding iobuf_try_resync
  resync_full sbuf = do
    io ← deref sbuf.io
    done (
        if io.recv_pos == cf_sbuf_len then with_io sbuf (iobuf_try_resync cf_sbuf_len io) else sbuf)

  unfoldable pub wait_for_more : SBuf → Outcome SBuf
  unfolding resync_full sbuf_send_pending_iobuf iobuf_amount_pending
  wait_for_more sbuf0 = do
    let sbuf = without_extra sbuf0
    if not (ltb 0 sbuf.sock && is_some sbuf.io && is_recv sbuf.wait_type) then done sbuf else do
      io ← deref sbuf.io
      (ok, sbuf1) ←
          if ltb 0 (iobuf_amount_pending io)
          then sbuf_send_pending_iobuf cf_sbuf_len proto sbuf
          else done (true, sbuf)
      if not ok then done sbuf1 else resync_full sbuf1

  unfoldable pub process_loop : ℕ → Bool → SBuf → Outcome (Bool × SBuf)
  unfolding process_round sbuf_send_pending_iobuf wait_for_more
  process_loop zero full sbuf = no_fuel
  process_loop (suc fuel) full sbuf = process_round full sbuf >>= λ round. elim round [
    | further sbuf' ↦ process_loop fuel full sbuf'
    | enough sbuf' ↦ sbuf_send_pending_iobuf cf_sbuf_len proto sbuf'
    | need_more sbuf' ↦ wait_for_more sbuf' >>= λ sbuf''. done (false, sbuf'')
    | failed sbuf' ↦ done (false, sbuf')
  ]

  -- Each round reads on, so that there are as many rounds as bytes to parse, and one.
  unfoldable pub sbuf_process_pending : SBuf → Outcome (Bool × SBuf)
  unfolding process_loop iobuf_amount_recv iobuf_amount_parse
  sbuf_process_pending sbuf = do
    io ← deref sbuf.io
    process_loop (iobuf_amount_parse io + 1) (leb (iobuf_amount_recv cf_sbuf_len io) 0) sbuf
