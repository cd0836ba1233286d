-- ===== src/Stream/Sending.antt =====
-- pgbouncer-1.25.0/src/sbuf.c: calling the handler of packets, and sending what waits.
use self_db_mini.Base.{
  ℕ, ◌+◌, ◌%◌, ◌^◌, Bool, true, false, ◌||◌, not, some, List, [], ◌∷◌, ◌++◌, ltb, ◌==◌,
  if◌then◌else◌, is_empty, is_some, take, drop, length, min,
}
use self_db_mini.Base.Outcome.{Outcome, done, assert, ◌>>=◌, ◌>>◌}
use self_db_mini.Stream.IoBuf.{
  IoBuf, iobuf_amount_pending, iobuf_amount_parse, iobuf_parse_all, iobuf_parse_limit,
}
use self_db_mini.Stream.SBuf.{
  ev_read, ev_send_failed, ev_pkt_callback, Proto, SBuf, SBufEvent, SendAnswer, assert_active,
  assert_sanity, broken, deref, is_read, is_recv, w_none, w_send, would_block, wrote,
}

module _ (cf_sbuf_len : ℕ) (proto : Proto) where
  -- What `mbuf` is set to.
  abbrev pub mbuf_for : SBufEvent → SBuf → Outcome (List ℕ)
  mbuf_for ev_pkt_callback sbuf = do
    io ← deref sbuf.io
    done (iobuf_parse_limit sbuf.pkt_remain io).0
  mbuf_for ev_read sbuf = do io ← deref sbuf.io; done (iobuf_parse_all io).0
  mbuf_for _ sbuf = done []

  abbrev pub has_data : SBufEvent → SBuf → Outcome (Unit {0})
  has_data ev_read sbuf = do io ← deref sbuf.io; assert (ltb 0 (iobuf_amount_parse io))
  has_data _ sbuf = done tt

  unfoldable pub sbuf_call_proto : SBufEvent → SBuf → Outcome (Bool × SBuf)
  unfolding iobuf_parse_limit iobuf_parse_all iobuf_amount_parse
  sbuf_call_proto event sbuf = do
    assert_sanity cf_sbuf_len sbuf
    has_data event sbuf
    mbuf ← mbuf_for event sbuf
    (res, sbuf') ← proto event mbuf sbuf
    assert_sanity cf_sbuf_len sbuf'
    assert (not (is_read event) || not res || ltb 0 sbuf'.sock)
    done (res, sbuf')

  -- The result is false whatever the handler answers.
  unfoldable pub fail_send : SBuf → Outcome (Bool × SBuf)
  unfolding sbuf_call_proto
  fail_send sbuf = do (_, sbuf') ← sbuf_call_proto ev_send_failed sbuf; done (false, sbuf')

  -- The argument tells whether libevent takes the events.
  unfoldable pub sbuf_queue_send : Bool → SBuf → Outcome (Bool × SBuf)
  sbuf_queue_send ok sbuf = do
    assert_active cf_sbuf_len sbuf
    assert (is_recv sbuf.wait_type)
    done (
        if ok
        then (true, record sbuf { wait_type = w_send })
        else (false, record sbuf { wait_type = w_none }))

  unfoldable pub block_send : Bool → SBuf → Outcome (Bool × SBuf)
  unfolding sbuf_queue_send fail_send
  block_send ok sbuf = do
    (queued, sbuf') ← sbuf_queue_send ok sbuf
    if queued then done (false, sbuf') else fail_send sbuf'

  -- `io->done_pos += res`
  abbrev pub with_sent : ℕ → IoBuf → SBuf → SBuf
  with_sent n io sbuf = record sbuf {
    io = some (record io { done_pos = (io.done_pos + n) % 2 ^ 32 });
    sent = sbuf.sent ++ take n (drop io.done_pos io.buf);
  }

  -- One round of a loop at `try_more`, with what is done once the socket is there.
  unfoldable pub sending : ℕ → SBuf → Outcome (Bool × SBuf) → Outcome (Bool × SBuf)
  unfolding fail_send
  sending avail sbuf more =
      if avail == 0
      then done (true, sbuf)
      else do dst_sock ← deref sbuf.dst; if dst_sock == 0 then fail_send sbuf else more

  -- The branches on the result of `sbuf_op_send`.
  unfoldable pub answered : SendAnswer → (ℕ → Outcome (Bool × SBuf)) → SBuf → Outcome (Bool × SBuf)
  unfolding fail_send block_send
  answered broken next sbuf = fail_send sbuf
  answered (would_block ok) next sbuf = block_send ok sbuf
  answered (wrote n) next sbuf = next n

  -- The loop of `sbuf_send_pending_iobuf`, over the answers to its sends.
  unfoldable pub send_iobuf_loop : List SendAnswer → SBuf → Outcome (Bool × SBuf)
  unfolding iobuf_amount_pending sending answered
  send_iobuf_loop [] sbuf = do
    io ← deref sbuf.io
    sending (iobuf_amount_pending io) sbuf (block_send true sbuf)
  send_iobuf_loop (answer ∷ rest) sbuf = do
    io ← deref sbuf.io
    sending (iobuf_amount_pending io) sbuf (
        answered answer
          (λ n. do
            let sbuf' =
                with_sent (min n (iobuf_amount_pending io)) io (record sbuf { answers = rest })
            assert_active cf_sbuf_len sbuf'
            send_iobuf_loop rest sbuf')
          (record sbuf { answers = rest }))

  unfoldable pub sbuf_send_pending_iobuf : SBuf → Outcome (Bool × SBuf)
  unfolding send_iobuf_loop
  sbuf_send_pending_iobuf sbuf = do
    assert_active cf_sbuf_len sbuf
    io ← deref sbuf.io
    assert (is_some sbuf.dst || iobuf_amount_pending io == 0)
    send_iobuf_loop sbuf.answers sbuf

  unfoldable pub sbuf_flush : SBuf → Outcome (Bool × SBuf)
  unfolding sbuf_send_pending_iobuf
  sbuf_flush sbuf = if is_some sbuf.io then sbuf_send_pending_iobuf sbuf else done (true, sbuf)

  -- `mbuf->read_pos += res`
  abbrev pub with_extra_sent : ℕ → SBuf → SBuf
  with_extra_sent n sbuf = record sbuf {
    extra_packets = drop n sbuf.extra_packets;
    sent = sbuf.sent ++ take n sbuf.extra_packets;
  }

  unfoldable pub send_extra_loop : List SendAnswer → SBuf → Outcome (Bool × SBuf)
  unfolding sending answered
  send_extra_loop [] sbuf = sending (length sbuf.extra_packets) sbuf (block_send true sbuf)
  send_extra_loop (answer ∷ rest) sbuf = sending (length sbuf.extra_packets) sbuf (
      answered answer
        (λ n. do
          let sbuf' =
              with_extra_sent (min n (length sbuf.extra_packets)) (record sbuf { answers = rest })
          assert_active cf_sbuf_len sbuf'
          send_extra_loop rest sbuf')
        (record sbuf { answers = rest }))

  unfoldable pub sbuf_send_pending_extra_packets : SBuf → Outcome (Bool × SBuf)
  unfolding send_extra_loop
  sbuf_send_pending_extra_packets sbuf = do
    assert_active cf_sbuf_len sbuf
    assert (is_some sbuf.dst || is_empty sbuf.extra_packets)
    send_extra_loop sbuf.answers sbuf
