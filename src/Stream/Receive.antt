-- ===== src/Stream/Receive.antt =====
-- pgbouncer-1.25.0/src/sbuf.c: receiving into the buffer of a socket, and the main loop.
pub mod Streams
pub mod Finish
pub mod Loop
use self_db_mini.Base.{
  ℕ, zero, suc, ◌+◌, ◌%◌, ◌^◌, Bool, true, false, ◌&&◌, not, Option, none, some, List, [], ◌∷◌,
  ◌++◌, ltb, leb, ◌==◌, if◌then◌else◌, is_empty, is_some, take, drop, length,
}
use self_db_mini.Base.Outcome.{Outcome, done, no_fuel, assert, ◌>>=◌, ◌>>◌}
use self_db_mini.Stream.IoBuf.{IoBuf, iobuf_empty, iobuf_amount_recv, iobuf_try_resync, iobuf_reset}
use self_db_mini.Stream.SBuf.{
  ev_recv_failed, ev_flush, SBuf, Proto, deref, is_recv, act_skip, w_none, w_once, TlsState,
  tls_do_handshake, sbuf_small_pkt, assert_sanity, assert_active,
}
use self_db_mini.Stream.Sending.{sbuf_call_proto}
use self_db_mini.Stream.Pending.{sbuf_process_pending}

-- What a call of `sbuf_op_recv` finds: bytes, of which it takes no more than it is asked for, and
-- of which there are none at the end of the stream; nothing as yet; or an error.
pub data RecvAnswer : Type 0 where
  arrived : List ℕ → RecvAnswer
  nothing_yet : RecvAnswer
  broken_off : RecvAnswer

-- What lies outside the file: the memory that `slab_alloc` gives, whether `cf_pause_mode` is
-- P_SUSPEND, whether libevent takes the event of sbuf_wait_for_data_forced, and the handshake of
-- TLS.
pub record LoopEnv : Type 0 where
  pub cf_sbuf_loopcnt : ℕ
  pub slab_alloc : Option IoBuf
  pub suspending : Bool
  pub forced_ok : Bool
  pub handle_tls_handshake : SBuf → Bool × SBuf

abbrev pub is_do_handshake : TlsState → Bool
is_do_handshake tls_do_handshake = true
is_do_handshake _ = false

module _ (cf_sbuf_len : ℕ) (proto : Proto) where
  unfoldable pub sbuf_try_resync : Bool → SBuf → Outcome SBuf
  unfolding iobuf_empty iobuf_try_resync
  sbuf_try_resync release sbuf =
      assert_active cf_sbuf_len sbuf
      >> done (elim sbuf.io [
        | none ↦ sbuf
        | some io ↦
            if release && iobuf_empty (some io)
            then record sbuf { io = none }
            else record sbuf { io = some (iobuf_try_resync sbuf_small_pkt io) }
      ])

  -- `sbuf_op_recv` writes the bytes behind those that were received.
  unfoldable pub place : List ℕ → IoBuf → IoBuf
  place bytes io = record io {
    buf = take io.recv_pos io.buf ++ (bytes ++ drop (io.recv_pos + length bytes) io.buf);
    recv_pos = (io.recv_pos + length bytes) % 2 ^ 32;
  }

  unfoldable pub fail_recv : SBuf → Outcome (Bool × SBuf)
  unfolding sbuf_call_proto
  fail_recv sbuf = do
    (_, sbuf') ← sbuf_call_proto cf_sbuf_len proto ev_recv_failed sbuf
    done (false, sbuf')

  unfoldable pub received : ℕ → RecvAnswer → IoBuf → SBuf → Outcome (Bool × SBuf)
  unfolding place fail_recv
  received len (arrived bytes) io sbuf =
      if is_empty (take len bytes)
      then fail_recv sbuf
      else done (true, record sbuf { io = some (place (take len bytes) io) })
  received len nothing_yet io sbuf = done (true, sbuf)
  received len broken_off io sbuf = fail_recv sbuf

  unfoldable pub sbuf_actual_recv : ℕ → RecvAnswer → SBuf → Outcome (Bool × SBuf)
  unfolding received iobuf_amount_recv
  sbuf_actual_recv len answer sbuf = do
    io ← deref sbuf.io
    let avail = iobuf_amount_recv cf_sbuf_len io
    received (if ltb avail len then avail else len) answer io sbuf

  unfoldable pub allocate_iobuf : Option IoBuf → SBuf → Outcome (Bool × SBuf)
  unfolding iobuf_reset fail_recv
  allocate_iobuf slab_alloc sbuf = if is_some sbuf.io then done (true, sbuf) else elim slab_alloc [
    | none ↦ fail_recv sbuf
    | some io ↦ done (true, record sbuf { io = some (iobuf_reset io) })
  ]

  abbrev pub sbuf_is_empty : SBuf → Bool
  sbuf_is_empty sbuf = iobuf_empty sbuf.io && sbuf.pkt_remain == 0

  module _ (env : LoopEnv) where
    abbrev pub sbuf_wait_for_data_forced : SBuf → SBuf
    sbuf_wait_for_data_forced sbuf = record sbuf {
      wait_type = if env.forced_ok then w_once else w_none;
    }

    -- The action is that with the number of SBUF_TLS_IN_HANDSHAKE.
    unfoldable pub start_handshake : SBuf → Outcome SBuf
    unfolding sbuf_call_proto
    start_handshake sbuf =
        if is_do_handshake sbuf.tls_state
        then (let (ok, sbuf') = env.handle_tls_handshake (record sbuf { pkt_action = act_skip }) in
            if ok
            then done sbuf'
            else (sbuf_call_proto cf_sbuf_len proto ev_recv_failed sbuf' >>= λ r. done (r.1)))
        else done sbuf

    unfoldable pub flush_event : SBuf → Outcome SBuf
    unfolding sbuf_call_proto iobuf_empty
    flush_event sbuf =
        if sbuf_is_empty sbuf
        then (sbuf_call_proto cf_sbuf_len proto ev_flush sbuf >>= λ r. done (r.1))
        else done sbuf

    -- What follows when the buffer is not full.
    unfoldable pub finish_loop : SBuf → Outcome SBuf
    unfolding sbuf_try_resync flush_event start_handshake
    finish_loop sbuf = do
      sbuf1 ← sbuf_try_resync true sbuf
      sbuf2 ← flush_event sbuf1
      start_handshake sbuf2

    -- From the label `skip_recv` on; `next` is what is at `try_more`.
    unfoldable pub handle_data : (SBuf → Outcome SBuf) → SBuf → Outcome SBuf
    unfolding sbuf_process_pending finish_loop iobuf_amount_recv
    handle_data next sbuf = do
      (ok, sbuf1) ← sbuf_process_pending cf_sbuf_len proto sbuf
      if not ok then done sbuf1 else do
        io ← deref sbuf1.io
        if leb (iobuf_amount_recv cf_sbuf_len io) 0 then next sbuf1 else finish_loop sbuf1

    abbrev room : ℕ → SBuf → ℕ
    room free sbuf =
        if env.suspending && ltb 0 sbuf.pkt_remain && ltb sbuf.pkt_remain free
        then sbuf.pkt_remain
        else free

    -- A result false ends the loop. `next` is what is at `skip_recv`.
    unfoldable pub fetch_data : RecvAnswer → (SBuf → Outcome SBuf) → SBuf → Outcome SBuf
    unfolding sbuf_actual_recv iobuf_amount_recv
    fetch_data answer next sbuf = do
      io ← deref sbuf.io
      let free = iobuf_amount_recv cf_sbuf_len io
      (ok, sbuf1) ←
          if ltb 0 free then sbuf_actual_recv (room free sbuf) answer sbuf else done (true, sbuf)
      if ok then next sbuf1 else done sbuf1

    abbrev first_answer : List RecvAnswer → RecvAnswer
    first_answer [] = nothing_yet
    first_answer (answer ∷ _) = answer

    unfoldable pub enough_rounds : SBuf → Outcome SBuf
    unfolding sbuf_process_pending
    enough_rounds sbuf =
        sbuf_process_pending cf_sbuf_len proto sbuf >>= λ r. done (sbuf_wait_for_data_forced (r.1))

    -- From the label `try_more` on, at `loopcnt`. The answers are those of the rounds to come.
    unfoldable pub try_more : ℕ → ℕ → List RecvAnswer → SBuf → Outcome SBuf
    unfolding sbuf_try_resync enough_rounds fetch_data handle_data
    try_more zero loopcnt answers sbuf = no_fuel
    try_more (suc fuel) loopcnt answers sbuf = sbuf_try_resync false sbuf >>= λ sbuf1.
        if ltb 0 env.cf_sbuf_loopcnt && leb env.cf_sbuf_loopcnt loopcnt
        then enough_rounds sbuf1
        else fetch_data (first_answer answers)
            (handle_data (try_more fuel (loopcnt + 1) (drop 1 answers))) sbuf1

    -- The argument `fuel` bounds the rounds.
    unfoldable pub sbuf_main_loop : ℕ → Bool → List RecvAnswer → SBuf → Outcome SBuf
    unfolding allocate_iobuf try_more handle_data
    sbuf_main_loop fuel skip_recv answers sbuf = if sbuf.sock == 0 then done sbuf else do
      assert (is_recv sbuf.wait_type)
      assert_sanity cf_sbuf_len sbuf
      (ok, sbuf1) ← allocate_iobuf env.slab_alloc sbuf
      if not ok
          then done sbuf1
          else (if skip_recv
              then handle_data (try_more fuel 0 answers) sbuf1
              else try_more fuel 0 answers sbuf1)
