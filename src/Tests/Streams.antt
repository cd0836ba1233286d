-- ===== src/Tests/Streams.antt =====
-- A buffer with three packets, of which the handler forwards two and skips one.
use self_db_mini.Base.{
  take, drop, not, is_some, ℕ, zero, suc, ◌≡◌, ◌≢◌, refl, Bool, true, false, Option, none, some,
  List, [], ◌∷◌, arith,
}
use self_db_mini.Base.Outcome.{Outcome, ◌>>=◌, done, Gives, Meets, meeting}
use self_db_mini.Stream.IoBuf.{IoBuf, iobuf_sane, iobuf_try_resync}
use self_db_mini.Stream.IoBuf.Holds.{Holds, try_resync-Holds}
use self_db_mini.Stream.SBuf.{
  ev_read, ev_recv_failed, ev_send_failed, broken, SBuf, PktAction, act_unset, act_send, act_skip,
  tls_none, w_recv, wrote, Proto,
}
use self_db_mini.Stream.Sending.{sbuf_send_pending_iobuf}
use self_db_mini.Stream.Pending.{sbuf_process_pending}
use self_db_mini.Stream.Pending.Forwards.{Carries, Sends, Leaves, left, IsHandler, IsPacketHandler}
use self_db_mini.Stream.Pending.Sends.{send_pending_iobuf-Sends}
use self_db_mini.Stream.Pending.Errors.{Failed, writes_then_break, total, send_pending_iobuf-Failed}
use self_db_mini.Stream.Pending.Delivery.{writes_before, Delivered, send_pending_iobuf-Gives}
use self_db_mini.Stream.Prepare.{
  sbuf_prepare_send, sbuf_prepare_skip, sbuf_prepare_skip_then_send_leftover,
}
use self_db_mini.Stream.Prepare.Passed.{Passed, act_on_packet, prepare_cases}
use self_db_mini.Stream.Receive.{RecvAnswer, arrived, nothing_yet, LoopEnv, sbuf_main_loop}

-- The packets are `2 0`, `3 1 9` and `2 0`: a size, and whether the packet is skipped.
abbrev buffer : List ℕ
buffer = 2 ∷ 0 ∷ 3 ∷ 1 ∷ 9 ∷ 2 ∷ 0 ∷ 7 ∷ []

abbrev received : IoBuf
received = record { done_pos = 0; parse_pos = 0; recv_pos = 7; buf = buffer }

abbrev packets : List ℕ
packets = 2 ∷ 0 ∷ 3 ∷ 1 ∷ 9 ∷ 2 ∷ 0 ∷ []

received-Holds : Holds 8 received [] packets
received-Holds = record {
  gone = [];
  free = 7 ∷ [];
  in_order = refl;
  size = refl;
  fits = omega arith;
  done_at = refl;
  parse_at = refl;
  recv_at = refl;
}

-- One packet is sent, one is to be sent, and the rest is to be parsed.
abbrev midway : IoBuf
midway = record { done_pos = 2; parse_pos = 5; recv_pos = 7; buf = buffer }

midway-Holds : Holds 8 midway (3 ∷ 1 ∷ 9 ∷ []) (2 ∷ 0 ∷ [])
midway-Holds = record {
  gone = 2 ∷ 0 ∷ [];
  free = 7 ∷ [];
  in_order = refl;
  size = refl;
  fits = omega arith;
  done_at = refl;
  parse_at = refl;
  recv_at = refl;
}

abbrev action_of : ℕ → PktAction
action_of zero = act_send
action_of (suc k) = act_skip

abbrev decide : List ℕ → SBuf → Bool × SBuf
decide (n ∷ k ∷ bytes) sbuf =
    (true, record sbuf { pkt_remain = n; pkt_action = action_of k; skip_remain = n })
decide _ sbuf = (false, sbuf)

abbrev handler : Proto
handler ev_read bytes sbuf = done (decide bytes sbuf)
handler ev_send_failed bytes sbuf = done (false, record sbuf { sock = 0 })
handler ev_recv_failed bytes sbuf = done (false, record sbuf { sock = 0 })
handler _ bytes sbuf = done (false, sbuf)

action_of-acts : (k : ℕ) → action_of k ≢ act_unset
action_of-acts zero = λ e. absurd (cc e)
action_of-acts (suc k) = λ e. absurd (cc e)

decide-Leaves : (bytes : List ℕ) (s : SBuf) → Leaves 8 s (decide bytes s)
decide-Leaves (n ∷ k ∷ bytes) s = record {
  same_io = refl;
  same_extra = refl;
  same_sent = refl;
  decides = λ e. action_of-acts k;
}
decide-Leaves [] s = record {
  same_io = refl;
  same_extra = refl;
  same_sent = refl;
  decides = λ e. absurd (cc e);
}
decide-Leaves (n ∷ []) s = record {
  same_io = refl;
  same_extra = refl;
  same_sent = refl;
  decides = λ e. absurd (cc e);
}

handler-IsHandler : IsHandler 8 handler
handler-IsHandler = record {
  on_read = λ bytes s. meeting (left (decide-Leaves bytes s));
  on_callback = λ bytes s. meeting (left (decide-Leaves [] s));
  on_failure = λ bytes s. meeting refl;
}

handler-IsPacketHandler : IsPacketHandler 8 handler
handler-IsPacketHandler = record {
  handler = handler-IsHandler;
  keeps_packet = λ bytes s. meeting (λ e. absurd (cc e));
}

abbrev stream : IoBuf → SBuf
stream io = record {
  wait_type = w_recv;
  pkt_action = act_unset;
  tls_state = tls_none;
  sock = 3;
  pkt_remain = 0;
  skip_remain = 0;
  extra_packets = [];
  extra_packet_queue_after = false;
  dst = some 4;
  io = some io;
  sent = [];
  answers = wrote 1 ∷ wrote 5 ∷ wrote 5 ∷ [];
}

stream-Carries : {io : IoBuf} {p u : List ℕ} → Holds 8 io p u → Carries 8 (stream io) p u
stream-Carries {io = io} h = record { io = io; is_io = refl; holds = h; plain = refl }

abbrev sent_of : Outcome (Bool × SBuf) → Option (Bool × List ℕ)
sent_of (done (ok, s)) = some (ok, s.sent)
sent_of _ = none

-- The second packet is not sent.
process_run :
    sent_of (sbuf_process_pending 8 handler (stream received)) ≡ some (true, 2 ∷ 0 ∷ 2 ∷ 0 ∷ [])
unfolding sbuf_process_pending iobuf_sane
process_run = refl

send_pending_iobuf-Sends_example :
    Meets
      (Sends 8 (act_unset, 0, 0) (3 ∷ 1 ∷ 9 ∷ []) (2 ∷ 0 ∷ []))
      (sbuf_send_pending_iobuf 8 handler (stream midway))
send_pending_iobuf-Sends_example =
    send_pending_iobuf-Sends 8 handler handler-IsHandler (stream midway)
      (stream-Carries midway-Holds)

try_resync-Holds_example : Holds 8 (iobuf_try_resync 64 midway) (3 ∷ 1 ∷ 9 ∷ []) (2 ∷ 0 ∷ [])
try_resync-Holds_example = try_resync-Holds midway-Holds 64

-- Two rounds at most, and a buffer with old bytes in it.
abbrev env : LoopEnv
env = record {
  cf_sbuf_loopcnt = 2;
  slab_alloc = some midway;
  suspending = false;
  forced_ok = true;
  handle_tls_handshake = λ s. (true, s);
}

-- No buffer as yet.
abbrev idle : SBuf
idle = record (stream midway) { io = none }

abbrev answers : List RecvAnswer
answers = arrived packets ∷ nothing_yet ∷ []

abbrev end_of : Outcome SBuf → Option (Bool × List ℕ)
end_of (done s) = some (not (is_some s.io), s.sent)
end_of _ = none

-- The buffer is freed when all is sent.
main_loop_run :
    end_of (sbuf_main_loop 8 handler env 3 false answers idle) ≡ some (true, 2 ∷ 0 ∷ 2 ∷ 0 ∷ [])
unfolding sbuf_main_loop iobuf_sane
main_loop_run = refl

-- Two bytes of three are sent before the error.
abbrev breaking : SBuf
breaking = record (stream midway) { answers = wrote 2 ∷ broken ∷ wrote 5 ∷ [] }

send_pending_iobuf-Failed_example : Meets Failed (sbuf_send_pending_iobuf 8 handler breaking)
unfolding writes_then_break total
send_pending_iobuf-Failed_example =
    send_pending_iobuf-Failed 8 handler handler-IsHandler (2 ∷ []) (wrote 5 ∷ []) 4 breaking refl
      (record { io = midway; is_io = refl; holds = midway-Holds; plain = refl }) refl (omega arith)

send_pending_iobuf-Gives_example :
    Gives
      (Delivered 8 handler handler-IsHandler (3 ∷ 1 ∷ 9 ∷ []) (2 ∷ 0 ∷ []))
      (sbuf_send_pending_iobuf 8 handler (stream midway))
unfolding writes_before total
send_pending_iobuf-Gives_example =
    send_pending_iobuf-Gives 8 handler handler-IsHandler (1 ∷ 5 ∷ []) (wrote 5 ∷ []) 4
      (stream midway) refl (stream-Carries midway-Holds) refl (omega arith) (omega arith)
      (omega arith)

-- A packet of five bytes, of which two are skipped.
prepare_cases_example :
    Meets (Passed 8 handler handler-IsPacketHandler (some 9) (take 5 packets) (drop 5 packets)) (
      sbuf_prepare_send 8 (some 9) 5 (stream received)
      >>= act_on_packet 8 handler handler-IsPacketHandler 7)
    × Meets (Passed 8 handler handler-IsPacketHandler (some 4) [] (drop 5 packets)) (
        sbuf_prepare_skip 8 5 (stream received)
        >>= act_on_packet 8 handler handler-IsPacketHandler 7)
    × Meets
        (Passed 8 handler handler-IsPacketHandler
          (some 9)
          (drop 2 (take 5 packets))
          (drop 5 packets))
        (sbuf_prepare_skip_then_send_leftover 8 (some 9) 2 5 (stream received)
          >>= act_on_packet 8 handler handler-IsPacketHandler 7)
prepare_cases_example =
    prepare_cases 8 handler handler-IsPacketHandler (some 9) 2 5 (stream received)
      (stream-Carries received-Holds) (omega arith)
