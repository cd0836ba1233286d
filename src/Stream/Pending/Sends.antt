-- ===== src/Stream/Pending/Sends.antt =====
-- `sbuf_send_pending_iobuf`, whatever the sends of the system do.
use self_db_mini.Base.{
  ℕ, ◌≤◌, ◌≡◌, refl, sym, take_all, if_intro, ap, subst, ◌∙◌, Bool, true, false, ◌||◌, List, [],
  ◌∷◌, ◌++◌, ltb, ◌==◌, take, drop, length, take-append-drop, append_assoc, arith, is_some, min,
}
use self_db_mini.Base.Outcome.{
  Outcome, done, Meets-returned, Meets-both, assert-Meets, assert_ok, Meets, meeting, Meets->>=,
  Meets-if, ◌>>◌,
}
use self_db_mini.Stream.IoBuf.{
  IoBuf, iobuf_amount_pending, iobuf_amount_parse, iobuf_parse_all, iobuf_parse_limit, iobuf_sane,
}
use self_db_mini.Stream.IoBuf.Holds.{
  Holds, amount_pending, amount_parse, sent-Holds, to_send, to_parse,
}
use self_db_mini.Stream.SBuf.{
  ev_read, ev_send_failed, ev_pkt_callback, SBuf, is_recv, SBufEvent, Proto, SendAnswer, wrote,
  would_block, broken, assert_active,
}
use self_db_mini.Stream.Sending.{
  has_data, mbuf_for, sbuf_call_proto, fail_send, sbuf_queue_send, block_send, sending, answered,
  send_iobuf_loop, sbuf_send_pending_iobuf, with_sent,
}
use self_db_mini.Stream.Pending.Forwards.{
  Carries, Packet, at_hand, Waits, Sends, open_still, closed, IsHandler, Handled, Meets-deref,
  Meets-known,
}

module _ (len : ℕ) (proto : Proto) (handler : IsHandler len proto) where
  has_data-Meets :
      (event : SBufEvent) (s : SBuf) → Meets (λ z. Unit {0}) (has_data len proto event s)
  has_data-Meets ev_read s = Meets-deref s.io λ io e. assert_ok (ltb 0 (iobuf_amount_parse io))
  has_data-Meets _ s = meeting tt

  mbuf_for-Meets :
      (event : SBufEvent) (s : SBuf) → Meets (λ z. Unit {0}) (mbuf_for len proto event s)
  mbuf_for-Meets ev_pkt_callback s = Meets-deref s.io λ io e. meeting tt
  mbuf_for-Meets ev_read s = Meets-deref s.io λ io e. meeting tt
  mbuf_for-Meets _ s = meeting tt

  -- What holds of the handler's answer holds of that of `sbuf_call_proto`.
  call_proto_given :
      (event : SBufEvent) (s : SBuf) (P : Bool × SBuf → Type 0) (B : List ℕ → Type 0)
      → Meets B (mbuf_for len proto event s)
      → ((bytes : List ℕ) → B bytes → Meets P (proto event bytes s))
      → Meets P (sbuf_call_proto len proto event s)
  unfolding sbuf_call_proto
  call_proto_given event s P B m k = Meets->>= (assert-Meets (iobuf_sane len s.io)) λ u1 t1.
      Meets->>= (has_data-Meets event s) λ u2 t2. Meets->>= m λ bytes t3.
        Meets->>= (k bytes t3) λ r pr.
          Meets->>= (assert-Meets (iobuf_sane len (r.1).io))
            λ u4 t4. Meets->>= (assert-Meets _) λ u5 t5. meeting pr

  pub call_proto-Meets :
      (event : SBufEvent) (s : SBuf) (P : Bool × SBuf → Type 0)
      → ((bytes : List ℕ) → Meets P (proto event bytes s))
      → Meets P (sbuf_call_proto len proto event s)
  call_proto-Meets event s P k =
      call_proto_given event s P _ (mbuf_for-Meets event s) (λ bytes z. k bytes)

  read_mbuf :
      (s : SBuf) {p u : List ℕ}
      → Carries len s p u
      → Meets (λ bytes. bytes ≡ u) (mbuf_for len proto ev_read s)
  unfolding iobuf_parse_all
  read_mbuf s {u = u} c = Meets-known _ c.is_io (
      meeting (
        to_parse c.holds _ (omega (arith, amount_parse c.holds))
        ∙ take_all _ u (omega (arith, amount_parse c.holds))))

  packet_mbuf :
      (s : SBuf) {p u : List ℕ}
      → Carries len s p u
      → Meets (λ bytes. bytes ≡ take s.pkt_remain u) (mbuf_for len proto ev_pkt_callback s)
  unfolding iobuf_parse_limit
  packet_mbuf s {u = u} c = Meets-known _ c.is_io (
      meeting (
        if_intro (λ n. take n (drop c.io.parse_pos c.io.buf) ≡ take s.pkt_remain u)
          (ltb s.pkt_remain (iobuf_amount_parse c.io)) _ _
          (λ e. to_parse c.holds s.pkt_remain (ground (arith, amount_parse c.holds)))
          (λ e.
            to_parse c.holds _ (omega (arith, amount_parse c.holds))
            ∙ take_all _ u (omega (arith, amount_parse c.holds))
            ∙ sym (take_all s.pkt_remain u (ground (arith, amount_parse c.holds))))))

  -- The handler is asked with all bytes that are there.
  pub read-Handled :
      (s : SBuf) {p u : List ℕ}
      → Carries len s p u
      → Meets
          (λ r. Handled len s r × (proto ev_read u s ≡ done r))
          (sbuf_call_proto len proto ev_read s)
  read-Handled s {u = u} c =
      call_proto_given ev_read s (λ r. Handled len s r × (proto ev_read u s ≡ done r)) _
        (read_mbuf s c)
        (λ bytes e.
          subst
            (λ b. Meets (λ r. Handled len s r × (proto ev_read u s ≡ done r)) (proto ev_read b s))
            (sym e) (Meets-returned (handler.on_read u s)))

  -- The handler is given all bytes of the packet that are there.
  pub packet-Handled :
      ((bytes : List ℕ) (s : SBuf)
        → Meets (λ r. r.0 ≡ true → at_hand (r.1) ≡ at_hand s) (proto ev_pkt_callback bytes s))
      → (s : SBuf) {p u : List ℕ} → Carries len s p u
      → Meets
          (λ r.
            (Handled len s r × (r.0 ≡ true → at_hand (r.1) ≡ at_hand s))
            × (proto ev_pkt_callback (take s.pkt_remain u) s ≡ done r))
          (sbuf_call_proto len proto ev_pkt_callback s)
  packet-Handled keeps s {u = u} c =
      call_proto_given ev_pkt_callback s _ _ (packet_mbuf s c) (λ bytes e.
        subst
          (λ b.
            Meets
              (λ r.
                (Handled len s r × (r.0 ≡ true → at_hand (r.1) ≡ at_hand s))
                × (proto ev_pkt_callback (take s.pkt_remain u) s ≡ done r))
              (proto ev_pkt_callback b s))
          (sym e)
          (Meets-returned (
            Meets-both (handler.on_callback (take s.pkt_remain u) s)
              (keeps (take s.pkt_remain u) s))))

  fail_send-Sends :
      (packet : Packet) (out u : List ℕ) (s : SBuf)
      → Meets (Sends len packet out u) (fail_send len proto s)
  unfolding fail_send
  fail_send-Sends packet out u s =
      Meets->>=
        (call_proto-Meets ev_send_failed s (λ r. (r.1).sock ≡ 0)
          (λ bytes. handler.on_failure bytes s))
        λ r shut. meeting (closed shut)

  pub assert_active-Meets : (s : SBuf) → Meets (λ z. Unit {0}) (assert_active len s)
  assert_active-Meets s =
      Meets->>= (assert-Meets (ltb 0 s.sock)) λ z e. assert_ok (iobuf_sane len s.io)

  -- A step that changes neither the buffer nor what is sent.
  Carries-same :
      (s t : SBuf) {p u : List ℕ}
      → t.io ≡ s.io
      → t.extra_packets ≡ s.extra_packets
      → Carries len s p u
      → Carries len t p u
  Carries-same s t e f c = record {
    io = c.io;
    is_io = e ∙ c.is_io;
    holds = c.holds;
    plain = f ∙ c.plain;
  }

  record Queued (s t : SBuf) : Type 0 where
    same_io : t.io ≡ s.io
    same_extra : t.extra_packets ≡ s.extra_packets
    same_sent : t.sent ≡ s.sent
    same_action : at_hand t ≡ at_hand s

  queue_send-Meets :
      (ok : Bool) (s : SBuf) → Meets (λ r. Queued s (r.1)) (sbuf_queue_send len proto ok s)
  unfolding sbuf_queue_send
  queue_send-Meets true s = Meets->>= (assert_active-Meets s) λ z e.
      Meets->>= (assert-Meets (is_recv s.wait_type)) λ y f.
        meeting (record { same_io = refl; same_extra = refl; same_sent = refl; same_action = refl })
  queue_send-Meets false s = Meets->>= (assert_active-Meets s) λ z e.
      Meets->>= (assert-Meets (is_recv s.wait_type)) λ y f.
        meeting (record { same_io = refl; same_extra = refl; same_sent = refl; same_action = refl })

  block_send-Sends :
      (ok : Bool) (s : SBuf) {p u : List ℕ}
      → Carries len s p u
      → Meets (Sends len (at_hand s) (s.sent ++ p) u) (block_send len proto ok s)
  unfolding block_send
  block_send-Sends ok s {p = p} {u = u} c = Meets->>= (queue_send-Meets ok s) λ r q.
      Meets-if r.0 (λ e. meeting (open_still false (same_again (r.1) q)))
        (λ e. fail_send-Sends (at_hand s) (s.sent ++ p) u (r.1))
    where
      same_again : (t : SBuf) → Queued s t → Waits len (at_hand s) (s.sent ++ p) u t
      same_again t q = record {
        pending = p;
        gone = ap (λ z. z ++ p) q.same_sent;
        same_packet = q.same_action;
        carries = Carries-same s t q.same_io q.same_extra c;
      }

  pub waits :
      (s : SBuf) {p u : List ℕ} → Carries len s p u → Waits len (at_hand s) (s.sent ++ p) u s
  waits s {p = p} c = record { pending = p; gone = refl; same_packet = refl; carries = c }

  sending-Sends :
      (avail : ℕ) (s : SBuf) {p u : List ℕ} {more : Outcome (Bool × SBuf)}
      → Carries len s p u
      → Meets (Sends len (at_hand s) (s.sent ++ p) u) more
      → Meets (Sends len (at_hand s) (s.sent ++ p) u) (sending len proto avail s more)
  unfolding sending
  sending-Sends avail s {p = p} {u = u} c m =
      Meets-if (avail == 0) (λ e. meeting (open_still true (waits s c)))
        (λ e.
          Meets-deref s.dst
            λ d f. Meets-if (d == 0) (λ g. fail_send-Sends (at_hand s) (s.sent ++ p) u s) (λ g. m))

  -- What is sent leaves the first queue.
  pub with_sent-Carries :
      (n : ℕ) (s : SBuf) {p u : List ℕ} (c : Carries len s p u)
      → n ≤ length p
      → Carries len (with_sent len proto n c.io s) (drop n p) u
  with_sent-Carries n s c l = record {
    io = _;
    is_io = refl;
    holds = sent-Holds c.holds n l;
    plain = c.plain;
  }

  -- The target has got the bytes that are gone from the queue.
  pub with_sent-gone :
      (n : ℕ) (s : SBuf) {p u : List ℕ} (c : Carries len s p u)
      → n ≤ length p
      → (with_sent len proto n c.io s).sent ++ drop n p ≡ s.sent ++ p
  with_sent-gone n s {p = p} c l =
      append_assoc s.sent (take n (drop c.io.done_pos c.io.buf)) (drop n p)
      ∙ ap (λ z. s.sent ++ (z ++ drop n p)) (to_send c.holds n l)
      ∙ ap (λ z. s.sent ++ z) (take-append-drop n p)

  answered-Sends :
      (answer : SendAnswer) (next : ℕ → Outcome (Bool × SBuf)) (s : SBuf) {p u : List ℕ}
      → Carries len s p u
      → ((n : ℕ) → Meets (Sends len (at_hand s) (s.sent ++ p) u) (next n))
      → Meets (Sends len (at_hand s) (s.sent ++ p) u) (answered len proto answer next s)
  unfolding answered
  answered-Sends broken next s {p = p} {u = u} c k = fail_send-Sends (at_hand s) (s.sent ++ p) u s
  answered-Sends (would_block ok) next s c k = block_send-Sends ok s c
  answered-Sends (wrote n) next s c k = k n

  pub min-le :
      (n : ℕ) (io : IoBuf) {p u : List ℕ}
      → Holds len io p u
      → min n (iobuf_amount_pending io) ≤ length p
  min-le n io h = omega (arith, amount_pending h)

  -- The loop goes on after a write.
  after_write :
      (n : ℕ) (rest : List SendAnswer) (s : SBuf) {p u : List ℕ} (c : Carries len s p u)
      → ((t : SBuf) (p' : List ℕ)
          → Carries len t p' u
          → Meets (Sends len (at_hand t) (t.sent ++ p') u) (send_iobuf_loop len proto rest t))
      → let t : SBuf =
          with_sent len proto
            (min n (iobuf_amount_pending c.io))
            c.io
            (record s { answers = rest }) in
        Meets
          (Sends len (at_hand s) (s.sent ++ p) u)
          (assert_active len t >> send_iobuf_loop len proto rest t)
  after_write n rest s {p = p} {u = u} c k =
      let k' : ℕ = min n (iobuf_amount_pending c.io) in
      let s' : SBuf = record s { answers = rest } in
      let t : SBuf = with_sent len proto k' c.io s' in
      let c' : Carries len s' p u = record {
        io = c.io;
        is_io = c.is_io;
        holds = c.holds;
        plain = c.plain;
      } in
      Meets->>= (assert_active-Meets t) λ z e.
        subst (λ out. Meets (Sends len (at_hand s) out u) (send_iobuf_loop len proto rest t))
          (with_sent-gone k' s' c' (min-le n c.io c.holds))
          (k t (drop k' p) (with_sent-Carries k' s' c' (min-le n c.io c.holds)))

  send_iobuf_loop-Sends :
      (answers : List SendAnswer) (s : SBuf) {p u : List ℕ}
      → Carries len s p u
      → Meets (Sends len (at_hand s) (s.sent ++ p) u) (send_iobuf_loop len proto answers s)
  unfolding send_iobuf_loop
  send_iobuf_loop-Sends [] s {p = p} {u = u} c =
      Meets-deref s.io λ io e. sending-Sends _ s c (block_send-Sends true s c)
  send_iobuf_loop-Sends (answer ∷ rest) s {p = p} {u = u} c = Meets-known _ c.is_io (
      sending-Sends (iobuf_amount_pending c.io) s c (
        answered-Sends answer _ (record s { answers = rest }) (Carries-same s _ refl refl c)
          λ n. after_write n rest s c (λ t p' c'. send_iobuf_loop-Sends rest t c')))

  -- sbuf_send_pending_iobuf, on a buffer that carries some bytes to be sent and some to be parsed,
  -- without extra packets, does not run out of fuel; unless an Assert fails, it closes the socket,
  -- or the target has got the bytes in their order, up to some place behind which the others still
  -- wait, while the bytes to be parsed, and the action of the packet, its bytes that are left and
  -- those of them to be skipped, are as before; given a handler that leaves the buffer, the extra
  -- packets and the target alone, gives a packet that it accepts an action, and closes the socket
  -- after a failed send.
  pub send_pending_iobuf-Sends :
      (s : SBuf) {p u : List ℕ}
      → Carries len s p u
      → Meets (Sends len (at_hand s) (s.sent ++ p) u) (sbuf_send_pending_iobuf len proto s)
  unfolding sbuf_send_pending_iobuf
  send_pending_iobuf-Sends s c = Meets->>= (assert_active-Meets s) λ z e. Meets-deref s.io λ io f.
      Meets->>= (assert_ok (is_some s.dst || iobuf_amount_pending io == 0))
        λ y g. send_iobuf_loop-Sends s.answers s c
