-- ===== src/Stream/Receive/Finish.antt =====
-- The steps of a round of the main loop: making room, receiving, and the end of the loop.
use self_db_mini.Base.{
  ℕ, ◌-◌, ◌≤◌, ◌≡◌, ◌⊎◌, inl, refl, sym, ap, subst, ◌∙◌, Bool, true, false, ◌&&◌, none, some, List,
  [], ◌++◌, ltb, if◌then◌else◌, if_intro, take, length-take, arith, is_empty, append-nil,
}
use self_db_mini.Base.Outcome.{done, Meets, meeting, Meets->>=, Meets-if, Meets-weaken}
use self_db_mini.Stream.IoBuf.{IoBuf, iobuf_empty, iobuf_amount_recv, iobuf_try_resync}
use self_db_mini.Stream.IoBuf.Holds.{Holds, amount_recv, try_resync-Holds, length_zero}
use self_db_mini.Stream.SBuf.{ev_recv_failed, ev_flush, SBuf, Proto, sbuf_small_pkt, act_skip}
use self_db_mini.Stream.Pending.Forwards.{
  Packet, at_hand, Moves, here, Carries, Forwards_refl, Meets-known,
}
use self_db_mini.Stream.Pending.Sends.{call_proto-Meets, assert_active-Meets}
use self_db_mini.Stream.Receive.{
  RecvAnswer, arrived, nothing_yet, broken_off, LoopEnv, place, fail_recv, received,
  sbuf_actual_recv, sbuf_try_resync, flush_event, start_handshake, finish_loop, is_do_handshake,
  sbuf_is_empty,
}
use self_db_mini.Stream.Receive.Streams.{
  Took, took, took_none, place-Holds, Streams, freed, shut_down, Forwards-Streams, Quiet,
  Quiet-Streams, IsLoopHandler,
}

module _ (len : ℕ) (proto : Proto) (env : LoopEnv) (ok : IsLoopHandler len proto env) where
  -- The state carries the same, and the packet at hand is the same.
  pub record Same (s : SBuf) (p u : List ℕ) (t : SBuf) : Type 0 where
    pub carries : Carries len t p u
    pub same_sent : t.sent ≡ s.sent
    pub same_packet : at_hand t ≡ at_hand s

  resync_io :
      (s : SBuf) (io : IoBuf) {p u : List ℕ} (c : Carries len s p u)
      → c.io ≡ io
      → Carries len (record s { io = some (iobuf_try_resync sbuf_small_pkt io) }) p u
  resync_io s io {p = p} {u = u} c e = record {
    io = iobuf_try_resync sbuf_small_pkt io;
    is_io = refl;
    holds =
        subst (λ i. Holds len (iobuf_try_resync sbuf_small_pkt i) p u) e
          (try_resync-Holds c.holds sbuf_small_pkt);
    plain = c.plain;
  }

  pub try_resync-Same :
      (s : SBuf) {p u : List ℕ}
      → Carries len s p u
      → Meets (Same s p u) (sbuf_try_resync len proto false s)
  unfolding sbuf_try_resync
  try_resync-Same s {p = p} {u = u} c =
      Meets->>= (assert_active-Meets len proto ((ok.handler).handler) s) λ z e.
        subst
          (λ o. Meets (Same s p u) (
            done (elim o [
              | none ↦ s
              | some io ↦
                  if false && iobuf_empty (some io)
                  then record s { io = none }
                  else record s { io = some (iobuf_try_resync sbuf_small_pkt io) }
            ])))
          (sym c.is_io)
          (meeting
            (record { carries = resync_io s c.io c refl; same_sent = refl; same_packet = refl }))

  nothing_held :
      {io : IoBuf} {p u : List ℕ}
      → Holds len io p u
      → iobuf_empty (some io) ≡ true
      → (p ≡ []) × (u ≡ [])
  unfolding iobuf_empty
  nothing_held {p = p} {u = u} h e = (
    length_zero p (ground (arith, h.parse_at, h.recv_at)),
    length_zero u (ground (arith, h.parse_at, h.recv_at)),
  )

  release-Streams :
      (s : SBuf) {p u : List ℕ}
      → Carries len s p u
      → Meets (Streams len proto (at_hand s) (s.sent ++ p) u []) (sbuf_try_resync len proto true s)
  unfolding sbuf_try_resync
  release-Streams s {p = p} {u = u} c =
      Meets->>= (assert_active-Meets len proto ((ok.handler).handler) s) λ z e.
        subst
          (λ o. Meets (Streams len proto (at_hand s) (s.sent ++ p) u []) (
            done (elim o [
              | none ↦ s
              | some io ↦
                  if true && iobuf_empty (some io)
                  then record s { io = none }
                  else record s { io = some (iobuf_try_resync sbuf_small_pkt io) }
            ])))
          (sym c.is_io)
          (meeting (
            if_intro (Streams len proto (at_hand s) (s.sent ++ p) u []) (iobuf_empty (some c.io)) _
              _
              (λ f.
                let (no_p, no_u) = nothing_held c.holds f in
                freed [] (at_hand s)
                  (subst (λ z. Moves proto (at_hand s) z [] [] (at_hand s) []) (sym no_u) here) refl
                  c.plain
                  (sym (append-nil (s.sent ++ p) ∙ ap (λ z. s.sent ++ z) no_p ∙ append-nil s.sent)))
              (λ f.
                Forwards-Streams len proto (Forwards_refl len proto (resync_io s c.io c refl)))))

  pub fail_recv-shut :
      (s : SBuf)
      → Meets (λ (r : Bool × SBuf). (r.0 ≡ false) × ((r.1).sock ≡ 0)) (fail_recv len proto s)
  unfolding fail_recv
  fail_recv-shut s =
      Meets->>=
        (call_proto-Meets len proto ((ok.handler).handler) ev_recv_failed s (λ r. (r.1).sock ≡ 0)
          (λ bytes. ok.on_recv_failure bytes s))
        λ r z. meeting (refl, z)

  -- What an attempt to receive comes to.
  pub data Fetched (answer : RecvAnswer) (s : SBuf) (p u : List ℕ) : Bool × SBuf → Type 0 where
    got_bytes :
        (bytes : List ℕ) {t : SBuf}
        → Took answer bytes
        → Same s p (u ++ bytes) t
        → Fetched answer s p u (true, t)
    lost : {t : SBuf} → t.sock ≡ 0 → Fetched answer s p u (false, t)

  pub unchanged :
      (answer : RecvAnswer) (s : SBuf) {p u : List ℕ}
      → Carries len s p u
      → Fetched answer s p u (true, s)
  unchanged answer s {p = p} {u = u} c = got_bytes [] took_none (record {
    carries = subst (λ z. Carries len s p z) (sym (append-nil u)) c;
    same_sent = refl;
    same_packet = refl;
  })

  pub failure :
      (answer : RecvAnswer) (s : SBuf) {p u : List ℕ}
      → Meets (Fetched answer s p u) (fail_recv len proto s)
  failure answer s {p = p} {u = u} = Meets-weaken (fail_recv-shut s) shut
    where
      shut : (r : Bool × SBuf) → (r.0 ≡ false) × ((r.1).sock ≡ 0) → Fetched answer s p u r
      shut (false, t) z = lost (z.1)
      shut (true, t) z = absurd (cc (z.0))

  received-Fetched :
      (n : ℕ) (answer : RecvAnswer) (s : SBuf) {p u : List ℕ} (c : Carries len s p u)
      → n ≤ len - c.io.recv_pos
      → Meets (Fetched answer s p u) (received len proto n answer c.io s)
  unfolding received
  received-Fetched n (arrived bytes) s c l =
      Meets-if (is_empty (take n bytes)) (λ e. failure (arrived bytes) s)
        (λ e. meeting (
          got_bytes (take n bytes) (took n) (record {
            carries = record {
              io = place len proto (take n bytes) c.io;
              is_io = refl;
              holds =
                  place-Holds len proto (take n bytes) c.holds (omega (arith, length-take n bytes));
              plain = c.plain;
            };
            same_sent = refl;
            same_packet = refl;
          })))
  received-Fetched n nothing_yet s c l = meeting (unchanged nothing_yet s c)
  received-Fetched n broken_off s c l = failure broken_off s

  -- sbuf_actual_recv
  pub actual_recv-Fetched :
      (n : ℕ) (answer : RecvAnswer) (s : SBuf) {p u : List ℕ}
      → Carries len s p u
      → Meets (Fetched answer s p u) (sbuf_actual_recv len proto n answer s)
  unfolding sbuf_actual_recv
  actual_recv-Fetched n answer s c = Meets-known _ c.is_io (
      received-Fetched _ answer s c (
        if_intro (λ k. k ≤ len - c.io.recv_pos) (ltb (iobuf_amount_recv len c.io) n) _ _
          (λ e. omega (arith, amount_recv c.holds)) (λ e. ground (arith, amount_recv c.holds))))

  flush_event-Streams :
      (s : SBuf) {k : Packet} {out u got : List ℕ}
      → Streams len proto k out u got s
      → Meets (Streams len proto k out u got) (flush_event len proto env s)
  unfolding flush_event
  flush_event-Streams s st =
      Meets-if (sbuf_is_empty len proto s)
        (λ e.
          Meets->>=
            (call_proto-Meets len proto ((ok.handler).handler) ev_flush s
              (λ r. Quiet len s (r.1) ⊎ ((r.1).sock ≡ 0)) (λ bytes. ok.on_flush bytes s))
            λ r q. meeting (Quiet-Streams len proto q st))
        (λ e. meeting st)

  with_action : (s : SBuf) → Quiet len s (record s { pkt_action = act_skip })
  with_action s = record {
    same_io = refl;
    same_extra = refl;
    same_sent = refl;
    stays_shut = λ z. z;
  }

  start_handshake-Streams :
      (s : SBuf) {k : Packet} {out u got : List ℕ}
      → Streams len proto k out u got s
      → Meets (Streams len proto k out u got) (start_handshake len proto env s)
  unfolding start_handshake
  start_handshake-Streams s st =
      Meets-if (is_do_handshake s.tls_state)
        (λ e.
          Meets-if ((env.handle_tls_handshake s').0)
            (λ f. meeting (
              Quiet-Streams len proto (ok.on_handshake s')
                (Quiet-Streams len proto (inl (with_action s)) st)))
            (λ f.
              Meets->>=
                (call_proto-Meets len proto ((ok.handler).handler) ev_recv_failed
                  ((env.handle_tls_handshake s').1) (λ r. (r.1).sock ≡ 0)
                  (λ bytes. ok.on_recv_failure bytes ((env.handle_tls_handshake s').1)))
                λ r z. meeting (shut_down z)))
        (λ e. meeting st)
    where
      s' : SBuf
      s' = record s { pkt_action = act_skip }

  pub finish_loop-Streams :
      (s : SBuf) {p u : List ℕ}
      → Carries len s p u
      → Meets (Streams len proto (at_hand s) (s.sent ++ p) u []) (finish_loop len proto env s)
  unfolding finish_loop
  finish_loop-Streams s c =
      Meets->>= (release-Streams s c)
        λ s1 st1. Meets->>= (flush_event-Streams s1 st1) λ s2 st2. start_handshake-Streams s2 st2
