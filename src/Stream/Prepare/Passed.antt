-- ===== src/Stream/Prepare/Passed.antt =====
-- sbuf_prepare_send and its like, and the round of sbuf_process_pending that comes behind them.
use self_db_mini.Base.{
  ℕ, ◌-◌, ◌≤◌, ◌≡◌, refl, sym, ap, subst, ◌∙◌, Option, some, List, ◌++◌, ltb, leb, ◌==◌, take, drop,
  length, length-drop, length-take, arith, min, append-nil,
}
use self_db_mini.Base.Outcome.{Outcome, assert_ok, assert-Meets, Meets, meeting, Meets->>=, ◌>>=◌}
use self_db_mini.Stream.IoBuf.{iobuf_sane}
use self_db_mini.Stream.IoBuf.Holds.{length_zero}
use self_db_mini.Stream.SBuf.{SBuf, Proto, act_send, act_skip}
use self_db_mini.Stream.Pending.{Round, further, act_on}
use self_db_mini.Stream.Pending.Forwards.{Carries, IsPacketHandler, Meets-known}
use self_db_mini.Stream.Pending.Rounds.{skip_bytes-Skipped, tag_send-Tagged}
use self_db_mini.Stream.Prepare.{
  at_packet_start, sbuf_prepare_send, sbuf_prepare_skip, sbuf_prepare_skip_then_send_leftover,
}

module _ (len : ℕ) (proto : Proto) (handler : IsPacketHandler len proto) where
  -- The packet is over: `kept` waits to be sent behind `pending`, to the target `dst`, and the
  -- bytes behind the packet are to be parsed.
  pub record Passed (dst : Option ℕ) (waiting unparsed : List ℕ) (round : Round) : Type 0 where
    pub next : SBuf
    pub goes_on : round ≡ further next
    pub is_over : next.pkt_remain ≡ 0
    pub all_skipped : next.pkt_action ≡ act_skip → next.skip_remain ≡ 0
    pub goes_to : next.dst ≡ dst
    pub carries : Carries len next waiting unparsed

  -- What the round does with the packet at hand, where `avail` bytes are to be parsed.
  unfoldable pub act_on_packet : ℕ → SBuf → Outcome Round
  unfolding act_on
  act_on_packet avail s = act_on len proto s.pkt_action (min avail s.pkt_remain) s

  started-Meets : (s : SBuf) → Meets (λ z. Unit {0}) (at_packet_start len s)
  started-Meets s =
      Meets->>= (Meets->>= (assert_ok (ltb 0 s.sock)) λ z e. assert_ok (iobuf_sane len s.io))
        λ z e. assert_ok (s.pkt_remain == 0)

  -- A packet that is skipped in part.
  act_skip-Passed :
      (n : ℕ) (s : SBuf) {p u : List ℕ}
      → Carries len s p u
      → s.pkt_action ≡ act_skip
      → s.pkt_remain ≡ n
      → n ≤ length u
      → s.skip_remain ≤ n
      → Meets
          (Passed s.dst (p ++ drop s.skip_remain (take n u)) (drop n u))
          (act_on len proto act_skip n s)
  unfolding act_on
  act_skip-Passed n s c a r l k = Meets->>= (skip_bytes-Skipped len proto handler n s c) λ t d.
      meeting (record {
        next = record t { pkt_remain = t.pkt_remain - n };
        goes_on = refl;
        is_over = omega (arith, ap (λ q. q.1) d.packet, r);
        all_skipped = λ z. omega (arith, ap (λ q. q.2) d.packet, k);
        goes_to = d.same_dst;
        carries = record {
          io = d.carries.io;
          is_io = d.carries.is_io;
          holds = d.carries.holds;
          plain = d.carries.plain;
        };
      })

  act_send-Passed :
      (n : ℕ) (s : SBuf) {p u : List ℕ}
      → Carries len s p u
      → s.pkt_action ≡ act_send
      → s.pkt_remain ≡ n
      → Meets (Passed s.dst (p ++ take n u) (drop n u)) (act_on len proto act_send n s)
  unfolding act_on
  act_send-Passed n s c a r = Meets-known _ c.is_io (
      Meets->>= (tag_send-Tagged len proto handler n c.holds) λ io' d. meeting (record {
        next = record s { io = some io'; pkt_remain = s.pkt_remain - n };
        goes_on = refl;
        is_over = omega (arith, r);
        all_skipped = λ z. absurd (cc (a, z));
        goes_to = refl;
        carries = record { io = io'; is_io = refl; holds = d.holds; plain = c.plain };
      }))

  same-Carries :
      (s t : SBuf) {p u : List ℕ}
      → t.io ≡ s.io
      → t.extra_packets ≡ s.extra_packets
      → Carries len s p u
      → Carries len t p u
  same-Carries s t e f c = record {
    io = c.io;
    is_io = e ∙ c.is_io;
    holds = c.holds;
    plain = f ∙ c.plain;
  }

  prepare_send-Passed :
      (dst : Option ℕ) (n : ℕ) (s : SBuf) {p u : List ℕ}
      → Carries len s p u
      → n ≤ length u
      → Meets
          (Passed dst (p ++ take n u) (drop n u))
          (sbuf_prepare_send len dst n s >>= act_on_packet (length u))
  unfolding sbuf_prepare_send act_on_packet
  prepare_send-Passed dst n s {p = p} {u = u} c l =
      Meets->>= {P = λ w. w ≡ t}
        (Meets->>= (started-Meets s) λ z e. Meets->>= (assert_ok (ltb 0 n)) λ y f. meeting refl)
        λ w q.
          subst (λ w. Meets (Passed dst (p ++ take n u) (drop n u)) (act_on_packet (length u) w))
            (sym q)
            (subst
              (λ m. Meets (Passed dst (p ++ take n u) (drop n u)) (act_on len proto act_send m t))
              {x = n} (omega arith) (act_send-Passed n t (same-Carries s t refl refl c) refl refl))
    where
      t : SBuf
      t = record s { pkt_action = act_send; pkt_remain = n; dst = dst }

  prepare_leftover-Passed :
      (dst : Option ℕ) (skip n : ℕ) (s : SBuf) {p u : List ℕ}
      → Carries len s p u
      → n ≤ length u
      → Meets
          (Passed dst (p ++ drop skip (take n u)) (drop n u))
          (sbuf_prepare_skip_then_send_leftover len dst skip n s >>= act_on_packet (length u))
  unfolding sbuf_prepare_skip_then_send_leftover act_on_packet
  prepare_leftover-Passed dst skip n s {p = p} {u = u} c l =
      Meets->>= {P = λ w. (w ≡ t) × skip ≤ n}
        (Meets->>= (started-Meets s) λ z e.
          Meets->>= (assert_ok (ltb 0 n))
            λ y f. Meets->>= (assert-Meets (leb skip n)) λ x g. meeting (refl, ground (arith, g)))
        λ w q.
          subst
            (λ w.
              Meets (Passed dst (p ++ drop skip (take n u)) (drop n u))
                (act_on_packet (length u) w))
            (sym (q.0))
            (subst
              (λ m.
                Meets (Passed dst (p ++ drop skip (take n u)) (drop n u))
                  (act_on len proto act_skip m t))
              {x = n} (omega arith)
              (act_skip-Passed n t (same-Carries s t refl refl c) refl refl l (q.1)))
    where
      t : SBuf
      t = record s { pkt_action = act_skip; pkt_remain = n; skip_remain = skip; dst = dst }

  prepare_skip-Passed :
      (n : ℕ) (s : SBuf) {p u : List ℕ}
      → Carries len s p u
      → n ≤ length u
      → Meets (Passed s.dst p (drop n u)) (sbuf_prepare_skip len n s >>= act_on_packet (length u))
  unfolding sbuf_prepare_skip act_on_packet
  prepare_skip-Passed n s {p = p} {u = u} c l =
      Meets->>= {P = λ w. w ≡ t}
        (Meets->>= (started-Meets s) λ z e. Meets->>= (assert_ok (ltb 0 n)) λ y f. meeting refl)
        λ w q.
          subst (λ w. Meets (Passed s.dst p (drop n u)) (act_on_packet (length u) w)) (sym q)
            (subst
              (λ w.
                Meets (Passed s.dst w (drop n u)) (act_on len proto act_skip (min (length u) n) t))
              nothing
              (subst
                (λ m.
                  Meets (Passed s.dst (p ++ drop n (take n u)) (drop n u))
                    (act_on len proto act_skip m t))
                {x = n} (omega arith)
                (act_skip-Passed n t (same-Carries s t refl refl c) refl refl l (omega arith))))
    where
      t : SBuf
      t = record s { pkt_action = act_skip; skip_remain = n; pkt_remain = n }

      nothing : p ++ drop n (take n u) ≡ p
      nothing =
          ap (λ z. p ++ z)
            (length_zero (drop n (take n u))
              (omega (arith, length-drop n (take n u), length-take n u)))
          ∙ append-nil p

  -- After sbuf_prepare_send, sbuf_prepare_skip or sbuf_prepare_skip_then_send_leftover for a
  -- number of bytes, on a buffer that carries some bytes to be sent and at least so many to be
  -- parsed, without extra packets, the part of a round of sbuf_process_pending that acts on a
  -- packet gets over the whole packet, unless an Assert fails: behind the bytes to be sent there
  -- wait all of its bytes, none, or those behind the ones to be skipped, for the target that was
  -- given, or the same target as before where the packet is skipped; none is left to be skipped
  -- where the action is to skip; and the bytes behind the packet are to be parsed; given a handler
  -- as for sbuf_process_pending.
  pub prepare_cases :
      (dst : Option ℕ) (skip n : ℕ) (s : SBuf) {p u : List ℕ}
      → Carries len s p u
      → n ≤ length u
      → Meets
          (Passed dst (p ++ take n u) (drop n u))
          (sbuf_prepare_send len dst n s >>= act_on_packet (length u))
        × Meets (Passed s.dst p (drop n u)) (sbuf_prepare_skip len n s >>= act_on_packet (length u))
        × Meets
            (Passed dst (p ++ drop skip (take n u)) (drop n u))
            (sbuf_prepare_skip_then_send_leftover len dst skip n s >>= act_on_packet (length u))
  prepare_cases dst skip n s c l = (
    prepare_send-Passed dst n s c l,
    prepare_skip-Passed n s c l,
    prepare_leftover-Passed dst skip n s c l,
  )
