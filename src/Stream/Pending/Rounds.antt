-- ===== src/Stream/Pending/Rounds.antt =====
-- The rounds of `sbuf_process_pending`.
use self_db_mini.Base.{
  ℕ, ◌-◌, ◌<◌, ◌≤◌, ◌≡◌, ◌≢◌, inl, inr, refl, sym, ap, subst, ◌∙◌, Bool, true, ◌&&◌, not, List, [],
  ◌++◌, ltb, leb, ◌==◌, if◌then◌else◌, take, drop, length, length-take, length-drop, drop-take,
  drop-drop, append_assoc, append-nil, arith, Bool-cases,
}
use self_db_mini.Base.Outcome.{
  done, Meets, meeting, stopping, Meets->>=, Meets-if, Meets-weaken, ◌>>=◌,
}
use self_db_mini.Stream.IoBuf.{IoBuf, iobuf_amount_parse, iobuf_tag_send, iobuf_tag_skip}
use self_db_mini.Stream.IoBuf.Holds.{
  Holds, amount_parse, tag_send-Holds, tag_skip-Holds, length_zero,
}
use self_db_mini.Stream.SBuf.{
  ev_pkt_callback, SBuf, Proto, PktAction, act_unset, act_send, act_skip, act_call, skips,
}
use self_db_mini.Stream.Pending.{
  Round, further, enough, need_more, failed, skip_all, skip_then_send, skip_bytes, act_on,
}
use self_db_mini.Stream.Pending.Forwards.{
  Packet, at_hand, Ready, Moves, here, called, sends, skipping, Carries, Forwards, Forwards_trans,
  Paused, open_yet, shut_by_now, Paused-trans, IsPacketHandler, Leaves, Handled, left, shut,
  Meets-known,
}
use self_db_mini.Stream.Pending.Sends.{packet-Handled}

module _ (len : ℕ) (proto : Proto) (handler : IsPacketHandler len proto) where
  -- Bytes go from the second queue of a buffer to the first.
  pub record Tagged (n : ℕ) (p u : List ℕ) (io : IoBuf) : Type 0 where
    pub pos : 0 < n
    pub within_u : n ≤ length u
    pub holds : Holds len io (p ++ take n u) (drop n u)

  pub tag_send-Tagged :
      (n : ℕ) {io : IoBuf} {p u : List ℕ}
      → Holds len io p u
      → Meets (Tagged n p u) (iobuf_tag_send n io)
  unfolding iobuf_tag_send
  tag_send-Tagged n {io = io} {p = p} {u = u} h =
      elim (Bool-cases (ltb 0 n && leb n (iobuf_amount_parse io))) [
        | inr e ↦ rw (e, iobuf_tag_send) stopping
        | inl e ↦
            let l : n ≤ length u = ground (arith, amount_parse h) in
            let pos : 0 < n = ground arith in
            let (io', q, h') = tag_send-Holds h n pos l in
            subst (Meets (Tagged n p u)) (sym q)
              (meeting (record { pos = pos; within_u = l; holds = h' }))
      ]

  -- Bytes are dropped from the second queue, where the first is empty.
  record Dropped (n : ℕ) (p u : List ℕ) (io : IoBuf) : Type 0 where
    pos : 0 < n
    within_u : n ≤ length u
    holds : Holds len io p (drop n u)

  tag_skip-Dropped :
      (n : ℕ) {io : IoBuf} {p u : List ℕ}
      → Holds len io p u
      → Meets (Dropped n p u) (iobuf_tag_skip n io)
  unfolding iobuf_tag_skip
  tag_skip-Dropped n {io = io} {p = p} {u = u} h = elim (Bool-cases (io.parse_pos == io.done_pos)) [
    | inr e ↦ rw (e, iobuf_tag_skip) stopping
    | inl e ↦ elim (Bool-cases (ltb 0 n && leb n (iobuf_amount_parse io))) [
      | inr f ↦ rw (e, f, iobuf_tag_skip) stopping
      | inl f ↦
          let none_yet : p ≡ [] = length_zero p (ground (arith, h.parse_at)) in
          let l : n ≤ length u = ground (arith, amount_parse h) in
          let pos : 0 < n = ground arith in
          let (io', q, h') = tag_skip-Holds h n none_yet pos l in
          subst (Meets (Dropped n p u)) (sym q) (
            meeting (record {
              pos = pos;
              within_u = l;
              holds = subst (λ z. Holds len io' z (drop n u)) (sym none_yet) h';
            }))
    ]
  ]

  -- Of `n` bytes, those that are to be skipped are dropped, and the others are to be sent.
  pub record Skipped (n : ℕ) (s : SBuf) (p u : List ℕ) (t : SBuf) : Type 0 where
    pub pos : 0 < n
    pub within_u : n ≤ length u
    pub carries : Carries len t (p ++ drop s.skip_remain (take n u)) (drop n u)
    pub same_sent : t.sent ≡ s.sent
    pub same_dst : t.dst ≡ s.dst
    pub packet : at_hand t ≡ (s.pkt_action, s.pkt_remain, s.skip_remain - n)

  skip_all-Skipped :
      (n : ℕ) (s : SBuf) {p u : List ℕ} (c : Carries len s p u)
      → n ≤ s.skip_remain
      → Meets (Skipped n s p u) (skip_all len proto n c.io s)
  unfolding skip_all
  skip_all-Skipped n s {p = p} {u = u} c l = Meets->>= (tag_skip-Dropped n c.holds) λ io' d.
      meeting (record {
        pos = d.pos;
        within_u = d.within_u;
        carries = record {
          io = io';
          is_io = refl;
          holds =
              subst (λ z. Holds len io' z (drop n u))
                (sym (ap (λ z. p ++ z) nothing ∙ append-nil p)) d.holds;
          plain = c.plain;
        };
        same_sent = refl;
        same_dst = refl;
        packet = refl;
      })
    where
      nothing : drop s.skip_remain (take n u) ≡ []
      nothing =
          length_zero (drop s.skip_remain (take n u))
            (omega (arith, length-drop s.skip_remain (take n u), length-take n u))

  -- The first of the two steps, which is left out where nothing is to be skipped.
  skip_first :
      (n : ℕ) {io : IoBuf} {p u : List ℕ}
      → Holds len io p u
      → Meets
          (λ io'. Holds len io' p (drop n u) × n ≤ length u)
          (if n == 0 then done io else iobuf_tag_skip n io)
  skip_first n {io = io} {p = p} {u = u} h =
      Meets-if (n == 0)
        (λ e.
          meeting (subst (λ z. Holds len io p (drop z u)) {x = 0} (ground arith) h, ground arith))
        (λ e. Meets-weaken (tag_skip-Dropped n h) (λ io' d. (d.holds, d.within_u)))

  skip_then_send-Skipped :
      (n : ℕ) (s : SBuf) {p u : List ℕ} (c : Carries len s p u)
      → s.skip_remain < n
      → Meets (Skipped n s p u) (skip_then_send len proto n c.io s)
  unfolding skip_then_send
  skip_then_send-Skipped n s {p = p} {u = u} c l =
      Meets->>= (skip_first s.skip_remain c.holds) λ io1 d.
        Meets->>= (tag_send-Tagged (n - s.skip_remain) (d.0)) λ io2 g. meeting (record {
          pos = omega arith;
          within_u = omega (arith, g.within_u, d.1, length-drop s.skip_remain u);
          carries = record {
            io = io2;
            is_io = refl;
            holds =
                subst (λ z. Holds len io2 (p ++ z) (drop n u)) (sym (drop-take s.skip_remain n u))
                  (subst (Holds len io2 (p ++ take (n - s.skip_remain) (drop s.skip_remain u))) rest
                    g.holds);
            plain = c.plain;
          };
          same_sent = refl;
          same_dst = refl;
          packet = ap (λ k. (s.pkt_action, s.pkt_remain, k)) (omega arith);
        })
    where
      rest : drop (n - s.skip_remain) (drop s.skip_remain u) ≡ drop n u
      rest = drop-drop s.skip_remain (n - s.skip_remain) u ∙ ap (λ k. drop k u) (omega arith)

  pub skip_bytes-Skipped :
      (n : ℕ) (s : SBuf) {p u : List ℕ}
      → Carries len s p u
      → Meets (Skipped n s p u) (skip_bytes len proto n s)
  unfolding skip_bytes
  skip_bytes-Skipped n s c = Meets-known _ c.is_io (
      Meets-if (leb n s.skip_remain) (λ e. skip_all-Skipped n s c (ground arith))
        (λ e. skip_then_send-Skipped n s c (ground arith)))

  -- What holds of the next state, by how the round ends.
  pub data RoundOk (k : Packet) (out u : List ℕ) : Round → Type 0 where
    onward :
        {s : SBuf} (f : Forwards len proto k out u s)
        → length f.rest < length u
        → s.pkt_action ≢ act_unset
        → RoundOk k out u (further s)
    over : {s : SBuf} → Forwards len proto k out u s → Ready s → RoundOk k out u (enough s)
    waiting : {s : SBuf} → Paused len proto k out u s → RoundOk k out u (need_more s)
    stuck : {s : SBuf} → Paused len proto k out u s → RoundOk k out u (failed s)

  -- The handler was asked, and did not close the socket.
  pub asked-Carries :
      {s : SBuf} {p u : List ℕ} (c : Carries len s p u) (r : Bool × SBuf)
      → Leaves len s r
      → Carries len (r.1) p u
  asked-Carries c r l = record {
    io = c.io;
    is_io = l.same_io ∙ c.is_io;
    holds = c.holds;
    plain = l.same_extra ∙ c.plain;
  }

  -- It may have made another packet of the one at hand.
  abbrev pub asked-Forwards :
      {s : SBuf} {p u : List ℕ} (c : Carries len s p u) (r : Bool × SBuf)
      → Leaves len s r
      → Moves proto (at_hand s) u [] [] (at_hand (r.1)) u
      → Forwards len proto (at_hand s) (s.sent ++ p) u (r.1)
  asked-Forwards {s = s} {p = p} {u = u} c r l m = record {
    kept = [];
    pending = p;
    rest = u;
    moves = m;
    gone = ap (λ z. z ++ p) l.same_sent ∙ sym (append-nil (s.sent ++ p));
    carries = asked-Carries c r l;
  }

  -- `pkt_remain` is counted down.
  counted : ℕ → SBuf → SBuf
  counted n t = record t { pkt_remain = t.pkt_remain - n }

  moved_to :
      {k k' k2 : Packet} {u kept rest : List ℕ}
      → k2 ≡ k'
      → Moves proto k u kept [] k' rest
      → Moves proto k u kept [] k2 rest
  moved_to {k = k} {u = u} {kept = kept} {rest = rest} e m =
      subst (λ z. Moves proto k u kept [] z rest) (sym e) m

  skip_bytes-RoundOk :
      (n : ℕ) (s t : SBuf) {p u : List ℕ}
      → skips s.pkt_action ≡ true
      → s.pkt_action ≢ act_unset
      → n ≤ s.pkt_remain
      → Skipped n s p u t
      → RoundOk (at_hand s) (s.sent ++ p) u (further (record t { pkt_remain = t.pkt_remain - n }))
  skip_bytes-RoundOk n s t {p = p} {u = u} is a l d =
      onward
        (record {
          kept = drop s.skip_remain (take n u);
          pending = p ++ drop s.skip_remain (take n u);
          rest = drop n u;
          moves =
              subst
                (λ z.
                  Moves proto (at_hand s) u z [] (t.pkt_action, t.pkt_remain - n, t.skip_remain)
                    (drop n u))
                (append-nil (drop s.skip_remain (take n u)))
                (skipping s.pkt_action n s.pkt_remain s.skip_remain is l d.within_u
                  (moved_to (ap (λ k. (k.0, k.1 - n, k.2)) d.packet) here));
          gone =
              ap (λ z. z ++ (p ++ drop s.skip_remain (take n u))) d.same_sent
              ∙ sym (append_assoc s.sent p (drop s.skip_remain (take n u)));
          carries = record {
            io = d.carries.io;
            is_io = d.carries.is_io;
            holds = d.carries.holds;
            plain = d.carries.plain;
          };
        })
        (omega (arith, d.pos, d.within_u, length-drop n u))
        (λ z. a (sym (ap (λ k. k.0) d.packet) ∙ z))

  pub RoundOk-trans :
      {k : Packet} {out u : List ℕ} {s : SBuf} {r : Round} (f : Forwards len proto k out u s)
      → length f.rest ≤ length u
      → RoundOk (at_hand s) (s.sent ++ f.pending) f.rest r
      → RoundOk k out u r
  RoundOk-trans f l (onward g m n) = onward (Forwards_trans len proto f g) (omega (arith, l, m)) n
  RoundOk-trans f l (over g r) = over (Forwards_trans len proto f g) r
  RoundOk-trans f l (waiting w) = waiting (Paused-trans len proto f w)
  RoundOk-trans f l (stuck w) = stuck (Paused-trans len proto f w)

  -- After the callback: nothing has changed, or the socket is shut.
  after_call :
      (n : ℕ) (s : SBuf) {p u : List ℕ} (c : Carries len s p u) (r : Bool × SBuf)
      → s.pkt_action ≡ act_call
      → n ≤ s.pkt_remain
      → (Handled len s r × (r.0 ≡ true → at_hand (r.1) ≡ at_hand s))
        × (proto ev_pkt_callback (take s.pkt_remain u) s ≡ done r)
      → Meets (RoundOk (at_hand s) (s.sent ++ p) u) (
          if not r.0
          then done (need_more (r.1))
          else (skip_bytes len proto n (r.1) >>= λ t.
              done (further (record t { pkt_remain = t.pkt_remain - n }))))
  after_call n s c r call l ((shut f z, same), q) = rw f (meeting (waiting (shut_by_now z)))
  after_call n s {p = p} {u = u} c r call l ((left h, same), q) =
      let m : Moves proto (at_hand s) u [] [] (at_hand (r.1)) u = called r.0 s (r.1) call q here in
      let f : Forwards len proto (at_hand s) (s.sent ++ p) u (r.1) = asked-Forwards c r h m in
      Meets-if (not r.0) (λ e. meeting (waiting (open_yet f)))
        (λ e.
          let k : at_hand (r.1) ≡ at_hand s = same (ground arith) in
          let acts : (r.1).pkt_action ≡ act_call = ap (λ k. k.0) k ∙ call in
          Meets->>= (skip_bytes-Skipped n (r.1) (asked-Carries c r h)) λ t d. meeting (
            RoundOk-trans f (omega arith) (
              skip_bytes-RoundOk n (r.1) t (ap skips acts) (λ z. absurd (cc (acts, z)))
                (omega (arith, l, ap (λ k. k.1) k)) d)))

  pub act_on-RoundOk :
      (action : PktAction) (n : ℕ) (s : SBuf) {p u : List ℕ}
      → Carries len s p u
      → s.pkt_action ≡ action
      → action ≢ act_unset
      → n ≤ s.pkt_remain
      → Meets (RoundOk (at_hand s) (s.sent ++ p) u) (act_on len proto action n s)
  unfolding act_on
  act_on-RoundOk act_unset n s c e a l = absurd (a refl)
  act_on-RoundOk act_send n s {p = p} {u = u} c e a l = Meets-known _ c.is_io (
      Meets->>= (tag_send-Tagged n c.holds) λ io' d. meeting (
        onward
          (record {
            kept = take n u;
            pending = p ++ take n u;
            rest = drop n u;
            moves =
                subst
                  (λ k.
                    Moves proto (k, s.pkt_remain, s.skip_remain) u (take n u) []
                      (k, s.pkt_remain - n, s.skip_remain) (drop n u))
                  (sym e)
                  (subst
                    (λ z.
                      Moves proto (act_send, s.pkt_remain, s.skip_remain) u z []
                        (act_send, s.pkt_remain - n, s.skip_remain) (drop n u))
                    (append-nil (take n u)) (sends n s.pkt_remain s.skip_remain l d.within_u here));
            gone = sym (append_assoc s.sent p (take n u));
            carries = record { io = io'; is_io = refl; holds = d.holds; plain = c.plain };
          })
          (omega (arith, d.pos, d.within_u, length-drop n u)) (λ z. a (sym e ∙ z))))
  act_on-RoundOk act_skip n s c e a l =
      Meets->>= (skip_bytes-Skipped n s c)
        λ t d. meeting (skip_bytes-RoundOk n s t (ap skips e) (λ z. a (sym e ∙ z)) l d)
  act_on-RoundOk act_call n s {p = p} {u = u} c e a l =
      Meets->>= (packet-Handled len proto handler.handler handler.keeps_packet s c)
        λ r h. after_call n s c r e l h
