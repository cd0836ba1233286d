-- ===== src/Stream/Pending/Errors.antt =====
-- Errors of the socket of the target.
use self_db_mini.Base.{
  ℕ, ◌+◌, ◌<◌, ◌≡◌, refl, sym, subst, Bool, false, ◌||◌, some, List, [], ◌∷◌, ◌==◌, length,
  length-drop, arith, is_some, min,
}
use self_db_mini.Base.Outcome.{Outcome, Meets, meeting, Meets->>=, Meets-if, assert_ok}
use self_db_mini.Stream.IoBuf.{iobuf_amount_pending}
use self_db_mini.Stream.IoBuf.Holds.{amount_pending}
use self_db_mini.Stream.SBuf.{ev_send_failed, SBuf, Proto, SendAnswer, wrote, broken}
use self_db_mini.Stream.Sending.{
  fail_send, sending, answered, send_iobuf_loop, sbuf_send_pending_iobuf, with_sent,
}
use self_db_mini.Stream.Pending.Forwards.{Carries, IsHandler, Meets-deref, Meets-known}
use self_db_mini.Stream.Pending.Sends.{
  call_proto-Meets, assert_active-Meets, with_sent-Carries, min-le,
}

-- Some writes, and then an error.
unfoldable pub writes_then_break : List ℕ → List SendAnswer → List SendAnswer
writes_then_break [] rest = broken ∷ rest
writes_then_break (n ∷ ns) rest = wrote n ∷ writes_then_break ns rest

unfoldable pub total : List ℕ → ℕ
total [] = 0
total (n ∷ ns) = n + total ns

-- The result is false, and the socket is closed.
abbrev pub Failed : Bool × SBuf → Type 0
Failed r = (r.0 ≡ false) × ((r.1).sock ≡ 0)

module _ (len : ℕ) (proto : Proto) (handler : IsHandler len proto) where
  fail_send-Failed : (s : SBuf) → Meets Failed (fail_send len proto s)
  unfolding fail_send
  fail_send-Failed s =
      Meets->>=
        (call_proto-Meets len proto handler ev_send_failed s (λ r. (r.1).sock ≡ 0)
          (λ bytes. handler.on_failure bytes s))
        λ r z. meeting (refl, z)

  sending-Failed :
      (avail d : ℕ) (s : SBuf) {more : Outcome (Bool × SBuf)}
      → 0 < avail
      → s.dst ≡ some d
      → Meets Failed more
      → Meets Failed (sending len proto avail s more)
  unfolding sending
  sending-Failed avail d s pos e m =
      Meets-if (avail == 0) (λ z. absurd (ground arith))
        (λ z. Meets-known _ e (Meets-if (d == 0) (λ y. fail_send-Failed s) (λ y. m)))

  loop-Failed :
      (ns : List ℕ) (rest : List SendAnswer) (d : ℕ) (s : SBuf) {p u : List ℕ}
      → Carries len s p u
      → s.dst ≡ some d
      → total ns < length p
      → Meets Failed (send_iobuf_loop len proto (writes_then_break ns rest) s)
  unfolding send_iobuf_loop answered writes_then_break total
  loop-Failed [] rest d s c e l =
      Meets-known _ c.is_io
        (sending-Failed _ d s (omega (arith, amount_pending c.holds)) e (fail_send-Failed _))
  loop-Failed (n ∷ ns) rest d s {p = p} {u = u} c e l = Meets-known _ c.is_io (
      sending-Failed _ d s (omega (arith, amount_pending c.holds)) e (
        Meets->>= (assert_active-Meets len proto handler (with_sent len proto k c.io s')) λ z t.
          loop-Failed ns rest d _
            (with_sent-Carries len proto handler k s' c' (min-le len proto handler n c.io c.holds))
            e (omega (arith, length-drop k p, amount_pending c.holds))))
    where
      k : ℕ
      k = min n (iobuf_amount_pending c.io)

      s' : SBuf
      s' = record s { answers = writes_then_break ns rest }

      c' : Carries len s' p u
      c' = record { io = c.io; is_io = c.is_io; holds = c.holds; plain = c.plain }

  -- sbuf_send_pending_iobuf gives the result false with the socket closed, unless an Assert fails,
  -- where a send to the target fails after writes that were too few for the bytes to be sent, with
  -- a buffer that carries these and without extra packets; given a handler that closes the socket
  -- after a failed send.
  pub send_pending_iobuf-Failed :
      (ns : List ℕ) (rest : List SendAnswer) (d : ℕ) (s : SBuf) {p u : List ℕ}
      → s.answers ≡ writes_then_break ns rest
      → Carries len s p u
      → s.dst ≡ some d
      → total ns < length p
      → Meets Failed (sbuf_send_pending_iobuf len proto s)
  unfolding sbuf_send_pending_iobuf
  send_pending_iobuf-Failed ns rest d s a c e l =
      Meets->>= (assert_active-Meets len proto handler s) λ z t. Meets-deref s.io λ io f.
        Meets->>= (assert_ok (is_some s.dst || iobuf_amount_pending io == 0)) λ y g.
          subst (λ o. Meets Failed (send_iobuf_loop len proto o s)) (sym a)
            (loop-Failed ns rest d s c e l)
