-- ===== src/Stream/Pending/Delivery.antt =====
-- A target that takes all that is sent.
use self_db_mini.Base.{
  ℕ, ◌<◌, ◌≤◌, ◌≡◌, refl, sym, subst, ap, ◌∙◌, Bool, true, false, ◌||◌, some, Option, List, [], ◌∷◌,
  ◌++◌, ltb, ◌==◌, length, drop, length-drop, arith, is_some, min, append-nil,
}
use self_db_mini.Base.Outcome.{Outcome, assert, Gives, giving, Gives-if, Gives-assert, ◌>>=◌, ◌>>◌}
use self_db_mini.Stream.IoBuf.{iobuf_amount_pending, iobuf_sane}
use self_db_mini.Stream.IoBuf.Holds.{amount_pending, sane, length_zero}
use self_db_mini.Stream.SBuf.{SBuf, Proto, SendAnswer, wrote, deref, assert_active}
use self_db_mini.Stream.Sending.{
  sending, answered, send_iobuf_loop, sbuf_send_pending_iobuf, with_sent,
}
use self_db_mini.Stream.Pending.Forwards.{Carries, IsHandler}
use self_db_mini.Stream.Pending.Sends.{with_sent-Carries, with_sent-gone, min-le}
use self_db_mini.Stream.Pending.Errors.{total}

-- Writes of so many bytes, and then what may follow.
unfoldable pub writes_before : List ℕ → List SendAnswer → List SendAnswer
writes_before [] rest = rest
writes_before (n ∷ ns) rest = wrote n ∷ writes_before ns rest

Gives-known {ℓ κ ι} :
    {A : Type ℓ} {B : Type κ} {P : B → Type ι} {o : Option A} {a : A} (f : A → Outcome B)
    → o ≡ some a
    → Gives P (f a)
    → Gives P (deref o >>= f)
Gives-known {P = P} f e m = subst (λ o. Gives P (deref o >>= f)) (sym e) m

both_pass :
    {P : Bool × SBuf → Type 0} (b d : Bool) (m : Outcome (Bool × SBuf))
    → b ≡ true
    → d ≡ true
    → Gives P m
    → Gives P ((assert b >> assert d) >> m)
both_pass true d m e f g = Gives-assert d f g
both_pass false d m e f g = absurd (cc e)

module _ (len : ℕ) (proto : Proto) (handler : IsHandler len proto) where
  -- The target has got all of `out`, and nothing waits.
  pub record Delivered (out u : List ℕ) (r : Bool × SBuf) : Type 0 where
    pub succeeds : r.0 ≡ true
    pub all_sent : (r.1).sent ≡ out
    pub carries : Carries len (r.1) [] u

  nothing_left :
      (s : SBuf) {p u : List ℕ} (c : Carries len s p u)
      → length p ≡ 0
      → Delivered (s.sent ++ p) u (true, s)
  nothing_left s {p = p} {u = u} c e = record {
    succeeds = refl;
    all_sent = sym (ap (λ z. s.sent ++ z) (length_zero p e) ∙ append-nil s.sent);
    carries = subst (λ z. Carries len s z u) (length_zero p e) c;
  }

  active-Gives :
      {P : Bool × SBuf → Type 0} (s : SBuf) {p u : List ℕ} {m : Outcome (Bool × SBuf)}
      → Carries len s p u
      → 0 < s.sock
      → Gives P m
      → Gives P (assert_active len s >> m)
  active-Gives s {m = m} c pos g =
      both_pass (ltb 0 s.sock) (iobuf_sane len s.io) m (ground arith)
        (ap (iobuf_sane len) c.is_io ∙ sane c.holds) g

  sending-Gives :
      (d : ℕ) (s : SBuf) {p u : List ℕ} {more : Outcome (Bool × SBuf)} (c : Carries len s p u)
      → s.dst ≡ some d
      → 0 < d
      → (0 < length p → Gives (Delivered (s.sent ++ p) u) more)
      → Gives (Delivered (s.sent ++ p) u) (sending len proto (iobuf_amount_pending c.io) s more)
  unfolding sending
  sending-Gives d s c e pos k =
      Gives-if (iobuf_amount_pending c.io == 0)
        (λ z. giving (nothing_left s c (ground (arith, amount_pending c.holds))))
        (λ z. Gives-known _ e (
          Gives-if (d == 0) (λ y. absurd (ground arith))
            (λ y. k (ground (arith, amount_pending c.holds)))))

  loop-Gives :
      (ns : List ℕ) (rest : List SendAnswer) (d : ℕ) (s : SBuf) {p u : List ℕ}
      → Carries len s p u
      → s.dst ≡ some d
      → 0 < d
      → 0 < s.sock
      → length p ≤ total ns
      → Gives (Delivered (s.sent ++ p) u) (send_iobuf_loop len proto (writes_before ns rest) s)
  unfolding send_iobuf_loop answered writes_before total
  loop-Gives [] [] d s c e pos q l =
      Gives-known _ c.is_io (sending-Gives d s c e pos (λ z. absurd (omega arith)))
  loop-Gives [] (answer ∷ rest) d s c e pos q l =
      Gives-known _ c.is_io (sending-Gives d s c e pos (λ z. absurd (omega arith)))
  loop-Gives (n ∷ ns) rest d s {p = p} {u = u} c e pos q l = Gives-known _ c.is_io (
      sending-Gives d s c e pos λ z. active-Gives t c2 q (
        subst (λ out. Gives (Delivered out u) (send_iobuf_loop len proto (writes_before ns rest) t))
          (with_sent-gone len proto handler k s' c' (min-le len proto handler n c.io c.holds))
          (loop-Gives ns rest d t c2 e pos q
            (omega (arith, length-drop k p, amount_pending c.holds)))))
    where
      k : ℕ
      k = min n (iobuf_amount_pending c.io)

      s' : SBuf
      s' = record s { answers = writes_before ns rest }

      t : SBuf
      t = with_sent len proto k c.io s'

      c' : Carries len s' p u
      c' = record { io = c.io; is_io = c.is_io; holds = c.holds; plain = c.plain }

      c2 : Carries len t (drop k p) u
      c2 = with_sent-Carries len proto handler k s' c' (min-le len proto handler n c.io c.holds)

  -- sbuf_send_pending_iobuf returns true, with no Assert that fails, and the target has got all
  -- bytes that were to be sent, behind those before, while the bytes to be parsed are as before:
  -- on an open socket whose target is open too, with a buffer that carries these bytes and without
  -- extra packets, where the target takes as many bytes or more in its next writes, be these short
  -- as they may; given a handler that leaves the buffer, the extra packets and the target alone,
  -- gives a packet that it accepts an action, and closes the socket after a failed send.
  pub send_pending_iobuf-Gives :
      (ns : List ℕ) (rest : List SendAnswer) (d : ℕ) (s : SBuf) {p u : List ℕ}
      → s.answers ≡ writes_before ns rest
      → Carries len s p u
      → s.dst ≡ some d
      → 0 < d
      → 0 < s.sock
      → length p ≤ total ns
      → Gives (Delivered (s.sent ++ p) u) (sbuf_send_pending_iobuf len proto s)
  unfolding sbuf_send_pending_iobuf
  send_pending_iobuf-Gives ns rest d s {p = p} {u = u} a c e pos q l = active-Gives s c q (
      Gives-known _ c.is_io (
        Gives-assert (is_some s.dst || iobuf_amount_pending c.io == 0) (ground (arith, e)) (
          subst (λ o. Gives (Delivered (s.sent ++ p) u) (send_iobuf_loop len proto o s)) (sym a)
            (loop-Gives ns rest d s c e pos q l))))
