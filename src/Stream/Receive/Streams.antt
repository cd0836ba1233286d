-- ===== src/Stream/Receive/Streams.antt =====
-- The bytes that come while the main loop runs, and where they are.
use self_db_mini.Base.{
  ℕ, ◌+◌, ◌-◌, ◌^◌, ◌<◌, ◌≤◌, ◌≡◌, ◌⊎◌, inl, inr, sym, ap, ◌∙◌, Bool, none, some, List, [], ◌∷◌,
  ◌++◌, take, drop, length, length-append, length-drop, take-append, append_assoc, arith,
}
use self_db_mini.Base.Outcome.{Meets}
use self_db_mini.Stream.IoBuf.{IoBuf}
use self_db_mini.Stream.IoBuf.Holds.{Holds, recv-le}
use self_db_mini.Stream.SBuf.{ev_recv_failed, ev_flush, SBuf, Proto}
use self_db_mini.Stream.Pending.Forwards.{
  Packet, at_hand, Moves, Moves-trans, comes, Carries, Forwards, IsPacketHandler,
}
use self_db_mini.Stream.Receive.{RecvAnswer, arrived, LoopEnv, first_answer, place}

-- What a round takes of its answer.
pub data Took : RecvAnswer → List ℕ → Type 0 where
  took_none : {answer : RecvAnswer} → Took answer []
  took : (n : ℕ) {bytes : List ℕ} → Took (arrived bytes) (take n bytes)

-- What the rounds take of their answers, in order.
pub data Arrives : List RecvAnswer → List ℕ → Type 0 where
  no_more : {answers : List RecvAnswer} → Arrives answers []
  next :
      {answer : RecvAnswer} {answers : List RecvAnswer} {bytes got : List ℕ}
      → Took answer bytes
      → Arrives answers got
      → Arrives (answer ∷ answers) (bytes ++ got)

pub first-Arrives :
    (len : ℕ) (proto : Proto) (env : LoopEnv) (answers : List RecvAnswer) {bytes got : List ℕ}
    → Took (first_answer len proto env answers) bytes
    → Arrives (drop 1 answers) got
    → Arrives answers (bytes ++ got)
first-Arrives len proto env [] took_none a = a
first-Arrives len proto env (answer ∷ answers) t a = next t a

module _ (len : ℕ) where
  -- Bytes that are received stand behind those that are to be parsed.
  pub place-Holds :
      (proto : Proto) (bytes : List ℕ) {io : IoBuf} {p u : List ℕ}
      → Holds len io p u
      → length bytes ≤ len - io.recv_pos
      → Holds len (place len proto bytes io) p (u ++ bytes)
  unfolding place
  place-Holds proto bytes {io = io} {p = p} {u = u} h l = record {
    gone = h.gone;
    free = rest;
    in_order = ordered;
    size = omega (
      arith,
      ap length ordered,
      length-append h.gone (p ++ ((u ++ bytes) ++ rest)),
      length-append p ((u ++ bytes) ++ rest),
      length-append (u ++ bytes) rest,
      length-append u bytes,
      length-drop (io.recv_pos + length bytes) io.buf,
      h.size,
      h.done_at,
      h.parse_at,
      h.recv_at,
      recv-le h,
    );
    fits = h.fits;
    done_at = h.done_at;
    parse_at = h.parse_at;
    recv_at = omega (arith, h.recv_at, length-append u bytes, h.fits, recv-le h);
  }
    where
      rest : List ℕ
      rest = drop (io.recv_pos + length bytes) io.buf

      front : List ℕ
      front = h.gone ++ (p ++ u)

      behind : io.buf ≡ front ++ h.free
      behind =
          h.in_order
          ∙ ap (λ z. h.gone ++ z) (sym (append_assoc p u h.free))
          ∙ sym (append_assoc h.gone (p ++ u) h.free)

      in_front : take io.recv_pos io.buf ≡ front
      in_front =
          ap (take io.recv_pos) behind
          ∙ take-append io.recv_pos front h.free (
              omega (
                arith,
                h.done_at,
                h.parse_at,
                h.recv_at,
                length-append h.gone (p ++ u),
                length-append p u,
              ))

      ordered : take io.recv_pos io.buf ++ (bytes ++ rest) ≡ h.gone ++ (p ++ ((u ++ bytes) ++ rest))
      ordered =
          ap (λ z. z ++ (bytes ++ rest)) in_front
          ∙ append_assoc h.gone (p ++ u) (bytes ++ rest)
          ∙ ap (λ z. h.gone ++ z) (append_assoc p u (bytes ++ rest))
          ∙ ap (λ z. h.gone ++ (p ++ z)) (sym (append_assoc u bytes rest))

  -- The buffer, the extra packets and the target are left alone, or the socket is closed.
  pub record Quiet (s t : SBuf) : Type 0 where
    pub same_io : t.io ≡ s.io
    pub same_extra : t.extra_packets ≡ s.extra_packets
    pub same_sent : t.sent ≡ s.sent
    pub stays_shut : s.sock ≡ 0 → t.sock ≡ 0

  module _ (proto : Proto) where
    -- From a packet, `out`, sent or to be sent, and `unparsed` bytes, with `got` bytes that come
    -- in: the buffer carries what is left, or is freed where nothing is left, or the socket was
    -- closed.
    pub data Streams (k : Packet) (out unparsed got : List ℕ) (s : SBuf) : Type 0 where
      carried :
          (kept pending rest : List ℕ) (k' : Packet)
          → Moves proto k unparsed kept got k' rest
          → s.sent ++ pending ≡ out ++ kept
          → Carries len s pending rest
          → Streams k out unparsed got s
      freed :
          (kept : List ℕ) (k' : Packet)
          → Moves proto k unparsed kept got k' []
          → s.io ≡ none
          → s.extra_packets ≡ []
          → s.sent ≡ out ++ kept
          → Streams k out unparsed got s
      shut_down : s.sock ≡ 0 → Streams k out unparsed got s

    pub Forwards-Streams :
        {k : Packet} {out u : List ℕ} {s : SBuf}
        → Forwards len proto k out u s
        → Streams k out u [] s
    Forwards-Streams {s = s} f =
        carried f.kept f.pending f.rest (at_hand s) f.moves f.gone f.carries

    pub Streams-trans :
        {k : Packet} {out u got : List ℕ} {s t : SBuf} (f : Forwards len proto k out u s)
        → Streams (at_hand s) (s.sent ++ f.pending) f.rest got t
        → Streams k out u got t
    Streams-trans {out = out} f (carried kept pending rest k' m g c) =
        carried (f.kept ++ kept) pending rest k' (Moves-trans proto f.moves m)
          (g ∙ ap (λ z. z ++ kept) f.gone ∙ append_assoc out f.kept kept) c
    Streams-trans {out = out} f (freed kept k' m i x e) =
        freed (f.kept ++ kept) k' (Moves-trans proto f.moves m) i x
          (e ∙ ap (λ z. z ++ kept) f.gone ∙ append_assoc out f.kept kept)
    Streams-trans f (shut_down z) = shut_down z

    -- First some bytes come in.
    pub Streams-later :
        {k : Packet} {out u got : List ℕ} {s : SBuf} (bytes : List ℕ)
        → Streams k out (u ++ bytes) got s
        → Streams k out u (bytes ++ got) s
    Streams-later bytes (carried kept pending rest k' m g c) =
        carried kept pending rest k' (comes bytes m) g c
    Streams-later bytes (freed kept k' m i x e) = freed kept k' (comes bytes m) i x e
    Streams-later bytes (shut_down z) = shut_down z

    -- The loop is over: some bytes have arrived while it ran.
    pub record LoopEnd (answers : List RecvAnswer) (k : Packet) (out unparsed : List ℕ) (s : SBuf)
        : Type 0 where
      pub got : List ℕ
      pub came : Arrives answers got
      pub streams : Streams k out unparsed got s

    pub stop :
        {answers : List RecvAnswer} {k : Packet} {out u : List ℕ} {s : SBuf}
        → Streams k out u [] s
        → LoopEnd answers k out u s
    stop st = record { got = []; came = no_more; streams = st }

    pub LoopEnd-trans :
        {answers : List RecvAnswer} {k : Packet} {out u : List ℕ} {s t : SBuf}
        (f : Forwards len proto k out u s)
        → LoopEnd answers (at_hand s) (s.sent ++ f.pending) f.rest t
        → LoopEnd answers k out u t
    LoopEnd-trans f e = record { got = e.got; came = e.came; streams = Streams-trans f e.streams }

    pub Quiet-Streams :
        {k : Packet} {out u got : List ℕ} {s t : SBuf}
        → Quiet s t ⊎ (t.sock ≡ 0)
        → Streams k out u got s
        → Streams k out u got t
    Quiet-Streams (inr z) st = shut_down z
    Quiet-Streams (inl q) (shut_down z) = shut_down (q.stays_shut z)
    Quiet-Streams (inl q) (freed kept k' m i x e) =
        freed kept k' m (q.same_io ∙ i) (q.same_extra ∙ x) (q.same_sent ∙ e)
    Quiet-Streams (inl q) (carried kept pending rest k' m g c) =
        carried kept pending rest k' m (ap (λ z. z ++ pending) q.same_sent ∙ g) (record {
          io = c.io;
          is_io = q.same_io ∙ c.is_io;
          holds = c.holds;
          plain = q.same_extra ∙ c.plain;
        })

  -- A handler of the events of the main loop.
  pub record IsLoopHandler (proto : Proto) (env : LoopEnv) : Type 0 where
    pub handler : IsPacketHandler len proto
    pub on_recv_failure :
        (bytes : List ℕ) (s : SBuf)
        → Meets (λ (r : Bool × SBuf). (r.1).sock ≡ 0) (proto ev_recv_failed bytes s)
    pub on_flush :
        (bytes : List ℕ) (s : SBuf)
        → Meets (λ (r : Bool × SBuf). Quiet s (r.1) ⊎ ((r.1).sock ≡ 0)) (proto ev_flush bytes s)
    pub on_handshake :
        (s : SBuf)
        → Quiet s ((env.handle_tls_handshake s).1) ⊎ (((env.handle_tls_handshake s).1).sock ≡ 0)
    pub alloc_size : (io : IoBuf) → env.slab_alloc ≡ some io → length io.buf ≡ len
    pub len-lt : len < 2 ^ 32
