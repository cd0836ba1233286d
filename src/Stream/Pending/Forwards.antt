-- ===== src/Stream/Pending/Forwards.antt =====
-- The bytes that come from a socket, and those of them that go to the target.
use self_db_mini.Base.{
  ℕ, ◌-◌, ◌≤◌, ◌≡◌, ◌≢◌, refl, sym, ap, subst, ◌∙◌, Bool, true, false, Option, none, some, List, [],
  ◌++◌, length, take, drop, append_assoc, append-nil,
}
use self_db_mini.Base.Outcome.{Outcome, done, Meets, stopping, ◌>>=◌}
use self_db_mini.Stream.IoBuf.{IoBuf}
use self_db_mini.Stream.IoBuf.Holds.{Holds}
use self_db_mini.Stream.SBuf.{
  ev_read, ev_send_failed, ev_pkt_callback, SBuf, PktAction, act_unset, act_send, act_call, skips,
  Proto, deref,
}

-- The packet at hand: its action, its bytes that are left, and how many of them are skipped.
abbrev pub Packet : Type 0
Packet = PktAction × ℕ × ℕ

abbrev pub at_hand : SBuf → Packet
at_hand s = (s.pkt_action, s.pkt_remain, s.skip_remain)

-- The packet at hand has an action, or the next one begins.
pub data Ready (s : SBuf) : Type 0 where
  at_start : s.pkt_remain ≡ 0 → Ready s
  within : s.pkt_action ≢ act_unset → Ready s

pub at_hand-Ready : (s t : SBuf) → at_hand t ≡ at_hand s → Ready s → Ready t
at_hand-Ready s t e (at_start z) = at_start (ap (λ p. p.1) e ∙ z)
at_hand-Ready s t e (within n) = within (λ z. n (sym (ap (λ p. p.0) e) ∙ z))

module _ (proto : Proto) where
  -- From a packet and the bytes to be parsed to a later packet and the bytes that are left, with
  -- the bytes that go out and those that come in meanwhile. Only the handler, asked with the bytes
  -- that are there, gives a packet its action; a byte is left out only where a packet that is
  -- skipped still has bytes to skip.
  pub data Moves : Packet → List ℕ → List ℕ → List ℕ → Packet → List ℕ → Type 0 where
    here : {k : Packet} {u : List ℕ} → Moves k u [] [] k u
    asked :
        (ok : Bool) (s t : SBuf) {u kept got : List ℕ} {k : Packet} {rest : List ℕ}
        → s.pkt_remain ≡ 0
        → proto ev_read u s ≡ done (ok, t)
        → Moves (at_hand t) u kept got k rest
        → Moves (at_hand s) u kept got k rest
    called :
        (ok : Bool) (s t : SBuf) {u kept got : List ℕ} {k : Packet} {rest : List ℕ}
        → s.pkt_action ≡ act_call
        → proto ev_pkt_callback (take s.pkt_remain u) s ≡ done (ok, t)
        → Moves (at_hand t) u kept got k rest
        → Moves (at_hand s) u kept got k rest
    sends :
        (n remain skip : ℕ) {u kept got : List ℕ} {k : Packet} {rest : List ℕ}
        → n ≤ remain
        → n ≤ length u
        → Moves (act_send, remain - n, skip) (drop n u) kept got k rest
        → Moves (act_send, remain, skip) u (take n u ++ kept) got k rest
    skipping :
        (action : PktAction) (n remain skip : ℕ) {u kept got : List ℕ} {k : Packet} {rest : List ℕ}
        → skips action ≡ true
        → n ≤ remain
        → n ≤ length u
        → Moves (action, remain - n, skip - n) (drop n u) kept got k rest
        → Moves (action, remain, skip) u (drop skip (take n u) ++ kept) got k rest
    comes :
        (bytes : List ℕ) {k k' : Packet} {u kept got rest : List ℕ}
        → Moves k (u ++ bytes) kept got k' rest
        → Moves k u kept (bytes ++ got) k' rest

  pub Moves-trans :
      {k k' k2 : Packet} {u v kept kept' got got' rest : List ℕ}
      → Moves k u kept got k' v
      → Moves k' v kept' got' k2 rest
      → Moves k u (kept ++ kept') (got ++ got') k2 rest
  Moves-trans here m = m
  Moves-trans (asked ok s t z e l) m = asked ok s t z e (Moves-trans l m)
  Moves-trans (called ok s t z e l) m = called ok s t z e (Moves-trans l m)
  Moves-trans {k2 = k2} {kept' = kept'} {got = got} {got' = got'} {rest = rest}
        (sends n remain skip {u = u} {kept = kept} a b l) m =
      subst (λ z. Moves (act_send, remain, skip) u z (got ++ got') k2 rest)
        (sym (append_assoc (take n u) kept kept')) (sends n remain skip a b (Moves-trans l m))
  Moves-trans {k2 = k2} {kept' = kept'} {got = got} {got' = got'} {rest = rest}
        (skipping action n remain skip {u = u} {kept = kept} t a b l) m =
      subst (λ z. Moves (action, remain, skip) u z (got ++ got') k2 rest)
        (sym (append_assoc (drop skip (take n u)) kept kept'))
        (skipping action n remain skip t a b (Moves-trans l m))
  Moves-trans {k = k} {k2 = k2} {u = u} {kept = kept} {kept' = kept'} {got' = got'} {rest = rest}
        (comes bytes {got = got} l) m =
      subst (λ z. Moves k u (kept ++ kept') z k2 rest) (sym (append_assoc bytes got got'))
        (comes bytes (Moves-trans l m))

module _ (len : ℕ) where
  -- The buffer holds bytes to be sent and bytes to be parsed, and no extra packet waits.
  pub record Carries (s : SBuf) (pending unparsed : List ℕ) : Type 0 where
    pub io : IoBuf
    pub is_io : s.io ≡ some io
    pub holds : Holds len io pending unparsed
    pub plain : s.extra_packets ≡ []

  -- Of `out`, some is sent and the rest waits; the bytes to be parsed and the packet are the same.
  pub record Waits (packet : Packet) (out unparsed : List ℕ) (s : SBuf) : Type 0 where
    pub pending : List ℕ
    pub gone : s.sent ++ pending ≡ out
    pub same_packet : at_hand s ≡ packet
    pub carries : Carries s pending unparsed

  -- What a function that sends comes to, or the socket was closed.
  pub data Sends (packet : Packet) (out unparsed : List ℕ) : Bool × SBuf → Type 0 where
    open_still :
        (ok : Bool) {s : SBuf} → Waits packet out unparsed s → Sends packet out unparsed (ok, s)
    closed : {s : SBuf} → s.sock ≡ 0 → Sends packet out unparsed (false, s)

  -- The handler leaves the buffer, the extra packets and the target alone, and says what is to be
  -- done with a packet; it may close the socket, which it does after a failed send.
  pub record Leaves (s : SBuf) (r : Bool × SBuf) : Type 0 where
    pub same_io : (r.1).io ≡ s.io
    pub same_extra : (r.1).extra_packets ≡ s.extra_packets
    pub same_sent : (r.1).sent ≡ s.sent
    pub decides : r.0 ≡ true → (r.1).pkt_action ≢ act_unset

  pub data Handled (s : SBuf) (r : Bool × SBuf) : Type 0 where
    left : Leaves s r → Handled s r
    shut : r.0 ≡ false → (r.1).sock ≡ 0 → Handled s r

  pub record IsHandler (proto : Proto) : Type 0 where
    pub on_read : (bytes : List ℕ) (s : SBuf) → Meets (Handled s) (proto ev_read bytes s)
    pub on_callback :
        (bytes : List ℕ) (s : SBuf) → Meets (Handled s) (proto ev_pkt_callback bytes s)
    pub on_failure :
        (bytes : List ℕ) (s : SBuf)
        → Meets (λ (r : Bool × SBuf). (r.1).sock ≡ 0) (proto ev_send_failed bytes s)

  -- A handler that, when it takes a part of a packet, lets the packet be.
  pub record IsPacketHandler (proto : Proto) : Type 0 where
    pub handler : IsHandler proto
    pub keeps_packet :
        (bytes : List ℕ) (s : SBuf)
        → Meets (λ r. r.0 ≡ true → at_hand (r.1) ≡ at_hand s) (proto ev_pkt_callback bytes s)

  module _ (proto : Proto) where
    -- From a packet, `out`, sent or to be sent, and `unparsed` bytes: what goes out stands behind
    -- `out`, and the buffer carries what is left.
    pub record Forwards (packet : Packet) (out unparsed : List ℕ) (s : SBuf) : Type 0 where
      pub kept : List ℕ
      pub pending : List ℕ
      pub rest : List ℕ
      pub moves : Moves proto packet unparsed kept [] (at_hand s) rest
      pub gone : s.sent ++ pending ≡ out ++ kept
      pub carries : Carries s pending rest

    abbrev pub Waits-Forwards :
        {k : Packet} {out u : List ℕ} {s : SBuf} → Waits k out u s → Forwards k out u s
    Waits-Forwards {k = k} {out = out} {u = u} w = record {
      kept = [];
      pending = w.pending;
      rest = u;
      moves = subst (λ z. Moves proto k u [] [] z u) (sym w.same_packet) here;
      gone = w.gone ∙ sym (append-nil out);
      carries = w.carries;
    }

    abbrev pub Forwards_refl :
        {s : SBuf} {p u : List ℕ} → Carries s p u → Forwards (at_hand s) (s.sent ++ p) u s
    Forwards_refl {p = p} c =
        Waits-Forwards (record { pending = p; gone = refl; same_packet = refl; carries = c })

    abbrev pub Forwards_trans :
        {k : Packet} {out u : List ℕ} {s t : SBuf} (f : Forwards k out u s)
        → Forwards (at_hand s) (s.sent ++ f.pending) f.rest t
        → Forwards k out u t
    Forwards_trans {out = out} f g = record {
      kept = f.kept ++ g.kept;
      pending = g.pending;
      rest = g.rest;
      moves = Moves-trans proto f.moves g.moves;
      gone = g.gone ∙ ap (λ z. z ++ g.kept) f.gone ∙ append_assoc out f.kept g.kept;
      carries = g.carries;
    }

    -- The bytes are forwarded as far as it goes, or the socket was closed.
    pub data Paused (packet : Packet) (out unparsed : List ℕ) (s : SBuf) : Type 0 where
      open_yet : Forwards packet out unparsed s → Paused packet out unparsed s
      shut_by_now : s.sock ≡ 0 → Paused packet out unparsed s

    pub Paused-trans :
        {k : Packet} {out u : List ℕ} {s t : SBuf} (f : Forwards k out u s)
        → Paused (at_hand s) (s.sent ++ f.pending) f.rest t
        → Paused k out u t
    Paused-trans f (open_yet g) = open_yet (Forwards_trans f g)
    Paused-trans f (shut_by_now z) = shut_by_now z

    pub Sends-Paused :
        {k : Packet} {out u : List ℕ} {r : Bool × SBuf} → Sends k out u r → Paused k out u (r.1)
    Sends-Paused (open_still ok w) = open_yet (Waits-Forwards w)
    Sends-Paused (closed z) = shut_by_now z

pub Meets-deref {ℓ κ ι} :
    {A : Type ℓ} {B : Type κ} {P : B → Type ι} (o : Option A) {f : A → Outcome B}
    → ((a : A) → o ≡ some a → Meets P (f a))
    → Meets P (deref o >>= f)
Meets-deref none k = stopping
Meets-deref (some a) k = k a refl

pub Meets-known {ℓ κ ι} :
    {A : Type ℓ} {B : Type κ} {P : B → Type ι} {o : Option A} {a : A} (f : A → Outcome B)
    → o ≡ some a
    → Meets P (f a)
    → Meets P (deref o >>= f)
Meets-known {P = P} f e m = subst (λ o. Meets P (deref o >>= f)) (sym e) m
