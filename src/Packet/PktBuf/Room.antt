-- ===== src/Packet/PktBuf/Room.antt =====
-- pktbuf.c, make_room: its loop, and the memory of the buffer.
use self_db_mini.Base.{
  ℕ, zero, suc, ◌+◌, ◌*◌, ◌^◌, ◌<◌, ◌≤◌, ◌≡◌, refl, Bool, true, false, inl, inr, List, ◌++◌, arith,
  length, ltb, leb, Bool-cases, length-append, if◌then◌else◌, ap, ◌∙◌, append_assoc,
}
use self_db_mini.Base.Outcome.{Outcome, done, assert, ◌>>=◌, ◌>>◌}
use self_db_mini.Packet.PktBuf

-- The step returns, with a result that satisfies P.
abbrev pub Yields {ℓ κ} : {A : Type ℓ} → (A → Type κ) → Outcome A → Type (ℓ ⊔ κ)
Yields {A = A} P m = (a : A) × (m ≡ done a) × P a

pub Yields->>= {ℓ κ ι μ} :
    {A : Type ℓ} {B : Type κ} {P : A → Type ι} {Q : B → Type μ} {m : Outcome A} {f : A → Outcome B}
    → Yields P m
    → ((a : A) → P a → Yields Q (f a))
    → Yields Q (m >>= f)
Yields->>= {f = f} (a, e, p) k = let (b, e', q) = k a p in (b, ap (λ m. m >>= f) e ∙ e', q)

pub Yields-if {ℓ κ} :
    {A : Type ℓ} {P : A → Type κ} (b : Bool) {m n : Outcome A}
    → (b ≡ true → Yields P m)
    → (b ≡ false → Yields P n)
    → Yields P (if b then m else n)
Yields-if true f g = f refl
Yields-if false f g = g refl

pub Yields-assert {ℓ κ} :
    {A : Type ℓ} {P : A → Type κ} (b : Bool) {m : Outcome A}
    → b ≡ true
    → Yields P m
    → Yields P (assert b >> m)
Yields-assert true e y = y
Yields-assert false e y = absurd (cc e)

-- The doubling loop of make_room ends, from a positive length below twice what is needed, where at
-- most 2^30 bytes are needed, with no int that overflows and a length that is enough and below
-- twice what is needed.
pub doubled_lem :
    (fuel newlen need : ℕ)
    → 0 < newlen
    → need ≤ fuel + newlen
    → newlen < 2 * need
    → need ≤ 2 ^ 30
    → Yields (λ n. (need ≤ n) × (n < 2 * need)) (PktBuf.doubled (suc fuel) newlen need)
unfolding PktBuf.doubled
doubled_lem zero newlen need p h b top =
    let e : ltb newlen need ≡ false = ground (arith, h) in
    rw (e, PktBuf.doubled) (newlen, refl, (omega (arith, h), b))
doubled_lem (suc fuel) newlen need p h b top = elim (Bool-cases (ltb newlen need)) [
  | inl e ↦
      rw (e, PktBuf.doubled)
        (Yields-assert (ltb (newlen * 2) (2 ^ 31)) (ground (arith, e, top)) (
          doubled_lem fuel (newlen * 2) need (omega (arith, p)) (omega (arith, h, p))
            (ground (arith, e)) top))
  | inr e ↦ rw (e, PktBuf.doubled) (newlen, refl, (ground (arith, e), b))
]

-- What a step that writes `bytes` makes of the buffer: it fails, for good, or writes them; and it
-- stays within the memory that the buffer has.
pub record Wrote (bytes : List ℕ) (b b' : PktBuf.PktBuf) : Type 0 where
  pub stays_failed : b.failed ≡ true → b'.failed ≡ true
  pub written : b'.failed ≡ false → b'.bytes ≡ b.bytes ++ bytes
  pub same_pos : b'.pktlen_pos ≡ b.pktlen_pos
  pub fits : length b.bytes ≤ b.buf_len → length b'.bytes ≤ b'.buf_len
  pub roomy : 0 < b.buf_len → 0 < b'.buf_len
  pub longest : length b'.bytes ≤ length b.bytes + length bytes

-- A step that succeeds begins in a buffer that has not failed.
pub Wrote-not_failed :
    (xs : List ℕ) (a b : PktBuf.PktBuf) → Wrote xs a b → b.failed ≡ false → a.failed ≡ false
Wrote-not_failed xs a b f e = elim (Bool-cases a.failed) [
  | inl k ↦ absurd (cc (e, f.stays_failed k))
  | inr k ↦ k
]

pub Wrote-append :
    (xs ys : List ℕ) (a b c : PktBuf.PktBuf) → Wrote xs a b → Wrote ys b c → Wrote (xs ++ ys) a c
Wrote-append xs ys a b c f g = record {
  stays_failed = λ e. g.stays_failed (f.stays_failed e);
  written = λ e.
      g.written e
      ∙ ap (λ l. l ++ ys) (f.written (Wrote-not_failed ys b c g e))
      ∙ append_assoc a.bytes xs ys;
  same_pos = g.same_pos ∙ f.same_pos;
  fits = λ h. g.fits (f.fits h);
  roomy = λ h. g.roomy (f.roomy h);
  longest = omega (arith, f.longest, g.longest, length-append xs ys);
}

module _ (can_grow : ℕ → Bool) where
  -- What `make_room` leaves: the same bytes, and room for `len` more unless it failed.
  abbrev Roomy : ℕ → PktBuf.PktBuf → PktBuf.PktBuf → Type 0
  Roomy len b b' =
      (b'.bytes ≡ b.bytes)
      × (b'.pktlen_pos ≡ b.pktlen_pos)
      × (b.failed ≡ true → b'.failed ≡ true)
      × (b'.failed ≡ false → length b.bytes + len ≤ b'.buf_len)
      × (b.buf_len ≤ b'.buf_len)

  make_room_lem :
      (len : ℕ) (b : PktBuf.PktBuf)
      → 0 < b.buf_len
      → length b.bytes + len ≤ 2 ^ 30
      → Yields (Roomy len b) (PktBuf.make_room can_grow len b)
  unfolding PktBuf.make_room
  make_room_lem len b p top =
      let need = length b.bytes + len in
      Yields-assert (ltb need (2 ^ 31)) (ground (arith, top)) (
        Yields-if (leb need b.buf_len)
          (λ e. (b, refl, (refl, refl, λ h. h, λ h. ground (arith, e), omega arith)))
          λ small.
            Yields-if b.failed
              (λ e. (b, refl, (refl, refl, λ h. h, λ h. absurd (cc (h, e)), omega arith)))
              λ ok.
                Yields-if b.fixed_buf
                  (λ _. (
                    record b { failed = true },
                    refl,
                    (refl, refl, λ h. refl, λ h. absurd (cc h), omega arith),
                  ))
                  λ _.
                    Yields->>= {P = λ n. (need ≤ n) × (n < 2 * need)}
                      (doubled_lem need b.buf_len need p (omega arith) (ground (arith, small)) top)
                      λ n h. grown n (h.0, ground (arith, small, h.0)) (can_grow n))
    where
      grown :
          (n : ℕ)
          → (length b.bytes + len ≤ n) × (b.buf_len ≤ n)
          → (can : Bool)
          → Yields
              (Roomy len b)
              (done (if can then record b { buf_len = n } else record b { failed = true }))
      grown n h true = (record b { buf_len = n }, refl, (refl, refl, λ k. k, λ k. h.0, h.1))
      grown n h false = (
        record b { failed = true },
        refl,
        (refl, refl, λ k. refl, λ k. absurd (cc k), omega arith),
      )

  -- A write of at most `len` bytes returns, and writes them or fails.
  pub put-Wrote :
      (len : ℕ) (bytes : List ℕ) (b : PktBuf.PktBuf)
      → length bytes ≤ len
      → 0 < b.buf_len
      → length b.bytes + len ≤ 2 ^ 30
      → Yields (Wrote bytes b) (PktBuf.put can_grow len bytes b)
  unfolding PktBuf.put
  put-Wrote len bytes b h p top = Yields->>= (make_room_lem len b p top) λ b' r. (
    if b'.failed then b' else record b' { bytes = b'.bytes ++ bytes },
    refl,
    after b' r b'.failed refl,
  )
    where
      after :
          (b' : PktBuf.PktBuf)
          → Roomy len b b'
          → (f : Bool) → b'.failed ≡ f
          → Wrote bytes b (if f then b' else record b' { bytes = b'.bytes ++ bytes })
      after b' r true e = record {
        stays_failed = λ k. e;
        written = λ k. absurd (cc (k, e));
        same_pos = r.1;
        fits = λ k. omega (arith, k, ap length r.0, r.4);
        roomy = λ k. omega (arith, k, r.4);
        longest = omega (arith, ap length r.0);
      }
      after b' r false e = record {
        stays_failed = r.2;
        written = λ k. ap (λ l. l ++ bytes) r.0;
        same_pos = r.1;
        fits = λ k. omega (arith, k, h, r.3 e, ap length r.0, length-append b'.bytes bytes);
        roomy = λ k. omega (arith, k, r.4);
        longest = omega (arith, ap length r.0, length-append b'.bytes bytes);
      }
