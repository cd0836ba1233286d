-- ===== src/Packet/PktBuf/Written.antt =====
-- pktbuf.c, pktbuf_write_generic: the bytes of a packet.
use self_db_mini.Base.{
  ℕ, ◌+◌, ◌-◌, ◌/◌, ◌%◌, ◌^◌, ◌<◌, ◌≤◌, ◌≡◌, refl, Bool, true, false, inl, inr, List, [], ◌∷◌, ◌++◌,
  arith, length, ltb, Bool-cases, length-append, if◌then◌else◌, ap, ap₂, ◌∙◌, sym, append_assoc,
  append-nil, drop, take-append, drop-append,
}
use self_db_mini.Packet.Bytes.{uint16be, uint32be, length-uint32be}
use self_db_mini.Packet.PktBuf
use self_db_mini.Packet.PktBuf.Room.{
  Yields, Yields->>=, Yields-if, Wrote, Wrote-append, Wrote-not_failed, put-Wrote,
}

-- The bytes of an argument.
unfoldable pub field_bytes : PktBuf.Field → List ℕ
field_bytes (PktBuf.c_char v) = v % 256 ∷ []
field_bytes (PktBuf.h_uint16 v) = uint16be v
field_bytes (PktBuf.i_uint32 v) = uint32be v
field_bytes (PktBuf.q_uint64 v) = uint32be (v / 2 ^ 32) ++ uint32be (v % 2 ^ 32)
field_bytes (PktBuf.s_string str) = str ++ 0 ∷ []
field_bytes (PktBuf.b_bytes bin) = bin

unfoldable pub body_bytes : List PktBuf.Field → List ℕ
unfolding field_bytes
body_bytes [] = []
body_bytes (f ∷ fs) = field_bytes f ++ body_bytes fs

-- What comes before the length of a packet, and between that and its body.
unfoldable pub before_length : ℕ → List ℕ
before_length type = if ltb type 256 then type % 256 ∷ [] else []

unfoldable pub after_length : ℕ → List ℕ
after_length type = if ltb type 256 then [] else uint32be type

-- A packet of the protocol: the length counts itself and what follows.
unfoldable pub packet : ℕ → List PktBuf.Field → List ℕ
unfolding before_length after_length body_bytes
packet type fields =
    let rest = after_length type ++ body_bytes fields in
    before_length type ++ (uint32be (4 + length rest) ++ rest)

nothing-Wrote : (b : PktBuf.PktBuf) → Wrote [] b b
nothing-Wrote b = record {
  stays_failed = λ e. e;
  written = λ e. sym (append-nil b.bytes);
  same_pos = refl;
  fits = λ h. h;
  roomy = λ h. h;
  longest = omega arith;
}

otherwise : (f : Bool) (x y : PktBuf.PktBuf) → f ≡ false → (if f then x else y).bytes ≡ y.bytes
otherwise true x y k = absurd (cc k)
otherwise false x y k = refl

finish_lem :
    (before rest : List ℕ) (b : PktBuf.PktBuf)
    → b.failed ≡ false
    → b.bytes ≡ before ++ (uint32be 0 ++ rest)
    → b.pktlen_pos ≡ length before
    → (PktBuf.pktbuf_finish_packet b).bytes ≡ before ++ (uint32be (4 + length rest) ++ rest)
unfolding PktBuf.pktbuf_finish_packet
finish_lem before rest b ok e pos =
    otherwise b.failed b _ ok
    ∙ rw (e, pos)
        (ap₂ ◌++◌ (take-append (length before) before (uint32be 0 ++ rest) refl)
          (ap₂ ◌++◌ (ap uint32be count) tail))
  where
    count : length (before ++ (uint32be 0 ++ rest)) - length before ≡ 4 + length rest
    count = omega (
      arith,
      length-append before (uint32be 0 ++ rest),
      length-append (uint32be 0) rest,
      length-uint32be 0,
    )

    tail : drop (length before + 4) (before ++ (uint32be 0 ++ rest)) ≡ rest
    tail =
        ap (drop (length before + 4)) (sym (append_assoc before (uint32be 0) rest))
        ∙ drop-append (length before + 4) (before ++ uint32be 0) rest
            (omega (arith, length-append before (uint32be 0), length-uint32be 0))

-- What is promised of a packet: it is written behind the others unless memory fails, and inside
-- the buffer.
pub record Finished (type : ℕ) (fields : List PktBuf.Field) (b b' : PktBuf.PktBuf) : Type 0 where
  pub appended : b'.failed ≡ false → b'.bytes ≡ b.bytes ++ packet type fields
  pub kept_failed : b.failed ≡ true → b'.failed ≡ true
  pub in_buffer : length b.bytes ≤ b.buf_len → length b'.bytes ≤ b'.buf_len

if-failed :
    (f : Bool) (x y : PktBuf.PktBuf) → x.failed ≡ y.failed → (if f then x else y).failed ≡ x.failed
if-failed true x y e = refl
if-failed false x y e = sym e

if-buf_len :
    (f : Bool) (x y : PktBuf.PktBuf)
    → x.buf_len ≡ y.buf_len
    → (if f then x else y).buf_len ≡ x.buf_len
if-buf_len true x y e = refl
if-buf_len false x y e = sym e

if-bytes : (f : Bool) (x y : PktBuf.PktBuf) → f ≡ true → (if f then x else y).bytes ≡ x.bytes
if-bytes true x y e = refl
if-bytes false x y e = absurd (cc e)

finish-failed : (b : PktBuf.PktBuf) → (PktBuf.pktbuf_finish_packet b).failed ≡ b.failed
unfolding PktBuf.pktbuf_finish_packet
finish-failed b = if-failed b.failed b _ refl

finish-buf_len : (b : PktBuf.PktBuf) → (PktBuf.pktbuf_finish_packet b).buf_len ≡ b.buf_len
unfolding PktBuf.pktbuf_finish_packet
finish-buf_len b = if-buf_len b.failed b _ refl

finish_unchanged :
    (b : PktBuf.PktBuf) → b.failed ≡ true → (PktBuf.pktbuf_finish_packet b).bytes ≡ b.bytes
unfolding PktBuf.pktbuf_finish_packet
finish_unchanged b e = if-bytes b.failed b _ e

finish-in_buffer :
    (before rest : List ℕ) (b : PktBuf.PktBuf)
    → (b.failed ≡ false → b.bytes ≡ before ++ (uint32be 0 ++ rest))
    → (b.failed ≡ false → b.pktlen_pos ≡ length before)
    → length b.bytes ≤ b.buf_len
    → length (PktBuf.pktbuf_finish_packet b).bytes ≤ (PktBuf.pktbuf_finish_packet b).buf_len
finish-in_buffer before rest b e pos h = elim (Bool-cases b.failed) [
  | inl k ↦ omega (arith, h, ap length (finish_unchanged b k), finish-buf_len b)
  | inr k ↦ omega (
    arith,
    h,
    ap length (finish_lem before rest b k (e k) (pos k)),
    ap length (e k),
    length-append before (uint32be 0 ++ rest),
    length-append before (uint32be (4 + length rest) ++ rest),
    length-append (uint32be 0) rest,
    length-append (uint32be (4 + length rest)) rest,
    length-uint32be 0,
    length-uint32be (4 + length rest),
    finish-buf_len b,
  )
]

module _ (can_grow : ℕ → Bool) where
  put_bytes-Wrote :
      (bytes : List ℕ) (b : PktBuf.PktBuf)
      → 0 < b.buf_len
      → length b.bytes + length bytes ≤ 2 ^ 30
      → Yields (Wrote bytes b) (PktBuf.pktbuf_put_bytes can_grow bytes b)
  unfolding PktBuf.pktbuf_put_bytes
  put_bytes-Wrote [] b p top = (b, refl, nothing-Wrote b)
  put_bytes-Wrote (x ∷ xs) b p top =
      put-Wrote can_grow (length (x ∷ xs)) (x ∷ xs) b (omega arith) p top

  put_uint32-Wrote :
      (v : ℕ) (b : PktBuf.PktBuf)
      → 0 < b.buf_len
      → length b.bytes + 4 ≤ 2 ^ 30
      → Yields (Wrote (uint32be v) b) (PktBuf.pktbuf_put_uint32 can_grow v b)
  unfolding PktBuf.pktbuf_put_uint32
  put_uint32-Wrote v b p top =
      put-Wrote can_grow 4 (uint32be v) b (unfold uint32be in omega arith) p top

  -- The two bytes are those by which pktbuf_put_uint16 asks for more than it writes.
  put_field-Wrote :
      (f : PktBuf.Field) (b : PktBuf.PktBuf)
      → 0 < b.buf_len
      → length b.bytes + length (field_bytes f) + 2 ≤ 2 ^ 30
      → Yields (Wrote (field_bytes f) b) (PktBuf.put_field can_grow f b)
  unfolding PktBuf.put_field PktBuf.pktbuf_put_char PktBuf.pktbuf_put_uint16
      PktBuf.pktbuf_put_uint64 PktBuf.pktbuf_put_string field_bytes uint16be uint32be
  put_field-Wrote (PktBuf.c_char v) b p top =
      put-Wrote can_grow 1 (v % 256 ∷ []) b (omega arith) p (omega arith)
  put_field-Wrote (PktBuf.h_uint16 v) b p top =
      put-Wrote can_grow 4 (uint16be v) b (omega arith) p (omega arith)
  put_field-Wrote (PktBuf.i_uint32 v) b p top = put_uint32-Wrote v b p (omega arith)
  put_field-Wrote (PktBuf.q_uint64 v) b p top =
      Yields->>= (put_uint32-Wrote (v / 2 ^ 32) b p (omega arith)) λ b' f.
        let (b'', e, g) = put_uint32-Wrote (v % 2 ^ 32) b' (f.roomy p) (omega (arith, f.longest)) in
        (b'', e, Wrote-append (uint32be (v / 2 ^ 32)) (uint32be (v % 2 ^ 32)) b b' b'' f g)
  put_field-Wrote (PktBuf.s_string str) b p top = put_bytes-Wrote (str ++ 0 ∷ []) b p (omega arith)
  put_field-Wrote (PktBuf.b_bytes bin) b p top = put_bytes-Wrote bin b p (omega arith)

  put_fields-Wrote :
      (fs : List PktBuf.Field) (b : PktBuf.PktBuf)
      → 0 < b.buf_len
      → length b.bytes + length (body_bytes fs) + 2 ≤ 2 ^ 30
      → Yields (Wrote (body_bytes fs) b) (PktBuf.put_fields can_grow fs b)
  unfolding PktBuf.put_fields body_bytes
  put_fields-Wrote [] b p top = (b, refl, nothing-Wrote b)
  put_fields-Wrote (f ∷ fs) b p top =
      Yields->>=
        (put_field-Wrote f b p (omega (arith, length-append (field_bytes f) (body_bytes fs))))
        λ b' g.
          let (b'', e, h) =
            put_fields-Wrote fs b' (g.roomy p)
              (omega (arith, g.longest, length-append (field_bytes f) (body_bytes fs))) in
          (b'', e, Wrote-append (field_bytes f) (body_bytes fs) b b' b'' g h)

  -- The packet is begun: the bytes before its length are written, four bytes are left for that,
  -- and the bytes after it are written.
  record Started (type : ℕ) (b b' : PktBuf.PktBuf) : Type 0 where
    begun :
        b'.failed ≡ false
        → b'.bytes ≡ (b.bytes ++ before_length type) ++ (uint32be 0 ++ after_length type)
    at_length : b'.failed ≡ false → b'.pktlen_pos ≡ length (b.bytes ++ before_length type)
    keeps_failed : b.failed ≡ true → b'.failed ≡ true
    in_memory : length b.bytes ≤ b.buf_len → length b'.bytes ≤ b'.buf_len
    in_room : 0 < b'.buf_len
    no_longer :
        length b'.bytes
        ≤ length b.bytes + length (before_length type) + 4 + length (after_length type)

  start-Started :
      (type : ℕ) (b : PktBuf.PktBuf)
      → 0 < b.buf_len
      → length b.bytes + 8 ≤ 2 ^ 30
      → Yields (Started type b) (PktBuf.pktbuf_start_packet can_grow type b)
  unfolding PktBuf.pktbuf_start_packet
  start-Started type b p top =
      Yields-if b.failed
        (λ e. (
          b,
          refl,
          record {
            begun = λ k. absurd (cc (e, k));
            at_length = λ k. absurd (cc (e, k));
            keeps_failed = λ k. k;
            in_memory = λ k. k;
            in_room = p;
            no_longer = omega arith;
          },
        ))
        λ ok.
          Yields-if (ltb type 256)
            (λ small.
              Yields->>=
                (unfold PktBuf.pktbuf_put_char in
                  put-Wrote can_grow 1 (type % 256 ∷ []) b (omega arith) p (omega arith))
                λ b1 f.
                  let (b2, e, g) =
                    put_uint32-Wrote 0 (at_end b1) (f.roomy p) (omega (arith, f.longest)) in
                  (b2, e, new_packet b1 b2 small f g))
            (λ big. Yields->>= (put_uint32-Wrote 0 (at_end b) p (omega arith)) λ b1 f.
              let (b2, e, g) =
                put_uint32-Wrote type b1 (f.roomy p)
                  (omega (arith, f.longest, length-uint32be 0)) in
              (b2, e, old_packet b1 b2 big f g))
    where
      at_end : PktBuf.PktBuf → PktBuf.PktBuf
      at_end a = record a { pktlen_pos = length a.bytes }

      new_packet :
          (b1 b2 : PktBuf.PktBuf)
          → ltb type 256 ≡ true
          → Wrote (type % 256 ∷ []) b b1
          → Wrote (uint32be 0) (at_end b1) b2
          → Started type b b2
      new_packet b1 b2 small f g =
          let before : before_length type ≡ type % 256 ∷ [] =
            unfold before_length in rw small refl in
          let after : after_length type ≡ [] = unfold after_length in rw small refl in
          let ok1 = λ (k : b2.failed ≡ false). Wrote-not_failed (uint32be 0) (at_end b1) b2 g k in
          record {
            begun = λ k.
                rw (before, after)
                  (g.written k ∙ ap₂ ◌++◌ (f.written (ok1 k)) (sym (append-nil (uint32be 0))));
            at_length = λ k. rw before (g.same_pos ∙ ap length (f.written (ok1 k)));
            keeps_failed = λ k. g.stays_failed (f.stays_failed k);
            in_memory = λ k. g.fits (f.fits k);
            in_room = g.roomy (f.roomy p);
            no_longer = omega (arith, f.longest, g.longest, ap length before, length-uint32be 0);
          }

      old_packet :
          (b1 b2 : PktBuf.PktBuf)
          → ltb type 256 ≡ false
          → Wrote (uint32be 0) (at_end b) b1
          → Wrote (uint32be type) b1 b2
          → Started type b b2
      old_packet b1 b2 big f g =
          let before : before_length type ≡ [] = unfold before_length in rw big refl in
          let after : after_length type ≡ uint32be type = unfold after_length in rw big refl in
          let h = Wrote-append (uint32be 0) (uint32be type) (at_end b) b1 b2 f g in
          record {
            begun = λ k.
                rw (before, after)
                  (h.written k
                    ∙ ap (λ l. l ++ (uint32be 0 ++ uint32be type)) (sym (append-nil b.bytes)));
            at_length = λ k. rw before (h.same_pos ∙ ap length (sym (append-nil b.bytes)));
            keeps_failed = h.stays_failed;
            in_memory = h.fits;
            in_room = h.roomy p;
            no_longer = omega (
              arith,
              h.longest,
              ap length before,
              ap length after,
              length-append (uint32be 0) (uint32be type),
              length-uint32be 0,
            );
          }

  -- pktbuf_write_generic on a buffer of some size returns, with no int that overflows, where what
  -- was written, the packet and six bytes more come to 2^30 bytes at most; unless memory failed,
  -- the packet, with a length that counts what follows its type byte, stands behind what was
  -- written before; a buffer that had failed stays so; and what is written stays within the memory
  -- of the buffer.
  pub pktbuf_write_generic_lem :
      (type : ℕ) (fields : List PktBuf.Field) (b : PktBuf.PktBuf)
      → 0 < b.buf_len
      → length b.bytes + length (packet type fields) + 6 ≤ 2 ^ 30
      → Yields (Finished type fields b) (PktBuf.pktbuf_write_generic can_grow type fields b)
  unfolding PktBuf.pktbuf_write_generic
  pktbuf_write_generic_lem type fields b p top =
      Yields->>= (start-Started type b p (omega (arith, whole))) λ b1 f.
        Yields->>= (put_fields-Wrote fields b1 f.in_room (omega (arith, f.no_longer, whole)))
          λ b2 g. (PktBuf.pktbuf_finish_packet b2, refl, finished b1 b2 f g)
    where
      before : List ℕ
      before = b.bytes ++ before_length type

      rest : List ℕ
      rest = after_length type ++ body_bytes fields

      whole :
          length (packet type fields)
          ≡ length (before_length type)
            + 4
            + length (after_length type)
            + length (body_bytes fields)
      whole =
          unfold packet in
          omega (
            arith,
            length-append (before_length type) (uint32be (4 + length rest) ++ rest),
            length-append (uint32be (4 + length rest)) rest,
            length-uint32be (4 + length rest),
            length-append (after_length type) (body_bytes fields),
          )

      laid_out :
          (b1 b2 : PktBuf.PktBuf)
          → Started type b b1
          → Wrote (body_bytes fields) b1 b2
          → b2.failed ≡ false
          → b2.bytes ≡ before ++ (uint32be 0 ++ rest)
      laid_out b1 b2 f g k =
          g.written k
          ∙ ap (λ l. l ++ body_bytes fields)
              (f.begun (Wrote-not_failed (body_bytes fields) b1 b2 g k))
          ∙ append_assoc before (uint32be 0 ++ after_length type) (body_bytes fields)
          ∙ ap (λ l. before ++ l)
              (append_assoc (uint32be 0) (after_length type) (body_bytes fields))

      finished :
          (b1 b2 : PktBuf.PktBuf)
          → Started type b b1
          → Wrote (body_bytes fields) b1 b2
          → Finished type fields b (PktBuf.pktbuf_finish_packet b2)
      finished b1 b2 f g =
          let pos = λ (k : b2.failed ≡ false).
            g.same_pos ∙ f.at_length (Wrote-not_failed (body_bytes fields) b1 b2 g k) in
          record {
            appended = λ k.
                let k' = sym (finish-failed b2) ∙ k in
                finish_lem before rest b2 k' (laid_out b1 b2 f g k') (pos k')
                ∙ append_assoc b.bytes (before_length type) (uint32be (4 + length rest) ++ rest)
                ∙ (unfold packet in refl);
            kept_failed = λ k. finish-failed b2 ∙ g.stays_failed (f.keeps_failed k);
            in_buffer = λ k.
                finish-in_buffer before rest b2 (laid_out b1 b2 f g) pos (g.fits (f.in_memory k));
          }
