-- ===== src/Packet/Header/RoundTrip.antt =====
-- proto.c, get_header, on the packets of pktbuf_write_generic.
use self_db_mini.Base.{
  ℕ, ◌+◌, ◌<◌, ◌≤◌, ◌≡◌, ◌^◌, ◌%◌, refl, Bool, true, false, some, List, [], ◌∷◌, ◌++◌, arith,
  length, length-append, take, drop, take-append, append_assoc, ap, ◌∙◌, sym, ltb, ◌==◌,
}
use self_db_mini.Packet.Bytes.{uint32be, get_uint32be, get_uint32be-uint32be, length-uint32be}
use self_db_mini.Packet.PktBuf
use self_db_mini.Packet.PktBuf.Room.{Yields}
use self_db_mini.Packet.PktBuf.Written.{
  pktbuf_write_generic_lem, packet, body_bytes, before_length, after_length,
}
use self_db_mini.Packet.Header

-- The header of a packet is taken off.
with_header_lem :
    (max type len got : ℕ) (whole rest : List ℕ)
    → length whole ≡ len
    → got ≤ len
    → len ≤ max
    → Header.with_header max type len got (whole ++ rest)
      ≡ some (record { type = type; len = len; body = drop got whole })
unfolding Header.with_header
with_header_lem max type len got whole rest e h g =
    let long : ltb len got ≡ false = ground (arith, h) in
    let small : ltb max len ≡ false = ground (arith, g) in
    let cut : take len (whole ++ rest) ≡ whole = take-append len whole rest (sym e) in
    let enough : ltb (length whole) got ≡ false = ground (arith, e, h) in
    rw (long, small, cut, enough) refl

regular_packet :
    (type : ℕ) (fields : List PktBuf.Field)
    → type < 256
    → packet type fields ≡ type ∷ (uint32be (4 + length (body_bytes fields)) ++ body_bytes fields)
unfolding packet before_length after_length
regular_packet type fields h =
    let small : ltb type 256 ≡ true = ground (arith, h) in
    let whole : type % 256 ≡ type = omega (arith, h) in rw (small, whole) refl

abbrev pkt_hdr : ℕ → ℕ → List ℕ → Header.PktHdr
pkt_hdr type len body = record { type = type; len = len; body = body }

-- A packet with a type byte and a length that counts itself
regular_header :
    (max type : ℕ) (body rest : List ℕ)
    → 0 < type
    → length body + 5 ≤ max
    → max < 2 ^ 32
    → Header.get_header max ((type ∷ (uint32be (4 + length body) ++ body)) ++ rest)
      ≡ some (record { type = type; len = length body + 5; body = body })
unfolding Header.get_header
regular_header max type body rest p fits bound =
    let n = 4 + length body in
    let whole = type ∷ (uint32be n ++ body) in
    let long : ltb (length (whole ++ rest)) 5 ≡ false = ground (
      arith,
      length-append (uint32be n ++ body) rest,
      length-append (uint32be n) body,
      length-uint32be n,
    ) in
    let regular : (type == 0) ≡ false = ground (arith, p) in
    let read : get_uint32be ((uint32be n ++ body) ++ rest) ≡ some (n, body ++ rest) =
      ap get_uint32be (append_assoc (uint32be n) body rest)
      ∙ get_uint32be-uint32be n (body ++ rest) (omega (arith, fits, bound)) in
    let len : (n + 1) % 2 ^ 32 ≡ length body + 5 = omega (arith, fits, bound) in
    let body_only : drop 5 whole ≡ body = unfold uint32be in refl in
    rw (long, regular, read, len)
      (with_header_lem max type (length body + 5) 5 whole rest
          (omega (arith, length-append (uint32be n) body, length-uint32be n)) (omega arith) fits
        ∙ ap (λ b. some (pkt_hdr type (length body + 5) b)) body_only)

pub get_header-packet :
    (max type : ℕ) (fields : List PktBuf.Field) (rest : List ℕ)
    → 0 < type
    → type < 256
    → length (body_bytes fields) + 5 ≤ max
    → max < 2 ^ 32
    → Header.get_header max (packet type fields ++ rest)
      ≡ some
          (record { type = type; len = length (body_bytes fields) + 5; body = body_bytes fields })
get_header-packet max type fields rest p small fits bound =
    rw (regular_packet type fields small)
      (regular_header max type (body_bytes fields) rest p fits bound)

-- A packet with a type between 1 and 255 that pktbuf_write_generic writes into an empty buffer of
-- some size is read by get_header, whatever follows it, with its type, its length and its whole
-- body, provided that memory did not fail and the packet is no longer than max_packet_size, which
-- is below 2^32; and the write returns with no int that overflows, where the body is at most 2^30
-- - 11 bytes long.
pub get_header-pktbuf_write_generic :
    (can_grow : ℕ → Bool) (max type : ℕ) (fields : List PktBuf.Field) (rest : List ℕ)
    (b : PktBuf.PktBuf)
    → b.bytes ≡ []
    → 0 < b.buf_len
    → 0 < type
    → type < 256
    → length (body_bytes fields) + 5 ≤ max
    → max < 2 ^ 32
    → length (body_bytes fields) + 11 ≤ 2 ^ 30
    → Yields
        (λ b'.
          b'.failed ≡ false
          → Header.get_header max (b'.bytes ++ rest)
            ≡ some (record {
              type = type;
              len = length (body_bytes fields) + 5;
              body = body_bytes fields;
            }))
        (PktBuf.pktbuf_write_generic can_grow type fields b)
get_header-pktbuf_write_generic can_grow max type fields rest b empty room p small fits bound top =
    let (b', e, f) =
      pktbuf_write_generic_lem can_grow type fields b room (omega (arith, ap length empty, size)) in
    (
      b',
      e,
      λ ok.
          ap (λ l. Header.get_header max (l ++ rest))
            (f.appended ok ∙ ap (λ l. l ++ packet type fields) empty)
          ∙ get_header-packet max type fields rest p small fits bound,
    )
  where
    size : length (packet type fields) ≡ length (body_bytes fields) + 5
    size = omega (
      arith,
      ap length (regular_packet type fields small),
      length-append (uint32be (4 + length (body_bytes fields))) (body_bytes fields),
      length-uint32be (4 + length (body_bytes fields)),
    )
