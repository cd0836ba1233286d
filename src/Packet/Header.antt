-- ===== src/Packet/Header.antt =====
-- pgbouncer-1.25.0/src/proto.c: get_header. The bytes that are received and not read, `struct MBuf`,
-- are a list.
pub mod RoundTrip
use self_db_mini.Base.{
  ℕ, ◌+◌, ◌%◌, ◌^◌, Bool, ◌&&◌, ◌||◌, not, Option, none, some, List, [], ◌∷◌, length, take, drop,
  ltb, leb, ◌==◌, if◌then◌else◌,
}
use self_db_mini.Packet.Bytes.{get_uint16be, get_uint32be}

-- `body`, the field `data`, is what there is of the packet after its header.
pub record PktHdr : Type 0 where
  pub type : ℕ
  pub len : ℕ
  pub body : List ℕ

-- bouncer.h: the codes of special packets. The constants are 0x20000, 0x30000, 0x30001, 0x40000,
-- 80877102, 80877103 and 80877104.
abbrev pub pkt_startup_v2 : ℕ
pkt_startup_v2 = 131072

abbrev pub pkt_startup_v3 : ℕ
pkt_startup_v3 = 196608

abbrev pub pkt_startup_v3_unsupported : ℕ
pkt_startup_v3_unsupported = 196609

abbrev pub pkt_startup_v4 : ℕ
pkt_startup_v4 = 262144

abbrev pub pkt_cancel : ℕ
pkt_cancel = 80877102

abbrev pub pkt_sslreq : ℕ
pkt_sslreq = 80877103

abbrev pub pkt_gssencreq : ℕ
pkt_gssencreq = 80877104

-- The type of a special packet by its code.
special_type : ℕ → Option ℕ
special_type code =
    if code == pkt_cancel
    then some pkt_cancel
    else if code == pkt_sslreq
    then some pkt_sslreq
    else if code == pkt_gssencreq
    then some pkt_gssencreq
    else if leb pkt_startup_v3 code && ltb code pkt_startup_v3_unsupported
    then some pkt_startup_v3
    else if leb pkt_startup_v3_unsupported code && ltb code pkt_startup_v4
    then some pkt_startup_v3_unsupported
    else if code == pkt_startup_v2
    then some pkt_startup_v2
    else none

-- From the comment "don't believe nonsense" on: `got` bytes of header are taken off the packet.
with_header : ℕ → ℕ → ℕ → ℕ → List ℕ → Option PktHdr
with_header max type len got received =
    if ltb len got || ltb max len
    then none
    else let packet = take len received in
      if ltb (length packet) got
      then none
      else some (record { type = type; len = len; body = drop got packet })

-- A special packet, after its first byte
special_header : ℕ → List ℕ → List ℕ → Option PktHdr
unfolding special_type with_header
special_header max received [] = none
special_header max received (second ∷ hdr) =
    if not (second == 0)
    then none
    else if ltb (length hdr) 6
    then none
    else elim (get_uint16be hdr) [
      | none ↦ none
      | some (len, hdr') ↦ elim (get_uint32be hdr') [
        | none ↦ none
        | some (code, hdr'') ↦ elim (special_type code) [
          | none ↦ none
          | some type ↦ with_header max type len 8 received
        ]
      ]
    ]

-- `max` is the setting `max_packet_size`.
pub get_header : ℕ → List ℕ → Option PktHdr
unfolding special_header with_header
get_header max [] = none
get_header max (type ∷ hdr) =
    if ltb (length (type ∷ hdr)) 5
    then none
    else if not (type == 0)
    then elim (get_uint32be hdr) [
      | none ↦ none
      | some (len, hdr') ↦ with_header max type ((len + 1) % 2 ^ 32) 5 (type ∷ hdr)
    ]
    else special_header max (type ∷ hdr) hdr
