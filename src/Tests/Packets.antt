-- ===== src/Tests/Packets.antt =====
-- The theorems on packets, at an error message in a small buffer.
use self_db_mini.Base.{
  ℕ, ◌<◌, ◌≤◌, ◌≡◌, ◌++◌, ◌+◌, refl, Bool, true, false, some, List, [], ◌∷◌, arith, length,
}
use self_db_mini.Packet.Bytes.{uint32be}
use self_db_mini.Packet.PktBuf
use self_db_mini.Packet.PktBuf.Room
use self_db_mini.Packet.PktBuf.Written
use self_db_mini.Packet.Header
use self_db_mini.Packet.Header.RoundTrip

abbrev an_empty_buffer : PktBuf.PktBuf
an_empty_buffer = record {
  bytes = [];
  buf_len = 4;
  pktlen_pos = 0;
  failed = false;
  fixed_buf = false;
}

abbrev some_fields : List PktBuf.Field
some_fields = PktBuf.c_char 83 ∷ PktBuf.s_string (70 ∷ 65 ∷ []) ∷ PktBuf.i_uint32 7 ∷ []

abbrev always : ℕ → Bool
always n = true

doubled_lem_example : Room.Yields (λ n. (14 ≤ n) × (n < 28)) (PktBuf.doubled 15 4 14)
doubled_lem_example =
    Room.doubled_lem 14 4 14 (omega arith) (omega arith) (omega arith) (omega arith)

pktbuf_write_generic_lem_example :
    Room.Yields
      (Written.Finished 69 some_fields an_empty_buffer)
      (PktBuf.pktbuf_write_generic always 69 some_fields an_empty_buffer)
pktbuf_write_generic_lem_example =
    Written.pktbuf_write_generic_lem always 69 some_fields an_empty_buffer (omega arith) (
      unfold Written.packet Written.before_length Written.after_length Written.body_bytes
        Written.field_bytes uint32be in
      omega arith)

get_header-pktbuf_write_generic_example :
    Room.Yields
      (λ b'.
        b'.failed ≡ false
        → Header.get_header 1000 (b'.bytes ++ 1 ∷ [])
          ≡ some (record {
            type = 69;
            len = length (Written.body_bytes some_fields) + 5;
            body = Written.body_bytes some_fields;
          }))
      (PktBuf.pktbuf_write_generic always 69 some_fields an_empty_buffer)
get_header-pktbuf_write_generic_example =
    RoundTrip.get_header-pktbuf_write_generic always 1000 69 some_fields (1 ∷ []) an_empty_buffer
      refl (omega arith) (omega arith) (omega arith)
      (unfold Written.body_bytes Written.field_bytes uint32be in omega arith) (omega arith)
      (unfold Written.body_bytes Written.field_bytes uint32be in omega arith)
