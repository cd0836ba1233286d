-- ===== src/Packet/PktBuf.antt =====
-- pgbouncer-1.25.0/src/pktbuf.c: the buffer that packets are written into. `bytes` are those that
-- are written, so `write_pos` is their number. Sizes are `int`, of 32 bits; an addition or a doubling
-- that leaves them, which C does not define, is `abort`.
pub mod Room
pub mod Written
use self_db_mini.Base.{
  ℕ, zero, suc, ◌+◌, ◌-◌, ◌*◌, ◌/◌, ◌%◌, ◌^◌, Bool, true, false, List, [], ◌∷◌, ◌++◌, length, take,
  drop, ltb, leb, if◌then◌else◌,
}
use self_db_mini.Base.Outcome.{Outcome, done, no_fuel, assert, ◌>>=◌, ◌>>◌}
use self_db_mini.Packet.Bytes.{uint16be, uint32be}

pub record PktBuf : Type 0 where
  pub bytes : List ℕ
  pub buf_len : ℕ
  pub pktlen_pos : ℕ
  pub failed : Bool
  pub fixed_buf : Bool

-- One argument of `pktbuf_write_generic`, with the letter that describes it.
pub data Field : Type 0 where
  c_char h_uint16 i_uint32 q_uint64 : ℕ → Field
  s_string b_bytes : List ℕ → Field

-- `while (newlen < need) newlen = newlen * 2;`
pub doubled : ℕ → ℕ → ℕ → Outcome ℕ
doubled zero newlen need = no_fuel
doubled (suc fuel) newlen need = elim (ltb newlen need) [
  | true ↦ assert (ltb (newlen * 2) (2 ^ 31)) >> doubled fuel (newlen * 2) need
  | false ↦ done newlen
]

-- The length is written over the four bytes that were left for it.
pub pktbuf_finish_packet : PktBuf → PktBuf
pktbuf_finish_packet buf = if buf.failed then buf else record buf {
  bytes =
      take buf.pktlen_pos buf.bytes
      ++ (uint32be (length buf.bytes - buf.pktlen_pos) ++ drop (buf.pktlen_pos + 4) buf.bytes);
  pktlen_pos = 0;
}

-- `can_grow` is whether `realloc` finds that much memory.
module _ (can_grow : ℕ → Bool) where
  pub make_room : ℕ → PktBuf → Outcome PktBuf
  unfolding doubled
  make_room len buf =
      let need = length buf.bytes + len in
      assert (ltb need (2 ^ 31))
      >> (if leb need buf.buf_len
          then done buf
          else if buf.failed
          then done buf
          else if buf.fixed_buf
          then done (record buf { failed = true })
          else (do
            newlen ← doubled (suc need) buf.buf_len need
            done (
                if can_grow newlen
                then record buf { buf_len = newlen }
                else record buf { failed = true })))

  -- Room for `len` bytes is made, and the data is written unless that failed.
  pub put : ℕ → List ℕ → PktBuf → Outcome PktBuf
  unfolding make_room
  put len bytes buf = do
    buf' ← make_room len buf
    done (if buf'.failed then buf' else record buf' { bytes = buf'.bytes ++ bytes })

  pub pktbuf_put_char : ℕ → PktBuf → Outcome PktBuf
  unfolding put
  pktbuf_put_char val buf = put 1 (val % 256 ∷ []) buf

  pub pktbuf_put_uint16 : ℕ → PktBuf → Outcome PktBuf
  unfolding put
  pktbuf_put_uint16 val buf = put 4 (uint16be val) buf

  pub pktbuf_put_uint32 : ℕ → PktBuf → Outcome PktBuf
  unfolding put
  pktbuf_put_uint32 val buf = put 4 (uint32be val) buf

  pub pktbuf_put_uint64 : ℕ → PktBuf → Outcome PktBuf
  unfolding pktbuf_put_uint32
  pktbuf_put_uint64 val buf = do
    buf' ← pktbuf_put_uint32 (val / 2 ^ 32) buf
    pktbuf_put_uint32 (val % 2 ^ 32) buf'

  pub pktbuf_put_bytes : List ℕ → PktBuf → Outcome PktBuf
  unfolding put
  pktbuf_put_bytes [] buf = done buf
  pktbuf_put_bytes (x ∷ xs) buf = put (length (x ∷ xs)) (x ∷ xs) buf

  -- A string is written with the zero byte at its end.
  pub pktbuf_put_string : List ℕ → PktBuf → Outcome PktBuf
  unfolding pktbuf_put_bytes
  pktbuf_put_string str buf = pktbuf_put_bytes (str ++ 0 ∷ []) buf

  pub pktbuf_start_packet : ℕ → PktBuf → Outcome PktBuf
  unfolding pktbuf_put_char pktbuf_put_uint32
  pktbuf_start_packet type buf =
      if buf.failed
      then done buf
      else if ltb type 256
      then (do
        b ← pktbuf_put_char type buf
        pktbuf_put_uint32 0 (record b { pktlen_pos = length b.bytes }))
      else (do
        b ← pktbuf_put_uint32 0 (record buf { pktlen_pos = length buf.bytes })
        pktbuf_put_uint32 type b)

  pub put_field : Field → PktBuf → Outcome PktBuf
  unfolding pktbuf_put_char pktbuf_put_uint16 pktbuf_put_uint32 pktbuf_put_uint64 pktbuf_put_bytes
      pktbuf_put_string
  put_field (c_char v) buf = pktbuf_put_char v buf
  put_field (h_uint16 v) buf = pktbuf_put_uint16 v buf
  put_field (i_uint32 v) buf = pktbuf_put_uint32 v buf
  put_field (q_uint64 v) buf = pktbuf_put_uint64 v buf
  put_field (s_string str) buf = pktbuf_put_string str buf
  put_field (b_bytes bin) buf = pktbuf_put_bytes bin buf

  pub put_fields : List Field → PktBuf → Outcome PktBuf
  unfolding put_field
  put_fields [] buf = done buf
  put_fields (f ∷ fs) buf = do buf' ← put_field f buf; put_fields fs buf'

  pub pktbuf_write_generic : ℕ → List Field → PktBuf → Outcome PktBuf
  unfolding pktbuf_start_packet put_fields pktbuf_finish_packet
  pktbuf_write_generic type fields buf = do
    b1 ← pktbuf_start_packet type buf
    b2 ← put_fields fields b1
    done (pktbuf_finish_packet b2)
