-- ===== src/Stream/IoBuf.antt =====
-- pgbouncer-1.25.0/include/iobuf.h: the buffer of a socket, with what is sent, what is to be sent
-- and what is to be parsed.
pub mod Holds
use self_db_mini.Base.{
  ℕ, ◌+◌, ◌-◌, ◌%◌, ◌^◌, Bool, true, false, ◌&&◌, ◌||◌, Option, none, some, List, ◌++◌, ltb, leb,
  ◌==◌, if◌then◌else◌, take, drop,
}
use self_db_mini.Base.Outcome.{Outcome, done, assert, ◌>>◌, ◌>>=◌}

-- `buf` is the whole of the array, of `cf_sbuf_len` bytes.
pub record IoBuf : Type 0 where
  pub done_pos : ℕ
  pub parse_pos : ℕ
  pub recv_pos : ℕ
  pub buf : List ℕ

-- `a - b` on `unsigned`
abbrev pub sub32 : ℕ → ℕ → ℕ
sub32 a b = (a + 2 ^ 32 - b) % 2 ^ 32

unfoldable pub iobuf_sane : ℕ → Option IoBuf → Bool
iobuf_sane cf_sbuf_len none = true
iobuf_sane cf_sbuf_len (some io) =
    leb io.done_pos io.parse_pos && leb io.parse_pos io.recv_pos && leb io.recv_pos cf_sbuf_len

unfoldable pub iobuf_empty : Option IoBuf → Bool
iobuf_empty none = true
iobuf_empty (some io) = io.done_pos == io.recv_pos

unfoldable pub iobuf_amount_pending : IoBuf → ℕ
iobuf_amount_pending io = sub32 io.parse_pos io.done_pos

unfoldable pub iobuf_amount_parse : IoBuf → ℕ
iobuf_amount_parse io = sub32 io.recv_pos io.parse_pos

unfoldable pub iobuf_amount_recv : ℕ → IoBuf → ℕ
iobuf_amount_recv cf_sbuf_len io = sub32 cf_sbuf_len io.recv_pos

-- What the reader `mbuf` is set to, and the result.
unfoldable pub iobuf_parse_all : IoBuf → List ℕ × ℕ
unfolding iobuf_amount_parse
iobuf_parse_all io =
    let avail = iobuf_amount_parse io in (take avail (drop io.parse_pos io.buf), avail)

unfoldable pub iobuf_parse_limit : ℕ → IoBuf → List ℕ × ℕ
unfolding iobuf_amount_parse
iobuf_parse_limit limit io =
    let parse = iobuf_amount_parse io in
    let avail = if ltb limit parse then limit else parse in
    (take avail (drop io.parse_pos io.buf), avail)

unfoldable pub iobuf_tag_send : ℕ → IoBuf → Outcome IoBuf
unfolding iobuf_amount_parse
iobuf_tag_send len io = do
  assert (ltb 0 len && leb len (iobuf_amount_parse io))
  done (record io { parse_pos = (io.parse_pos + len) % 2 ^ 32 })

unfoldable pub iobuf_tag_skip : ℕ → IoBuf → Outcome IoBuf
unfolding iobuf_amount_parse
iobuf_tag_skip len io = do
  assert (io.parse_pos == io.done_pos)
  assert (ltb 0 len && leb len (iobuf_amount_parse io))
  let pos = (io.parse_pos + len) % 2 ^ 32
  done (record io { parse_pos = pos; done_pos = pos })

-- `memmove` of bytes to the start of the buffer
abbrev pub move_to_start : ℕ → ℕ → List ℕ → List ℕ
move_to_start pos len buf = take len (drop pos buf) ++ drop len buf

unfoldable pub iobuf_try_resync : ℕ → IoBuf → IoBuf
iobuf_try_resync small_pkt io =
    let avail = sub32 io.recv_pos io.done_pos in
    if avail == 0
    then if ltb 0 io.recv_pos then record io { recv_pos = 0; parse_pos = 0; done_pos = 0 } else io
    else if leb avail small_pkt && ltb 0 io.done_pos
    then record io {
      buf = move_to_start io.done_pos avail io.buf;
      parse_pos = sub32 io.parse_pos io.done_pos;
      recv_pos = avail;
      done_pos = 0;
    }
    else io

unfoldable pub iobuf_reset : IoBuf → IoBuf
iobuf_reset io = record io { recv_pos = 0; parse_pos = 0; done_pos = 0 }
