-- ===== src/Stream/SBuf.antt =====
-- pgbouncer-1.25.0/include/sbuf.h and src/sbuf.c: the state of a socket.
use self_db_mini.Base.{ℕ, Bool, true, false, Option, none, some, List, ltb}
use self_db_mini.Base.Outcome.{Outcome, done, abort, assert, ◌>>◌}
use self_db_mini.Stream.IoBuf.{IoBuf, iobuf_sane}

pub data PktAction : Type 0 where
  act_unset act_send act_skip act_call : PktAction

pub data WaitType : Type 0 where
  w_none w_connect w_recv w_send w_once : WaitType

pub data TlsState : Type 0 where
  tls_none tls_do_handshake tls_in_handshake tls_ok : TlsState

pub data SBufEvent : Type 0 where
  ev_read ev_recv_failed ev_send_failed ev_connect_failed ev_connect_ok ev_flush ev_pkt_callback
        ev_tls_ready :
      SBufEvent

-- What a call of `sbuf_op_send` does: it takes so many bytes at most, it would block, or it fails.
-- Where it would block, libevent takes the events of sbuf_queue_send or does not.
pub data SendAnswer : Type 0 where
  wrote : ℕ → SendAnswer
  would_block : Bool → SendAnswer
  broken : SendAnswer

-- `dst` is the number of the socket of the target. `extra_packets` holds the bytes that are written
-- and not read. `sent` is what the target has got, and `answers` what the next sends will do; when
-- they are used up, the target would block.
pub record SBuf : Type 0 where
  pub wait_type : WaitType
  pub pkt_action : PktAction
  pub tls_state : TlsState
  pub sock : ℕ
  pub pkt_remain : ℕ
  pub skip_remain : ℕ
  pub extra_packets : List ℕ
  pub extra_packet_queue_after : Bool
  pub dst : Option ℕ
  pub io : Option IoBuf
  pub sent : List ℕ
  pub answers : List SendAnswer

abbrev pub is_recv : WaitType → Bool
is_recv w_recv = true
is_recv _ = false

abbrev pub is_read : SBufEvent → Bool
is_read ev_read = true
is_read _ = false

abbrev pub skips : PktAction → Bool
skips act_skip = true
skips act_call = true
skips _ = false

-- A read through NULL stops the process.
abbrev pub deref {ℓ} : {A : Type ℓ} → Option A → Outcome A
deref none = abort
deref (some a) = done a

-- The handler of packets, `proto_cb`: the event, the bytes that it may look at, and its answer.
abbrev pub Proto : Type 0
Proto = SBufEvent → List ℕ → SBuf → Outcome (Bool × SBuf)

abbrev pub sbuf_small_pkt : ℕ
sbuf_small_pkt = 64

-- AssertSanity
abbrev pub assert_sanity : ℕ → SBuf → Outcome (Unit {0})
assert_sanity cf_sbuf_len sbuf = assert (iobuf_sane cf_sbuf_len sbuf.io)

-- AssertActive
abbrev pub assert_active : ℕ → SBuf → Outcome (Unit {0})
assert_active cf_sbuf_len sbuf = do assert (ltb 0 sbuf.sock); assert_sanity cf_sbuf_len sbuf
