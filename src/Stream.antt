-- ===== src/Stream.antt =====
-- pgbouncer-1.25.0/include/iobuf.h and src/sbuf.c: the bytes that pass from one socket to another.
pub mod IoBuf
pub mod SBuf
pub mod Sending
pub mod Pending
pub mod Receive
pub mod Prepare
