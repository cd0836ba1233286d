-- ===== src/Tests.antt =====
-- A small pooler with a few clients and connections, and a small packet, on which the theorems are
-- run.
pub mod World
pub mod Sockets
pub mod Packets
pub mod Cancels
pub mod Rules
pub mod Streams
