-- ===== src/Objects.antt =====
-- pgbouncer-1.25.0/src/objects.c: where sockets stand, and how clients and server connections are
-- linked, released and closed. Each child takes a part of the file; the proofs are in their
-- children.
pub mod State
pub mod Links
pub mod Env
pub mod Release
pub mod Disconnect
pub mod Frame
pub mod Launch
pub mod Find
pub mod Requests
pub mod Cancel
