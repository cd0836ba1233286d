-- ===== src/Packet.antt =====
-- Packets of the protocol: the buffer that they are written into, and their headers.
pub mod Bytes
pub mod PktBuf
pub mod Header
