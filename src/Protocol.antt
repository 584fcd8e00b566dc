-- ===== src/Protocol.antt =====
-- backend/pc_client/protocol.py: packets and their layouts.
pub mod Enums
pub mod Error
pub mod Bytes
pub mod Layout
pub mod Config
pub mod Packet
pub mod Decode
