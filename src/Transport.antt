-- ===== src/Transport.antt =====
-- host/crates/emersia-daemon/src/transport: a module for each part of it.
pub mod Types
pub mod Record
pub mod Replay
pub mod Reassembly
pub mod Packet
pub mod Handshake
pub mod Host
pub mod Client
