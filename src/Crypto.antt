-- ===== src/Crypto.antt =====
-- host/crates/emersia-daemon/src/crypto.rs: a module for each part of it.
pub mod Primitives
pub mod Aad
pub mod Session
pub mod Seal
pub mod Code
