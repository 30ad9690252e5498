-- ===== src/Tests.antt =====
-- The theorems at concrete inputs.
mod Toy
mod Crypto
mod Records
mod Replay
mod Frames
mod Handshake
mod Host
mod Pairing
mod Endpoints
mod Images
mod Stream
mod Service
mod Control
mod Capture
