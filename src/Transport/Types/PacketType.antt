-- ===== src/Transport/Types/PacketType.antt =====
-- The module `packet_type` of host/crates/emersia-daemon/src/transport/mod.rs.
use emersia.Base.{ℕ}

abbrev pub handshake_init : ℕ
handshake_init = 0x01

abbrev pub handshake_response : ℕ
handshake_response = 0x02

abbrev pub handshake_confirm : ℕ
handshake_confirm = 0x03

abbrev pub record_data : ℕ
record_data = 0x10
