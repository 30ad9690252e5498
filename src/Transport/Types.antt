-- ===== src/Transport/Types.antt =====
-- The packet types and the errors of host/crates/emersia-daemon/src/transport/mod.rs.
use Prim.Native.String.{String}
use emersia.Base.{ℕ}
-- `PacketType` is the module `packet_type`: the first byte of every datagram.
pub mod PacketType

pub data TransportError : Type 0 where
  payload_too_large : ℕ → TransportError
  malformed_record : TransportError
  dropped : String → TransportError
