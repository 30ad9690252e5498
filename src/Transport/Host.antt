-- ===== src/Transport/Host.antt =====
-- The host's endpoint in host/crates/emersia-daemon/src/transport/udp.rs: `HostEndpoint` with the
-- handlers of its packets, `pump` and `disconnect`. A socket address is a number, which is only
-- compared, and an instant is a number of nanoseconds. The clock's readings, the random source, the
-- socket and the authoriser are arguments. The outer `none` is a panic.
pub mod Steps
pub mod Pump
pub mod Send
pub mod Bounds
pub mod Share
pub mod Deny
pub mod Confirm
use emersia.Base.{
  ℕ, zero, suc, ◌+◌, ◌-◌, ◌*◌, ◌^◌, Bool, true, false, not, ◌&&◌, ◌||◌, Option, none, some, List,
  [], ◌∷◌, ◌++◌, map, length, take, drop, ltb, leb, ◌==◌, if◌then◌else◌, bytes_eq, is_some, Result,
  ok, err,
}
use emersia.Base.Assoc.{nat_eq, bytes_eq_eq, lookup, remove, insert, retain, count_values}
use emersia.Crypto.Primitives.{Primitives}
use emersia.Crypto.Aad.{device_to_host}
use emersia.Crypto.Session.{Session}
use emersia.Transport.Types.PacketType
use emersia.Transport.Replay.{ReplayWindow, default}
use emersia.Transport.Packet.{open_packet}
use emersia.Transport.Handshake.{
  device_id_len, Failure, fails, panics, InitOutcome, strip_type, new_server, accept_init,
  verify_confirm,
}

-- `PENDING_HANDSHAKE_TTL`: ten seconds.
abbrev pub pending_handshake_ttl : ℕ
pending_handshake_ttl = 10 * 10 ^ 9

abbrev pub max_pending_handshakes : ℕ
max_pending_handshakes = 64

abbrev pub max_pending_handshakes_per_device : ℕ
max_pending_handshakes_per_device = 4

pub data HostOutcome : Type 0 where
  silent : HostOutcome
  reply : List ℕ → HostOutcome

pub record Peer : Type 0 where
  pub addr : ℕ
  pub session : Session
  pub window : ReplayWindow

pub record Pending : Type 0 where
  pub device_id : List ℕ
  pub device_static : List ℕ
  pub session : Session
  pub created_at : ℕ

pub record HostEndpoint : Type 0 where
  pub host_identity : List ℕ
  pub pending : List (ℕ × Pending)
  pub peers : List (List ℕ × Peer)
  pub next_sequence : ℕ

abbrev pub Authorizer : Type 0
Authorizer = List ℕ → List ℕ → Bool

-- What the clock and the random source give while one datagram is handled: the readings of
-- `handle_packet`, of its handler and of the new entry, and the ephemeral secret and the nonce.
pub record Surroundings : Type 0 where
  pub arrived : ℕ
  pub handled : ℕ
  pub created : ℕ
  pub ephemeral : Option (List ℕ)
  pub nonce : Option (List ℕ)

-- `HostEndpoint::bind`, once the socket is there.
abbrev pub bind : List ℕ → HostEndpoint
bind host_identity = record {
  host_identity = host_identity;
  pending = [];
  peers = [];
  next_sequence = 0;
}

-- The entry is not from the future, and younger than the limit.
abbrev pub is_live : ℕ → Pending → Bool
is_live now p = leb p.created_at now && ltb (now - p.created_at) pending_handshake_ttl

unfoldable pub prune_pending : ℕ → HostEndpoint → HostEndpoint
prune_pending now st = record st { pending = retain (is_live now) st.pending }

abbrev pub is_of : List ℕ → Pending → Bool
is_of device_id p = bytes_eq p.device_id device_id

-- A new source must not grow the map beyond its bounds.
unfoldable pub over_budget : HostEndpoint → ℕ → List ℕ → Bool
over_budget st from device_id =
    not (is_some (lookup from st.pending))
    && (leb max_pending_handshakes (length st.pending)
        || leb max_pending_handshakes_per_device (count_values (is_of device_id) st.pending))

abbrev pub device_id_of : List ℕ → List ℕ
device_id_of body = take device_id_len body

abbrev pub device_static_of : List ℕ → List ℕ
device_static_of body = take 32 (drop device_id_len body)

unfoldable pub disconnect : List ℕ → HostEndpoint → Bool × HostEndpoint
disconnect device_id st =
    let peer_removed = is_some (lookup device_id st.peers) in
    let pending = retain (λ p. not (is_of device_id p)) st.pending in
    (
      peer_removed || not (length st.pending == length pending),
      record st { peers = remove device_id st.peers; pending = pending },
    )

unfoldable pub peer_count : HostEndpoint → ℕ
peer_count st = length st.peers

unfoldable pub peer_ids : HostEndpoint → List (List ℕ)
peer_ids st = map (λ entry. entry.0) st.peers

module _ (p : Primitives) where
  -- What becomes of an `init` that the handshake has looked at.
  unfoldable pub admit :
      Surroundings
      → HostEndpoint
      → ℕ
      → List ℕ
      → Result Failure InitOutcome
      → Option (HostOutcome × HostEndpoint)
  admit around st from device_static (ok outcome) = some (
    reply outcome.response,
    record st {
      pending =
          insert from
            (record {
              device_id = outcome.device_id;
              device_static = device_static;
              session = outcome.session;
              created_at = around.created;
            })
            st.pending;
    },
  )
  admit around st from device_static (err (fails e)) = some (silent, st)
  admit around st from device_static (err panics) = none

  -- An `init` behind its type byte, from a pruned state.
  unfoldable pub admit_body :
      Surroundings
      → Authorizer
      → HostEndpoint
      → List ℕ
      → ℕ
      → List ℕ
      → Option (HostOutcome × HostEndpoint)
  admit_body around authorized st packet from body =
      if ltb (length body) (device_id_len + 64)
      then some (silent, st)
      else if not (authorized (device_id_of body) (device_static_of body))
      then some (silent, st)
      else if over_budget st from (device_id_of body)
      then some (silent, st)
      else admit around st from (device_static_of body)
          (accept_init p around.ephemeral around.nonce (new_server st.host_identity) packet).0

  unfoldable pub handle_init :
      Surroundings → Authorizer → HostEndpoint → List ℕ → ℕ → Option (HostOutcome × HostEndpoint)
  handle_init around authorized st packet from =
      let st' = prune_pending around.handled st in
      elim (strip_type packet PacketType.handshake_init) [
        | none ↦ some (silent, st')
        | some body ↦ admit_body around authorized st' packet from body
      ]

  -- A confirmation for a pending handshake.
  unfoldable pub confirm_pending : Authorizer → HostEndpoint → List ℕ → ℕ → Pending → HostEndpoint
  confirm_pending authorized st packet from pending =
      if not (authorized pending.device_id pending.device_static)
      then record st { pending = remove from st.pending; peers = remove pending.device_id st.peers }
      else elim (verify_confirm p pending.session packet) [
        | err e ↦ record st { pending = remove from st.pending }
        | ok done ↦ record st {
          pending = remove from st.pending;
          peers =
              insert pending.device_id
                (record { addr = from; session = pending.session; window = default }) st.peers;
        }
      ]

  unfoldable pub handle_confirm :
      Surroundings → Authorizer → HostEndpoint → List ℕ → ℕ → HostOutcome × HostEndpoint
  handle_confirm around authorized st packet from =
      let st' = prune_pending around.handled st in
      elim (lookup from st'.pending) [
        | none ↦ (silent, st')
        | some pending ↦ (silent, confirm_pending authorized st' packet from pending)
      ]

  -- The first peer at the address opens the packet, with its own window.
  unfoldable pub open_for : List ℕ → ℕ → List (List ℕ × Peer) → List (List ℕ × Peer)
  open_for packet from [] = []
  open_for packet from ((id, peer) ∷ rest) =
      if peer.addr == from
      then (
        id,
        record peer { window = (open_packet p peer.session device_to_host peer.window packet).1 },
      )
        ∷ rest
      else (id, peer) ∷ open_for packet from rest

  unfoldable pub handle_data : HostEndpoint → List ℕ → ℕ → HostEndpoint
  handle_data st packet from = record st { peers = open_for packet from st.peers }

  -- By the first byte of the packet.
  unfoldable pub dispatch :
      Surroundings → Authorizer → HostEndpoint → List ℕ → ℕ → Option (HostOutcome × HostEndpoint)
  dispatch around authorized st [] from = some (silent, st)
  dispatch around authorized st (ty ∷ rest) from =
      if ty == PacketType.handshake_init
      then handle_init around authorized st (ty ∷ rest) from
      else if ty == PacketType.handshake_confirm
      then some (handle_confirm around authorized st (ty ∷ rest) from)
      else if ty == PacketType.record_data
      then some (silent, handle_data st (ty ∷ rest) from)
      else some (silent, st)

  unfoldable pub handle_packet :
      Surroundings → Authorizer → HostEndpoint → List ℕ → ℕ → Option (HostOutcome × HostEndpoint)
  handle_packet around authorized st packet from =
      dispatch around authorized (prune_pending around.arrived st) packet from
