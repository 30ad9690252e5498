-- ===== src/Transport/Client.antt =====
-- `ClientEndpoint` of host/crates/emersia-daemon/src/transport/udp.rs, once its socket is there. What
-- the random source and the socket give are arguments of each call; the outer `none` is a panic.
pub mod Receive
use emersia.Base.{ℕ, Bool, Option, none, some, List, if◌then◌else◌, Result, ok, err}
use emersia.Crypto.Primitives.{Primitives}
use emersia.Crypto.Aad.{host_to_device}
use emersia.Crypto.Session.{Session}
use emersia.Transport.Types.{TransportError, dropped}
use emersia.Transport.Record.{FrameHeader}
use emersia.Transport.Replay.{ReplayWindow, default}
use emersia.Transport.Packet.{open_packet}
use emersia.Transport.Handshake.{HandshakeClient, new_client, init, finish, confirm}

pub record ClientEndpoint : Type 0 where
  pub handshake : Option HandshakeClient
  pub session : Option Session
  pub window : ReplayWindow

-- `ClientEndpoint::new`, with the ephemeral secret of the handshake.
abbrev pub new_endpoint : List ℕ → List ℕ → List ℕ → List ℕ → ClientEndpoint
new_endpoint device_id identity host_static ephemeral = record {
  handshake = some (new_client device_id identity host_static ephemeral);
  session = none;
  window = default;
}

-- What reading a datagram within a timeout gives.
abbrev pub received_raw : Option (List ℕ) → Result TransportError (List ℕ)
received_raw none = err (dropped "no datagram")
received_raw (some packet) = ok packet

-- `recv_raw`: setting the timeout may fail first.
unfoldable pub recv_raw : Bool → Option (List ℕ) → Result TransportError (List ℕ)
recv_raw timeout_set datagram =
    if timeout_set then received_raw datagram else err (dropped "timeout setup failed")

module _ (p : Primitives) where
  -- The answer, the endpoint, and the packet that was handed to the socket.
  unfoldable pub send_init :
      Option (List ℕ)
      → Bool
      → ClientEndpoint
      → Option (Result TransportError (Unit {0}) × ClientEndpoint × Option (List ℕ))
  send_init entropy sent c = elim c.handshake [
    | none ↦ some (err (dropped "handshake already started"), c, none)
    | some client ↦ elim (init p entropy client) [
      | err e ↦ none
      | ok (packet, client') ↦
          let after = record c { handshake = some client' } in
          if sent
          then some (ok tt, after, some packet)
          else some (err (dropped "send failed"), after, some packet)
    ]
  ]

  unfoldable pub complete_with :
      Option (List ℕ)
      → Bool
      → ClientEndpoint
      → Session
      → Option (Result TransportError Session × ClientEndpoint × Option (List ℕ))
  complete_with entropy sent c session = elim (confirm p entropy session) [
    | err e ↦ none
    | ok packet ↦
        if sent
        then some (ok session, record c { session = some session }, some packet)
        else some (err (dropped "send confirm failed"), c, some packet)
  ]

  unfoldable pub complete :
      Option (List ℕ)
      → Bool
      → ClientEndpoint
      → List ℕ
      → Option (Result TransportError Session × ClientEndpoint × Option (List ℕ))
  complete entropy sent c response = elim c.handshake [
    | none ↦ some (err (dropped "handshake already complete"), c, none)
    | some client ↦
        let done = finish p client response in
        let after = record c { handshake = some done.1 } in
        elim done.0 [
          | err e ↦ some (err (dropped "handshake rejected"), after, none)
          | ok session ↦ complete_with entropy sent after session
        ]
  ]

  unfoldable pub recv_record :
      Bool
      → Option (List ℕ)
      → ClientEndpoint
      → Result TransportError (FrameHeader × List ℕ) × ClientEndpoint
  recv_record timeout_set datagram c = elim c.session [
    | none ↦ (err (dropped "no session"), c)
    | some session ↦
        if timeout_set
        then elim datagram [
          | none ↦ (err (dropped "no record"), c)
          | some packet ↦
              let opened = open_packet p session host_to_device c.window packet in
              (opened.0, record c { window = opened.1 })
        ]
        else (err (dropped "timeout setup failed"), c)
  ]
