-- ===== src/Transport/Client/Receive.antt =====
-- What the device's endpoint in transport/udp.rs does with its session.
use emersia.Base.{
  ℕ, Bool, true, Option, none, some, List, Result, ok, err, inl, inr, drop, ◌⊎◌, ◌≡◌, refl, sym, ap,
  ◌∙◌,
}
use emersia.Crypto.Primitives.{Primitives}
use emersia.Crypto.Aad.{host_to_device}
use emersia.Crypto.Session.{Session}
use emersia.Transport.Types.{TransportError, dropped}
use emersia.Transport.Record.{FrameHeader}
use emersia.Transport.Replay.{ReplayWindow, check, commit}
use emersia.Transport.Packet.{wire_sequence, authenticate, open_packet}
use emersia.Transport.Packet.Window.{open_packet-Keeps}
use emersia.Transport.Handshake.{HandshakeClient, at_done, is_response, fails, out_of_order, finish}
use emersia.Transport.Client.{ClientEndpoint, complete, recv_record}

finish-at_done :
    (p : Primitives) (client : HandshakeClient) (response : List ℕ)
    → client.step ≡ at_done
    → finish p client response ≡ (err (fails out_of_order), client)
unfolding finish
finish-at_done p client response done = rw (ap is_response done)

-- Once a response was looked at, good or bad, every further one is refused, nothing is sent, and the
-- endpoint stays as it is, with its session.
pub complete_again :
    (p : Primitives) (entropy : Option (List ℕ)) (sent : Bool) (c : ClientEndpoint)
    (client : HandshakeClient) (response : List ℕ)
    → c.handshake ≡ some client
    → client.step ≡ at_done
    → complete p entropy sent c response ≡ some (err (dropped "handshake rejected"), c, none)
complete_again p entropy sent c client response there done =
    ap (λ h. complete p entropy sent (record c { handshake = h }) response) there
    ∙ refused
    ∙ ap (λ h. some (err (dropped "handshake rejected"), record c { handshake = h }, none))
        (sym there)
  where
    refused :
        complete p entropy sent (record c { handshake = some client }) response
        ≡ some (err (dropped "handshake rejected"), record c { handshake = some client }, none)
    refused =
        unfold complete in
        rw (finish-at_done p client response done, complete)
          (ap
            (λ o.
              some (err (dropped "handshake rejected"), record c { handshake = some o.1 }, none))
            (finish-at_done p client response done))

abbrev with_window :
    ClientEndpoint
    → Result TransportError (FrameHeader × List ℕ) × ReplayWindow
    → Result TransportError (FrameHeader × List ℕ) × ClientEndpoint
with_window c o = (o.0, record c { window = o.1 })

-- A datagram that the device reads is either refused, and leaves the endpoint as it is, or it is a
-- packet whose number is fresh and which opens, under the session's keys for the device, into the
-- record that is returned; then only the window changes, by that number.
pub recv_record-cases :
    (p : Primitives) (c : ClientEndpoint) (s : Session) (packet : List ℕ)
    → c.session ≡ some s
    → ((e : TransportError) × (recv_record p true (some packet) c ≡ (err e, c)))
      ⊎ ((parsed : FrameHeader × List ℕ) × (recv_record p true (some packet) c ≡ (
        ok parsed,
        record c { window = (commit c.window (wire_sequence (drop 1 packet))).1 },
      ))
          × (check c.window (wire_sequence (drop 1 packet)) ≡ true)
          × (authenticate p s host_to_device (drop 1 packet) ≡ ok parsed))
recv_record-cases p c s packet there = elim (open_packet-Keeps p s host_to_device c.window packet) [
  | inl (e, kept) ↦ inl (e, opens ∙ ap (with_window c) kept)
  | inr (parsed, opened, fresh, authentic) ↦
      inr (parsed, opens ∙ ap (with_window c) opened, fresh, authentic)
]
  where
    computed : recv_record p true (some packet) (record c { session = some s }) ≡ (
      (open_packet p s host_to_device c.window packet).0,
      record c { session = some s; window = (open_packet p s host_to_device c.window packet).1 },
    )
    computed = unfold recv_record in refl

    opens :
        recv_record p true (some packet) c
        ≡ with_window c (open_packet p s host_to_device c.window packet)
    opens =
        ap (λ o. recv_record p true (some packet) (record c { session = o })) there
        ∙ computed
        ∙ ap
            (λ o. (
              (open_packet p s host_to_device c.window packet).0,
              record c { session = o; window = (open_packet p s host_to_device c.window packet).1 },
            ))
            (sym there)
