-- ===== src/Transport/Packet/RoundTrip.antt =====
-- Packets of transport/mod.rs sealed by one side and opened by the other.
use emersia.Base.{
  ℕ, ◌<◌, ◌^◌, true, some, List, ◌∷◌, ◌++◌, length, length-append, ok, ◌≡◌, refl, ap, ◌∙◌, ==_iff,
  arith,
}
use emersia.Base.Words.{be32, of_be32-be32}
use emersia.Crypto.Primitives.{Primitives, IsLawful}
use emersia.Crypto.Aad.{Direction}
use emersia.Crypto.Session.{Session}
use emersia.Crypto.Session.Keys.{HasKeys}
use emersia.Crypto.Seal.{open_sealed}
use emersia.Crypto.Seal.RoundTrip.{open_sealed-seal}
use emersia.Transport.Types.PacketType
use emersia.Transport.Record.{FrameHeader, IsWellFormed, to_bytes}
use emersia.Transport.Record.RoundTrip.{parse_record-append, length-to_bytes}
use emersia.Transport.Replay.{ReplayWindow, check, commit}
use emersia.Transport.Packet.{wire_sequence, seal_packet, authenticate, open_packet}
use emersia.Transport.Packet.Window.{open_packet-opened}

module _ (p : Primitives) (lawful : IsLawful p) (s : Session) (keys : HasKeys s) (nonce : List ℕ)
    (random_12 : length nonce ≡ 12) (d : Direction) (h : FrameHeader) (payload : List ℕ)
    (well_formed : IsWellFormed h) (sized : h.payload_len ≡ length payload) where
  abbrev body : List ℕ
  body = to_bytes h ++ payload

  body_small : length body < 2 ^ 32
  body_small =
      omega
        (arith, length-append (to_bytes h) payload, length-to_bytes h, well_formed.payload_len_u16)

  wire_sequence-packet : (sealed : List ℕ) → wire_sequence (be32 h.sequence ++ sealed) ≡ h.sequence
  wire_sequence-packet sealed = of_be32-be32 h.sequence well_formed.sequence_u32

  authenticate-sealed :
      (sealed : List ℕ)
      → open_sealed p s d h.sequence sealed ≡ ok body
      → authenticate p s d (be32 h.sequence ++ sealed) ≡ ok (h, payload)
  unfolding authenticate
  authenticate-sealed sealed e =
      rw (wire_sequence-packet sealed, authenticate)
        (rw e (
          rw (parse_record-append h payload well_formed sized)
            (rw ((==_iff h.sequence h.sequence).1 refl))))

  -- A well-formed record whose sequence number is fresh to the receiver's window is sealed into a
  -- packet, and the packet is opened into the record's header and payload, which commits the number.
  pub open_packet-seal_packet :
      (w : ReplayWindow)
      → check w h.sequence ≡ true
      → (packet : List ℕ) × (seal_packet p (some nonce) s d h.sequence (to_bytes h ++ payload)
          ≡ ok packet)
        × (open_packet p s d w packet ≡ (ok (h, payload), (commit w h.sequence).1))
  unfolding seal_packet
  open_packet-seal_packet w fresh =
      let (sealed, e, opened) =
        open_sealed-seal p lawful s keys nonce random_12 d h.sequence body body_small in
      let number = wire_sequence-packet sealed in
      (
        PacketType.record_data ∷ (be32 h.sequence ++ sealed),
        rw e,
        open_packet-opened p s d w (PacketType.record_data ∷ (be32 h.sequence ++ sealed)) refl
              (ground arith) (ap (check w) number ∙ fresh) (h, payload)
              (authenticate-sealed sealed opened)
            ∙ ap (λ k. (ok (h, payload), (commit w k).1)) number,
      )
