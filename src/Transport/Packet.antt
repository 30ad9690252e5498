-- ===== src/Transport/Packet.antt =====
-- Data packets of host/crates/emersia-daemon/src/transport/mod.rs: `seal_packet` and `open_packet`.
-- A packet is `type || sequence || nonce || ciphertext`.
pub mod RoundTrip
pub mod Window
use emersia.Base.{
  ℕ, ◌<◌, ◌^◌, Bool, true, false, not, Option, none, some, List, [], ◌∷◌, ◌++◌, length, get_or,
  drop, ltb, ◌==◌, if◌then◌else◌, Result, ok, err, map_err, ensure, ◌>>=◌, ◌>>◌,
}
use emersia.Base.Words.{be32, of_be32}
use emersia.Crypto.Primitives.{Primitives}
use emersia.Crypto.Aad.{Direction}
use emersia.Crypto.Session.{Session}
use emersia.Crypto.Seal.{seal, open_sealed}
use emersia.Transport.Types.{TransportError, malformed_record, dropped}
use emersia.Transport.Types.PacketType
use emersia.Transport.Record.{FrameHeader, parse_record}
use emersia.Transport.Replay.{ReplayWindow, check, commit}

-- `packet.first() == Some(&ty)`
abbrev pub first_is : List ℕ → ℕ → Bool
first_is [] ty = false
first_is (b ∷ bs) ty = b == ty

-- The sequence number in the clear, behind the type byte.
abbrev pub wire_sequence : List ℕ → ℕ
wire_sequence sealed =
    of_be32 (get_or sealed 0 0) (get_or sealed 1 0) (get_or sealed 2 0) (get_or sealed 3 0)

module _ (p : Primitives) where
  unfoldable pub seal_packet :
      Option (List ℕ) → Session → Direction → ℕ → List ℕ → Result TransportError (List ℕ)
  seal_packet entropy session direction sequence bytes = do
    sealed ← map_err (seal p entropy session direction sequence bytes) malformed_record
    ok (PacketType.record_data ∷ (be32 sequence ++ sealed))

  -- What `open_packet` does between its two uses of the window: the sealed part is opened and
  -- parsed, and its header must carry the sequence number of the wire.
  unfoldable pub authenticate :
      Session → Direction → List ℕ → Result TransportError (FrameHeader × List ℕ)
  authenticate session direction sealed = do
    let sequence = wire_sequence sealed
    plaintext ←
        map_err (open_sealed p session direction sequence (drop 4 sealed))
          (dropped "authentication failed")
    parsed ← parse_record plaintext
    ensure (parsed.0.sequence == sequence) malformed_record
    ok parsed

  -- The window is committed only to a number that was authenticated.
  unfoldable pub commit_opened :
      ReplayWindow
      → ℕ
      → FrameHeader × List ℕ
      → Result TransportError (FrameHeader × List ℕ) × ReplayWindow
  commit_opened window sequence parsed =
      if not (commit window sequence).0
      then (err (dropped "replayed or too old"), (commit window sequence).1)
      else (ok parsed, (commit window sequence).1)

  unfoldable pub open_packet :
      Session
      → Direction
      → ReplayWindow
      → List ℕ
      → Result TransportError (FrameHeader × List ℕ) × ReplayWindow
  open_packet session direction window packet =
      let sealed = drop 1 packet in
      if not (first_is packet PacketType.record_data)
      then (err (dropped "not a data packet"), window)
      else if ltb (length sealed) 4
      then (err (dropped "packet too short"), window)
      else if not (check window (wire_sequence sealed))
      then (err (dropped "replayed or too old"), window)
      else elim (authenticate session direction sealed) [
        | err e ↦ (err e, window)
        | ok parsed ↦ commit_opened window (wire_sequence sealed) parsed
      ]
