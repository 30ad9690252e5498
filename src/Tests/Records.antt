-- ===== src/Tests/Records.antt =====
-- The theorems about records and packets of transport/mod.rs at concrete inputs.
use emersia.Base.{
  ℕ, ◌+◌, ◌≤◌, ◌^◌, ◌↔◌, true, some, List, [], ◌∷◌, ◌++◌, length, replicate, ok, err, ◌≡◌, refl,
  arith,
}
use emersia.Crypto.Aad.{Direction, host_to_device}
use emersia.Crypto.Session.{Session}
use emersia.Crypto.Session.Keys.{HasKeys}
use emersia.Transport.Types.{payload_too_large}
use emersia.Transport.Record.{
  FrameHeader, frame_header_len, record_header, to_bytes, build_record, parse_record, IsWellFormed,
}
use emersia.Transport.Record.RoundTrip.{
  parse_record-build_record, build_record_too_large, parse_record-IsWellFormed,
}
use emersia.Transport.Replay.{default, check, commit}
use emersia.Transport.Packet.{seal_packet, open_packet}
use emersia.Transport.Packet.Window.{Keeps, open_packet-Keeps}
use emersia.Transport.Packet.RoundTrip.{open_packet-seal_packet}
use emersia.Tests.Toy.{toy, toy-IsLawful}

abbrev payload : List ℕ
payload = 10 ∷ 20 ∷ 30 ∷ []

abbrev header : FrameHeader
header = record_header 5 4 1000 true 2 payload 0 1

header-IsWellFormed : IsWellFormed header
header-IsWellFormed = record {
  version_one = refl;
  payload_type_u8 = omega arith;
  sequence_u32 = omega arith;
  frame_sequence_u32 = omega arith;
  timestamp_u32 = omega arith;
  payload_len_u16 = omega arith;
  frag_count_u16 = omega arith;
  frag_within = omega arith;
}

parse_record-build_record_example :
    (bytes : List ℕ) × (build_record 5 4 1000 true 2 payload 0 1 ≡ ok bytes)
    × (parse_record bytes ≡ ok (header, payload))
parse_record-build_record_example =
    parse_record-build_record 5 4 1000 true 2 payload 0 1 header-IsWellFormed

build_record_too_large_example :
    (build_record 5 4 1000 true 2 payload 0 1 ≡ err (payload_too_large 3)) ↔ (2 ^ 16 ≤ 3)
build_record_too_large_example = build_record_too_large 5 4 1000 true 2 payload 0 1

abbrev bytes : List ℕ
bytes =
    1 ∷ 1 ∷ 2 ∷ 0 ∷ 0 ∷ 0 ∷ 0 ∷ 5 ∷ 0 ∷ 0 ∷ 0 ∷ 4 ∷ 0 ∷ 0 ∷ 3 ∷ 232 ∷ 0 ∷ 3 ∷ 0 ∷ 0 ∷ 0 ∷ 1 ∷ 0 ∷ 0
    ∷ payload

parse_record-IsWellFormed_example :
    IsWellFormed header × (length payload ≡ 3) × (frame_header_len + 3 ≤ length bytes)
unfolding parse_record emersia.Transport.Record.from_bytes
parse_record-IsWellFormed_example =
    parse_record-IsWellFormed bytes payload header (ground arith) refl

abbrev session : Session
session = record {
  host_to_device_keys = record { key = replicate 32 5 };
  device_to_host_keys = record { key = replicate 32 6 };
  salt = replicate 16 0;
}

session-HasKeys : HasKeys session
session-HasKeys = record { host_to_device_32 = refl; device_to_host_32 = refl }

default-check : check default 5 ≡ true
unfolding check
default-check = refl

open_packet-seal_packet_example :
    (packet : List ℕ) × (seal_packet toy
        (some (replicate 12 9))
        session
        host_to_device
        5
        (to_bytes header ++ payload)
      ≡ ok packet)
    × (open_packet toy session host_to_device default packet
        ≡ (ok (header, payload), (commit default 5).1))
open_packet-seal_packet_example =
    open_packet-seal_packet toy toy-IsLawful session session-HasKeys (replicate 12 9) refl
      host_to_device header payload header-IsWellFormed refl default default-check

-- The packet of that record, under the test's cipher.
abbrev packet : List ℕ
packet =
    16
    ∷ 0
    ∷ 0
    ∷ 0
    ∷ 5
    ∷ (replicate 12 9
        ++ (replicate 32 5 ++ (replicate 12 9 ++ (0 ∷ 0 ∷ 0 ∷ 0 ∷ 0 ∷ 0 ∷ 0 ∷ 0 ∷ 5 ∷ bytes))))

open_packet-Keeps_example :
    Keeps toy session host_to_device default packet
      (open_packet toy session host_to_device default packet)
open_packet-Keeps_example = open_packet-Keeps toy session host_to_device default packet

opens : (open_packet toy session host_to_device default packet).0 ≡ ok (header, payload)
unfolding open_packet emersia.Transport.Packet.authenticate emersia.Transport.Packet.commit_opened
    emersia.Crypto.Seal.open_sealed emersia.Crypto.Session.keys_for emersia.Crypto.Aad.build_aad
    parse_record emersia.Transport.Record.from_bytes check commit
opens = refl
