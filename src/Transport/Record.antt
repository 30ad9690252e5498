-- ===== src/Transport/Record.antt =====
-- The frame header and the records of host/crates/emersia-daemon/src/transport/mod.rs:
-- `FrameHeader`, `to_bytes`, `from_bytes`, `build_record` and `parse_record`. A byte slice is a
-- list of numbers.
pub mod RoundTrip
use emersia.Base.{
  ℕ, ◌+◌, ◌≤◌, ◌<◌, ◌^◌, bit_and, Bool, true, false, not, ◌||◌, Option, none, some, List, [], ◌∷◌,
  ◌++◌, ltb, leb, ◌==◌, if◌then◌else◌, length, get_or, slice?, Result, ok, err, ok_or, ◌>>=◌, ◌≡◌,
}
use emersia.Base.Words.{be16, be32, of_be16, of_be32}
use emersia.Transport.Types.{TransportError, payload_too_large, malformed_record}

abbrev pub frame_header_len : ℕ
frame_header_len = 24

pub record FrameHeader : Type 0 where
  pub version : ℕ
  pub keyframe : Bool
  pub payload_type : ℕ
  pub sequence : ℕ
  pub frame_sequence : ℕ
  pub timestamp : ℕ
  pub payload_len : ℕ
  pub frag_index : ℕ
  pub frag_count : ℕ

-- `u8::from(bool)`
abbrev pub of_bool : Bool → ℕ
of_bool b = if b then 1 else 0

-- The two zero bytes at the end, and the one before the sequence, are reserved.
unfoldable pub to_bytes : FrameHeader → List ℕ
to_bytes h =
    h.version
    ∷ of_bool h.keyframe
    ∷ h.payload_type
    ∷ 0
    ∷ (be32 h.sequence
        ++ (be32 h.frame_sequence
            ++ (be32 h.timestamp
                ++ (be16 h.payload_len
                    ++ (be16 h.frag_index ++ (be16 h.frag_count ++ (0 ∷ 0 ∷ [])))))))

-- The slice is read only where it is long enough, so the default of `get_or` is never seen.
unfoldable pub from_bytes : List ℕ → Option FrameHeader
from_bytes bytes =
    let at = λ (i : ℕ). get_or bytes i 0 in
    let payload_len = of_be16 (at 16) (at 17) in
    let frag_index = of_be16 (at 18) (at 19) in
    let frag_count = of_be16 (at 20) (at 21) in
    if ltb (length bytes) frame_header_len
    then none
    else if not (at 0 == 1)
    then none
    else if frag_count == 0 || leb frag_count frag_index
    then none
    else some (record {
      version = at 0;
      keyframe = not (bit_and (at 1) 0x01 == 0);
      payload_type = at 2;
      sequence = of_be32 (at 4) (at 5) (at 6) (at 7);
      frame_sequence = of_be32 (at 8) (at 9) (at 10) (at 11);
      timestamp = of_be32 (at 12) (at 13) (at 14) (at 15);
      payload_len = payload_len;
      frag_index = frag_index;
      frag_count = frag_count;
    })

-- The header that `build_record` writes before a payload.
abbrev pub record_header : ℕ → ℕ → ℕ → Bool → ℕ → List ℕ → ℕ → ℕ → FrameHeader
record_header sequence frame_sequence timestamp keyframe payload_type payload frag_index
      frag_count =
    record {
      version = 1;
      keyframe = keyframe;
      payload_type = payload_type;
      sequence = sequence;
      frame_sequence = frame_sequence;
      timestamp = timestamp;
      payload_len = length payload;
      frag_index = frag_index;
      frag_count = frag_count;
    }

-- `u16::try_from` refuses a length that does not fit.
unfoldable pub build_record : ℕ → ℕ → ℕ → Bool → ℕ → List ℕ → ℕ → ℕ → Result TransportError (List ℕ)
unfolding to_bytes
build_record sequence frame_sequence timestamp keyframe payload_type payload frag_index frag_count =
    let header =
      record_header sequence frame_sequence timestamp keyframe payload_type payload frag_index
        frag_count in
    if ltb (length payload) (2 ^ 16)
    then ok (to_bytes header ++ payload)
    else err (payload_too_large (length payload))

unfoldable pub parse_record : List ℕ → Result TransportError (FrameHeader × List ℕ)
parse_record bytes = do
  header ← ok_or (from_bytes bytes) malformed_record
  let stop = frame_header_len + header.payload_len
  payload ← ok_or (slice? bytes frame_header_len stop) malformed_record
  ok (header, payload)

-- The fields fit their machine words, and the fragment lies within the frame.
pub record IsWellFormed (h : FrameHeader) : Type 0 where
  pub version_one : h.version ≡ 1
  pub payload_type_u8 : h.payload_type < 256
  pub sequence_u32 : h.sequence < 2 ^ 32
  pub frame_sequence_u32 : h.frame_sequence < 2 ^ 32
  pub timestamp_u32 : h.timestamp < 2 ^ 32
  pub payload_len_u16 : h.payload_len < 2 ^ 16
  pub frag_count_u16 : h.frag_count < 2 ^ 16
  pub frag_within : h.frag_index < h.frag_count
