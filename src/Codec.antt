-- ===== src/Codec.antt =====
-- host/crates/emersia-daemon/src/codec.rs: `Codec`, `NalUnit` with what it is asked for, and
-- `AccessUnit`. The children have the start codes, the bit reader and `AnnexBParser`. A byte is a
-- number below 256.
pub mod StartCodes
pub mod BitReader
pub mod Parser
use Prim.Native.String.{String}
use emersia.Base.{
  ℕ, suc, ◌+◌, ◌-◌, ◌/◌, ◌%◌, min, max, Bool, true, false, not, ◌&&◌, ◌||◌, Option, none, some,
  List, [], ◌∷◌, ◌++◌, length, take, drop, get_elem?, get_or, ltb, leb, ◌==◌, if◌then◌else◌,
  bytes_eq,
}

pub data Codec : Type 0 where
  h264 hevc : Codec

unfoldable pub payload_type : Codec → ℕ
payload_type h264 = 96
payload_type hevc = 98

unfoldable pub from_payload_type : ℕ → Option Codec
from_payload_type pt = if pt == 96 then some h264 else if pt == 98 then some hevc else none

unfoldable pub name : Codec → String
name h264 = "h264"
name hevc = "hevc"

pub data CodecError : Type 0 where
  no_start_code truncated_nal empty_nal : CodecError
  too_many_parameter_sets : ℕ → CodecError

abbrev pub max_parameter_set_bytes : ℕ
max_parameter_set_bytes = 1024

-- The two bytes of `header` are a pair.
pub record NalUnit : Type 0 where
  pub nal_type : ℕ
  pub header : ℕ × ℕ
  pub annexb : List ℕ

-- SPS and PPS, or the one type that HEVC parameter sets are given.
unfoldable pub is_parameter_set : Codec → NalUnit → Bool
is_parameter_set h264 n = (n.nal_type == 7) || (n.nal_type == 8)
is_parameter_set hevc n = n.nal_type == 32

-- IDR; IDR_W_RADL, IDR_N_LP and CRA.
unfoldable pub is_keyframe_nal : Codec → NalUnit → Bool
is_keyframe_nal h264 n = n.nal_type == 5
is_keyframe_nal hevc n = (n.nal_type == 19) || ((n.nal_type == 20) || (n.nal_type == 21))

unfoldable pub is_sei : Codec → NalUnit → Bool
is_sei h264 n = n.nal_type == 6
is_sei hevc n = (n.nal_type == 39) || (n.nal_type == 40)

unfoldable pub is_vcl : Codec → NalUnit → Bool
is_vcl h264 n = leb 1 n.nal_type && leb n.nal_type 5
is_vcl hevc n = leb n.nal_type 31

unfoldable pub is_aud : Codec → NalUnit → Bool
is_aud h264 n = n.nal_type == 9
is_aud hevc n = false

unfoldable pub start_code_len : NalUnit → ℕ
start_code_len n =
    if leb 4 (length n.annexb) && bytes_eq (take 4 n.annexb) (0 ∷ 0 ∷ 0 ∷ 1 ∷ []) then 4 else 3

abbrev pub nal_header_len : Codec → ℕ
nal_header_len h264 = 1
nal_header_len hevc = 2

-- `slice.get(start..)`
abbrev pub slice_from? : List ℕ → ℕ → Option (List ℕ)
slice_from? xs start = if leb start (length xs) then some (drop start xs) else none

-- The type is read from the first byte of the body.
unfoldable pub nal_type_of : List ℕ → Codec → Option ℕ
nal_type_of [] codec = none
nal_type_of (first ∷ rest) h264 = some (first % 32)
nal_type_of (first ∷ rest) hevc = some (first / 2 % 64)

unfoldable pub header_len : List ℕ → Codec → ℕ
header_len body codec = min (max (nal_header_len codec) 1) (length body)

pub record AccessUnit : Type 0 where
  pub codec : Codec
  pub nals : List NalUnit
  pub annexb : List ℕ
  pub keyframe : Bool
  pub index : ℕ

unfoldable pub codec_payload_type : AccessUnit → ℕ
unfolding payload_type
codec_payload_type au = payload_type au.codec

-- The bytes of picture data.
unfoldable pub payload_len : Codec → List NalUnit → ℕ
payload_len codec [] = 0
payload_len codec (n ∷ ns) =
    let rest = payload_len codec ns in if is_vcl codec n then length n.annexb + rest else rest
