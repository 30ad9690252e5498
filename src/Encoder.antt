-- ===== src/Encoder.antt =====
-- host/crates/emersia-daemon/src/encoder.rs: the choice of an encoder, the checks of its
-- configuration, and in the child the tail that is kept of what ffmpeg writes to stderr. The process
-- and its threads are left out.
pub mod Tail
pub mod Choice
use Prim.Native.String.{String}
use emersia.Base.{
  ℕ, ◌%◌, Bool, true, false, not, ◌||◌, Option, none, some, List, [], ◌∷◌, bytes_eq, ◌==◌,
  if◌then◌else◌, Result, ok, err,
}
use emersia.Base.Text.{codes}
use emersia.Codec.{Codec, h264, hevc}

pub data EncoderChoice : Type 0 where
  auto vaapi nvenc amf qsv software : EncoderChoice

-- A text is the list of its code points.
unfoldable pub parse : List ℕ → Option EncoderChoice
parse s =
    if bytes_eq s (codes "auto")
    then some auto
    else if bytes_eq s (codes "vaapi")
    then some vaapi
    else if bytes_eq s (codes "nvenc")
    then some nvenc
    else if bytes_eq s (codes "amf")
    then some amf
    else if bytes_eq s (codes "qsv")
    then some qsv
    else if bytes_eq s (codes "sw")
        || (bytes_eq s (codes "software") || bytes_eq s (codes "libx264"))
    then some software
    else none

pub record Candidate : Type 0 where
  pub name : String
  pub codec : Codec
  pub software : Bool

abbrev pub new_candidate : String → Codec → Bool → Candidate
new_candidate name codec on_cpu = record { name = name; codec = codec; software = on_cpu }

abbrev pub vaapi_encoder : Codec → String
vaapi_encoder h264 = "h264_vaapi"
vaapi_encoder hevc = "hevc_vaapi"

abbrev pub nvenc_encoder : Codec → String
nvenc_encoder h264 = "h264_nvenc"
nvenc_encoder hevc = "hevc_nvenc"

abbrev pub amf_encoder : Codec → String
amf_encoder h264 = "h264_amf"
amf_encoder hevc = "hevc_amf"

abbrev pub qsv_encoder : Codec → String
qsv_encoder h264 = "h264_qsv"
qsv_encoder hevc = "hevc_qsv"

abbrev pub hw : Codec → String → Candidate
hw codec name = new_candidate name codec false

abbrev pub sw : Candidate
sw = new_candidate "libx264" h264 true

unfoldable pub candidates : EncoderChoice → Codec → List Candidate
candidates software c = sw ∷ []
candidates vaapi c = hw c (vaapi_encoder c) ∷ []
candidates nvenc c = hw c (nvenc_encoder c) ∷ []
candidates amf c = hw c (amf_encoder c) ∷ []
candidates qsv c = hw c (qsv_encoder c) ∷ []
candidates auto c =
    hw c (vaapi_encoder c)
    ∷ hw c (nvenc_encoder c)
    ∷ hw c (amf_encoder c)
    ∷ hw c (qsv_encoder c)
    ∷ sw
    ∷ []

pub record EncoderConfig : Type 0 where
  pub choice : EncoderChoice
  pub codec : Codec
  pub bitrate : ℕ
  pub gop : ℕ
  pub fps : ℕ
  pub width : ℕ
  pub height : ℕ

-- Of the errors, the one that `validate` gives.
pub data EncoderError : Type 0 where
  bad_config : String → EncoderError

unfoldable pub validate : EncoderConfig → Result EncoderError (Unit {0})
validate config =
    if (config.width == 0) || (config.height == 0)
    then err (bad_config "width and height must be non-zero")
    else if not (config.width % 2 == 0) || not (config.height % 2 == 0)
    then err (bad_config "not even in both dimensions; 4:2:0 requires it")
    else if config.fps == 0
    then err (bad_config "fps must be non-zero")
    else ok tt
