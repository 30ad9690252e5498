-- ===== src/Tests/Stream.antt =====
-- The theorems about codec.rs at concrete inputs.
use emersia.Base.{ℕ, List, [], ◌∷◌, ◌++◌, Result, ok, err, ◌≡◌, refl, arith}
use emersia.Codec.{CodecError, h264, empty_nal, AccessUnit}
use emersia.Codec.Parser.{AnnexBParser, new_parser, push_bytes}
use emersia.Codec.Parser.Chunks.{prepend, push_bytes-append}
use emersia.Codec.Parser.Bytes.{held, Passes, push_bytes-Passes}
use emersia.Codec.Parser.Deliveries.{Delivers, push_bytes-Delivers}
use emersia.Codec.Parser.Stuck.{AllEmpty, push_bytes-stuck}

-- A parameter set and the beginning of a picture, cut in the middle of a start code.
abbrev first : List ℕ
first = 0 ∷ 0 ∷ 0 ∷ 1 ∷ 103 ∷ 66 ∷ 0 ∷ 0 ∷ []

abbrev second : List ℕ
second = 1 ∷ 101 ∷ 136 ∷ 128 ∷ 0 ∷ 0 ∷ 1 ∷ 9 ∷ 240 ∷ 0 ∷ 0 ∷ 1 ∷ 65 ∷ 154 ∷ 2 ∷ 0 ∷ 0 ∷ 1 ∷ []

abbrev Pushed : Type 0
Pushed = Result CodecError (List AccessUnit) × AnnexBParser

abbrev units : Pushed → List AccessUnit
units (ok out, p) = out
units (err e, p) = []

abbrev after_first : Pushed
after_first = push_bytes first (new_parser h264)

pushed_first : push_bytes first (new_parser h264) ≡ (ok (units after_first), after_first.1)
unfolding push_bytes emersia.Codec.Parser.take_all_nals emersia.Codec.Parser.take_next_nal
    emersia.Codec.Parser.take_next emersia.Codec.Parser.first_cut
    emersia.Codec.StartCodes.start_code_positions
pushed_first = refl

push_bytes-append_example :
    push_bytes (first ++ second) (new_parser h264)
    ≡ prepend (units after_first) (push_bytes second after_first.1)
push_bytes-append_example =
    push_bytes-append first second (new_parser h264) (units after_first) after_first.1 (omega arith)
      pushed_first

push_bytes-Delivers_example :
    Delivers (new_parser h264) (push_bytes (first ++ second) (new_parser h264))
push_bytes-Delivers_example = push_bytes-Delivers (first ++ second) (new_parser h264) (refl, refl)

push_bytes-Passes_example :
    Passes (held (new_parser h264) ++ second) (push_bytes second (new_parser h264))
push_bytes-Passes_example = push_bytes-Passes second (new_parser h264)

-- A unit that ends a sequence is one byte.
abbrev ends_sequence : List ℕ
ends_sequence = 0 ∷ 0 ∷ 1 ∷ 10 ∷ 0 ∷ 0 ∷ 1 ∷ 9 ∷ 240 ∷ []

abbrev stuck : AnnexBParser
stuck = record (new_parser h264) { buffer = ends_sequence }

pushed_end : push_bytes ends_sequence (new_parser h264) ≡ (err empty_nal, stuck)
unfolding push_bytes emersia.Codec.Parser.take_all_nals emersia.Codec.Parser.take_next_nal
    emersia.Codec.Parser.take_next emersia.Codec.Parser.first_cut emersia.Codec.Parser.take_cut
    emersia.Codec.Parser.nal_of emersia.Codec.nal_type_of emersia.Codec.header_len
    emersia.Codec.StartCodes.start_code_positions
pushed_end = refl

push_bytes-stuck_example : AllEmpty (first ∷ second ∷ []) stuck
push_bytes-stuck_example =
    push_bytes-stuck ends_sequence (new_parser h264) stuck (first ∷ second ∷ []) pushed_end
      (omega arith)
