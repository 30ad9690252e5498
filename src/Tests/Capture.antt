-- ===== src/Tests/Capture.antt =====
-- The theorems about the capture of frames, and about what encoder.rs keeps, at concrete inputs.
use emersia.Base.{ℕ, List, [], ◌∷◌}
use emersia.Frame.Decode.{argb8888, xrgb8888, other_format, decode}
use emersia.Frame.Decode.Rows.{Decodes, decode-Decodes}
use emersia.Capture.{pick_shm_format}
use emersia.Capture.Chosen.{Usable, pick_shm_format-Usable}
use emersia.Encoder.Tail.{new_tail, drain_stderr}
use emersia.Encoder.Tail.Bounds.{IsBounded, drain_stderr-IsBounded}

-- Two rows of one pixel, each with padding.
abbrev buf : List ℕ
buf = 3 ∷ 2 ∷ 1 ∷ 0 ∷ 9 ∷ 9 ∷ 6 ∷ 5 ∷ 4 ∷ 0 ∷ 9 ∷ 9 ∷ []

decode-Decodes_example : Decodes xrgb8888 1 2 6 buf (decode xrgb8888 1 2 6 buf)
decode-Decodes_example = decode-Decodes xrgb8888 1 2 6 buf

pick_shm_format-Usable_example :
    Usable (other_format ∷ argb8888 ∷ []) (pick_shm_format (other_format ∷ argb8888 ∷ []))
pick_shm_format-Usable_example = pick_shm_format-Usable (other_format ∷ argb8888 ∷ [])

drain_stderr-IsBounded_example :
    IsBounded (drain_stderr (λ text. text) (69 ∷ 13 ∷ 10 ∷ 70 ∷ []) new_tail)
drain_stderr-IsBounded_example = drain_stderr-IsBounded (λ text. text) (69 ∷ 13 ∷ 10 ∷ 70 ∷ [])
