-- ===== src/Tests/Images.antt =====
-- The theorems about frame.rs at concrete inputs.
use emersia.Base.{ℕ, ◌+◌, ◌*◌, ◌<◌, some, List, [], ◌∷◌, length, ◌≡◌, refl, arith}
use emersia.Frame.{rotated_90, untransform}
use emersia.Frame.Upright.{Place, placed, pixel_bytes, untransform-Upright}

-- Two pixels above each other.
abbrev buffer : List ℕ
buffer = 1 ∷ 2 ∷ 3 ∷ 4 ∷ 5 ∷ 6 ∷ 7 ∷ 8 ∷ []

-- The right one of the two pixels of the upright image, and where it is in the buffer.
abbrev right : Place
right = record { x = 1; y = 0; width = 2; height = 1 }

top_pixel : placed rotated_90 right ≡ record { x = 0; y = 0; width = 1; height = 2 }
top_pixel = refl

untransform-Upright_example :
    (out : List ℕ) × (untransform buffer 1 2 rotated_90 ≡ some (out, 2, 1))
    × (length out ≡ 8)
    × (pixel_bytes out (0 * 2 + 1)
        ≡ pixel_bytes buffer ((placed rotated_90 right).y * 1 + (placed rotated_90 right).x))
    × ((placed rotated_90 right).x < 1)
    × ((placed rotated_90 right).y < 2)
unfolding emersia.Frame.swaps_axes
untransform-Upright_example =
    untransform-Upright buffer 1 2 rotated_90 refl (omega arith) 1 0 (omega arith) (omega arith)
