-- ===== src/Frame/Decode.antt =====
-- `decode` of frame.rs. The outer `none` is a slice out of range, a panic; messages leave out what
-- they quote.
pub mod Rows
use Prim.Native.String.{String}
use emersia.Base.{
  ℕ, zero, suc, ◌+◌, ◌*◌, ◌^◌, Bool, true, false, not, ◌||◌, Option, none, some, List, [], ◌∷◌,
  ◌++◌, length, slice?, ltb, leb, ◌==◌, if◌then◌else◌, Result, ok, err,
}

-- `wl_shm::Format`, with a case for the formats that are not supported.
pub data Format : Type 0 where
  argb8888 xrgb8888 xbgr8888 rgba8888 other_format : Format

abbrev pub Pixel : Type 0
Pixel = List ℕ

-- What a pixel's four bytes become.
unfoldable pub convert : Format → Option (ℕ → ℕ → ℕ → ℕ → Pixel)
convert argb8888 = some (λ b g r a. r ∷ g ∷ b ∷ a ∷ [])
convert xrgb8888 = some (λ b g r x. r ∷ g ∷ b ∷ 255 ∷ [])
convert xbgr8888 = some (λ r g b x. r ∷ g ∷ b ∷ 255 ∷ [])
convert rgba8888 = some (λ a b g r. r ∷ g ∷ b ∷ a ∷ [])
convert other_format = none

module _ (f : ℕ → ℕ → ℕ → ℕ → Pixel) where
  -- `chunks_exact(4)`
  unfoldable pub convert_row : List ℕ → List ℕ
  convert_row (a ∷ b ∷ c ∷ d ∷ rest) = f a b c d ++ convert_row rest
  convert_row _ = []

  abbrev pub put_row : Option (List ℕ) → Option (List ℕ) → Option (List ℕ)
  put_row none out = none
  put_row (some src) none = none
  put_row (some src) (some out) = some (convert_row src ++ out)

  -- `n` rows from `row` on.
  unfoldable pub decode_rows : (w stride : ℕ) → List ℕ → (n row : ℕ) → Option (List ℕ)
  decode_rows w stride buf zero row = some []
  decode_rows w stride buf (suc n) row =
      put_row (slice? buf (row * stride) (row * stride + w * 4))
        (decode_rows w stride buf n (row + 1))

abbrev pub decoded : Option (List ℕ) → Option (Result String (List ℕ))
decoded none = none
decoded (some out) = some (ok out)

abbrev pub converted :
    Option (ℕ → ℕ → ℕ → ℕ → Pixel) → (w h stride : ℕ) → List ℕ → Option (Result String (List ℕ))
converted none w h stride buf = some (err "unsupported wl_shm format")
converted (some f) w h stride buf = decoded (decode_rows f w stride buf h 0)

unfoldable pub decode : Format → (w h stride : ℕ) → List ℕ → Option (Result String (List ℕ))
decode format w h stride buf =
    if (w == 0) || (h == 0)
    then some (err "refusing to decode an empty frame")
    else if ltb stride (w * 4)
    then some (err "stride is smaller than the RGBA pixels")
    else if leb (2 ^ 64) (stride * h)
    then some (err "shared-memory buffer size overflows")
    else if ltb (length buf) (stride * h)
    then some (err "shared-memory read returned too few bytes")
    else converted (convert format) w h stride buf
