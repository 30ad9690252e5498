-- ===== src/Frame.antt =====
-- Output transforms in host/crates/emersia-daemon/src/frame.rs: `swaps_axes`, `forward` and
-- `untransform`. A buffer is the list of its bytes. `untransform` writes its output from the front to
-- the back, which is modelled as appending; the outer `none` is an index out of range, a panic. The
-- place of a pixel in the output is the output's end as long as the 32-bit offset does not wrap, that
-- is, for an image of up to 2 ^ 32 bytes.
pub mod Transforms
pub mod Total
pub mod Upright
pub mod Decode
use emersia.Base.{
  ℕ, zero, suc, ◌+◌, ◌-◌, ◌*◌, ◌%◌, ◌^◌, Bool, true, false, Option, none, some, List, [], ◌++◌,
  slice?, if◌then◌else◌,
}

-- `wl_output::Transform`, with a case for what the enumeration may get.
pub data Transform : Type 0 where
  normal rotated_90 rotated_180 rotated_270 : Transform
  flipped flipped_90 flipped_180 flipped_270 unknown_transform : Transform

unfoldable pub swaps_axes : Transform → Bool
swaps_axes rotated_90 = true
swaps_axes rotated_270 = true
swaps_axes flipped_90 = true
swaps_axes flipped_270 = true
swaps_axes _ = false

unfoldable pub forward : Transform → (x y lw lh : ℕ) → ℕ × ℕ
forward normal x y lw lh = (x, y)
forward rotated_90 x y lw lh = (y, lw - 1 - x)
forward rotated_180 x y lw lh = (lw - 1 - x, lh - 1 - y)
forward rotated_270 x y lw lh = (lh - 1 - y, x)
forward flipped x y lw lh = (lw - 1 - x, y)
forward flipped_90 x y lw lh = (y, x)
forward flipped_180 x y lw lh = (x, lh - 1 - y)
forward flipped_270 x y lw lh = (lh - 1 - y, lw - 1 - x)
forward unknown_transform x y lw lh = (x, y)

-- The width and the height of the upright image, from those of the buffer, and the other way round.
abbrev pub upright : Transform → ℕ → ℕ → ℕ × ℕ
upright t bw bh = if swaps_axes t then (bh, bw) else (bw, bh)

-- What comes after what was written, unless a panic comes first.
abbrev pub joined : Option (List ℕ) → Option (List ℕ) → Option (List ℕ)
joined none next = none
joined (some done) none = none
joined (some done) (some next) = some (done ++ next)

module _ (buf : List ℕ) (bw : ℕ) (t : Transform) (ow oh : ℕ) where
  unfoldable pub pixel : ℕ → ℕ → Option (List ℕ)
  pixel x y =
      let (sx, sy) = forward t x y ow oh in
      let src = (sy * bw + sx) * 4 % 2 ^ 32 in slice? buf src (src + 4)

  -- The first `n` pixels of a row, and the first `n` rows.
  unfoldable pub row : ℕ → ℕ → Option (List ℕ)
  row y zero = some []
  row y (suc n) = joined (row y n) (pixel n y)

  unfoldable pub rows : ℕ → Option (List ℕ)
  rows zero = some []
  rows (suc n) = joined (rows n) (row n ow)

abbrev pub sized : Option (List ℕ) → ℕ × ℕ → Option (List ℕ × ℕ × ℕ)
sized none size = none
sized (some out) size = some (out, size.0, size.1)

-- The upright pixels, and the upright dimensions.
unfoldable pub untransform : List ℕ → ℕ → ℕ → Transform → Option (List ℕ × ℕ × ℕ)
untransform buf bw bh t =
    sized (rows buf bw t (upright t bw bh).0 (upright t bw bh).1 (upright t bw bh).1)
      (upright t bw bh)
