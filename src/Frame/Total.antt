-- ===== src/Frame/Total.antt =====
-- The pixels that `untransform` of frame.rs reads and writes, row by row.
use emersia.Base.{
  ℕ, zero, suc, ◌+◌, ◌*◌, ◌%◌, ◌^◌, ◌<◌, ◌≤◌, some, List, [], ◌++◌, length, length-append, take,
  drop, length-take, length-drop, slice?, slice?-inside, ◌≡◌, refl, ap, ap₂, ◌∙◌, arith,
}
use emersia.Frame.{Transform, forward, upright, joined, sized, pixel, row, rows, untransform}
use emersia.Frame.Transforms.{forward-within}

offset-lt : (sx sy bw bh : ℕ) → sx < bw → sy < bh → sy * bw + sx < bh * bw
offset-lt sx sy bw zero hx hy = absurd (omega arith)
offset-lt sx zero bw (suc bh) hx hy = omega arith
offset-lt sx (suc sy) bw (suc bh) hx hy = omega (arith, offset-lt sx sy bw bh hx (omega arith))

below_wrap : (n : ℕ) → n < 2 ^ 32 → n % 2 ^ 32 ≡ n
below_wrap n h = omega arith

module _ (buf : List ℕ) (bw bh : ℕ) (t : Transform) where
  abbrev ow : ℕ
  ow = (upright t bw bh).0

  abbrev oh : ℕ
  oh = (upright t bw bh).1

  abbrev pub source : ℕ → ℕ → ℕ × ℕ
  source x y = forward t x y ow oh

  -- What the loops write: pixel by pixel, and row by row.
  abbrev pub pixel_of : ℕ → ℕ → List ℕ
  pixel_of x y = take 4 (drop (((source x y).1 * bw + (source x y).0) * 4) buf)

  abbrev pub row_of : ℕ → ℕ → List ℕ
  row_of y zero = []
  row_of y (suc n) = row_of y n ++ pixel_of n y

  abbrev pub rows_of : ℕ → List ℕ
  rows_of zero = []
  rows_of (suc n) = rows_of n ++ row_of n ow

  module _ (whole : length buf ≡ bh * bw * 4) (small : length buf ≤ 2 ^ 32) where
    inside :
        (x y : ℕ) → x < ow → y < oh → ((source x y).1 * bw + (source x y).0) * 4 + 4 ≤ length buf
    inside x y hx hy =
        let within = forward-within t x y bw bh hx hy in
        omega (arith, whole, offset-lt (source x y).0 (source x y).1 bw bh within.0 within.1)

    pub length-pixel_of : (x y : ℕ) → x < ow → y < oh → length (pixel_of x y) ≡ 4
    length-pixel_of x y hx hy =
        let start = ((source x y).1 * bw + (source x y).0) * 4 in
        omega (arith, length-take 4 (drop start buf), length-drop start buf, inside x y hx hy)

    pixel-pixel_of : (x y : ℕ) → x < ow → y < oh → pixel buf bw t ow oh x y ≡ some (pixel_of x y)
    unfolding pixel
    pixel-pixel_of x y hx hy =
        let start = ((source x y).1 * bw + (source x y).0) * 4 in
        ap (λ s. slice? buf s (s + 4)) (below_wrap start (omega (arith, small, inside x y hx hy)))
        ∙ slice?-inside buf start 4 (inside x y hx hy)

    pub length-row_of : (y n : ℕ) → y < oh → n ≤ ow → length (row_of y n) ≡ n * 4
    length-row_of y zero hy hn = omega arith
    length-row_of y (suc n) hy hn = omega (
      arith,
      length-append (row_of y n) (pixel_of n y),
      length-row_of y n hy (omega arith),
      length-pixel_of n y (omega arith) hy,
    )

    row-row_of : (y n : ℕ) → y < oh → n ≤ ow → row buf bw t ow oh y n ≡ some (row_of y n)
    unfolding row
    row-row_of y zero hy hn = refl
    row-row_of y (suc n) hy hn =
        ap₂ joined (row-row_of y n hy (omega arith)) (pixel-pixel_of n y (omega arith) hy)

    pub length-rows_of : (n : ℕ) → n ≤ oh → length (rows_of n) ≡ n * (ow * 4)
    length-rows_of zero hn = omega arith
    length-rows_of (suc n) hn = omega (
      arith,
      length-append (rows_of n) (row_of n ow),
      length-rows_of n (omega arith),
      length-row_of n ow (omega arith) (omega arith),
    )

    rows-rows_of : (n : ℕ) → n ≤ oh → rows buf bw t ow oh n ≡ some (rows_of n)
    unfolding rows
    rows-rows_of zero hn = refl
    rows-rows_of (suc n) hn =
        ap₂ joined (rows-rows_of n (omega arith)) (row-row_of n ow (omega arith) (omega arith))

    -- A buffer of four bytes for each of its pixels, of up to 2 ^ 32 bytes, is read without a panic,
    -- whatever the transform.
    pub untransform-rows_of : untransform buf bw bh t ≡ some (rows_of oh, ow, oh)
    unfolding untransform
    untransform-rows_of = ap (λ o. sized o (upright t bw bh)) (rows-rows_of oh (omega arith))
