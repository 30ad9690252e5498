-- ===== src/Frame/Upright.antt =====
-- `untransform` of frame.rs against the transforms as Wayland describes them: a mirror around the
-- vertical axis, then quarter turns counter-clockwise.
use emersia.Base.{
  ℕ, zero, suc, ◌+◌, ◌-◌, ◌*◌, ◌^◌, ◌<◌, ◌≤◌, some, List, [], ◌∷◌, ◌++◌, length, take, drop,
  drop-append, ltb, take_all, Bool-cases, inl, inr, ◌≡◌, refl, sym, ap, ap₂, subst, ◌∙◌, arith,
}
use emersia.Frame.{
  Transform, normal, rotated_90, rotated_180, rotated_270, flipped, flipped_90, flipped_180,
  flipped_270, unknown_transform, forward, upright, untransform,
}
use emersia.Frame.Transforms.{forward-within}
use emersia.Frame.Total.{
  pixel_of, row_of, rows_of, length-pixel_of, length-row_of, length-rows_of, untransform-rows_of,
}

-- A place in an image, with the width and the height of the image.
pub record Place : Type 0 where
  pub x : ℕ
  pub y : ℕ
  pub width : ℕ
  pub height : ℕ

-- Where a mirror around the vertical axis takes a place.
abbrev pub mirror : Place → Place
mirror p = record p { x = p.width - 1 - p.x }

-- Where a quarter turn counter-clockwise takes it: the right edge becomes the top.
abbrev pub quarter_turn : Place → Place
quarter_turn p = record { x = p.y; y = p.width - 1 - p.x; width = p.height; height = p.width }

-- Where the transform takes a place of the upright image in the buffer.
abbrev pub placed : Transform → Place → Place
placed normal p = p
placed rotated_90 p = quarter_turn p
placed rotated_180 p = quarter_turn (quarter_turn p)
placed rotated_270 p = quarter_turn (quarter_turn (quarter_turn p))
placed flipped p = mirror p
placed flipped_90 p = quarter_turn (mirror p)
placed flipped_180 p = quarter_turn (quarter_turn (mirror p))
placed flipped_270 p = quarter_turn (quarter_turn (quarter_turn (mirror p)))
placed unknown_transform p = p

forward-placed :
    (t : Transform) (x y w h : ℕ)
    → x < w
    → y < h
    → ((forward t x y w h).0 ≡ (placed t (record { x = x; y = y; width = w; height = h })).x)
      × ((forward t x y w h).1 ≡ (placed t (record { x = x; y = y; width = w; height = h })).y)
unfolding forward
forward-placed normal x y w h hx hy = (refl, refl)
forward-placed rotated_90 x y w h hx hy = (refl, refl)
forward-placed rotated_180 x y w h hx hy = (refl, refl)
forward-placed rotated_270 x y w h hx hy = (refl, omega arith)
forward-placed flipped x y w h hx hy = (refl, refl)
forward-placed flipped_90 x y w h hx hy = (refl, omega arith)
forward-placed flipped_180 x y w h hx hy = (omega arith, refl)
forward-placed flipped_270 x y w h hx hy = (refl, omega arith)
forward-placed unknown_transform x y w h hx hy = (refl, refl)

-- The four bytes of the pixel with a number.
abbrev pub pixel_bytes : List ℕ → ℕ → List ℕ
pixel_bytes image n = take 4 (drop (n * 4) image)

-- A window of a list before others, and of one behind others.
window-before :
    (start : ℕ) (xs ys : List ℕ)
    → start + 4 ≤ length xs
    → take 4 (drop start (xs ++ ys)) ≡ take 4 (drop start xs)
window-before zero (a ∷ b ∷ c ∷ d ∷ xs) ys h = refl
window-before zero [] ys h = absurd (omega arith)
window-before zero (a ∷ []) ys h = absurd (omega arith)
window-before zero (a ∷ b ∷ []) ys h = absurd (omega arith)
window-before zero (a ∷ b ∷ c ∷ []) ys h = absurd (omega arith)
window-before (suc start) [] ys h = absurd (omega arith)
window-before (suc start) (a ∷ xs) ys h = window-before start xs ys (omega arith)

drop-behind : (n : ℕ) (xs ys : List ℕ) → drop (length xs + n) (xs ++ ys) ≡ drop n ys
drop-behind n [] ys = ap (λ k. drop k ys) (omega arith)
drop-behind n (x ∷ xs) ys =
    ap (λ k. drop k (x ∷ (xs ++ ys))) (same (length xs)) ∙ drop-behind n xs ys
  where
    same : (l : ℕ) → suc l + n ≡ suc (l + n)
    same l = omega arith

rows_fit : (x y w n : ℕ) → x < w → y < n → y * (w * 4) + x * 4 + 4 ≤ n * (w * 4)
rows_fit x y w zero hx hy = absurd (omega arith)
rows_fit x zero w (suc n) hx hy = omega arith
rows_fit x (suc y) w (suc n) hx hy = omega (arith, rows_fit x y w n hx (omega arith))

offset_scaled : (x y w : ℕ) → (y * w + x) * 4 ≡ y * (w * 4) + x * 4
offset_scaled x zero w = omega arith
offset_scaled x (suc y) w = omega (arith, offset_scaled x y w)

module _ (buf : List ℕ) (bw bh : ℕ) (t : Transform) where
  abbrev ow : ℕ
  ow = (upright t bw bh).0

  abbrev oh : ℕ
  oh = (upright t bw bh).1

  module _ (whole : length buf ≡ bh * bw * 4) (small : length buf ≤ 2 ^ 32) where
    row_of-pixel :
        (y x n : ℕ)
        → y < oh
        → n ≤ ow
        → x < n
        → take 4 (drop (x * 4) (row_of buf bw bh t y n)) ≡ pixel_of buf bw bh t x y
    row_of-pixel y x zero hy hn hx = absurd (omega arith)
    row_of-pixel y x (suc n) hy hn hx = elim (Bool-cases (ltb x n)) [
      | inl before ↦
          window-before (x * 4) (row_of buf bw bh t y n) (pixel_of buf bw bh t n y)
            (ground (arith, before, length-row_of buf bw bh t whole small y n hy (omega arith)))
          ∙ row_of-pixel y x n hy (omega arith) (ground (arith, before))
      | inr last ↦
          ap (take 4) (
            drop-append (row_of buf bw bh t y n) (pixel_of buf bw bh t n y) (x * 4) (
              ground (arith, last, hx, length-row_of buf bw bh t whole small y n hy (omega arith))))
          ∙ take_all (pixel_of buf bw bh t n y) 4
              (omega (arith, length-pixel_of buf bw bh t whole small n y (omega arith) hy))
          ∙ ap (λ k. pixel_of buf bw bh t k y) (ground (arith, last, hx))
    ]

    rows_of-pixel :
        (y x n : ℕ)
        → n ≤ oh
        → y < n
        → x < ow
        → take 4 (drop (y * (ow * 4) + x * 4) (rows_of buf bw bh t n)) ≡ pixel_of buf bw bh t x y
    rows_of-pixel y x zero hn hy hx = absurd (omega arith)
    rows_of-pixel y x (suc n) hn hy hx = elim (Bool-cases (ltb y n)) [
      | inl before ↦
          window-before (y * (ow * 4) + x * 4) (rows_of buf bw bh t n) (row_of buf bw bh t n ow) (
            omega (
              arith,
              length-rows_of buf bw bh t whole small n (omega arith),
              rows_fit x y ow n hx (ground (arith, before)),
            ))
          ∙ rows_of-pixel y x n (omega arith) (ground (arith, before)) hx
      | inr last ↦
          ap (λ k. take 4 (drop k (rows_of buf bw bh t n ++ row_of buf bw bh t n ow)))
            (ap (λ k. k + x * 4)
              (ap (λ k. k * (ow * 4)) (ground (arith, last, hy))
                ∙ sym (length-rows_of buf bw bh t whole small n (omega arith))))
          ∙ ap (take 4) (drop-behind (x * 4) (rows_of buf bw bh t n) (row_of buf bw bh t n ow))
          ∙ row_of-pixel n x ow (omega arith) (omega arith) hx
          ∙ ap (pixel_of buf bw bh t x) (ground (arith, last, hy))
    ]

    rows_of-Upright :
        (x y : ℕ)
        → x < ow
        → y < oh
        → let place = placed t (record { x = x; y = y; width = ow; height = oh }) in
          pixel_bytes (rows_of buf bw bh t oh) (y * ow + x)
          ≡ pixel_bytes buf (place.y * bw + place.x)
    rows_of-Upright x y hx hy =
        let found = forward-placed t x y ow oh hx hy in
        ap (λ k. take 4 (drop k (rows_of buf bw bh t oh))) (offset_scaled x y ow)
        ∙ rows_of-pixel y x oh (omega arith) hy hx
        ∙ ap₂ (λ i j. pixel_bytes buf (j * bw + i)) found.0 found.1

    -- A buffer of four bytes for each of its pixels, of up to 2 ^ 32 bytes, gives, whatever the
    -- transform, an image with the upright width and height and four bytes for each pixel, in which
    -- every pixel has the bytes that the buffer holds where the transform, as `placed` composes it
    -- of a mirror and quarter turns counter-clockwise, takes its place; that is inside the buffer.
    pub untransform-Upright :
        (x y : ℕ)
        → x < ow
        → y < oh
        → let place = placed t (record { x = x; y = y; width = ow; height = oh }) in
          (out : List ℕ) × (untransform buf bw bh t ≡ some (out, ow, oh))
          × (length out ≡ oh * (ow * 4))
          × (pixel_bytes out (y * ow + x) ≡ pixel_bytes buf (place.y * bw + place.x))
          × (place.x < bw)
          × (place.y < bh)
    untransform-Upright x y hx hy =
        let found = forward-placed t x y ow oh hx hy in
        let within = forward-within t x y bw bh hx hy in
        (
          rows_of buf bw bh t oh,
          untransform-rows_of buf bw bh t whole small,
          length-rows_of buf bw bh t whole small oh (omega arith),
          rows_of-Upright x y hx hy,
          subst (λ i. i < bw) found.0 within.0,
          subst (λ j. j < bh) found.1 within.1,
        )
