-- ===== src/Frame/Decode/Rows.antt =====
-- What `decode` of frame.rs gives.
use Prim.Native.String.{String}
use emersia.Base.{
  ℕ, zero, suc, ◌+◌, ◌*◌, ◌^◌, ◌≤◌, true, false, ◌||◌, Option, none, some, some_inj, List, [], ◌∷◌,
  ◌++◌, length, length-append, length-take, length-drop, take, drop, take-append, drop-append,
  slice?-inside, ltb, leb, ◌==◌, Bool-cases, Option-cases, inl, inr, Result, ok, err, ◌≡◌, refl,
  sym, ap, subst, ◌∙◌, arith,
}
use emersia.Frame.Decode.{
  Format, argb8888, xrgb8888, xbgr8888, rgba8888, other_format, Pixel, convert, convert_row,
  put_row, decode_rows, decoded, converted, decode,
}

module _ (f : ℕ → ℕ → ℕ → ℕ → Pixel) (w stride : ℕ) (buf : List ℕ) where
  -- The rows of the output, `n` of them, are those of the buffer from `row` on, without the padding.
  abbrev pub AreRows : (n row : ℕ) → List ℕ → Type 0
  AreRows zero row out = out ≡ []
  AreRows (suc n) row out =
      (take (w * 4) out ≡ convert_row f (take (w * 4) (drop (row * stride) buf)))
      × AreRows n (row + 1) (drop (w * 4) out)

-- No panic; and what succeeds is of a supported format, with the rows converted one by one.
abbrev pub Decodes : Format → (w h stride : ℕ) → List ℕ → Option (Result String (List ℕ)) → Type 0
Decodes format w h stride buf none = ⊥
Decodes format w h stride buf (some (err e)) = Unit {0}
Decodes format w h stride buf (some (ok out)) =
    (f : ℕ → ℕ → ℕ → ℕ → Pixel) × (convert format ≡ some f)
    × (length out ≡ h * (w * 4))
    × AreRows f w stride buf h 0 out

abbrev Fours : (ℕ → ℕ → ℕ → ℕ → Pixel) → Type 0
Fours f = (a b c d : ℕ) → length (f a b c d) ≡ 4

convert_row-length :
    (f : ℕ → ℕ → ℕ → ℕ → Pixel)
    → Fours f
    → (w : ℕ) (src : List ℕ) → length src ≡ w * 4
    → length (convert_row f src) ≡ w * 4
unfolding convert_row
convert_row-length f four zero [] e = refl
convert_row-length f four zero (a ∷ src) e = absurd (omega arith)
convert_row-length f four (suc w) (a ∷ b ∷ c ∷ d ∷ src) e = omega (
  arith,
  four a b c d,
  length-append (f a b c d) (convert_row f src),
  convert_row-length f four w src (omega arith),
)
convert_row-length f four (suc w) [] e = absurd (omega arith)
convert_row-length f four (suc w) (a ∷ []) e = absurd (omega arith)
convert_row-length f four (suc w) (a ∷ b ∷ []) e = absurd (omega arith)
convert_row-length f four (suc w) (a ∷ b ∷ c ∷ []) e = absurd (omega arith)

module _ (f : ℕ → ℕ → ℕ → ℕ → Pixel) (four : Fours f) (w stride : ℕ) (buf : List ℕ)
    (wide : w * 4 ≤ stride) where
  -- The bytes of a row.
  abbrev source : ℕ → List ℕ
  source row = take (w * 4) (drop (row * stride) buf)

  source-length : (row : ℕ) → row * stride + w * 4 ≤ length buf → length (source row) ≡ w * 4
  source-length row h =
      omega (arith, length-take (w * 4) (drop (row * stride) buf), length-drop (row * stride) buf)

  decode_rows-suc :
      (n row : ℕ) (rest : List ℕ)
      → row * stride + w * 4 ≤ length buf
      → decode_rows f w stride buf n (row + 1) ≡ some rest
      → decode_rows f w stride buf (suc n) row ≡ some (convert_row f (source row) ++ rest)
  unfolding decode_rows
  decode_rows-suc n row rest h e =
      ap (λ o. put_row f o (decode_rows f w stride buf n (row + 1)))
        (slice?-inside buf (row * stride) (w * 4) h)
      ∙ ap (put_row f (some (source row))) e

  decode_rows-AreRows :
      (n row : ℕ)
      → (row + n) * stride ≤ length buf
      → (out : List ℕ) × (decode_rows f w stride buf n row ≡ some out)
        × (length out ≡ n * (w * 4))
        × AreRows f w stride buf n row out
  decode_rows-AreRows zero row h = ([], unfold decode_rows in refl, omega arith, refl)
  decode_rows-AreRows (suc n) row h =
      let fits : row * stride + w * 4 ≤ length buf = omega (arith, h) in
      let (rest, e, long, rows) = decode_rows-AreRows n (row + 1) (omega (arith, h)) in
      let here = convert_row f (source row) in
      let here_long = convert_row-length f four w (source row) (source-length row fits) in
      (
        here ++ rest,
        decode_rows-suc n row rest fits e,
        omega (arith, length-append here rest, here_long, long),
        (
          take-append here rest (w * 4) (sym here_long),
          subst (AreRows f w stride buf n (row + 1))
              (sym (drop-append here rest (w * 4) (sym here_long))) rows,
        ),
      )

convert-Fours : (format : Format) (f : ℕ → ℕ → ℕ → ℕ → Pixel) → convert format ≡ some f → Fours f
unfolding convert
convert-Fours argb8888 f e = subst Fours (some_inj e) (λ a b c d. refl)
convert-Fours xrgb8888 f e = subst Fours (some_inj e) (λ a b c d. refl)
convert-Fours xbgr8888 f e = subst Fours (some_inj e) (λ a b c d. refl)
convert-Fours rgba8888 f e = subst Fours (some_inj e) (λ a b c d. refl)
convert-Fours other_format f e = absurd (ground (arith, e))

module _ (format : Format) (w h stride : ℕ) (buf : List ℕ) where
  converted-Decodes :
      w * 4 ≤ stride
      → stride * h ≤ length buf
      → Decodes format w h stride buf (converted (convert format) w h stride buf)
  converted-Decodes wide enough = elim (Option-cases (convert format)) [
    | inl e ↦
        subst (Decodes format w h stride buf) (ap (λ o. converted o w h stride buf) (sym e)) tt
    | inr (f, e) ↦
        let (out, ran, long, rows) =
          decode_rows-AreRows f (convert-Fours format f e) w stride buf wide h 0
            (omega (arith, enough)) in
        subst (Decodes format w h stride buf) (ap (λ o. converted o w h stride buf) (sym e))
          (subst (λ o. Decodes format w h stride buf (decoded o)) (sym ran) (f, e, long, rows))
  ]

  module _ (not_empty : (w == 0) || (h == 0) ≡ false) where
    decode-narrow :
        ltb stride (w * 4) ≡ true
        → decode format w h stride buf ≡ some (err "stride is smaller than the RGBA pixels")
    unfolding decode
    decode-narrow e = simp (not_empty, e)

    module _ (wide : ltb stride (w * 4) ≡ false) where
      decode-huge :
          leb (2 ^ 64) (stride * h) ≡ true
          → decode format w h stride buf ≡ some (err "shared-memory buffer size overflows")
      unfolding decode
      decode-huge e = simp (not_empty, wide, e)

      module _ (small : leb (2 ^ 64) (stride * h) ≡ false) where
        decode-short :
            ltb (length buf) (stride * h) ≡ true
            → decode format w h stride buf ≡ some (err "shared-memory read returned too few bytes")
        unfolding decode
        decode-short e = simp (not_empty, wide, small, e)

        decode-goes :
            ltb (length buf) (stride * h) ≡ false
            → decode format w h stride buf ≡ converted (convert format) w h stride buf
        unfolding decode
        decode-goes e = simp (not_empty, wide, small, e)

  decode-refused :
      (w == 0) || (h == 0) ≡ true
      → decode format w h stride buf ≡ some (err "refusing to decode an empty frame")
  unfolding decode
  decode-refused e = simp (e)

  -- `decode` never reads out of range, whatever the sizes and the buffer; what it decodes has four
  -- bytes for each pixel of a supported format, and each of its rows is the pixels of the buffer's
  -- row, converted one by one, without the row's padding.
  pub decode-Decodes : Decodes format w h stride buf (decode format w h stride buf)
  decode-Decodes = elim (Bool-cases ((w == 0) || (h == 0))) [
    | inl empty ↦ subst (Decodes format w h stride buf) (sym (decode-refused empty)) tt
    | inr sized ↦ elim (Bool-cases (ltb stride (w * 4))) [
      | inl narrow ↦ subst (Decodes format w h stride buf) (sym (decode-narrow sized narrow)) tt
      | inr wide ↦ elim (Bool-cases (leb (2 ^ 64) (stride * h))) [
        | inl huge ↦ subst (Decodes format w h stride buf) (sym (decode-huge sized wide huge)) tt
        | inr small ↦ elim (Bool-cases (ltb (length buf) (stride * h))) [
          | inl short ↦
              subst (Decodes format w h stride buf) (sym (decode-short sized wide small short)) tt
          | inr enough ↦
              subst (Decodes format w h stride buf) (sym (decode-goes sized wide small enough))
                (converted-Decodes (ground (arith, wide)) (ground (arith, enough)))
        ]
      ]
    ]
  ]
