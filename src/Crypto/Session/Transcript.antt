-- ===== src/Crypto/Session/Transcript.antt =====
-- The handshake transcript of crypto.rs is unambiguous.
use emersia.Base.{
  ℕ, ◌<◌, ◌^◌, List, [], ◌∷◌, ◌++◌, length, take, drop, take-append, drop-append, get_or, All, ◌≡◌,
  refl, sym, ap, ap₂, ◌∙◌, arith,
}
use emersia.Base.Words.{of_be64, of_be64-be64}
use emersia.Crypto.Session.{transcript_input}

abbrev pub AreSized : List (List ℕ) → Type 0
AreSized = All λ part. length part < 2 ^ 64

-- The length in the first eight bytes.
abbrev leading : List ℕ → ℕ
leading l =
    of_be64 (get_or l 0 0) (get_or l 1 0) (get_or l 2 0) (get_or l 3 0) (get_or l 4 0)
      (get_or l 5 0) (get_or l 6 0) (get_or l 7 0)

-- Different lists of parts are never hashed as the same bytes, however the parts are cut.
pub transcript_input_injective :
    (xs ys : List (List ℕ))
    → AreSized xs
    → AreSized ys
    → transcript_input xs ≡ transcript_input ys
    → xs ≡ ys
unfolding transcript_input
transcript_input_injective [] [] hx hy e = refl
transcript_input_injective [] (y ∷ ys) hx hy e = absurd (omega (arith, ap length e))
transcript_input_injective (x ∷ xs) [] hx hy e = absurd (omega (arith, ap length e))
transcript_input_injective (x ∷ xs) (y ∷ ys) hx hy e =
    ap₂ ◌∷◌ same (transcript_input_injective xs ys hx.1 hy.1 rest)
  where
    lengths : length x ≡ length y
    lengths = sym (of_be64-be64 (length x) hx.0) ∙ ap leading e ∙ of_be64-be64 (length y) hy.0

    bodies : x ++ transcript_input xs ≡ y ++ transcript_input ys
    bodies = ap (drop 8) e

    same : x ≡ y
    same =
        sym (take-append x (transcript_input xs) (length x) refl)
        ∙ ap (take (length x)) bodies
        ∙ take-append y (transcript_input ys) (length x) lengths

    rest : transcript_input xs ≡ transcript_input ys
    rest =
        sym (drop-append x (transcript_input xs) (length x) refl)
        ∙ ap (drop (length x)) bodies
        ∙ drop-append y (transcript_input ys) (length x) lengths
