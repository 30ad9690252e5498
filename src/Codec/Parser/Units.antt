-- ===== src/Codec/Parser/Units.antt =====
-- Where `push` of codec.rs cuts the stream into access units.
use emersia.Base.{
  ℕ, ◌+◌, ◌%◌, ◌^◌, Bool, true, false, not, ◌&&◌, ◌||◌, or_false, or_assoc, and_split, and_join,
  not-false, List, [], ◌∷◌, ◌++◌, ◌≡◌, refl, sym, ap, subst, ◌∙◌, arith,
}
use emersia.Codec.{Codec, NalUnit, AccessUnit, is_parameter_set, is_sei, is_vcl, is_aud}
use emersia.Codec.BitReader.{starts_new_picture}
use emersia.Codec.Parser.{is_empty, any_keyframe, joined_annexb}
use emersia.Codec.Parser.Fronts.{Front, front_added}

module _ (codec : Codec) where
  -- The unit cannot follow others in an access unit, `seen` where picture data has come.
  abbrev pub starts : Bool → NalUnit → Bool
  starts seen nal =
      is_aud codec nal
      || ((seen && (is_vcl codec nal && starts_new_picture codec nal))
          || (seen && (is_parameter_set codec nal || is_sei codec nal)))

  abbrev pub any_vcl : List NalUnit → Bool
  any_vcl [] = false
  any_vcl (n ∷ ns) = is_vcl codec n || any_vcl ns

  abbrev pub follow : Bool → List NalUnit → Bool
  follow seen [] = true
  follow seen (n ∷ ns) = not (starts seen n) && follow (seen || is_vcl codec n) ns

  -- One picture at most: after the first no unit begins another.
  abbrev pub one_picture : List NalUnit → Bool
  one_picture [] = true
  one_picture (n ∷ ns) = follow (is_vcl codec n) ns

  any_vcl-append :
      (ns : List NalUnit) (n : NalUnit) → any_vcl (ns ++ (n ∷ [])) ≡ any_vcl ns || is_vcl codec n
  any_vcl-append [] n = or_false (is_vcl codec n)
  any_vcl-append (m ∷ ns) n =
      ap (λ b. is_vcl codec m || b) (any_vcl-append ns n)
      ∙ or_assoc (is_vcl codec m) (any_vcl ns) (is_vcl codec n)

  follow-append :
      (seen : Bool) (ns : List NalUnit) (n : NalUnit)
      → follow seen ns ≡ true
      → starts (seen || any_vcl ns) n ≡ false
      → follow seen (ns ++ (n ∷ [])) ≡ true
  follow-append seen [] n h h' =
      and_join (not (starts seen n)) true
        (not-false (starts seen n) (ap (λ b. starts b n) (sym (or_false seen)) ∙ h')) refl
  follow-append seen (m ∷ ns) n h h' =
      let (first, rest) = and_split (not (starts seen m)) (follow (seen || is_vcl codec m) ns) h in
      and_join (not (starts seen m)) (follow (seen || is_vcl codec m) (ns ++ (n ∷ []))) first (
        follow-append (seen || is_vcl codec m) ns n rest
          (ap (λ b. starts b n) (sym (or_assoc seen (is_vcl codec m) (any_vcl ns))) ∙ h'))

  one_picture-append :
      (ns : List NalUnit) (n : NalUnit)
      → one_picture ns ≡ true
      → starts (any_vcl ns) n ≡ false
      → one_picture (ns ++ (n ∷ [])) ≡ true
  one_picture-append [] n h h' = refl
  one_picture-append (m ∷ ns) n h h' = follow-append (is_vcl codec m) ns n h h'

-- The unit in progress is one picture at most, and the parser knows whether it has picture data.
abbrev pub IsFramed : Front → Type 0
IsFramed f = (f.has_vcl ≡ any_vcl f.codec f.current) × (one_picture f.codec f.current ≡ true)

-- Access units with consecutive numbers, each of one picture and with all that is told of it.
pub data AreUnits (codec : Codec) : ℕ → List AccessUnit → ℕ → Type 0 where
  none_left : {i : ℕ} → AreUnits codec i [] i
  one_more :
      {i j : ℕ} {out : List AccessUnit} (nals : List NalUnit)
      → is_empty nals ≡ false
      → one_picture codec nals ≡ true
      → AreUnits codec ((i + 1) % 2 ^ 64) out j
      → AreUnits codec i
          (record {
            codec = codec;
            nals = nals;
            annexb = joined_annexb nals;
            keyframe = any_keyframe codec nals;
            index = i;
          }
            ∷ out)
          j

pub IsFramed-added :
    (f : Front) (nal : NalUnit)
    → IsFramed f
    → starts f.codec f.has_vcl nal ≡ false
    → IsFramed (front_added nal f)
IsFramed-added f nal (seen, one) h = (
  ap (λ b. b || is_vcl f.codec nal) seen ∙ sym (any_vcl-append f.codec f.current nal),
  one_picture-append f.codec f.current nal one (ap (λ b. starts f.codec b nal) (sym seen) ∙ h),
)

pub IsFramed-first :
    (f : Front) (nal : NalUnit)
    → is_empty f.current ≡ true
    → IsFramed f
    → IsFramed (front_added nal f)
IsFramed-first f nal e (seen, one) =
    let nothing : f.current ≡ [] = from f.current e in
    (
      ap (λ b. b || is_vcl f.codec nal) seen ∙ sym (any_vcl-append f.codec f.current nal),
      subst (λ ns. one_picture f.codec (ns ++ (nal ∷ [])) ≡ true) (sym nothing) refl,
    )
  where
    from : (ns : List NalUnit) → is_empty ns ≡ true → ns ≡ []
    from [] e = refl
    from (n ∷ ns) e = absurd (ground (arith, e))
