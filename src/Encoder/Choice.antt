-- ===== src/Encoder/Choice.antt =====
-- The encoders that a choice may come to in encoder.rs.
use emersia.Base.{Bool, true, false, not, ◌&&◌, List, [], ◌∷◌, ◌≡◌, refl}
use emersia.Codec.{Codec}
use emersia.Encoder.{EncoderChoice, auto, vaapi, nvenc, amf, qsv, software, Candidate, candidates}

abbrev pub may_be_software : EncoderChoice → Bool
may_be_software auto = true
may_be_software software = true
may_be_software _ = false

abbrev pub ends_in_software : List Candidate → Bool
ends_in_software [] = false
ends_in_software (c ∷ []) = c.software
ends_in_software (c ∷ d ∷ cs) = not c.software && ends_in_software (d ∷ cs)

abbrev pub none_software : List Candidate → Bool
none_software [] = true
none_software (c ∷ cs) = not c.software && none_software cs

-- Software comes last where the choice is automatic or software, and a hardware family that is asked
-- for never falls back to it.
pub candidates-software :
    (choice : EncoderChoice) (codec : Codec)
    → (ends_in_software (candidates choice codec) ≡ may_be_software choice)
      × (none_software (candidates choice codec) ≡ not (may_be_software choice))
unfolding candidates
candidates-software auto codec = (refl, refl)
candidates-software vaapi codec = (refl, refl)
candidates-software nvenc codec = (refl, refl)
candidates-software amf codec = (refl, refl)
candidates-software qsv codec = (refl, refl)
candidates-software software codec = (refl, refl)
