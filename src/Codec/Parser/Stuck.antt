-- ===== src/Codec/Parser/Stuck.antt =====
-- A unit of codec.rs that is only a header stays in the buffer.
use emersia.Base.{
  ℕ, zero, suc, ◌+◌, ◌≤◌, ◌<◌, Bool, true, false, Option, none, List, [], ◌∷◌, ◌++◌, append_assoc,
  length, length-append, length-drop, drop, leb, ltb, Bool-cases, inl, inr, if◌then◌else◌, Result,
  ok, err, Result-cases, ◌≡◌, sym, ap, subst, ◌∙◌, arith,
}
use emersia.Codec.{
  Codec, CodecError, empty_nal, no_start_code, truncated_nal, too_many_parameter_sets, NalUnit,
  AccessUnit, max_parameter_set_bytes,
}
use emersia.Codec.Parser.{
  AnnexBParser, take_next, take_cut, accept_nal, behind, take_all_nals, push_bytes,
}
use emersia.Codec.Parser.Fronts.{declined, took, Accepted-total}
use emersia.Codec.Parser.Take.{
  nal_at, take_cut-ok, take_cut-err, none_yet, one_yet, bounded, Codes-total, take_next-idle,
  take_next-codeless, take_next-empty, take_next-full, take_next-rounds, take_next-Extends, Extends,
}
use emersia.Codec.Parser.Buffer.{at_buffer}
use emersia.Codec.Parser.Rounds.{
  taken_from, take_all-bad, push_bytes-within, push_bytes-over, push_bytes-fits, Round-total, idle,
  bad, refused, goes, take_all-idle, take_all-refused, take_all-goes,
}

take_cut-empty :
    (codec : Codec) (buf rest : List ℕ) (s l n : ℕ)
    → take_cut codec buf s l n ≡ (err empty_nal, rest)
    → buf ≡ rest
take_cut-empty codec buf rest s l n e = elim (Result-cases (nal_at codec buf s l n)) [
  | inl (nal, e') ↦
      let no_error = ap (λ r. r.0) (sym (take_cut-ok codec buf s l n nal e') ∙ e) in
      absurd (ground (arith, no_error))
  | inr (x, e') ↦ ap (λ r. r.1) (sym (take_cut-err codec buf s l n x e') ∙ e)
]

not_codeless :
    (long : Bool) (buf rest : List ℕ)
    → ◌≡◌ {A = Result CodecError (Option NalUnit) × List ℕ}
        (if long then (err no_start_code, buf) else (ok none, buf))
        (err empty_nal, rest)
    → ⊥
not_codeless true buf rest e = let other = ap (λ r. r.0) e in absurd (ground (arith, other))
not_codeless false buf rest e = let other = ap (λ r. r.0) e in absurd (ground (arith, other))

-- The unit is met again.
take_next-again :
    (codec : Codec) (f : ℕ) (buf rest : List ℕ)
    → length buf < f
    → take_next f codec false buf ≡ (err empty_nal, rest)
    → take_next (suc (length rest)) codec false rest ≡ (err empty_nal, rest)
take_next-again codec zero buf rest h e = absurd (omega arith)
take_next-again codec (suc f) buf rest h e = elim (Codes-total buf) [
  | none_yet e' ↦ absurd (
      not_codeless (ltb max_parameter_set_bytes (length buf)) buf rest
        (sym (take_next-codeless codec f buf e') ∙ e))
  | one_yet s l e' ↦
      let other = ap (λ r. r.0) (sym (take_next-idle codec f buf s l e') ∙ e) in
      absurd (ground (arith, other))
  | bounded s l n m later found some_byte inside ↦ elim (Bool-cases (leb n (s + l))) [
    | inr full ↦
        let here =
          take_cut-empty codec buf rest s l n
            (sym (take_next-full codec buf s l n found f full) ∙ e) in
        subst (λ b. take_next (suc (length b)) codec false b ≡ (err empty_nal, rest)) here
          (take_next-rounds codec (suc (length buf)) (suc f) buf (omega arith) h ∙ e)
    | inl empty ↦
        take_next-again codec f (drop n buf) rest (omega (arith, length-drop n buf))
          (sym (take_next-empty codec buf s l n found f empty) ∙ e)
  ]
]

-- Each push of a sequence gives the error.
abbrev pub AllEmpty : List (List ℕ) → AnnexBParser → Type 0
AllEmpty [] p = Unit {0}
AllEmpty (c ∷ cs) p = ((push_bytes c p).0 ≡ err empty_nal) × AllEmpty cs (push_bytes c p).1

abbrev pub joined : List (List ℕ) → List ℕ
joined [] = []
joined (c ∷ cs) = c ++ joined cs

all_empty :
    (chunks : List (List ℕ)) (p : AnnexBParser)
    → taken_from p ≡ (err empty_nal, p.buffer)
    → length (p.buffer ++ joined chunks) ≤ p.max_buffer
    → AllEmpty chunks p
all_empty [] p e h = tt
all_empty (c ∷ cs) p e h =
    let next = at_buffer (p.buffer ++ c) p in
    let again : taken_from next ≡ (err empty_nal, next.buffer) =
      subst (λ r. Extends p.codec c r (taken_from next)) e
        (take_next-Extends p.codec c (suc (length p.buffer)) (suc (length next.buffer)) p.buffer
          (omega arith) (omega arith)) in
    let pushed : push_bytes c p ≡ (err empty_nal, next) =
      push_bytes-within c p (
        omega (
          arith,
          h,
          length-append p.buffer (c ++ joined cs),
          length-append c (joined cs),
          length-append p.buffer c,
        ))
      ∙ take_all-bad (length next.buffer) next empty_nal next.buffer again in
    (
      ap (λ r. r.0) pushed,
      subst (λ r. AllEmpty cs r.1) (sym pushed)
          (all_empty cs next again
            (subst (λ b. length b ≤ p.max_buffer) (sym (append_assoc p.buffer c (joined cs))) h)),
    )

accept_nal-not_empty :
    (nal : NalUnit) (p p' : AnnexBParser) → accept_nal nal p ≡ (err empty_nal, p') → ⊥
accept_nal-not_empty nal p p' e = elim (Accepted-total nal p) [
  | declined n h f ↦ let other = sym h ∙ ap (λ r. r.0) e in absurd (ground (arith, other))
  | took h f ↦ let other = sym h ∙ ap (λ r. r.0) e in absurd (ground (arith, other))
]

-- The unit is at the front of what is left.
abbrev Met : Result CodecError (List AccessUnit) × AnnexBParser → Type 0
Met (err empty_nal, p) = taken_from p ≡ (err empty_nal, p.buffer)
Met (err no_start_code, p) = Unit {0}
Met (err truncated_nal, p) = Unit {0}
Met (err (too_many_parameter_sets n), p) = Unit {0}
Met (ok out, p) = Unit {0}

Met-behind :
    (before : Option AccessUnit) (r : Result CodecError (List AccessUnit) × AnnexBParser)
    → Met r
    → Met (behind before r)
Met-behind before (ok out, p) m = tt
Met-behind before (err e, p) m = m

take_all-Met : (f : ℕ) (p : AnnexBParser) → Met (take_all_nals f p)
take_all-Met zero p = unfold take_all_nals in tt
take_all-Met (suc f) p = elim (Round-total p) [
  | idle rest e ↦ subst Met (sym (take_all-idle f p rest e)) tt
  | bad x rest e ↦ subst Met (sym (take_all-bad f p x rest e)) (met x rest e)
  | refused nal rest x p' e a ↦
      subst Met (sym (take_all-refused f p nal rest e x p' a)) (no_unit nal rest p' x a)
  | goes nal rest before p' e a ↦
      subst Met (sym (take_all-goes f p nal rest e before p' a))
        (Met-behind before (take_all_nals f p') (take_all-Met f p'))
]
  where
    met :
        (x : CodecError) (rest : List ℕ)
        → taken_from p ≡ (err x, rest)
        → Met (err x, at_buffer rest p)
    met empty_nal rest e =
        take_next-again p.codec (suc (length p.buffer)) p.buffer rest (omega arith) e
    met no_start_code rest e = tt
    met truncated_nal rest e = tt
    met (too_many_parameter_sets n) rest e = tt

    no_unit :
        (nal : NalUnit) (rest : List ℕ) (p' : AnnexBParser) (x : CodecError)
        → accept_nal nal (at_buffer rest p) ≡ (err x, p')
        → Met (err x, p')
    no_unit nal rest p' empty_nal a = absurd (accept_nal-not_empty nal (at_buffer rest p) p' a)
    no_unit nal rest p' no_start_code a = tt
    no_unit nal rest p' truncated_nal a = tt
    no_unit nal rest p' (too_many_parameter_sets n) a = tt

push_bytes-Met : (bytes : List ℕ) (p : AnnexBParser) → Met (push_bytes bytes p)
push_bytes-Met bytes p = elim (Bool-cases (ltb p.max_buffer (length (p.buffer ++ bytes)))) [
  | inl over ↦ subst Met (sym (push_bytes-over bytes p over)) tt
  | inr within ↦
      subst Met (sym (push_bytes-fits bytes p within))
        (take_all-Met (suc (length (p.buffer ++ bytes))) (at_buffer (p.buffer ++ bytes) p))
]

-- A push that fails with `EmptyNal` leaves a parser of which every later push fails in the same way,
-- whatever it brings, as long as the buffer's limit takes what all of them bring.
pub push_bytes-stuck :
    (bytes : List ℕ) (p p' : AnnexBParser) (later : List (List ℕ))
    → push_bytes bytes p ≡ (err empty_nal, p')
    → length (p'.buffer ++ joined later) ≤ p'.max_buffer
    → AllEmpty later p'
push_bytes-stuck bytes p p' later e h = all_empty later p' (subst Met e (push_bytes-Met bytes p)) h
