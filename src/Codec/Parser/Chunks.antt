-- ===== src/Codec/Parser/Chunks.antt =====
-- However the encoder's output is cut into pieces, `push` of codec.rs gives the same access units.
use emersia.Base.{
  ℕ, zero, suc, ◌≤◌, ◌<◌, Option, none, some, List, [], ◌++◌, append_assoc, length, length-append,
  Result, ok, err, ◌≡◌, refl, sym, ap, subst, ◌∙◌, arith,
}
use emersia.Codec.{CodecError, AccessUnit}
use emersia.Codec.Parser.{AnnexBParser, with_unit, behind, take_all_nals, push_bytes}
use emersia.Codec.Parser.Buffer.{
  at_buffer, accept_nal-buffer, accept_nal-keeps, accept_nal-settings, settings,
}
use emersia.Codec.Parser.Take.{Extends, take_next-Extends, take_next-no_longer}
use emersia.Codec.Parser.Rounds.{
  taken_from, idle, bad, refused, goes, Round-total, round_of, take_all-round, take_all-idle,
  take_all-bad, take_all-refused, take_all-goes, goes-shorter, take_all-rounds, push_bytes-within,
}

-- The units of a first push before those of a second.
abbrev pub prepend :
    List AccessUnit
    → Result CodecError (List AccessUnit) × AnnexBParser
    → Result CodecError (List AccessUnit) × AnnexBParser
prepend first (ok out, p) = (ok (first ++ out), p)
prepend first (err e, p) = (err e, p)

behind-prepend :
    (flushed : Option AccessUnit) (out : List AccessUnit)
    (r : Result CodecError (List AccessUnit) × AnnexBParser)
    → behind flushed (prepend out r) ≡ prepend (with_unit flushed out) r
behind-prepend none out (ok more, p) = refl
behind-prepend (some au) out (ok more, p) = refl
behind-prepend flushed out (err e, p) = refl

prepend_none : (r : Result CodecError (List AccessUnit) × AnnexBParser) → r ≡ prepend [] r
prepend_none (ok out, p) = refl
prepend_none (err e, p) = refl

module _ (more : List ℕ) where
  -- All the units again, when more bytes follow those that were left.
  abbrev followed : AnnexBParser → Result CodecError (List AccessUnit) × AnnexBParser
  followed p = take_all_nals (suc (length (p.buffer ++ more))) (at_buffer (p.buffer ++ more) p)

  abbrev Continues :
      Result CodecError (List AccessUnit) × AnnexBParser
      → Result CodecError (List AccessUnit) × AnnexBParser
      → Type 0
  Continues (ok out, p) r = r ≡ prepend out (followed p)
  Continues (err e, p) r = Unit {0}

  Continues-behind :
      (flushed : Option AccessUnit) (first r : Result CodecError (List AccessUnit) × AnnexBParser)
      → Continues first r
      → Continues (behind flushed first) (behind flushed r)
  Continues-behind flushed (ok out, p) r c =
      ap (behind flushed) c ∙ behind-prepend flushed out (followed p)
  Continues-behind flushed (err e, p) r c = tt

  Extends-taken :
      (p : AnnexBParser)
      → Extends p.codec more (taken_from p) (taken_from (at_buffer (p.buffer ++ more) p))
  Extends-taken p =
      take_next-Extends p.codec more (suc (length p.buffer)) (suc (length (p.buffer ++ more)))
        p.buffer (omega arith) (omega arith)

  followed-idle :
      (f : ℕ) (p : AnnexBParser) (rest : List ℕ)
      → taken_from p ≡ (ok none, rest)
      → length (p.buffer ++ more) < suc f
      → take_all_nals (suc f) (at_buffer (p.buffer ++ more) p) ≡ followed (at_buffer rest p)
  followed-idle f p rest e h =
      let longer = at_buffer (p.buffer ++ more) p in
      let later = at_buffer (rest ++ more) p in
      take_all-round f longer
      ∙ ap (round_of f p)
          (subst (λ r. Extends p.codec more r (taken_from longer)) e (Extends-taken p))
      ∙ sym (take_all-round f later)
      ∙ take_all-rounds (suc f) (suc (length (rest ++ more))) later
          (omega (
            arith,
            length-append rest more,
            length-append p.buffer more,
            ap (λ r. length r.1) e,
            take_next-no_longer p.codec (suc (length p.buffer)) p.buffer,
          ))
          (omega arith)

  take_all-Continues :
      (f f' : ℕ) (p : AnnexBParser)
      → length p.buffer < f
      → length (p.buffer ++ more) < f'
      → Continues (take_all_nals f p) (take_all_nals f' (at_buffer (p.buffer ++ more) p))
  take_all-Continues zero f' p h h' = absurd (omega arith)
  take_all-Continues (suc f) zero p h h' = absurd (omega arith)
  take_all-Continues (suc f) (suc f') p h h' =
      let longer = at_buffer (p.buffer ++ more) p in
      let to_here : Result CodecError (List AccessUnit) × AnnexBParser → Type 0 =
        λ r. Continues r (take_all_nals (suc f') longer) in
      elim (Round-total p) [
        | idle rest e ↦
            subst to_here (sym (take_all-idle f p rest e))
              (followed-idle f' p rest e h' ∙ prepend_none (followed (at_buffer rest p)))
        | bad x rest e ↦ subst to_here (sym (take_all-bad f p x rest e)) tt
        | refused nal rest x p' e a ↦
            subst to_here (sym (take_all-refused f p nal rest e x p' a)) tt
        | goes nal rest flushed p' e a ↦
            let (same, less) = goes-shorter p nal rest flushed p' e a in
            subst to_here (sym (take_all-goes f p nal rest e flushed p' a)) (
              subst (Continues (behind flushed (take_all_nals f p')))
                (sym (
                  take_all-goes f' longer nal (rest ++ more)
                    (subst (λ r. Extends p.codec more r (taken_from longer)) e (Extends-taken p))
                    flushed (at_buffer (rest ++ more) p')
                    (accept_nal-buffer nal (at_buffer rest p) (rest ++ more)
                      ∙ ap (λ r. (r.0, at_buffer (rest ++ more) r.1)) a)))
                (Continues-behind flushed (take_all_nals f p')
                  (take_all_nals f' (at_buffer (rest ++ more) p'))
                  (subst
                    (λ b.
                      Continues (take_all_nals f p') (take_all_nals f' (at_buffer (b ++ more) p')))
                    same
                    (take_all-Continues f f' p' (omega (arith, less)) (
                      omega (
                        arith,
                        less,
                        length-append p'.buffer more,
                        length-append p.buffer more,
                      ))))))
      ]

abbrev Kept : AnnexBParser → Result CodecError (List AccessUnit) × AnnexBParser → Type 0
Kept p r = (settings r.1 ≡ settings p) × (length r.1.buffer ≤ length p.buffer)

Kept-behind :
    (p : AnnexBParser) (flushed : Option AccessUnit)
    (r : Result CodecError (List AccessUnit) × AnnexBParser)
    → Kept p r
    → Kept p (behind flushed r)
Kept-behind p flushed (ok out, p') k = k
Kept-behind p flushed (err e, p') k = k

take_all-Kept : (f : ℕ) (p : AnnexBParser) → Kept p (take_all_nals f p)
unfolding take_all_nals
take_all-Kept zero p = (refl, omega arith)
take_all-Kept (suc f) p = elim (Round-total p) [
  | idle rest e ↦
      subst (Kept p) (sym (take_all-idle f p rest e)) (refl, left rest (ap (λ r. r.1) e))
  | bad x rest e ↦
      subst (Kept p) (sym (take_all-bad f p x rest e)) (refl, left rest (ap (λ r. r.1) e))
  | refused nal rest x p' e a ↦ subst (Kept p) (sym (take_all-refused f p nal rest e x p' a)) (
    sym (ap (λ r. settings r.1) a) ∙ accept_nal-settings nal (at_buffer rest p),
    omega (
      arith,
      left rest (ap (λ r. r.1) e),
      ap (λ r. length r.1.buffer) a,
      ap (λ b. length b) (accept_nal-keeps nal (at_buffer rest p)),
    ),
  )
  | goes nal rest flushed p' e a ↦
      let less = (goes-shorter p nal rest flushed p' e a).1 in
      let (same, shorter) = take_all-Kept f p' in
      subst (Kept p) (sym (take_all-goes f p nal rest e flushed p' a)) (
        Kept-behind p flushed (take_all_nals f p') (
          same ∙ sym (ap (λ r. settings r.1) a) ∙ accept_nal-settings nal (at_buffer rest p),
          omega (arith, shorter, less),
        ))
]
  where
    left : (rest : List ℕ) → (taken_from p).1 ≡ rest → length rest ≤ length p.buffer
    left rest e =
        subst (λ b. length b ≤ length p.buffer) e
          (take_next-no_longer p.codec (suc (length p.buffer)) p.buffer)

-- The bytes that came in one push may come in two: if the buffer's limit takes them all and the first
-- push is no error, then one push of both gives the units of the first and then those of the second,
-- and leaves the same parser.
pub push_bytes-append :
    (first second : List ℕ) (p : AnnexBParser) (out : List AccessUnit) (p' : AnnexBParser)
    → length (p.buffer ++ (first ++ second)) ≤ p.max_buffer
    → push_bytes first p ≡ (ok out, p')
    → push_bytes (first ++ second) p ≡ prepend out (push_bytes second p')
push_bytes-append first second p out p' h e =
    let fits : length (p.buffer ++ first) ≤ p.max_buffer = omega (
      arith,
      h,
      length-append p.buffer (first ++ second),
      length-append first second,
      length-append p.buffer first,
    ) in
    let here = at_buffer (p.buffer ++ first) p in
    let ran : take_all_nals (suc (length here.buffer)) here ≡ (ok out, p') =
      sym (push_bytes-within first p fits) ∙ e in
    let (same, shorter) : Kept here (ok out, p') =
      subst (Kept here) ran (take_all-Kept (suc (length here.buffer)) here) in
    let fits_later : length (p'.buffer ++ second) ≤ p'.max_buffer = omega (
      arith,
      h,
      shorter,
      ap (λ s. s.1) same,
      length-append p.buffer (first ++ second),
      length-append first second,
      length-append p.buffer first,
      length-append p'.buffer second,
    ) in
    push_bytes-within (first ++ second) p h
    ∙ ap (λ b. take_all_nals (suc (length b)) (at_buffer b p))
        (sym (append_assoc p.buffer first second))
    ∙ subst
        (λ r. Continues second r (
          take_all_nals (suc (length (here.buffer ++ second)))
            (at_buffer (here.buffer ++ second) here)))
        ran
        (take_all-Continues second (suc (length here.buffer)) (suc (length (here.buffer ++ second)))
          here (omega arith) (omega arith))
    ∙ ap (prepend out) (sym (push_bytes-within second p' fits_later))
