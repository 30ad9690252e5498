-- ===== src/Codec/Parser/Take.antt =====
-- Taking a unit out of a buffer of codec.rs, before and after more bytes follow.
use emersia.Base.{
  ℕ, zero, suc, ◌+◌, ◌≤◌, ◌<◌, Bool, true, false, Option, none, some, List, [], ◌∷◌, ◌++◌, length,
  length-append, length-drop, take, drop, ltb, leb, if◌then◌else◌, Bool-cases, inl, inr, Result, ok,
  err, Result-cases, ◌≡◌, refl, sym, ap, subst, ◌∙◌, arith,
}
use emersia.Codec.{
  Codec, CodecError, no_start_code, truncated_nal, empty_nal, too_many_parameter_sets, NalUnit,
  max_parameter_set_bytes,
}
use emersia.Codec.StartCodes.{start_code_positions}
use emersia.Codec.StartCodes.Prefix.{
  AreOrdered, start_code_positions-append, start_code_positions-AreOrdered,
}
use emersia.Codec.Parser.{nal_of, cut, first_cut, take_cut, take_next}

take_append-within : (n : ℕ) (xs ys : List ℕ) → n ≤ length xs → take n (xs ++ ys) ≡ take n xs
take_append-within zero xs ys h = refl
take_append-within (suc n) [] ys h = absurd (omega arith)
take_append-within (suc n) (x ∷ xs) ys h =
    ap (λ l. x ∷ l) (take_append-within n xs ys (omega arith))

drop_append-within : (n : ℕ) (xs ys : List ℕ) → n ≤ length xs → drop n (xs ++ ys) ≡ drop n xs ++ ys
drop_append-within zero xs ys h = refl
drop_append-within (suc n) [] ys h = absurd (omega arith)
drop_append-within (suc n) (x ∷ xs) ys h = drop_append-within n xs ys (omega arith)

-- What the two first start codes of a buffer say, more bytes or not.
pub data Codes (buf : List ℕ) : Type 0 where
  none_yet : start_code_positions buf ≡ [] → Codes buf
  one_yet : (s l : ℕ) → start_code_positions buf ≡ (s, l) ∷ [] → Codes buf
  bounded :
      (s l n m : ℕ)
      → ((more : List ℕ)
          → first_cut false (buf ++ more) (start_code_positions (buf ++ more)) ≡ cut s l n)
      → first_cut false buf (start_code_positions buf) ≡ cut s l n
      → 1 ≤ n
      → n ≤ length buf
      → Codes buf

pub Codes-total : (buf : List ℕ) → Codes buf
Codes-total buf = from (start_code_positions buf) refl (start_code_positions-AreOrdered buf)
  where
    from :
        (cs : List (ℕ × ℕ))
        → start_code_positions buf ≡ cs
        → AreOrdered 0 (length buf) cs
        → Codes buf
    from [] e o = none_yet e
    from ((s, l) ∷ []) e o = one_yet s l e
    from ((s, l) ∷ (n, m) ∷ rest) e o =
        bounded s l n m
          (λ more.
            let (others, a) = start_code_positions-append buf more in
            ap (first_cut false (buf ++ more)) (a ∙ ap (λ cs. cs ++ others) e)
            ∙ (unfold first_cut in refl))
          (ap (first_cut false buf) e ∙ (unfold first_cut in refl)) (omega (arith, o.3.0))
          (omega (arith, o.3.1, o.3.2))

module _ (codec : Codec) where
  pub take_next-idle :
      (f : ℕ) (buf : List ℕ) (s l : ℕ)
      → start_code_positions buf ≡ (s, l) ∷ []
      → take_next (suc f) codec false buf ≡ (ok none, buf)
  unfolding take_next first_cut
  take_next-idle f buf s l e = rw (e, take_next)

  pub take_next-codeless :
      (f : ℕ) (buf : List ℕ)
      → start_code_positions buf ≡ []
      → take_next (suc f) codec false buf ≡ (
          if ltb max_parameter_set_bytes (length buf)
          then (err no_start_code, buf)
          else (ok none, buf))
  unfolding take_next first_cut
  take_next-codeless f buf e = rw (e, take_next)

  module _ (buf : List ℕ) (s l n : ℕ)
      (found : first_cut false buf (start_code_positions buf) ≡ cut s l n) where
    pub take_next-empty :
        (f : ℕ)
        → leb n (s + l) ≡ true
        → take_next (suc f) codec false buf ≡ take_next f codec false (drop n buf)
    unfolding take_next
    take_next-empty f e = rw (found, take_next) (rw e)

    pub take_next-full :
        (f : ℕ)
        → leb n (s + l) ≡ false
        → take_next (suc f) codec false buf ≡ take_cut codec buf s l n
    unfolding take_next
    take_next-full f e = rw (found, take_next) (rw e)

  -- More rounds than bytes change nothing.
  pub take_next-rounds :
      (f f' : ℕ) (buf : List ℕ)
      → length buf < f
      → length buf < f'
      → take_next f codec false buf ≡ take_next f' codec false buf
  take_next-rounds zero f' buf h h' = absurd (omega arith)
  take_next-rounds (suc f) zero buf h h' = absurd (omega arith)
  take_next-rounds (suc f) (suc f') buf h h' = elim (Codes-total buf) [
    | none_yet e ↦ take_next-codeless f buf e ∙ sym (take_next-codeless f' buf e)
    | one_yet s l e ↦ take_next-idle f buf s l e ∙ sym (take_next-idle f' buf s l e)
    | bounded s l n m later found some_byte inside ↦ elim (Bool-cases (leb n (s + l))) [
      | inr full ↦
          take_next-full buf s l n found f full ∙ sym (take_next-full buf s l n found f' full)
      | inl empty ↦
          take_next-empty buf s l n found f empty
          ∙ take_next-rounds f f' (drop n buf) (omega (arith, length-drop n buf))
              (omega (arith, length-drop n buf))
          ∙ sym (take_next-empty buf s l n found f' empty)
    ]
  ]

  abbrev pub nal_at : List ℕ → ℕ → ℕ → ℕ → Result CodecError NalUnit
  nal_at buf s l n = nal_of codec (drop (s + l) (take n buf)) (drop s (take n buf))

  pub take_cut-ok :
      (buf : List ℕ) (s l n : ℕ) (nal : NalUnit)
      → nal_at buf s l n ≡ ok nal
      → take_cut codec buf s l n ≡ (ok (some nal), drop n buf)
  unfolding take_cut
  take_cut-ok buf s l n nal e = rw (e, take_cut)

  pub take_cut-err :
      (buf : List ℕ) (s l n : ℕ) (x : CodecError)
      → nal_at buf s l n ≡ err x
      → take_cut codec buf s l n ≡ (err x, buf)
  unfolding take_cut
  take_cut-err buf s l n x e = rw (e, take_cut)

  abbrev pub Shrinks : List ℕ → Result CodecError (Option NalUnit) × List ℕ → Type 0
  Shrinks buf (ok (some nal), rest) = length rest < length buf
  Shrinks buf (ok none, rest) = Unit {0}
  Shrinks buf (err e, rest) = Unit {0}

  Shrinks-weaken :
      (small buf : List ℕ) (out : Result CodecError (Option NalUnit) × List ℕ)
      → length small ≤ length buf
      → Shrinks small out
      → Shrinks buf out
  Shrinks-weaken small buf (ok (some nal), rest) h o = omega arith
  Shrinks-weaken small buf (ok none, rest) h o = tt
  Shrinks-weaken small buf (err e, rest) h o = tt

  -- A unit that is taken has a byte at least.
  pub take_next-Shrinks : (f : ℕ) (buf : List ℕ) → Shrinks buf (take_next f codec false buf)
  take_next-Shrinks zero buf = unfold take_next in tt
  take_next-Shrinks (suc f) buf = elim (Codes-total buf) [
    | none_yet e ↦
        subst (Shrinks buf) (sym (take_next-codeless f buf e))
          (codeless (ltb max_parameter_set_bytes (length buf)))
    | one_yet s l e ↦ subst (Shrinks buf) (sym (take_next-idle f buf s l e)) tt
    | bounded s l n m later found some_byte inside ↦ elim (Bool-cases (leb n (s + l))) [
      | inr full ↦
          subst (Shrinks buf) (sym (take_next-full buf s l n found f full))
            (elim (Result-cases (nal_at buf s l n)) [
              | inl (nal, e) ↦
                  subst (Shrinks buf) (sym (take_cut-ok buf s l n nal e))
                    (omega (arith, length-drop n buf))
              | inr (x, e) ↦ subst (Shrinks buf) (sym (take_cut-err buf s l n x e)) tt
            ])
      | inl empty ↦ subst (Shrinks buf) (sym (take_next-empty buf s l n found f empty)) (
          Shrinks-weaken (drop n buf) buf (take_next f codec false (drop n buf))
            (omega (arith, length-drop n buf)) (take_next-Shrinks f (drop n buf)))
    ]
  ]
    where
      codeless :
          (long : Bool) → Shrinks buf (if long then (err no_start_code, buf) else (ok none, buf))
      codeless true = tt
      codeless false = tt

  abbrev NoLonger : List ℕ → Result CodecError (Option NalUnit) × List ℕ → Type 0
  NoLonger buf r = length r.1 ≤ length buf

  take_cut-no_longer : (buf : List ℕ) (s l n : ℕ) → length (take_cut codec buf s l n).1 ≤ length buf
  take_cut-no_longer buf s l n = elim (Result-cases (nal_at buf s l n)) [
    | inl (nal, e) ↦
        omega (arith, ap (λ r. length r.1) (take_cut-ok buf s l n nal e), length-drop n buf)
    | inr (x, e) ↦ omega (arith, ap (λ r. length r.1) (take_cut-err buf s l n x e))
  ]

  -- Taking a unit leaves no more bytes than there were.
  pub take_next-no_longer :
      (f : ℕ) (buf : List ℕ) → length (take_next f codec false buf).1 ≤ length buf
  take_next-no_longer zero buf = unfold take_next in omega arith
  take_next-no_longer (suc f) buf = elim (Codes-total buf) [
    | none_yet e ↦
        subst (NoLonger buf) (sym (take_next-codeless f buf e))
          (codeless (ltb max_parameter_set_bytes (length buf)))
    | one_yet s l e ↦ omega (arith, ap (λ r. length r.1) (take_next-idle f buf s l e))
    | bounded s l n m later found some_byte inside ↦ elim (Bool-cases (leb n (s + l))) [
      | inr full ↦ omega (
        arith,
        ap (λ r. length r.1) (take_next-full buf s l n found f full),
        take_cut-no_longer buf s l n,
      )
      | inl empty ↦ omega (
        arith,
        ap (λ r. length r.1) (take_next-empty buf s l n found f empty),
        take_next-no_longer f (drop n buf),
        length-drop n buf,
      )
    ]
  ]
    where
      codeless :
          (long : Bool) → NoLonger buf (if long then (err no_start_code, buf) else (ok none, buf))
      codeless true = omega arith
      codeless false = omega arith

  module _ (more : List ℕ) where
    -- How taking a unit goes on when more bytes follow: as before, or, where no unit was complete, with
    -- what was left and the new bytes.
    abbrev pub Extends :
        Result CodecError (Option NalUnit) × List ℕ
        → Result CodecError (Option NalUnit) × List ℕ
        → Type 0
    Extends (ok (some nal), rest) out = out ≡ (ok (some nal), rest ++ more)
    Extends (ok none, rest) out =
        out ≡ take_next (suc (length (rest ++ more))) codec false (rest ++ more)
    Extends (err no_start_code, rest) out = Unit {0}
    Extends (err e, rest) out = out ≡ (err e, rest ++ more)

    Extends-err : (e : CodecError) (rest : List ℕ) → Extends (err e, rest) (err e, rest ++ more)
    Extends-err no_start_code rest = tt
    Extends-err truncated_nal rest = refl
    Extends-err empty_nal rest = refl
    Extends-err (too_many_parameter_sets n) rest = refl

    take_cut-Extends :
        (buf : List ℕ) (s l n : ℕ)
        → n ≤ length buf
        → Extends (take_cut codec buf s l n) (take_cut codec (buf ++ more) s l n)
    take_cut-Extends buf s l n h =
        let same : nal_at (buf ++ more) s l n ≡ nal_at buf s l n =
          ap (λ t. nal_of codec (drop (s + l) t) (drop s t)) (take_append-within n buf more h) in
        elim (Result-cases (nal_at buf s l n)) [
          | inl (nal, e) ↦
              subst (Extends (take_cut codec buf s l n))
                (sym (take_cut-ok (buf ++ more) s l n nal (same ∙ e)))
                (subst (λ r. Extends r (ok (some nal), drop n (buf ++ more)))
                  (sym (take_cut-ok buf s l n nal e))
                  (ap (λ r. (ok (some nal), r)) (drop_append-within n buf more h)))
          | inr (x, e) ↦
              subst (Extends (take_cut codec buf s l n))
                (sym (take_cut-err (buf ++ more) s l n x (same ∙ e)))
                (subst (λ r. Extends r (err x, buf ++ more)) (sym (take_cut-err buf s l n x e))
                  (Extends-err x buf))
        ]

    -- A unit that is complete is taken in the same way when more bytes follow.
    pub take_next-Extends :
        (f f' : ℕ) (buf : List ℕ)
        → length buf < f
        → length (buf ++ more) < f'
        → Extends (take_next f codec false buf) (take_next f' codec false (buf ++ more))
    take_next-Extends zero f' buf h h' = absurd (omega arith)
    take_next-Extends (suc f) zero buf h h' = absurd (omega arith)
    take_next-Extends (suc f) (suc f') buf h h' = elim (Codes-total buf) [
      | none_yet e ↦
          subst (λ r. Extends r (take_next (suc f') codec false (buf ++ more)))
            (sym (take_next-codeless f buf e)) (codeless (ltb max_parameter_set_bytes (length buf)))
      | one_yet s l e ↦
          subst (λ r. Extends r (take_next (suc f') codec false (buf ++ more)))
            (sym (take_next-idle f buf s l e)) again
      | bounded s l n m later found some_byte inside ↦ elim (Bool-cases (leb n (s + l))) [
        | inr full ↦
            subst (λ r. Extends r (take_next (suc f') codec false (buf ++ more)))
              (sym (take_next-full buf s l n found f full))
              (subst (Extends (take_cut codec buf s l n))
                (sym (take_next-full (buf ++ more) s l n (later more) f' full))
                (take_cut-Extends buf s l n inside))
        | inl empty ↦
            subst (λ r. Extends r (take_next (suc f') codec false (buf ++ more)))
              (sym (take_next-empty buf s l n found f empty))
              (subst (Extends (take_next f codec false (drop n buf)))
                (sym (
                  take_next-empty (buf ++ more) s l n (later more) f' empty
                  ∙ ap (take_next f' codec false) (drop_append-within n buf more inside)))
                (take_next-Extends f f' (drop n buf) (omega (arith, length-drop n buf)) (
                  omega (
                    arith,
                    length-drop n buf,
                    length-append (drop n buf) more,
                    length-append buf more,
                  ))))
      ]
    ]
      where
        again :
            take_next (suc f') codec false (buf ++ more)
            ≡ take_next (suc (length (buf ++ more))) codec false (buf ++ more)
        again =
            take_next-rounds (suc f') (suc (length (buf ++ more))) (buf ++ more) h' (omega arith)

        codeless :
            (long : Bool)
            → Extends
                (if long then (err no_start_code, buf) else (ok none, buf))
                (take_next (suc f') codec false (buf ++ more))
        codeless true = tt
        codeless false = again
