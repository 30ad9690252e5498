-- ===== src/Codec/Parser/Rounds.antt =====
-- The rounds of the loop of `push` in codec.rs, one by one.
use emersia.Base.{
  ℕ, zero, suc, ◌<◌, ◌≤◌, ◌++◌, ltb, true, false, Option, none, some, List, [], length, Result, ok,
  err, ◌≡◌, refl, sym, ap, subst, ◌∙◌, arith,
}
use emersia.Codec.{CodecError, truncated_nal, NalUnit, AccessUnit}
use emersia.Codec.Parser.{
  AnnexBParser, accept_nal, take_next, take_next_nal, behind, take_all_nals, push_bytes,
}
use emersia.Codec.Parser.Buffer.{at_buffer, accept_nal-keeps}
use emersia.Codec.Parser.Take.{Shrinks, take_next-Shrinks}

abbrev pub taken_from : AnnexBParser → Result CodecError (Option NalUnit) × List ℕ
taken_from p = take_next (suc (length p.buffer)) p.codec false p.buffer

-- What one round of `take_all_nals` comes to.
pub data Round (p : AnnexBParser) : Type 0 where
  idle : (rest : List ℕ) → taken_from p ≡ (ok none, rest) → Round p
  bad : (e : CodecError) (rest : List ℕ) → taken_from p ≡ (err e, rest) → Round p
  refused :
      (nal : NalUnit) (rest : List ℕ) (e : CodecError) (p' : AnnexBParser)
      → taken_from p ≡ (ok (some nal), rest)
      → accept_nal nal (at_buffer rest p) ≡ (err e, p')
      → Round p
  goes :
      (nal : NalUnit) (rest : List ℕ) (flushed : Option AccessUnit) (p' : AnnexBParser)
      → taken_from p ≡ (ok (some nal), rest)
      → accept_nal nal (at_buffer rest p) ≡ (ok flushed, p')
      → Round p

pub Round-total : (p : AnnexBParser) → Round p
Round-total p = from (taken_from p) refl
  where
    accepting :
        (nal : NalUnit) (rest : List ℕ)
        → taken_from p ≡ (ok (some nal), rest)
        → (out : Result CodecError (Option AccessUnit) × AnnexBParser)
        → accept_nal nal (at_buffer rest p) ≡ out
        → Round p
    accepting nal rest e (ok flushed, p') a = goes nal rest flushed p' e a
    accepting nal rest e (err x, p') a = refused nal rest x p' e a

    from : (out : Result CodecError (Option NalUnit) × List ℕ) → taken_from p ≡ out → Round p
    from (ok none, rest) e = idle rest e
    from (err x, rest) e = bad x rest e
    from (ok (some nal), rest) e = accepting nal rest e (accept_nal nal (at_buffer rest p)) refl

abbrev pub round_of :
    ℕ
    → AnnexBParser
    → Result CodecError (Option NalUnit) × List ℕ
    → Result CodecError (List AccessUnit) × AnnexBParser
round_of f p t = elim t.0 [
  | err e ↦ (err e, at_buffer t.1 p)
  | ok found ↦ elim found [
    | none ↦ (ok [], at_buffer t.1 p)
    | some nal ↦
        let accepted = accept_nal nal (at_buffer t.1 p) in
        elim accepted.0 [
          | err e ↦ (err e, accepted.1)
          | ok flushed ↦ behind flushed (take_all_nals f accepted.1)
        ]
  ]
]

pub take_all-round :
    (f : ℕ) (p : AnnexBParser) → take_all_nals (suc f) p ≡ round_of f p (taken_from p)
unfolding take_all_nals take_next_nal
take_all-round f p = refl

module _ (f : ℕ) (p : AnnexBParser) where
  pub take_all-idle :
      (rest : List ℕ)
      → taken_from p ≡ (ok none, rest)
      → take_all_nals (suc f) p ≡ (ok [], at_buffer rest p)
  take_all-idle rest e = take_all-round f p ∙ ap (round_of f p) e

  pub take_all-bad :
      (x : CodecError) (rest : List ℕ)
      → taken_from p ≡ (err x, rest)
      → take_all_nals (suc f) p ≡ (err x, at_buffer rest p)
  take_all-bad x rest e = take_all-round f p ∙ ap (round_of f p) e

  module _ (nal : NalUnit) (rest : List ℕ) (e : taken_from p ≡ (ok (some nal), rest)) where
    abbrev accepted_with :
        Result CodecError (Option AccessUnit) × AnnexBParser
        → Result CodecError (List AccessUnit) × AnnexBParser
    accepted_with a = elim a.0 [
      | err x ↦ (err x, a.1)
      | ok flushed ↦ behind flushed (take_all_nals f a.1)
    ]

    pub take_all-refused :
        (x : CodecError) (p' : AnnexBParser)
        → accept_nal nal (at_buffer rest p) ≡ (err x, p')
        → take_all_nals (suc f) p ≡ (err x, p')
    take_all-refused x p' a = take_all-round f p ∙ ap (round_of f p) e ∙ ap accepted_with a

    pub take_all-goes :
        (flushed : Option AccessUnit) (p' : AnnexBParser)
        → accept_nal nal (at_buffer rest p) ≡ (ok flushed, p')
        → take_all_nals (suc f) p ≡ behind flushed (take_all_nals f p')
    take_all-goes flushed p' a = take_all-round f p ∙ ap (round_of f p) e ∙ ap accepted_with a

pub goes-shorter :
    (p : AnnexBParser) (nal : NalUnit) (rest : List ℕ) (flushed : Option AccessUnit)
    (p' : AnnexBParser)
    → taken_from p ≡ (ok (some nal), rest)
    → accept_nal nal (at_buffer rest p) ≡ (ok flushed, p')
    → (p'.buffer ≡ rest) × (length p'.buffer < length p.buffer)
goes-shorter p nal rest flushed p' e a =
    let same : p'.buffer ≡ rest =
      sym (ap (λ r. r.1.buffer) a) ∙ accept_nal-keeps nal (at_buffer rest p) in
    (
      same,
      subst (λ l. length l < length p.buffer) (sym same)
          (subst (Shrinks p.codec p.buffer) e
            (take_next-Shrinks p.codec (suc (length p.buffer)) p.buffer)),
    )

-- More rounds than bytes change nothing.
pub take_all-rounds :
    (f f' : ℕ) (p : AnnexBParser)
    → length p.buffer < f
    → length p.buffer < f'
    → take_all_nals f p ≡ take_all_nals f' p
take_all-rounds zero f' p h h' = absurd (omega arith)
take_all-rounds (suc f) zero p h h' = absurd (omega arith)
take_all-rounds (suc f) (suc f') p h h' = elim (Round-total p) [
  | idle rest e ↦ take_all-idle f p rest e ∙ sym (take_all-idle f' p rest e)
  | bad x rest e ↦ take_all-bad f p x rest e ∙ sym (take_all-bad f' p x rest e)
  | refused nal rest x p' e a ↦
      take_all-refused f p nal rest e x p' a ∙ sym (take_all-refused f' p nal rest e x p' a)
  | goes nal rest flushed p' e a ↦
      let less = (goes-shorter p nal rest flushed p' e a).1 in
      take_all-goes f p nal rest e flushed p' a
      ∙ ap (behind flushed) (take_all-rounds f f' p' (omega (arith, less)) (omega (arith, less)))
      ∙ sym (take_all-goes f' p nal rest e flushed p' a)
]

module _ (bytes : List ℕ) (p : AnnexBParser) where
  pub push_bytes-over :
      ltb p.max_buffer (length (p.buffer ++ bytes)) ≡ true
      → push_bytes bytes p ≡ (err truncated_nal, at_buffer (p.buffer ++ bytes) p)
  unfolding push_bytes
  push_bytes-over h = simp (h)

  pub push_bytes-fits :
      ltb p.max_buffer (length (p.buffer ++ bytes)) ≡ false
      → push_bytes bytes p
        ≡ take_all_nals (suc (length (p.buffer ++ bytes))) (at_buffer (p.buffer ++ bytes) p)
  unfolding push_bytes
  push_bytes-fits h = simp (h)

pub push_bytes-within :
    (bytes : List ℕ) (p : AnnexBParser)
    → length (p.buffer ++ bytes) ≤ p.max_buffer
    → push_bytes bytes p
      ≡ take_all_nals (suc (length (p.buffer ++ bytes))) (at_buffer (p.buffer ++ bytes) p)
unfolding push_bytes
push_bytes-within bytes p h = ground (arith, h)
