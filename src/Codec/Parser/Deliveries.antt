-- ===== src/Codec/Parser/Deliveries.antt =====
-- The access units that `push` of codec.rs gives.
use emersia.Base.{
  ℕ, zero, suc, true, false, Option, none, some, List, [], ◌++◌, Result, ok, err, ◌≡◌, refl, sym,
  ap, subst, ◌∙◌, ◌⊎◌, inl, inr, arith, Bool-cases, length, ltb,
}
use emersia.Codec.{Codec, CodecError, NalUnit, AccessUnit}
use emersia.Codec.Parser.{
  AnnexBParser, is_empty, unit_of, begins, flush_before, accept_nal, with_unit, behind,
  take_all_nals, push_bytes,
}
use emersia.Codec.Parser.Units.{
  starts, IsFramed, AreUnits, none_left, one_more, IsFramed-added, IsFramed-first,
}
use emersia.Codec.Parser.Buffer.{at_buffer}
use emersia.Codec.Parser.Rounds.{
  idle, bad, refused, goes, Round-total, take_all-idle, take_all-bad, take_all-refused,
  take_all-goes, push_bytes-over, push_bytes-fits,
}
use emersia.Codec.Parser.Fronts.{
  Front, front_of, front_added, stays, starts_empty, flushed, Flushed-total, Accepted, declined,
  took, Accepted-total, flushed_unit,
}

-- The state between the flush and the unit that follows: it fits, or nothing is in progress.
abbrev Ready : NalUnit → Front → Option AccessUnit → Front → Type 0
Ready nal f before f' =
    (AreUnits f.codec f.index (with_unit before []) f'.index × (f'.codec ≡ f.codec))
    × (IsFramed f' × ((starts f'.codec f'.has_vcl nal ≡ false) ⊎ (is_empty f'.current ≡ true)))

module _ (nal : NalUnit) (p : AnnexBParser) (framed : IsFramed (front_of p)) where
  abbrev IsReady : Option AccessUnit × AnnexBParser → Type 0
  IsReady r = Ready nal (front_of p) r.0 (front_of r.1)

  flush_before-Ready : IsReady (flush_before nal p)
  flush_before-Ready = elim (Flushed-total nal p) [
    | stays h e ↦ subst IsReady (sym e) ((none_left, refl), (framed, inl (unfold begins in h)))
    | starts_empty h e ↦ subst IsReady (sym e) ((none_left, refl), (framed, inr h))
    | flushed h full unit cleared ↦
        subst (λ b. Ready nal (front_of p) b (front_of (flush_before nal p).1)) (sym unit)
          (subst (Ready nal (front_of p) (some (unit_of p))) (sym cleared)
            ((one_more p.current full framed.1 none_left, refl), ((refl, refl), inr refl)))
  ]

  abbrev Delivered : Result CodecError (Option AccessUnit) × AnnexBParser → Type 0
  Delivered (ok before, p') =
      (AreUnits p.codec p.index (with_unit before []) p'.index × (p'.codec ≡ p.codec))
      × IsFramed (front_of p')
  Delivered (err e, p') = (p'.codec ≡ p.codec) × IsFramed (front_of p')

  Accepted-Delivered :
      (r : Result CodecError (Option AccessUnit) × AnnexBParser) → Accepted nal p r → Delivered r
  Accepted-Delivered (ok before, p') (declined e h f) = absurd (ground (arith, h))
  Accepted-Delivered (err x, p') (took h f) = absurd (ground (arith, h))
  Accepted-Delivered (err x, p') (declined e h f) =
      let ((units, same), (q_framed, fits)) = flush_before-Ready in
      (ap (λ g. g.codec) f ∙ same, subst IsFramed (sym f) q_framed)
  Accepted-Delivered (ok before, p') (took h f) =
      let q = front_of (flush_before nal p).1 in
      let ((units, same), (q_framed, fits)) = flush_before-Ready in
      let now_framed : IsFramed (front_added nal q) = elim fits [
        | inl h' ↦ IsFramed-added q nal q_framed h'
        | inr h' ↦ IsFramed-first q nal h' q_framed
      ] in
      (
        (
          subst (λ b. AreUnits p.codec p.index (with_unit b []) p'.index) (sym (ap flushed_unit h))
              (subst (AreUnits p.codec p.index (with_unit (flush_before nal p).0 []))
                (sym (ap (λ g. g.index) f)) units),
          ap (λ g. g.codec) f ∙ same,
        ),
        subst IsFramed (sym f) now_framed,
      )

  accept_nal-Delivered : Delivered (accept_nal nal p)
  accept_nal-Delivered = Accepted-Delivered (accept_nal nal p) (Accepted-total nal p)

AreUnits-with_unit :
    (codec : Codec) (before : Option AccessUnit) (out : List AccessUnit) (i j k : ℕ)
    → AreUnits codec i (with_unit before []) j
    → AreUnits codec j out k
    → AreUnits codec i (with_unit before out) k
AreUnits-with_unit codec none out i j k none_left us = us
AreUnits-with_unit codec (some au) out i j k (one_more nals full one none_left) us =
    one_more nals full one us

-- What `push` gives: units from the parser's number on, and the state that the next push begins with.
abbrev pub Delivers : AnnexBParser → Result CodecError (List AccessUnit) × AnnexBParser → Type 0
Delivers p (ok out, p') =
    AreUnits p.codec p.index out p'.index × ((p'.codec ≡ p.codec) × IsFramed (front_of p'))
Delivers p (err e, p') = (p'.codec ≡ p.codec) × IsFramed (front_of p')

Delivers-behind :
    (p p' : AnnexBParser) (before : Option AccessUnit)
    (r : Result CodecError (List AccessUnit) × AnnexBParser)
    → AreUnits p.codec p.index (with_unit before []) p'.index
    → p'.codec ≡ p.codec
    → Delivers p' r
    → Delivers p (behind before r)
Delivers-behind p p' before (err e, q) us same (same', framed) = (same' ∙ same, framed)
Delivers-behind p p' before (ok out, q) us same (us', (same', framed)) = (
  AreUnits-with_unit p.codec before out p.index p'.index q.index us
      (subst (λ c. AreUnits c p'.index out q.index) same us'),
  (same' ∙ same, framed),
)

take_all-Delivers :
    (f : ℕ) (p : AnnexBParser) → IsFramed (front_of p) → Delivers p (take_all_nals f p)
take_all-Delivers zero p framed = unfold take_all_nals in (none_left, (refl, framed))
take_all-Delivers (suc f) p framed = elim (Round-total p) [
  | idle rest e ↦ subst (Delivers p) (sym (take_all-idle f p rest e)) (none_left, (refl, framed))
  | bad x rest e ↦ subst (Delivers p) (sym (take_all-bad f p x rest e)) (refl, framed)
  | refused nal rest x p' e a ↦ subst (Delivers p) (sym (take_all-refused f p nal rest e x p' a)) (
      subst (Delivered nal (at_buffer rest p) framed) a
        (accept_nal-Delivered nal (at_buffer rest p) framed))
  | goes nal rest before p' e a ↦
      let ((us, same), now_framed) : Delivered nal (at_buffer rest p) framed (ok before, p') =
        subst (Delivered nal (at_buffer rest p) framed) a
          (accept_nal-Delivered nal (at_buffer rest p) framed) in
      subst (Delivers p) (sym (take_all-goes f p nal rest e before p' a)) (
        Delivers-behind p p' before (take_all_nals f p') us same
          (take_all-Delivers f p' now_framed))
]

-- From a new parser on, whatever is pushed: the access units of a push are numbered one after the
-- other, each has units of one picture at most, its bytes are those units' and its keyframe mark is
-- theirs; an error leaves a parser of which the same holds.
pub push_bytes-Delivers :
    (bytes : List ℕ) (p : AnnexBParser) → IsFramed (front_of p) → Delivers p (push_bytes bytes p)
unfolding push_bytes
push_bytes-Delivers bytes p framed =
    elim (Bool-cases (ltb p.max_buffer (length (p.buffer ++ bytes)))) [
      | inl over ↦ subst (Delivers p) (sym (push_bytes-over bytes p over)) (refl, framed)
      | inr within ↦ subst (Delivers p) (sym (push_bytes-fits bytes p within)) (
          take_all-Delivers (suc (length (p.buffer ++ bytes))) (at_buffer (p.buffer ++ bytes) p)
            framed)
    ]
