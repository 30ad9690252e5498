-- ===== src/Codec/Parser/Fronts.antt =====
-- What `accept_nal` of codec.rs makes of the unit in progress.
use emersia.Base.{
  ℕ, ◌+◌, ◌%◌, ◌^◌, Bool, true, false, ◌||◌, Option, none, some, List, [], ◌∷◌, ◌++◌, length,
  or_false, or_true, Bool-cases, inl, inr, Result, ok, err, ◌≡◌, ap, ◌∙◌,
}
use emersia.Codec.{
  Codec, CodecError, too_many_parameter_sets, NalUnit, AccessUnit, is_parameter_set, is_vcl, is_aud,
}
use emersia.Codec.Parser.{
  AnnexBParser, is_empty, unit_of, flush_current, begins, after_aud, collected, published, added,
  oversized, flush_before, prepared, conclude, accept_nal,
}

-- The unit in progress, with what is known of it, and its number.
pub record Front : Type 0 where
  pub codec : Codec
  pub current : List NalUnit
  pub has_vcl : Bool
  pub index : ℕ

abbrev pub front_of : AnnexBParser → Front
front_of p = record {
  codec = p.codec;
  current = p.current;
  has_vcl = p.current_has_vcl;
  index = p.index;
}

abbrev pub front_cleared : Front → Front
front_cleared f = record f { current = []; has_vcl = false; index = (f.index + 1) % 2 ^ 64 }

abbrev pub front_added : NalUnit → Front → Front
front_added nal f = record f {
  current = f.current ++ (nal ∷ []);
  has_vcl = f.has_vcl || is_vcl f.codec nal;
}

module _ (nal : NalUnit) (p : AnnexBParser) where
  -- What `flush_before` comes to.
  pub data Flushed : Type 0 where
    stays : begins nal p ≡ false → flush_before nal p ≡ (none, p) → Flushed
    starts_empty : is_empty p.current ≡ true → flush_before nal p ≡ (none, p) → Flushed
    flushed :
        begins nal p ≡ true
        → is_empty p.current ≡ false
        → (flush_before nal p).0 ≡ some (unit_of p)
        → front_of (flush_before nal p).1 ≡ front_cleared (front_of p)
        → Flushed

  pub Flushed-total : Flushed
  unfolding flush_before flush_current
  Flushed-total = elim (Bool-cases (begins nal p)) [
    | inr not_yet ↦ stays not_yet (simp (not_yet))
    | inl here ↦ elim (Bool-cases (is_empty p.current)) [
      | inl e ↦ starts_empty e (simp (here, e))
      | inr e ↦ flushed here e (simp (here, e)) (simp (here, e))
    ]
  ]

  after_aud-front : front_of (after_aud nal p) ≡ front_of p
  unfolding after_aud
  after_aud-front = elim (Bool-cases (is_aud p.codec nal)) [ inl e ↦ simp (e) | inr e ↦ simp (e) ]

  collected-front : front_of (collected nal p) ≡ front_of p
  unfolding collected
  collected-front = elim (Bool-cases (is_parameter_set p.codec nal)) [
    | inl e ↦ simp (e)
    | inr e ↦ simp (e)
  ]

  added-front : front_of (added nal (published nal p)) ≡ front_added nal (front_of p)
  unfolding published
  added-front = elim (Bool-cases (is_vcl p.codec nal)) [
    | inl e ↦ elim (Bool-cases p.collecting_sets) [
      | inl c ↦ simp (e, c, or_true p.current_has_vcl)
      | inr c ↦ simp (e, c, or_true p.current_has_vcl)
    ]
    | inr e ↦ simp (e, or_false p.current_has_vcl)
  ]

prepared-front : (nal : NalUnit) (p : AnnexBParser) → front_of (prepared nal p) ≡ front_of p
unfolding prepared
prepared-front nal p = collected-front nal (after_aud nal p) ∙ after_aud-front nal p

-- What `accept_nal` comes to, once the unit before has been flushed or not.
pub data Accepted (nal : NalUnit) (p : AnnexBParser)
    (r : Result CodecError (Option AccessUnit) × AnnexBParser) : Type 0 where
  declined :
      (n : ℕ)
      → r.0 ≡ err (too_many_parameter_sets n)
      → front_of r.1 ≡ front_of (flush_before nal p).1
      → Accepted nal p r
  took :
      r.0 ≡ ok (flush_before nal p).0
      → front_of r.1 ≡ front_added nal (front_of (flush_before nal p).1)
      → Accepted nal p r

module _ (nal : NalUnit) (before : Option AccessUnit) (p : AnnexBParser) where
  conclude-oversized :
      oversized nal p ≡ true
      → conclude nal before p ≡ (err (too_many_parameter_sets (length p.pending_sets)), p)
  unfolding conclude
  conclude-oversized e = simp (e)

  conclude-fits :
      oversized nal p ≡ false → conclude nal before p ≡ (ok before, added nal (published nal p))
  unfolding conclude
  conclude-fits e = simp (e)

pub Accepted-total : (nal : NalUnit) (p : AnnexBParser) → Accepted nal p (accept_nal nal p)
unfolding accept_nal
Accepted-total nal p =
    let (before, q) = flush_before nal p in
    let ready = prepared nal q in
    elim (Bool-cases (oversized nal ready)) [
      | inl e ↦
          let c = conclude-oversized nal before ready e in
          declined (length ready.pending_sets) (ap (λ r. r.0) c)
            (ap (λ r. front_of r.1) c ∙ prepared-front nal q)
      | inr e ↦
          let c = conclude-fits nal before ready e in
          took (ap (λ r. r.0) c) (
            ap (λ r. front_of r.1) c
            ∙ added-front nal ready
            ∙ ap (front_added nal) (prepared-front nal q))
    ]

abbrev pub flushed_unit : Result CodecError (Option AccessUnit) → Option AccessUnit
flushed_unit (ok before) = before
flushed_unit (err e) = none
