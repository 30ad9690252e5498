-- ===== src/Codec/Parser/Bytes.antt =====
-- The bytes that `push` of codec.rs passes on.
use emersia.Base.{
  ℕ, zero, suc, ◌+◌, Bool, true, false, Option, none, some, List, [], ◌∷◌, ◌++◌, append-nil,
  append_assoc, length, take, drop, take-append-drop, ltb, leb, if◌then◌else◌, Bool-cases,
  Option-cases, inl, inr, Result, ok, err, Result-cases, ◌≡◌, refl, sym, ap, subst, ◌∙◌, arith,
}
use emersia.Base.Within.{
  Within, Within-refl, Within-trans, Within-append, Within-drop, Within-behind,
}
use emersia.Codec.{
  Codec, CodecError, no_start_code, NalUnit, AccessUnit, nal_type_of, header_len,
  max_parameter_set_bytes,
}
use emersia.Codec.Parser.{
  AnnexBParser, joined_annexb, nal_of, take_cut, take_next, flush_before, accept_nal, with_unit,
  behind, take_all_nals, push_bytes,
}
use emersia.Codec.Parser.Take.{
  nal_at, take_cut-ok, take_cut-err, none_yet, one_yet, bounded, Codes-total, take_next-idle,
  take_next-codeless, take_next-empty, take_next-full,
}
use emersia.Codec.Parser.Buffer.{at_buffer, accept_nal-keeps}
use emersia.Codec.Parser.Fronts.{
  stays, starts_empty, flushed, Flushed-total, Accepted, declined, took, Accepted-total,
  flushed_unit,
}
use emersia.Codec.Parser.Rounds.{
  taken_from, Round-total, idle, bad, refused, goes, take_all-idle, take_all-bad, take_all-refused,
  take_all-goes, push_bytes-over, push_bytes-fits,
}

abbrev annexb_of : List ℕ → Result CodecError NalUnit → List ℕ
annexb_of other (ok nal) = nal.annexb
annexb_of other (err e) = other

nal_of-annexb :
    (codec : Codec) (body annexb : List ℕ) (nal : NalUnit)
    → nal_of codec body annexb ≡ ok nal
    → nal.annexb ≡ annexb
unfolding nal_of
nal_of-annexb codec body annexb nal e = elim (Option-cases (nal_type_of body codec)) [
  | inl h ↦ let other = rw (h, nal_of) at e in absurd (ground (arith, other))
  | inr (ty, h) ↦ elim (Bool-cases (leb (length body) (header_len body codec))) [
    | inl short ↦ let other = rw short at (rw (h, nal_of) at e) in absurd (ground (arith, other))
    | inr long ↦ sym (ap (annexb_of annexb) (rw long at (rw (h, nal_of) at e)))
  ]
]

-- The unit's bytes and the rest, of the buffer.
abbrev Taken : List ℕ → Result CodecError (Option NalUnit) × List ℕ → Type 0
Taken buf (ok (some nal), rest) = Within (nal.annexb ++ rest) buf
Taken buf (ok none, rest) = Within rest buf
Taken buf (err e, rest) = Within rest buf

Taken-weaken :
    (small buf : List ℕ) (r : Result CodecError (Option NalUnit) × List ℕ)
    → Within small buf
    → Taken small r
    → Taken buf r
Taken-weaken small buf (ok (some nal), rest) w t = Within-trans t w
Taken-weaken small buf (ok none, rest) w t = Within-trans t w
Taken-weaken small buf (err e, rest) w t = Within-trans t w

take_cut-Taken : (codec : Codec) (buf : List ℕ) (s l n : ℕ) → Taken buf (take_cut codec buf s l n)
take_cut-Taken codec buf s l n = elim (Result-cases (nal_at codec buf s l n)) [
  | inl (nal, e) ↦
      let annexb = nal_of-annexb codec (drop (s + l) (take n buf)) (drop s (take n buf)) nal e in
      subst (Taken buf) (sym (take_cut-ok codec buf s l n nal e)) (
        subst (λ bytes. Within (bytes ++ drop n buf) buf) (sym annexb)
          (subst (Within (drop s (take n buf) ++ drop n buf)) (take-append-drop n buf)
            (Within-append (Within-drop s (take n buf)) (Within-refl (drop n buf)))))
  | inr (x, e) ↦ subst (Taken buf) (sym (take_cut-err codec buf s l n x e)) (Within-refl buf)
]

take_next-Taken : (codec : Codec) (f : ℕ) (buf : List ℕ) → Taken buf (take_next f codec false buf)
take_next-Taken codec zero buf = unfold take_next in Within-refl buf
take_next-Taken codec (suc f) buf = elim (Codes-total buf) [
  | none_yet e ↦
      subst (Taken buf) (sym (take_next-codeless codec f buf e))
        (codeless (ltb max_parameter_set_bytes (length buf)))
  | one_yet s l e ↦ subst (Taken buf) (sym (take_next-idle codec f buf s l e)) (Within-refl buf)
  | bounded s l n m later found some_byte inside ↦ elim (Bool-cases (leb n (s + l))) [
    | inr full ↦
        subst (Taken buf) (sym (take_next-full codec buf s l n found f full))
          (take_cut-Taken codec buf s l n)
    | inl empty ↦ subst (Taken buf) (sym (take_next-empty codec buf s l n found f empty)) (
        Taken-weaken (drop n buf) buf (take_next f codec false (drop n buf)) (Within-drop n buf)
          (take_next-Taken codec f (drop n buf)))
  ]
]
  where
    codeless : (long : Bool) → Taken buf (if long then (err no_start_code, buf) else (ok none, buf))
    codeless true = Within-refl buf
    codeless false = Within-refl buf

-- The bytes of the access units.
abbrev pub all_bytes : List AccessUnit → List ℕ
all_bytes [] = []
all_bytes (au ∷ out) = au.annexb ++ all_bytes out

joined_annexb-append :
    (ns : List NalUnit) (n : NalUnit)
    → joined_annexb (ns ++ (n ∷ [])) ≡ joined_annexb ns ++ n.annexb
joined_annexb-append [] n = append-nil n.annexb
joined_annexb-append (m ∷ ns) n =
    ap (λ bytes. m.annexb ++ bytes) (joined_annexb-append ns n)
    ∙ sym (append_assoc m.annexb (joined_annexb ns) n.annexb)

abbrev before_bytes : Option AccessUnit → List ℕ
before_bytes before = all_bytes (with_unit before [])

module _ (nal : NalUnit) (p : AnnexBParser) where
  flush_before-bytes :
      before_bytes (flush_before nal p).0 ++ joined_annexb (flush_before nal p).1.current
      ≡ joined_annexb p.current
  flush_before-bytes = elim (Flushed-total nal p) [
    | stays h e ↦ ap (λ r. before_bytes r.0 ++ joined_annexb r.1.current) e
    | starts_empty h e ↦ ap (λ r. before_bytes r.0 ++ joined_annexb r.1.current) e
    | flushed h full unit cleared ↦
        ap (λ before. before_bytes before ++ joined_annexb (flush_before nal p).1.current) unit
        ∙ ap (λ g. (joined_annexb p.current ++ []) ++ joined_annexb g.current) cleared
        ∙ append-nil (joined_annexb p.current ++ [])
        ∙ append-nil (joined_annexb p.current)
  ]

  -- Nothing is lost, unless the unit is refused.
  abbrev Accounts : Result CodecError (Option AccessUnit) × AnnexBParser → Type 0
  Accounts (ok before, p') =
      before_bytes before ++ joined_annexb p'.current ≡ joined_annexb p.current ++ nal.annexb
  Accounts (err e, p') = Within (joined_annexb p'.current) (joined_annexb p.current)

  Accepted-Accounts :
      (r : Result CodecError (Option AccessUnit) × AnnexBParser) → Accepted nal p r → Accounts r
  Accepted-Accounts (ok before, p') (declined n h f) = absurd (ground (arith, h))
  Accepted-Accounts (err x, p') (took h f) = absurd (ground (arith, h))
  Accepted-Accounts (err x, p') (declined n h f) =
      subst (λ g. Within (joined_annexb g.current) (joined_annexb p.current)) (sym f)
        (subst (Within (joined_annexb (flush_before nal p).1.current)) flush_before-bytes (
          Within-behind (before_bytes (flush_before nal p).0)
            (Within-refl (joined_annexb (flush_before nal p).1.current))))
  Accepted-Accounts (ok before, p') (took h f) =
      let (first, q) = flush_before nal p in
      ap (λ o. before_bytes o ++ joined_annexb p'.current) (ap flushed_unit h)
      ∙ ap (λ g. before_bytes first ++ joined_annexb g.current) f
      ∙ ap (λ bytes. before_bytes first ++ bytes) (joined_annexb-append q.current nal)
      ∙ sym (append_assoc (before_bytes first) (joined_annexb q.current) nal.annexb)
      ∙ ap (λ bytes. bytes ++ nal.annexb) flush_before-bytes

  accept_nal-Accounts : Accounts (accept_nal nal p)
  accept_nal-Accounts = Accepted-Accounts (accept_nal nal p) (Accepted-total nal p)

-- All that the parser holds.
abbrev pub held : AnnexBParser → List ℕ
held p = joined_annexb p.current ++ p.buffer

-- What came out and what is held now, of what was held.
abbrev pub Passes : List ℕ → Result CodecError (List AccessUnit) × AnnexBParser → Type 0
Passes bytes (ok out, p) = Within (all_bytes out ++ held p) bytes
Passes bytes (err e, p) = Within (held p) bytes

with_unit-bytes :
    (before : Option AccessUnit) (out : List AccessUnit)
    → all_bytes (with_unit before out) ≡ before_bytes before ++ all_bytes out
with_unit-bytes none out = refl
with_unit-bytes (some au) out = sym (append_assoc au.annexb [] (all_bytes out))

Passes-behind :
    (before : Option AccessUnit) (bytes : List ℕ)
    (r : Result CodecError (List AccessUnit) × AnnexBParser)
    → Passes bytes r
    → Passes (before_bytes before ++ bytes) (behind before r)
Passes-behind before bytes (err e, p) w = Within-behind (before_bytes before) w
Passes-behind before bytes (ok out, p) w =
    subst (λ xs. Within xs (before_bytes before ++ bytes))
      (sym (
        ap (λ xs. xs ++ held p) (with_unit-bytes before out)
        ∙ append_assoc (before_bytes before) (all_bytes out) (held p)))
      (Within-append (Within-refl (before_bytes before)) w)

Passes-weaken :
    {bytes more : List ℕ} (r : Result CodecError (List AccessUnit) × AnnexBParser)
    → Within bytes more
    → Passes bytes r
    → Passes more r
Passes-weaken (ok out, p) w v = Within-trans v w
Passes-weaken (err e, p) w v = Within-trans v w

take_all-Passes : (f : ℕ) (p : AnnexBParser) → Passes (held p) (take_all_nals f p)
take_all-Passes zero p = unfold take_all_nals in Within-refl (held p)
take_all-Passes (suc f) p = elim (Round-total p) [
  | idle rest e ↦
      subst (Passes (held p)) (sym (take_all-idle f p rest e))
        (front_kept (subst (Taken p.buffer) e whole))
  | bad x rest e ↦
      subst (Passes (held p)) (sym (take_all-bad f p x rest e))
        (front_kept (subst (Taken p.buffer) e whole))
  | refused nal rest x p' e a ↦
      subst (Passes (held p)) (sym (take_all-refused f p nal rest e x p' a)) (
        Within-append
          (subst (Accounts nal (at_buffer rest p)) a (accept_nal-Accounts nal (at_buffer rest p)))
          (subst (λ b. Within b p.buffer) (sym (same nal rest (err x, p') a))
            (Within-trans (Within-behind nal.annexb (Within-refl rest))
              (subst (Taken p.buffer) e whole))))
  | goes nal rest before p' e a ↦
      let counted : before_bytes before ++ joined_annexb p'.current
          ≡ joined_annexb p.current ++ nal.annexb =
        subst (Accounts nal (at_buffer rest p)) a (accept_nal-Accounts nal (at_buffer rest p)) in
      let all : before_bytes before ++ held p' ≡ joined_annexb p.current ++ (nal.annexb ++ rest) =
        ap (λ b. before_bytes before ++ (joined_annexb p'.current ++ b))
          (same nal rest (ok before, p') a)
        ∙ sym (append_assoc (before_bytes before) (joined_annexb p'.current) rest)
        ∙ ap (λ bytes. bytes ++ rest) counted
        ∙ append_assoc (joined_annexb p.current) nal.annexb rest in
      subst (Passes (held p)) (sym (take_all-goes f p nal rest e before p' a)) (
        Passes-weaken (behind before (take_all_nals f p'))
          (subst (λ bytes. Within bytes (held p)) (sym all)
            (front_kept (subst (Taken p.buffer) e whole)))
          (Passes-behind before (held p') (take_all_nals f p') (take_all-Passes f p')))
]
  where
    whole : Taken p.buffer (taken_from p)
    whole = take_next-Taken p.codec (suc (length p.buffer)) p.buffer

    front_kept :
        {bytes : List ℕ}
        → Within bytes p.buffer
        → Within (joined_annexb p.current ++ bytes) (held p)
    front_kept w = Within-append (Within-refl (joined_annexb p.current)) w

    same :
        (nal : NalUnit) (rest : List ℕ) (r : Result CodecError (Option AccessUnit) × AnnexBParser)
        → accept_nal nal (at_buffer rest p) ≡ r
        → r.1.buffer ≡ rest
    same nal rest r a = sym (ap (λ o. o.1.buffer) a) ∙ accept_nal-keeps nal (at_buffer rest p)

-- A push never invents, repeats or reorders a byte: the bytes of its access units, then those of the
-- unit in progress and of the buffer, are what the parser held and the new bytes, with bytes left
-- out; after an error what the parser holds is such a part too.
pub push_bytes-Passes :
    (bytes : List ℕ) (p : AnnexBParser) → Passes (held p ++ bytes) (push_bytes bytes p)
push_bytes-Passes bytes p =
    let next = at_buffer (p.buffer ++ bytes) p in
    let all = append_assoc (joined_annexb p.current) p.buffer bytes in
    elim (Bool-cases (ltb p.max_buffer (length (p.buffer ++ bytes)))) [
      | inl over ↦
          subst (Passes (held p ++ bytes)) (sym (push_bytes-over bytes p over))
            (subst (Within (held next)) (sym all) (Within-refl (held next)))
      | inr within ↦ subst (Passes (held p ++ bytes)) (sym (push_bytes-fits bytes p within)) (
          subst (λ xs. Passes xs (take_all_nals (suc (length next.buffer)) next)) (sym all)
            (take_all-Passes (suc (length next.buffer)) next))
    ]
