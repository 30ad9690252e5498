-- ===== src/Codec/Parser/Buffer.antt =====
-- `accept_nal` of codec.rs does not look at the buffer, and changes neither it nor the settings.
use emersia.Base.{ℕ, Option, List, Bool-cases, inl, inr, ◌≡◌, refl, ap, ◌∙◌}
use emersia.Codec.{Codec, NalUnit, AccessUnit, is_parameter_set, is_vcl, is_aud}
use emersia.Codec.Parser.{
  AnnexBParser, is_empty, flush_current, begins, after_aud, collected, published, oversized,
  flush_before, prepared, conclude, accept_nal,
}

abbrev pub at_buffer : List ℕ → AnnexBParser → AnnexBParser
at_buffer buf p = record p { buffer = buf }

module _ (nal : NalUnit) (p : AnnexBParser) (buf : List ℕ) where
  flush_current-buffer :
      flush_current (at_buffer buf p) ≡ ((flush_current p).0, at_buffer buf (flush_current p).1)
  unfolding flush_current
  flush_current-buffer = elim (Bool-cases (is_empty p.current)) [
    | inl e ↦ simp (e)
    | inr e ↦ simp (e)
  ]

  begins-buffer : begins nal (at_buffer buf p) ≡ begins nal p
  unfolding begins
  begins-buffer = refl

  after_aud-buffer : after_aud nal (at_buffer buf p) ≡ at_buffer buf (after_aud nal p)
  unfolding after_aud
  after_aud-buffer = elim (Bool-cases (is_aud p.codec nal)) [ inl e ↦ simp (e) | inr e ↦ simp (e) ]

  collected-buffer : collected nal (at_buffer buf p) ≡ at_buffer buf (collected nal p)
  unfolding collected
  collected-buffer = elim (Bool-cases (is_parameter_set p.codec nal)) [
    | inl e ↦ simp (e)
    | inr e ↦ simp (e)
  ]

  published-buffer : published nal (at_buffer buf p) ≡ at_buffer buf (published nal p)
  unfolding published
  published-buffer = elim (Bool-cases (is_vcl p.codec nal)) [
    | inl e ↦ elim (Bool-cases p.collecting_sets) [ inl c ↦ simp (e, c) | inr c ↦ simp (e, c) ]
    | inr e ↦ simp (e)
  ]

flush_before-buffer :
    (nal : NalUnit) (p : AnnexBParser) (buf : List ℕ)
    → flush_before nal (at_buffer buf p)
      ≡ ((flush_before nal p).0, at_buffer buf (flush_before nal p).1)
unfolding flush_before
flush_before-buffer nal p buf = elim (Bool-cases (begins nal p)) [
  | inl starts ↦ simp (begins-buffer nal p buf, starts, flush_current-buffer nal p buf)
  | inr stays ↦ simp (begins-buffer nal p buf, stays)
]

prepared-buffer :
    (nal : NalUnit) (p : AnnexBParser) (buf : List ℕ)
    → prepared nal (at_buffer buf p) ≡ at_buffer buf (prepared nal p)
unfolding prepared
prepared-buffer nal p buf =
    ap (collected nal) (after_aud-buffer nal p buf) ∙ collected-buffer nal (after_aud nal p) buf

conclude-buffer :
    (nal : NalUnit) (flushed : Option AccessUnit) (p : AnnexBParser) (buf : List ℕ)
    → conclude nal flushed (at_buffer buf p)
      ≡ ((conclude nal flushed p).0, at_buffer buf (conclude nal flushed p).1)
unfolding conclude
conclude-buffer nal flushed p buf = elim (Bool-cases (oversized nal p)) [
  | inl e ↦ simp (e)
  | inr e ↦ simp (e, published-buffer nal p buf)
]

-- `accept_nal` does not look at the buffer.
pub accept_nal-buffer :
    (nal : NalUnit) (p : AnnexBParser) (buf : List ℕ)
    → accept_nal nal (at_buffer buf p) ≡ ((accept_nal nal p).0, at_buffer buf (accept_nal nal p).1)
unfolding accept_nal
accept_nal-buffer nal p buf =
    ap (λ f. conclude nal f.0 (prepared nal f.1)) (flush_before-buffer nal p buf)
    ∙ ap (conclude nal (flush_before nal p).0) (prepared-buffer nal (flush_before nal p).1 buf)
    ∙ conclude-buffer nal (flush_before nal p).0 (prepared nal (flush_before nal p).1) buf

pub accept_nal-keeps : (nal : NalUnit) (p : AnnexBParser) → (accept_nal nal p).1.buffer ≡ p.buffer
accept_nal-keeps nal p = ap (λ r. r.1.buffer) (accept_nal-buffer nal p p.buffer)

-- The maker's settings, which no operation changes.
abbrev pub settings : AnnexBParser → Codec × ℕ
settings p = (p.codec, p.max_buffer)

module _ (nal : NalUnit) (p : AnnexBParser) where
  flush_before-settings : settings (flush_before nal p).1 ≡ settings p
  unfolding flush_before flush_current
  flush_before-settings = elim (Bool-cases (begins nal p)) [
    | inl starts ↦ elim (Bool-cases (is_empty p.current)) [
      | inl e ↦ simp (starts, e)
      | inr e ↦ simp (starts, e)
    ]
    | inr stays ↦ simp (stays)
  ]

  after_aud-settings : settings (after_aud nal p) ≡ settings p
  unfolding after_aud
  after_aud-settings = elim (Bool-cases (is_aud p.codec nal)) [
    | inl e ↦ simp (e)
    | inr e ↦ simp (e)
  ]

  collected-settings : settings (collected nal p) ≡ settings p
  unfolding collected
  collected-settings = elim (Bool-cases (is_parameter_set p.codec nal)) [
    | inl e ↦ simp (e)
    | inr e ↦ simp (e)
  ]

  published-settings : settings (published nal p) ≡ settings p
  unfolding published
  published-settings = elim (Bool-cases (is_vcl p.codec nal)) [
    | inl e ↦ elim (Bool-cases p.collecting_sets) [ inl c ↦ simp (e, c) | inr c ↦ simp (e, c) ]
    | inr e ↦ simp (e)
  ]

  conclude-settings :
      (flushed : Option AccessUnit) → settings (conclude nal flushed p).1 ≡ settings p
  unfolding conclude
  conclude-settings flushed = elim (Bool-cases (oversized nal p)) [
    | inl e ↦ simp (e)
    | inr e ↦ simp (e, published-settings)
  ]

pub accept_nal-settings :
    (nal : NalUnit) (p : AnnexBParser) → settings (accept_nal nal p).1 ≡ settings p
unfolding accept_nal prepared
accept_nal-settings nal p =
    let (flushed, p') = flush_before nal p in
    conclude-settings nal (prepared nal p') flushed
    ∙ collected-settings nal (after_aud nal p')
    ∙ after_aud-settings nal p'
    ∙ flush_before-settings nal p
