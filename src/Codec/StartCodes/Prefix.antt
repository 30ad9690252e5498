-- ===== src/Codec/StartCodes/Prefix.antt =====
-- The start codes that are found in a buffer of codec.rs, and those found when more bytes follow.
use emersia.Base.{
  ℕ, zero, suc, ◌+◌, ◌-◌, ◌≤◌, ◌<◌, true, false, List, [], ◌∷◌, ◌++◌, length, length-append, get_or,
  leb, Bool-cases, inl, inr, leb→le, ◌≡◌, refl, sym, ap, ap₂, subst, ◌∙◌, arith,
}
use emersia.Codec.StartCodes.{is_code, code_at, scan, start_code_positions}

get_or-append : (xs ys : List ℕ) (i : ℕ) → i < length xs → get_or (xs ++ ys) i 0 ≡ get_or xs i 0
get_or-append [] ys i h = absurd (omega arith)
get_or-append (x ∷ xs) ys zero h = refl
get_or-append (x ∷ xs) ys (suc i) h = get_or-append xs ys i (omega arith)

is_code-append :
    (buf more : List ℕ) (i : ℕ) → i + 3 ≤ length buf → is_code (buf ++ more) i ≡ is_code buf i
is_code-append buf more i h = rw (get_or-append buf more i (omega arith)) (
    rw (get_or-append buf more (i + 1) (omega arith))
      (rw (get_or-append buf more (i + 2) (omega arith))))

code_at-append :
    (buf more : List ℕ) (i : ℕ) → i + 3 ≤ length buf → code_at (buf ++ more) i ≡ code_at buf i
code_at-append buf more i h = rw (get_or-append buf more (i - 1) (omega arith))

-- One round of the scan.
scan-end :
    (f : ℕ) (buf : List ℕ) (i : ℕ) → leb (i + 3) (length buf) ≡ false → scan (suc f) buf i ≡ []
unfolding scan
scan-end f buf i h = rw h

scan-found :
    (f : ℕ) (buf : List ℕ) (i : ℕ)
    → leb (i + 3) (length buf) ≡ true
    → is_code buf i ≡ true
    → scan (suc f) buf i ≡ code_at buf i ∷ scan f buf (i + (code_at buf i).1)
unfolding scan
scan-found f buf i h c = rw h (rw c)

scan-next :
    (f : ℕ) (buf : List ℕ) (i : ℕ)
    → leb (i + 3) (length buf) ≡ true
    → is_code buf i ≡ false
    → scan (suc f) buf i ≡ scan f buf (i + 1)
unfolding scan
scan-next f buf i h c = rw h (rw c)

-- What is found is found again when more bytes follow.
pub scan-append :
    (f f' : ℕ) (buf more : List ℕ) (i : ℕ)
    → f ≤ f'
    → (others : List (ℕ × ℕ)) × (scan f' (buf ++ more) i ≡ scan f buf i ++ others)
scan-append zero f' buf more i h = (scan f' (buf ++ more) i, unfold scan in refl)
scan-append (suc f) zero buf more i h = absurd (omega arith)
scan-append (suc f) (suc f') buf more i h = elim (Bool-cases (leb (i + 3) (length buf))) [
  | inr past ↦ (
    scan (suc f') (buf ++ more) i,
    ap (λ l. l ++ scan (suc f') (buf ++ more) i) (sym (scan-end f buf i past)),
  )
  | inl within ↦
      let inside : i + 3 ≤ length buf = leb→le (i + 3) (length buf) within in
      let within' : leb (i + 3) (length (buf ++ more)) ≡ true =
        ground (arith, inside, length-append buf more) in
      elim (Bool-cases (is_code buf i)) [
        | inl code ↦
            let (others, e) = scan-append f f' buf more (i + (code_at buf i).1) (omega arith) in
            let same = code_at-append buf more i inside in
            (
              others,
              scan-found f' (buf ++ more) i within' (is_code-append buf more i inside ∙ code)
                  ∙ ap₂ ◌∷◌ same (ap (λ k. scan f' (buf ++ more) (i + k.1)) same ∙ e)
                  ∙ ap (λ l. l ++ others) (sym (scan-found f buf i within code)),
            )
        | inr none_here ↦
            let (others, e) = scan-append f f' buf more (i + 1) (omega arith) in
            (
              others,
              scan-next f' (buf ++ more) i within' (is_code-append buf more i inside ∙ none_here)
                  ∙ e
                  ∙ ap (λ l. l ++ others) (sym (scan-next f buf i within none_here)),
            )
      ]
]

pub start_code_positions-append :
    (buf more : List ℕ)
    → (others : List (ℕ × ℕ)) × (start_code_positions (buf ++ more)
        ≡ start_code_positions buf ++ others)
unfolding start_code_positions
start_code_positions-append buf more =
    scan-append (length buf) (length (buf ++ more)) buf more 0
      (omega (arith, length-append buf more))

-- The codes lie one behind the other, from a place on, within a length.
abbrev pub AreOrdered : ℕ → ℕ → List (ℕ × ℕ) → Type 0
AreOrdered low size [] = Unit {0}
AreOrdered low size ((start, len) ∷ rest) =
    (low ≤ start) × (3 ≤ len) × (start + len ≤ size) × AreOrdered (suc start) size rest

AreOrdered-weaken :
    (low low' size : ℕ) (cs : List (ℕ × ℕ))
    → low' ≤ low
    → AreOrdered low size cs
    → AreOrdered low' size cs
AreOrdered-weaken low low' size [] h o = tt
AreOrdered-weaken low low' size ((start, len) ∷ rest) h o = (omega (arith, o.0), o.1, o.2, o.3)

code_at-bounds :
    (buf : List ℕ) (i : ℕ)
    → i + 3 ≤ length buf
    → (i - 1 ≤ (code_at buf i).0)
      × (3 ≤ (code_at buf i).1)
      × ((code_at buf i).0 + (code_at buf i).1 ≤ length buf)
      × (suc (code_at buf i).0 ≤ i + (code_at buf i).1 - 1)
code_at-bounds buf i h = ground arith

pub scan-AreOrdered :
    (f : ℕ) (buf : List ℕ) (i : ℕ) → AreOrdered (i - 1) (length buf) (scan f buf i)
scan-AreOrdered zero buf i = unfold scan in tt
scan-AreOrdered (suc f) buf i = elim (Bool-cases (leb (i + 3) (length buf))) [
  | inr past ↦ subst (AreOrdered (i - 1) (length buf)) (sym (scan-end f buf i past)) tt
  | inl within ↦
      let inside : i + 3 ≤ length buf = leb→le (i + 3) (length buf) within in
      elim (Bool-cases (is_code buf i)) [
        | inl code ↦
            let bounds = code_at-bounds buf i inside in
            subst (AreOrdered (i - 1) (length buf)) (sym (scan-found f buf i within code)) (
              bounds.0,
              bounds.1,
              bounds.2,
              AreOrdered-weaken (i + (code_at buf i).1 - 1) (suc (code_at buf i).0) (length buf)
                  (scan f buf (i + (code_at buf i).1)) bounds.3
                  (scan-AreOrdered f buf (i + (code_at buf i).1)),
            )
        | inr none_here ↦
            subst (AreOrdered (i - 1) (length buf)) (sym (scan-next f buf i within none_here)) (
              AreOrdered-weaken (i + 1 - 1) (i - 1) (length buf) (scan f buf (i + 1)) (omega arith)
                (scan-AreOrdered f buf (i + 1)))
      ]
]

pub start_code_positions-AreOrdered :
    (buf : List ℕ) → AreOrdered 0 (length buf) (start_code_positions buf)
unfolding start_code_positions
start_code_positions-AreOrdered buf = scan-AreOrdered (length buf) buf 0
