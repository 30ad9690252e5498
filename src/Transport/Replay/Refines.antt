-- ===== src/Transport/Replay/Refines.antt =====
-- The window of transport/mod.rs answers as the history that it stands for.
use emersia.Base.{
  ℕ, ◌+◌, ◌-◌, ◌%◌, ◌^◌, ◌<◌, ◌≤◌, bit_or, true, false, leb, if◌then◌else◌, none, some, List, [],
  elem, ◌∷◌, ◌≡◌, refl, subst, ◌∙◌, Bool-cases, inl, inr, arith,
}
use emersia.Base.Bits.{bit}
use emersia.Base.Words.{wrapping_sub, shl64}
use emersia.Transport.Replay.{ReplayWindow, width, check_from, check, commit_from, commit}
use emersia.Transport.Replay.Bitmap.{bit-one, bit_clear, bit-mark, bit-advance}
use emersia.Transport.Replay.Ideal.{
  newest, is_within, is_fresh, accept, elem-le-newest, elem-newest,
}
use native.Mathlib.Decide.{dec_lt}

-- A number and the newest accepted one are less than half the number space apart.
abbrev pub IsNear : ℕ → ℕ → Type 0
IsNear top n = (n < top + 2 ^ 31) × (top < n + 2 ^ 31)

-- Bit `k` of the bitmap says whether the number `k` behind `top` was accepted.
abbrev pub Marks : ℕ → ℕ → List ℕ → Type 0
Marks top bitmap hs =
    (k : ℕ) → k < width → k ≤ top → bit k bitmap ≡ (if elem (top - k) hs then 1 else 0)

abbrev pub Stands : ℕ → ReplayWindow → List ℕ → Type 0
Stands top w hs = (w.highest ≡ some (top % 2 ^ 32)) × Marks top w.bitmap hs

abbrev pub Represents : ReplayWindow → List ℕ → Type 0
Represents w [] = w.highest ≡ none
Represents w (h ∷ hs) = Stands (newest (h ∷ hs)) w (h ∷ hs)

-- The two distances of a number near the newest one.
forward_newer :
    (top n : ℕ) → top < n → n < top + 2 ^ 31 → wrapping_sub (n % 2 ^ 32) (top % 2 ^ 32) ≡ n - top
unfolding wrapping_sub
forward_newer top n lo hi = omega arith

forward_older :
    (top n : ℕ)
    → n < top
    → top < n + 2 ^ 31
    → wrapping_sub (n % 2 ^ 32) (top % 2 ^ 32) ≡ 2 ^ 32 - (top - n)
unfolding wrapping_sub
forward_older top n lo hi = omega arith

behind_older :
    (top n : ℕ) → n < top → top < n + 2 ^ 31 → wrapping_sub (top % 2 ^ 32) (n % 2 ^ 32) ≡ top - n
unfolding wrapping_sub
behind_older top n lo hi = omega arith

forward_same : (n : ℕ) → wrapping_sub (n % 2 ^ 32) (n % 2 ^ 32) ≡ 0
unfolding wrapping_sub
forward_same n = omega arith

module _ (b : ℕ) (hs : List ℕ) (n : ℕ) (marks : Marks (newest hs) b hs)
    (near : IsNear (newest hs) n) where
  -- The bit of an older number within the window.
  older_bit :
      n < newest hs → newest hs < n + width → bit (newest hs - n) b ≡ (if elem n hs then 1 else 0)
  older_bit lo hi =
      let same : newest hs - (newest hs - n) ≡ n = omega arith in
      rw same at (marks (newest hs - n) (omega arith) (omega arith))

  -- On what a bitmap marks, the test answers as the history.
  check_from-is_within :
      elem (newest hs) hs ≡ true → check_from (newest hs % 2 ^ 32) b (n % 2 ^ 32) ≡ is_within hs n
  unfolding check_from is_within
  check_from-is_within top = elim (dec_lt (newest hs) n) [
    | yes p ↦ rw (forward_newer (newest hs) n p (omega arith)) (ground arith)
    | no p ↦ elim (dec_lt n (newest hs)) [
      | yes q ↦
          rw
            (
              forward_older (newest hs) n q (omega arith),
              behind_older (newest hs) n q (omega arith),
            )
            (ground (arith, bit_clear b (newest hs - n), older_bit q))
      | no q ↦ let same : n ≡ newest hs = omega arith in rw (same, forward_same) (ground arith)
    ]
  ]

  -- So `commit` marks the history with the number added.
  commit_from-Marks-newer :
      newest hs < n
      → Marks n
          (if leb width (n - newest hs) then 1 else bit_or (shl64 b (n - newest hs)) 1)
          (n ∷ hs)
  commit_from-Marks-newer lo k hk hl = elim (Bool-cases (leb width (n - newest hs))) [
    | inl far ↦ rw far (ground (arith, bit-one k, elem-le-newest hs (n - k)))
    | inr close ↦
        rw (close, bit-advance b k (n - newest hs) hk)
          (elim (dec_lt k (n - newest hs)) [
            | yes p ↦ ground (arith, elem-le-newest hs (n - k))
            | no p ↦
                let old = marks (k - (n - newest hs)) (omega arith) (omega arith) in
                let same : newest hs - (k - (n - newest hs)) ≡ n - k = omega arith in
                ground (arith, rw same at old)
          ])
  ]

  commit_from-Marks-older :
      n < newest hs
      → newest hs < n + width
      → Marks (newest hs) (bit_or b (shl64 1 (newest hs - n))) (n ∷ hs)
  commit_from-Marks-older lo hi k hk hl =
      rw (bit-mark b k (newest hs - n) hk (omega arith)) (ground (arith, marks k hk (omega arith)))

Represents-Stands :
    (top : ℕ) (w : ReplayWindow) (h : ℕ) (hs : List ℕ)
    → top ≡ newest (h ∷ hs)
    → Stands top w (h ∷ hs)
    → Represents w (h ∷ hs)
Represents-Stands top w h hs e s = subst (λ t. Stands t w (h ∷ hs)) e s

-- What a new number may be: any, at first, and then one near the newest accepted.
abbrev pub Follows : List ℕ → ℕ → Type 0
Follows [] n = Unit {0}
Follows (h ∷ hs) n = IsNear (newest (h ∷ hs)) n

check-some :
    (w : ReplayWindow) (s : ℕ) {t : ℕ} → w.highest ≡ some t → check w s ≡ check_from t w.bitmap s
unfolding check
check-some w s e = rw e

check-none : (w : ReplayWindow) (s : ℕ) → w.highest ≡ none → check w s ≡ true
unfolding check
check-none w s e = rw e

-- On what a window represents, `check` answers as the history, if the number is near the newest.
pub check-is_fresh :
    (w : ReplayWindow) (hs : List ℕ) (n : ℕ)
    → Represents w hs
    → Follows hs n
    → check w (n % 2 ^ 32) ≡ is_fresh hs n
unfolding is_fresh
check-is_fresh w [] n r f = check-none w (n % 2 ^ 32) r
check-is_fresh w (h ∷ hs) n r f =
    check-some w (n % 2 ^ 32) r.0
    ∙ check_from-is_within w.bitmap (h ∷ hs) n r.1 f (elem-newest h hs)

commit-first :
    (w : ReplayWindow) (s : ℕ)
    → w.highest ≡ none
    → commit w s ≡ (true, record { highest = some s; bitmap = 1 })
unfolding commit
commit-first w s e = rw (check-none w s e, e)

commit-refused : (w : ReplayWindow) (s : ℕ) → check w s ≡ false → commit w s ≡ (false, w)
unfolding commit
commit-refused w s e = rw e

commit-passed :
    (w : ReplayWindow) (s : ℕ) {t : ℕ}
    → w.highest ≡ some t
    → check w s ≡ true
    → commit w s ≡ (true, commit_from t w.bitmap s)
unfolding commit
commit-passed w s e c = rw (c, e)

module _ (b h : ℕ) (hs : List ℕ) (n : ℕ) where
  abbrev newer_bitmap : ℕ
  newer_bitmap =
      if leb width (n - newest (h ∷ hs)) then 1 else bit_or (shl64 b (n - newest (h ∷ hs))) 1

  abbrev older_bitmap : ℕ
  older_bitmap = bit_or b (shl64 1 (newest (h ∷ hs) - n))

  commit_from-newer :
      newest (h ∷ hs) < n
      → IsNear (newest (h ∷ hs)) n
      → commit_from (newest (h ∷ hs) % 2 ^ 32) b (n % 2 ^ 32)
        ≡ record { highest = some (n % 2 ^ 32); bitmap = newer_bitmap }
  unfolding commit_from
  commit_from-newer lo near = rw (forward_newer (newest (h ∷ hs)) n lo (omega arith)) (ground arith)

  commit_from-older :
      n < newest (h ∷ hs)
      → IsNear (newest (h ∷ hs)) n
      → commit_from (newest (h ∷ hs) % 2 ^ 32) b (n % 2 ^ 32)
        ≡ record { highest = some (newest (h ∷ hs) % 2 ^ 32); bitmap = older_bitmap }
  unfolding commit_from
  commit_from-older hi near =
      rw
        (
          forward_older (newest (h ∷ hs)) n hi (omega arith),
          behind_older (newest (h ∷ hs)) n hi (omega arith),
        )
        (ground arith)

  commit_from-Represents :
      Marks (newest (h ∷ hs)) b (h ∷ hs)
      → IsNear (newest (h ∷ hs)) n
      → is_within (h ∷ hs) n ≡ true
      → Represents (commit_from (newest (h ∷ hs) % 2 ^ 32) b (n % 2 ^ 32)) (n ∷ h ∷ hs)
  unfolding is_within
  commit_from-Represents m near e = elim (dec_lt (newest (h ∷ hs)) n) [
    | yes p ↦ rw (commit_from-newer p near) (
        Represents-Stands n (record { highest = some (n % 2 ^ 32); bitmap = newer_bitmap }) n
          (h ∷ hs) (omega arith) (refl, commit_from-Marks-newer b (h ∷ hs) n m near p))
    | no p ↦
        let below : n < newest (h ∷ hs) = ground (arith, elem-newest h hs) in
        rw (commit_from-older below near) (
          Represents-Stands (newest (h ∷ hs))
            (record { highest = some (newest (h ∷ hs) % 2 ^ 32); bitmap = older_bitmap }) n (h ∷ hs)
            (omega arith) (refl, commit_from-Marks-older b (h ∷ hs) n m near below (ground arith)))
  ]

first-Represents :
    (n : ℕ) → Represents (record { highest = some (n % 2 ^ 32); bitmap = 1 }) (n ∷ [])
first-Represents n =
    Represents-Stands n (record { highest = some (n % 2 ^ 32); bitmap = 1 }) n [] (omega arith)
      (refl, λ k hk hl. ground (arith, bit-one k))

-- One number near the newest: `commit` answers as the history, and stands for it afterwards.
pub commit_refines :
    (w : ReplayWindow) (hs : List ℕ) (n : ℕ)
    → Represents w hs
    → Follows hs n
    → ((commit w (n % 2 ^ 32)).0 ≡ (accept hs n).0)
      × Represents (commit w (n % 2 ^ 32)).1 (accept hs n).1
unfolding accept is_fresh
commit_refines w [] n r f = rw (commit-first w (n % 2 ^ 32) r) (refl, first-Represents n)
commit_refines w (h ∷ hs) n r f = elim (Bool-cases (is_within (h ∷ hs) n)) [
  | inl fresh ↦
      rw (fresh, commit-passed w (n % 2 ^ 32) r.0 (answer ∙ fresh))
        (refl, commit_from-Represents w.bitmap h hs n r.1 f fresh)
  | inr stale ↦ rw (stale, commit-refused w (n % 2 ^ 32) (answer ∙ stale)) (refl, r)
]
  where
    answer : check w (n % 2 ^ 32) ≡ is_within (h ∷ hs) n
    answer = check-is_fresh w (h ∷ hs) n r f
