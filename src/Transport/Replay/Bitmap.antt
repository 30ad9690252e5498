-- ===== src/Transport/Replay/Bitmap.antt =====
-- What the word operations of `check` and `commit` in transport/mod.rs do to single bits.
use native.Mathlib.Nat.{pow-le-pow_right, pow-suc, one-le-pow, mod-eq_of_lt}
use emersia.Base.{
  ℕ, zero, suc, ◌-◌, ◌*◌, ◌^◌, ◌<◌, max, bit_and, bit_or, ltb, ◌==◌, if◌then◌else◌, ◌≡◌, refl, ◌∙◌,
  arith,
}
use emersia.Base.Bits.{bit, bit-le-one, bit-or, bit-shift, bit-mod, bit_and-pow, bit-one_suc}
use emersia.Base.Words.{shl64}

pow-lt-u64 : (k : ℕ) → k < 64 → 2 ^ k < 2 ^ 64
pow-lt-u64 k h = omega (
  arith,
  pow-le-pow_right {n = 2} (omega arith) {i = suc k} {j = 64} h,
  pow-suc 2 k,
  one-le-pow k 2,
)

-- `1 << k`
shl64-one : (k : ℕ) → k < 64 → shl64 1 k ≡ 2 ^ k
unfolding shl64
shl64-one k h = omega (arith, mod-eq_of_lt (pow-lt-u64 k h))

pub bit-one : (k : ℕ) → bit k 1 ≡ (if k == 0 then 1 else 0)
bit-one zero = refl
bit-one (suc k) = bit-one_suc k ∙ ground arith

-- The test of a bit of the bitmap.
pub bit_clear : (b k : ℕ) → k < 64 → (bit_and b (shl64 1 k) == 0) ≡ (bit k b == 0)
bit_clear b k h =
    rw (shl64-one k h, bit_and-pow k b) (grind (arith, one-le-pow k 2, bit-le-one k b))

-- Setting bit `j`.
pub bit-mark :
    (b k j : ℕ)
    → k < 64
    → j < 64
    → bit k (bit_or b (shl64 1 j)) ≡ max (bit k b) (if k == j then 1 else 0)
unfolding shl64
bit-mark b k j hk hj =
    ground
      (arith, bit-or k b (shl64 1 j), bit-mod k 64 (1 * 2 ^ j) hk, bit-shift k j 1, bit-one (k - j))

-- Moving the window up by `s` and setting bit 0.
pub bit-advance :
    (b k s : ℕ)
    → k < 64
    → bit k (bit_or (shl64 b s) 1)
      ≡ max (if ltb k s then 0 else bit (k - s) b) (if k == 0 then 1 else 0)
unfolding shl64
bit-advance b k s hk =
    ground (arith, bit-or k (shl64 b s) 1, bit-mod k 64 (b * 2 ^ s) hk, bit-shift k s b, bit-one k)
