-- ===== src/Base/Bits.antt =====
-- Single bits of a word, and what `&`, `|` and `<<` do to them.
use Prim.Native.Nat.{
  ℕ, zero, suc, ◌+◌, ◌-◌, ◌*◌, ◌/◌, ◌%◌, ◌^◌, ◌≤◌, ◌<◌, min, max, bit_and, bit_or, digits,
  bit_and-bitwise, bit_or-bitwise,
}
use mathlib.Core.Path.{◌≡◌, refl, ap}
use native.Mathlib.Nat.{pow-suc, div-mul-le_self, mod-eq-sub-div-mul, div-div-eq-div-mul}
use native.Mathlib.Omega.{arith}
use emersia.Base.Tests.{if◌then◌else◌, ltb}

-- The bit of weight `2 ^ k`.
abbrev pub bit : ℕ → ℕ → ℕ
bit zero b = b % 2
bit (suc k) b = bit k (b / 2)

-- `&` and `|` stand for a recursion on binary digits with fuel; any fuel of at least the first
-- operand gives the same digits.
any_fuel :
    (z : ℕ → ℕ) (op : ℕ → ℕ → ℕ) (x y : ℕ) {k l : ℕ}
    → x ≤ k
    → x ≤ l
    → digits z op k x y ≡ digits z op l x y
any_fuel z op zero y {k = zero} {l = zero} hk hl = refl
any_fuel z op zero y {k = zero} {l = suc l} hk hl = refl
any_fuel z op zero y {k = suc k} {l = zero} hk hl = refl
any_fuel z op zero y {k = suc k} {l = suc l} hk hl = refl
any_fuel z op (suc x) y {k = zero} hk hl = absurd (omega arith)
any_fuel z op (suc x) y {k = suc k} {l = zero} hk hl = absurd (omega arith)
any_fuel z op (suc x) y {k = suc k} {l = suc l} hk hl =
    ap (λ (t : ℕ). t * 2 + op (suc x % 2) (y % 2))
      (any_fuel z op (suc x / 2) (y / 2) {k = k} {l = l} (omega arith) (omega arith))

-- The lowest digit of a disjunction and of a conjunction, and the digits above it.
bit_or_digit : (x y : ℕ) → bit_or x y ≡ bit_or (x / 2) (y / 2) * 2 + max (x % 2) (y % 2)
bit_or_digit zero y = omega (arith, bit_or-bitwise 0 y, bit_or-bitwise 0 (y / 2))
bit_or_digit (suc x) y = omega (
  arith,
  bit_or-bitwise (suc x) y,
  bit_or-bitwise (suc x / 2) (y / 2),
  any_fuel (λ c. c) max (suc x / 2) (y / 2) {k = x} {l = suc x / 2} (omega arith) (omega arith),
)

bit_and_digit : (x y : ℕ) → bit_and x y ≡ bit_and (x / 2) (y / 2) * 2 + min (x % 2) (y % 2)
bit_and_digit zero y = omega (arith, bit_and-bitwise 0 y, bit_and-bitwise 0 (y / 2))
bit_and_digit (suc x) y = omega (
  arith,
  bit_and-bitwise (suc x) y,
  bit_and-bitwise (suc x / 2) (y / 2),
  any_fuel (λ c. 0) min (suc x / 2) (y / 2) {k = x} {l = suc x / 2} (omega arith) (omega arith),
)

bit_and-zero_below : (n x : ℕ) → x ≤ n → bit_and x 0 ≡ 0
bit_and-zero_below zero x h =
    omega (arith, bit_and_digit x 0, bit_and-bitwise 0 0, ap (λ (t : ℕ). bit_and (t / 2) 0) zero_x)
  where
    zero_x : x ≡ 0
    zero_x = omega arith
bit_and-zero_below (suc n) x h =
    omega (arith, bit_and_digit x 0, bit_and-zero_below n (x / 2) (omega arith))

bit_and-zero : (x : ℕ) → bit_and x 0 ≡ 0
bit_and-zero x = bit_and-zero_below x x (omega arith)

pub bit-le-one : (k x : ℕ) → bit k x ≤ 1
bit-le-one zero x = omega arith
bit-le-one (suc k) x = bit-le-one k (x / 2)

pub bit-zero : (k : ℕ) → bit k 0 ≡ 0
bit-zero zero = refl
bit-zero (suc k) = bit-zero k

pub bit-one_suc : (k : ℕ) → bit (suc k) 1 ≡ 0
bit-one_suc k = bit-zero k

pub bit-or : (k x y : ℕ) → bit k (bit_or x y) ≡ max (bit k x) (bit k y)
bit-or zero x y = omega (arith, bit_or_digit x y)
bit-or (suc k) x y =
    let half : bit_or x y / 2 ≡ bit_or (x / 2) (y / 2) = omega (arith, bit_or_digit x y) in
    rw half (bit-or k (x / 2) (y / 2))

-- `x & (1 << k)` keeps the bit of weight `2 ^ k` alone.
pub bit_and-pow : (k x : ℕ) → bit_and x (2 ^ k) ≡ bit k x * 2 ^ k
bit_and-pow zero x = omega (arith, bit_and_digit x 1, bit_and-zero (x / 2))
bit_and-pow (suc k) x = omega (
  arith,
  bit_and_digit x (2 ^ suc k),
  pow-suc 2 k,
  ap (bit_and (x / 2)) half,
  bit_and-pow k (x / 2),
  ap (λ (t : ℕ). bit k (x / 2) * t) (pow-suc 2 k),
)
  where
    half : 2 ^ suc k / 2 ≡ 2 ^ k
    half = omega (arith, pow-suc 2 k)

-- A shift to the left moves each bit up, and clears the low ones.
pub bit-shift : (k s x : ℕ) → bit k (x * 2 ^ s) ≡ (if ltb k s then 0 else bit (k - s) x)
bit-shift k zero x = let same : x * 1 ≡ x = omega arith in rw same (ground arith)
bit-shift zero (suc s) x = ground (arith, product)
  where
    product : x * 2 ^ suc s % 2 ≡ 0
    product = omega (arith, ap (λ (t : ℕ). x * t) (pow-suc 2 s))
bit-shift (suc k) (suc s) x = rw half (ground (arith, bit-shift k s x))
  where
    half : x * 2 ^ suc s / 2 ≡ x * 2 ^ s
    half = omega (arith, ap (λ (t : ℕ). x * t) (pow-suc 2 s))

half-mod_double : (p x : ℕ) → x % (2 * p) / 2 ≡ x / 2 % p
half-mod_double p x = omega (
  arith,
  mod-eq-sub-div-mul x (2 * p),
  mod-eq-sub-div-mul (x / 2) p,
  ap (λ (t : ℕ). t * p) (div-div-eq-div-mul x 2 p),
)

parity-mod_double : (p x : ℕ) → x % (2 * p) % 2 ≡ x % 2
parity-mod_double p x = omega (arith, mod-eq-sub-div-mul x (2 * p), div-mul-le_self x (2 * p))

two-pow : (w : ℕ) → 2 ^ suc w ≡ 2 * 2 ^ w
two-pow w = omega (arith, pow-suc 2 w)

-- A truncation to `w` bits keeps the bits below `w`.
pub bit-mod : (k w x : ℕ) → k < w → bit k (x % 2 ^ w) ≡ bit k x
bit-mod k zero x h = absurd (omega arith)
bit-mod zero (suc w) x h = rw two-pow (parity-mod_double (2 ^ w) x)
bit-mod (suc k) (suc w) x h = rw (two-pow, half-mod_double) (bit-mod k w (x / 2) (omega arith))
