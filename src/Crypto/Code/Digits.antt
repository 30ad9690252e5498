-- ===== src/Crypto/Code/Digits.antt =====
-- The digits of a pairing code in crypto.rs are drawn evenly.
use emersia.Base.{
  ℕ, zero, suc, ◌<◌, Bool, true, false, Option, none, some, ◌==◌, if◌then◌else◌, ◌&&◌, ◌≡◌, refl,
  arith,
}
use emersia.Crypto.Code.{pairing_digit_from_byte}

abbrev pub gives : Option ℕ → ℕ → Bool
gives none d = false
gives (some e) d = e == d

-- How many of the bytes below `n` give the digit `d`.
unfoldable pub count_bytes : ℕ → ℕ → ℕ
count_bytes zero d = 0
count_bytes (suc n) d =
    let rest = count_bytes n d in if gives (pairing_digit_from_byte n) d then suc rest else rest

even_below : ℕ → Bool
even_below zero = true
even_below (suc d) = (count_bytes 256 d == 25) && even_below d

even_below_sound : (n d : ℕ) → even_below n ≡ true → d < n → count_bytes 256 d ≡ 25
unfolding even_below
even_below_sound zero d e h = absurd (omega arith)
even_below_sound (suc n) d e h = ground (arith, even_below_sound n d)

even_table : even_below 10 ≡ true
unfolding even_below count_bytes pairing_digit_from_byte
even_table = refl

-- Each of the ten digits is given by 25 of the 256 bytes.
pub count_bytes_even : (d : ℕ) → d < 10 → count_bytes 256 d ≡ 25
count_bytes_even d h = even_below_sound 10 d even_table h
