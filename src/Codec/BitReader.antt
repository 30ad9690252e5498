-- ===== src/Codec/BitReader.antt =====
-- `BitReader`, `exp_golomb_first_mb` and `starts_new_picture` of codec.rs. The shift of `read_ue`
-- drops what leaves 32 bits, and its last subtraction wraps, as without overflow checks.
use emersia.Base.{
  ℕ, zero, suc, ◌+◌, ◌-◌, ◌*◌, ◌/◌, ◌%◌, ◌^◌, Bool, false, ◌&&◌, Option, none, some, List, length,
  get_or, ltb, leb, ◌==◌, if◌then◌else◌,
}
use emersia.Base.Words.{wrapping_sub}
use emersia.Codec.{Codec, h264, hevc, NalUnit, start_code_len, nal_header_len, slice_from?}

pub record BitReader : Type 0 where
  pub bytes : List ℕ
  pub byte : ℕ
  pub bit : ℕ

abbrev pub new_reader : List ℕ → BitReader
new_reader bytes = record { bytes = bytes; byte = 0; bit = 0 }

-- `self.bytes.get(i) == Some(&b)`
abbrev pub has_byte : List ℕ → ℕ → ℕ → Bool
has_byte bytes i b = ltb i (length bytes) && (get_or bytes i 0 == b)

-- What follows a byte whose bits are used up.
abbrev pub next_byte : List ℕ → ℕ → ℕ
next_byte bytes i =
    if has_byte bytes i 0 && (has_byte bytes (i + 1) 0 && has_byte bytes (i + 2) 3)
    then i + 3
    else i + 1

unfoldable pub read_bit : BitReader → Option (ℕ × BitReader)
read_bit r =
    if leb (length r.bytes) r.byte
    then none
    else some (
      get_or r.bytes r.byte 0 / 2 ^ (7 - r.bit) % 2,
      if (r.bit + 1) == 8
          then record r { byte = next_byte r.bytes r.byte; bit = 0 }
          else record r { bit = r.bit + 1 },
    )

-- The zero bits before a one, of which `rounds` more are read at most.
unfoldable pub count_leading : ℕ → ℕ → BitReader → Option (ℕ × BitReader)
count_leading zero leading r = none
count_leading (suc rounds) leading r = elim (read_bit r) [
  | none ↦ none
  | some (bit, r') ↦
      let more = count_leading rounds (leading + 1) r' in
      if bit == 0 then more else some (leading, r')
]

unfoldable pub read_value : ℕ → ℕ → BitReader → Option (ℕ × BitReader)
read_value zero value r = some (value, r)
read_value (suc n) value r = elim (read_bit r) [
  | none ↦ none
  | some (bit, r') ↦ read_value n (value * 2 % 2 ^ 32 + bit) r'
]

-- More than 32 leading zeros are malformed.
unfoldable pub read_ue : BitReader → Option (ℕ × BitReader)
read_ue r = elim (count_leading 33 0 r) [
  | none ↦ none
  | some (leading, r') ↦ if leading == 0 then some (0, r') else elim (read_value leading 1 r') [
    | none ↦ none
    | some (value, r'') ↦ some (wrapping_sub value 1, r'')
  ]
]

unfoldable pub exp_golomb_first_mb : List ℕ → Option ℕ
exp_golomb_first_mb slice = elim (read_ue (new_reader slice)) [
  | none ↦ none
  | some (value, r) ↦ some value
]

abbrev pub is_zero : Option ℕ → Bool
is_zero none = false
is_zero (some value) = value == 0

-- By the slice header, behind the start code and the header of the unit.
abbrev pub slice_starts : Codec → List ℕ → Bool
slice_starts h264 slice = is_zero (exp_golomb_first_mb slice)
slice_starts hevc slice = leb 128 (get_or slice 0 0)

unfoldable pub starts_new_picture : Codec → NalUnit → Bool
starts_new_picture codec n = elim (slice_from? n.annexb (start_code_len n + nal_header_len codec)) [
  | none ↦ false
  | some slice ↦ slice_starts codec slice
]
