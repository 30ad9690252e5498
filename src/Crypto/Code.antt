-- ===== src/Crypto/Code.antt =====
-- Pairing codes of host/crates/emersia-daemon/src/crypto.rs: `pairing_digit_from_byte`,
-- `random_pairing_digit`, `PairingCode` with `generate`, `parse` and its display form, and
-- `parse_public_key_hex`. A text is the list of its code points. The bytes that the random source
-- will give, one at each call, are a list; a call after its end fails.
pub mod Digits
pub mod RoundTrip
use emersia.Base.{
  ℕ, zero, suc, ◌+◌, ◌-◌, ◌%◌, ◌/◌, Bool, true, false, not, ◌&&◌, ◌||◌, Option, none, some, List,
  [], ◌∷◌, ◌++◌, map, length, take, drop, ltb, leb, ◌==◌, if◌then◌else◌, Result, ok, err, ok_or,
  ensure, ◌>>=◌, ◌>>◌,
}
use emersia.Crypto.Primitives.{Primitives, CryptoError, random, hex}

abbrev pub pairing_code_digits : ℕ
pairing_code_digits = 6

unfoldable pub pairing_digit_from_byte : ℕ → Option ℕ
pairing_digit_from_byte b = if ltb b 250 then some (b % 10) else none

-- The digit, and the bytes that are left.
unfoldable pub random_pairing_digit : List ℕ → Result CryptoError (ℕ × List ℕ)
random_pairing_digit [] = err (random "pairing code")
random_pairing_digit (b ∷ bs) = elim (pairing_digit_from_byte b) [
  | some digit ↦ ok (digit, bs)
  | none ↦ random_pairing_digit bs
]

unfoldable pub generate_digits : ℕ → List ℕ → List ℕ → Result CryptoError (List ℕ)
generate_digits zero code bytes = ok code
generate_digits (suc rounds) code bytes = random_pairing_digit bytes >>= λ found.
    generate_digits rounds (code ++ ((b'0' + found.0) ∷ [])) found.1

unfoldable pub generate : List ℕ → Result CryptoError (List ℕ)
unfolding generate_digits
generate bytes = generate_digits pairing_code_digits [] bytes

abbrev pub is_ascii_digit : ℕ → Bool
is_ascii_digit c = leb b'0' c && leb c b'9'

abbrev pub is_ascii_alphanumeric : ℕ → Bool
is_ascii_alphanumeric c =
    is_ascii_digit c || ((leb b'A' c && leb c b'Z') || (leb b'a' c && leb c b'z'))

abbrev pub to_ascii_uppercase : ℕ → ℕ
to_ascii_uppercase c = if leb b'a' c && leb c b'z' then c - 32 else c

-- `chars().filter(..).map(..).collect()`
unfoldable pub clean : List ℕ → List ℕ
clean [] = []
clean (c ∷ cs) = if is_ascii_alphanumeric c then to_ascii_uppercase c ∷ clean cs else clean cs

abbrev pub all_digits : List ℕ → Bool
all_digits [] = true
all_digits (c ∷ cs) = is_ascii_digit c && all_digits cs

unfoldable pub parse : List ℕ → Result CryptoError (List ℕ)
parse input =
    let cleaned = clean input in
    if not (length cleaned == pairing_code_digits) || not (all_digits cleaned)
    then err hex
    else ok cleaned

-- The form `XXX-XXX` in which a code is shown.
unfoldable pub display : List ℕ → List ℕ
display code = take (pairing_code_digits / 2) code ++ (b'-' ∷ drop (pairing_code_digits / 2) code)

-- A public key is 32 bytes in hex.
unfoldable pub parse_public_key_hex : Primitives → List ℕ → Result CryptoError (List ℕ)
parse_public_key_hex p hex_str = do
  bytes ← ok_or (p.hex_decode hex_str) hex
  ensure (length bytes == 32) hex
  ok bytes
