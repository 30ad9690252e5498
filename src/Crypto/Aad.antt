-- ===== src/Crypto/Aad.antt =====
-- The associated data of a record in host/crates/emersia-daemon/src/crypto.rs: `Direction`,
-- `build_aad` and `parse_aad`.
use emersia.Base.{
  ℕ, ◌<◌, ◌^◌, Option, none, some, List, [], ◌∷◌, length, get_or, AreBytes, ◌==◌, if◌then◌else◌,
  Result, ok, ok_or, ensure, ◌>>=◌, ◌>>◌, ◌≡◌, arith,
}
use emersia.Base.Words.{be64, of_be64}
use emersia.Crypto.Primitives.{CryptoError, aead}

pub data Direction : Type 0 where
  host_to_device device_to_host : Direction

unfoldable pub byte : Direction → ℕ
byte host_to_device = 0
byte device_to_host = 1

unfoldable pub from_byte : ℕ → Option Direction
from_byte b = if b == 0 then some host_to_device else if b == 1 then some device_to_host else none

abbrev pub aad_len : ℕ
aad_len = 9

unfoldable pub build_aad : Direction → ℕ → List ℕ
unfolding byte
build_aad direction sequence = byte direction ∷ be64 sequence

-- The slice is read only where it has its 9 bytes.
unfoldable pub parse_aad : List ℕ → Result CryptoError (Direction × ℕ)
unfolding from_byte
parse_aad aad = do
  ensure (length aad == aad_len) aead
  direction ← ok_or (from_byte (get_or aad 0 0)) aead
  ok (
    direction,
    of_be64 (get_or aad 1 0) (get_or aad 2 0) (get_or aad 3 0) (get_or aad 4 0) (get_or aad 5 0)
        (get_or aad 6 0) (get_or aad 7 0) (get_or aad 8 0),
  )

-- The associated data of a 64-bit sequence number is parsed back.
pub parse_aad-build_aad :
    (d : Direction) (s : ℕ) → s < 2 ^ 64 → parse_aad (build_aad d s) ≡ ok (d, s)
unfolding parse_aad build_aad
parse_aad-build_aad host_to_device s h = ground arith
parse_aad-build_aad device_to_host s h = ground arith

-- What is parsed was built from the same direction and sequence number: no two byte strings mean
-- the same.
pub build_aad-parse_aad :
    (a : List ℕ) (d : Direction) (s : ℕ)
    → AreBytes a
    → parse_aad a ≡ ok (d, s)
    → (build_aad d s ≡ a) × (s < 2 ^ 64)
unfolding parse_aad build_aad
build_aad-parse_aad (t ∷ a ∷ b ∷ c ∷ d ∷ e ∷ f ∷ g ∷ h ∷ []) dir s bytes p = ground arith
build_aad-parse_aad _ dir s bytes p = ground arith
