-- ===== src/Crypto/Primitives.antt =====
-- The cryptographic libraries that host/crates/emersia-daemon/src/crypto.rs calls, as parameters:
-- sha2, hkdf, chacha20poly1305, x25519_dalek and hex. Byte strings are lists of numbers. Also
-- `CryptoError`.
use Prim.Native.String.{String}
use emersia.Base.{ℕ, ◌≤◌, ◌<◌, ◌^◌, Bool, true, Option, some, List, length, ◌≡◌, ◌↔◌}

pub data CryptoError : Type 0 where
  random : String → CryptoError
  hex : CryptoError
  io : String → CryptoError
  insecure_permissions : String → ℕ → CryptoError
  bad_key key_length aead : CryptoError

pub record Primitives : Type 0 where
  -- the digest of SHA-256
  pub sha256 : List ℕ → List ℕ
  -- HKDF-SHA256 of a salt, input key material and an info string, to a number of bytes
  pub hkdf : List ℕ → List ℕ → List ℕ → ℕ → Option (List ℕ)
  -- whether `ChaCha20Poly1305::new_from_slice` and `Nonce::try_from` accept the bytes
  pub key_fits : List ℕ → Bool
  pub nonce_fits : List ℕ → Bool
  -- `encrypt` and `decrypt` under a key, a nonce and associated data
  pub encrypt : List ℕ → List ℕ → List ℕ → List ℕ → Option (List ℕ)
  pub decrypt : List ℕ → List ℕ → List ℕ → List ℕ → Option (List ℕ)
  -- the public key of a secret, and the shared secret of a secret and a public key
  pub public_key : List ℕ → List ℕ
  pub diffie_hellman : List ℕ → List ℕ → List ℕ
  -- `hex::decode` of the bytes of a text
  pub hex_decode : List ℕ → Option (List ℕ)

-- What these libraries document, as far as the daemon relies on it.
pub record IsLawful (p : Primitives) : Type 0 where
  pub key_fits_iff : (k : List ℕ) → (p.key_fits k ≡ true) ↔ (length k ≡ 32)
  pub nonce_fits_iff : (n : List ℕ) → (p.nonce_fits n ≡ true) ↔ (length n ≡ 12)
  -- HKDF yields up to 255 blocks of 32 bytes.
  pub hkdf_total :
      (salt ikm info : List ℕ) (n : ℕ)
      → n ≤ 8160
      → (out : List ℕ) × (p.hkdf salt ikm info n ≡ some out) × (length out ≡ n)
  -- A message within ChaCha20's limit is encrypted, and decrypted under the same key, nonce and data.
  pub encrypt_total :
      (k n a m : List ℕ)
      → length k ≡ 32
      → length n ≡ 12
      → length m < 2 ^ 32
      → (c : List ℕ) × (p.encrypt k n a m ≡ some c)
  pub decrypt-encrypt :
      (k n a m c : List ℕ)
      → length k ≡ 32
      → length n ≡ 12
      → p.encrypt k n a m ≡ some c
      → p.decrypt k n a c ≡ some m
  pub length-sha256 : (m : List ℕ) → length (p.sha256 m) ≡ 32
  pub length-public_key : (s : List ℕ) → length (p.public_key s) ≡ 32
  -- Both ends of an exchange agree.
  pub diffie_hellman_comm :
      (a b : List ℕ) → p.diffie_hellman a (p.public_key b) ≡ p.diffie_hellman b (p.public_key a)
