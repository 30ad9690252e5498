-- ===== src/Crypto/Session.antt =====
-- Keys in host/crates/emersia-daemon/src/crypto.rs: `SessionKeys`, `Session`, `expand`,
-- `from_key_material`, `derive_with_salt`, `keys_for`, `transcript` and `DeviceIdentity::agree`.
-- An identity is its secret scalar.
pub mod Keys
pub mod Transcript
use emersia.Base.{
  ℕ, ◌+◌, Bool, true, false, ◌&&◌, Option, none, some, List, [], ◌∷◌, ◌++◌, length, replicate, ◌==◌,
  if◌then◌else◌, Result, ok, err, ok_or, ◌>>=◌, ◌>>◌, ◌≡◌,
}
use emersia.Base.Words.{be64}
use emersia.Base.Text.{codes}
use emersia.Crypto.Primitives.{Primitives, CryptoError, key_length}
use emersia.Crypto.Aad.{Direction, host_to_device, device_to_host}

pub record SessionKeys : Type 0 where
  pub key : List ℕ

pub record Session : Type 0 where
  pub host_to_device_keys : SessionKeys
  pub device_to_host_keys : SessionKeys
  pub salt : List ℕ

unfoldable pub keys_for : Session → Direction → SessionKeys
keys_for s host_to_device = s.host_to_device_keys
keys_for s device_to_host = s.device_to_host_keys

abbrev pub salt_len : ℕ
salt_len = 16

-- `iter().all(|b| *b == 0)`
abbrev pub all_zero : List ℕ → Bool
all_zero [] = true
all_zero (b ∷ bs) = (b == 0) && all_zero bs

-- What the hasher is fed: each part behind its length.
unfoldable pub transcript_input : List (List ℕ) → List ℕ
transcript_input [] = []
transcript_input (part ∷ rest) = be64 (length part) ++ (part ++ transcript_input rest)

module _ (p : Primitives) where
  -- An all-zero shared secret is a failed exchange.
  unfoldable pub agree : List ℕ → List ℕ → Option (List ℕ)
  agree secret their_public =
      let shared = p.diffie_hellman secret their_public in
      if all_zero shared then none else some shared

  unfoldable pub expand : List ℕ → List ℕ → List ℕ → List ℕ → Result CryptoError (List ℕ)
  expand ikm salt context label = ok_or (p.hkdf salt ikm (context ++ (0 ∷ label)) 32) key_length

  unfoldable pub from_key_material : List ℕ → List ℕ → List ℕ → Result CryptoError Session
  unfolding expand
  from_key_material ikm salt context = do
    h2d ← expand ikm salt context (codes "emersia/stream-key-v1")
    d2h ← expand ikm salt context (codes "emersia/input-key-v1")
    ok (record {
      host_to_device_keys = record { key = h2d };
      device_to_host_keys = record { key = d2h };
      salt = replicate salt_len 0;
    })

  unfoldable pub derive_with_salt : List ℕ → List ℕ → List ℕ → Result CryptoError Session
  unfolding expand
  derive_with_salt shared salt context = do
    h2d ← expand shared salt context (codes "emersia/stream-key-v1")
    d2h ← expand shared salt context (codes "emersia/input-key-v1")
    ok (record {
      host_to_device_keys = record { key = h2d };
      device_to_host_keys = record { key = d2h };
      salt = salt;
    })

  unfoldable pub transcript : List (List ℕ) → List ℕ
  transcript parts = p.sha256 (transcript_input parts)
