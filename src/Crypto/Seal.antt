-- ===== src/Crypto/Seal.antt =====
-- `seal` and `open` of host/crates/emersia-daemon/src/crypto.rs. The random bytes that
-- `random_bytes` gets from the system are an argument, `none` where the system has none.
pub mod RoundTrip
use emersia.Base.{
  ℕ, ◌+◌, ◌<◌, ◌^◌, Bool, true, false, not, Option, none, some, List, [], ◌∷◌, ◌++◌, length, take,
  drop, ltb, Result, ok, err, ok_or, ensure, ◌>>=◌, ◌>>◌, ◌≡◌,
}
use emersia.Crypto.Primitives.{Primitives, CryptoError, random, key_length, aead}
use emersia.Crypto.Aad.{Direction, build_aad}
use emersia.Crypto.Session.{Session, keys_for}

abbrev pub nonce_len : ℕ
nonce_len = 12

module _ (p : Primitives) where
  unfoldable pub seal :
      Option (List ℕ) → Session → Direction → ℕ → List ℕ → Result CryptoError (List ℕ)
  seal entropy session direction sequence plaintext = do
    let key = (keys_for session direction).key
    ensure (p.key_fits key) key_length
    nonce ← ok_or entropy (random "record nonce")
    ensure (p.nonce_fits nonce) key_length
    ciphertext ← ok_or (p.encrypt key nonce (build_aad direction sequence) plaintext) aead
    ok (nonce ++ ciphertext)

  -- The source's `open`.
  unfoldable pub open_sealed : Session → Direction → ℕ → List ℕ → Result CryptoError (List ℕ)
  open_sealed session direction sequence sealed = do
    ensure (not (ltb (length sealed) nonce_len)) aead
    let nonce = take nonce_len sealed
    let ciphertext = drop nonce_len sealed
    let key = (keys_for session direction).key
    ensure (p.key_fits key) key_length
    ensure (p.nonce_fits nonce) key_length
    ok_or (p.decrypt key nonce (build_aad direction sequence) ciphertext) aead
