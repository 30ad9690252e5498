-- ===== src/Crypto/Seal/RoundTrip.antt =====
-- Records of crypto.rs sealed and opened again.
use emersia.Base.{
  ℕ, ◌<◌, ◌^◌, true, false, some, List, ◌++◌, length, length-append, take-append, drop-append, ltb,
  ok, ◌≡◌, sym, arith,
}
use emersia.Crypto.Primitives.{Primitives, IsLawful}
use emersia.Crypto.Aad.{Direction, build_aad}
use emersia.Crypto.Session.{Session, keys_for}
use emersia.Crypto.Session.Keys.{HasKeys, length-keys_for}
use emersia.Crypto.Seal.{seal, open_sealed, nonce_len}

module _ (p : Primitives) (lawful : IsLawful p) (s : Session) (keys : HasKeys s) (nonce : List ℕ)
    (random_12 : length nonce ≡ 12) where
  key_fits : (d : Direction) → p.key_fits (keys_for s d).key ≡ true
  key_fits d = (lawful.key_fits_iff (keys_for s d).key).1 (length-keys_for s d keys)

  nonce_fits : p.nonce_fits nonce ≡ true
  nonce_fits = (lawful.nonce_fits_iff nonce).1 random_12

  seal_lem :
      (d : Direction) (sequence : ℕ) (m : List ℕ) {c : List ℕ}
      → p.encrypt (keys_for s d).key nonce (build_aad d sequence) m ≡ some c
      → seal p (some nonce) s d sequence m ≡ ok (nonce ++ c)
  unfolding seal
  seal_lem d sequence m e = rw (key_fits d, nonce_fits) (rw e)

  open_sealed_lem :
      (d : Direction) (sequence : ℕ) (c m : List ℕ)
      → p.decrypt (keys_for s d).key nonce (build_aad d sequence) c ≡ some m
      → open_sealed p s d sequence (nonce ++ c) ≡ ok m
  unfolding open_sealed
  open_sealed_lem d sequence c m e =
      rw
        (
          long_enough,
          take-append nonce c 12 (sym random_12),
          drop-append nonce c 12 (sym random_12),
          key_fits d,
          nonce_fits,
        )
        (rw e)
    where
      long_enough : ltb (length (nonce ++ c)) nonce_len ≡ false
      long_enough = ground (arith, length-append nonce c)

  -- A message within the cipher's limit is sealed, and opened again by the holder of the session,
  -- in the same direction and under the same sequence number.
  pub open_sealed-seal :
      (d : Direction) (sequence : ℕ) (m : List ℕ)
      → length m < 2 ^ 32
      → (sealed : List ℕ) × (seal p (some nonce) s d sequence m ≡ ok sealed)
        × (open_sealed p s d sequence sealed ≡ ok m)
  open_sealed-seal d sequence m small =
      let key = (keys_for s d).key in
      let (c, e) =
        lawful.encrypt_total key nonce (build_aad d sequence) m (length-keys_for s d keys) random_12
          small in
      (
        nonce ++ c,
        seal_lem d sequence m e,
        open_sealed_lem d sequence c m (
            lawful.decrypt-encrypt key nonce (build_aad d sequence) m c (length-keys_for s d keys)
              random_12 e),
      )
