-- ===== src/Crypto/Session/Keys.antt =====
-- The key schedule of crypto.rs gives keys of the cipher's length.
use emersia.Base.{ℕ, ◌++◌, List, ◌∷◌, length, replicate, ok, ◌≡◌, arith}
use emersia.Base.Text.{codes}
use emersia.Crypto.Primitives.{Primitives, IsLawful}
use emersia.Crypto.Aad.{Direction, host_to_device, device_to_host}
use emersia.Crypto.Session.{Session, keys_for, from_key_material}

pub record HasKeys (s : Session) : Type 0 where
  pub host_to_device_32 : length s.host_to_device_keys.key ≡ 32
  pub device_to_host_32 : length s.device_to_host_keys.key ≡ 32

pub length-keys_for : (s : Session) (d : Direction) → HasKeys s → length (keys_for s d).key ≡ 32
unfolding keys_for
length-keys_for s host_to_device k = k.host_to_device_32
length-keys_for s device_to_host k = k.device_to_host_32

module _ (p : Primitives) (lawful : IsLawful p) where
  -- Whatever the key material, a session is derived, with two keys of 32 bytes.
  pub from_key_material-HasKeys :
      (ikm salt context : List ℕ)
      → (s : Session) × (from_key_material p ikm salt context ≡ ok s) × HasKeys s
  unfolding from_key_material
  from_key_material-HasKeys ikm salt context =
      let (h, eh, lh) =
        lawful.hkdf_total salt ikm (context ++ (0 ∷ codes "emersia/stream-key-v1")) 32
          (omega arith) in
      let (d, ed, ld) =
        lawful.hkdf_total salt ikm (context ++ (0 ∷ codes "emersia/input-key-v1")) 32
          (omega arith) in
      (
        record {
          host_to_device_keys = record { key = h };
          device_to_host_keys = record { key = d };
          salt = replicate 16 0;
        },
        rw (eh, ed),
        record { host_to_device_32 = lh; device_to_host_32 = ld },
      )
