-- ===== src/Tests/Pairing.antt =====
-- The theorems about pairing.rs at concrete inputs.
use emersia.Base.{ℕ, ◌≤◌, true, none, some, false, List, [], ◌∷◌, replicate, ok, err, ◌≡◌, refl}
use emersia.Base.Assoc.{bytes_eq_eq, lookup, insert}
use emersia.Pairing.{
  PairingError, io, not_found, Device, PendingCode, DbFile, default_db, PairingDb, Circumstances,
  max_code_attempts, revoked_now, hash_code, derive_device_id, new_device, enrolled, accept_code,
  revoke,
}
use emersia.Pairing.Redeem.{Enrols, accept_code-Enrols}
use emersia.Pairing.Guesses.{Request, accept, told, guesses_bounded, accept_code_once}
use emersia.Pairing.Revoke.{struck, revoke_unsaved}
use emersia.Service.Engine.{eq_ignore_ascii_case, allowed}
use emersia.Service.Engine.Restored.{accept_code-restores}
use emersia.Tests.Toy.{toy}

-- `hex::encode` and `str::trim` of the test.
abbrev same : List ℕ → List ℕ
same text = text

abbrev around : Circumstances
around = record { now = 1000; save_error = none; code_bytes = []; salt = none }

abbrev code : List ℕ
code = 49 ∷ 50 ∷ 51 ∷ 52 ∷ 53 ∷ 54 ∷ []

abbrev wrong : List ℕ
wrong = 49 ∷ 50 ∷ 51 ∷ 52 ∷ 53 ∷ 55 ∷ []

abbrev name : List ℕ
name = 65 ∷ []

abbrev key : List ℕ
key = replicate 32 7

abbrev pending : PendingCode
pending = record {
  code_hash = hash_code toy same same code (1 ∷ []);
  salt = 1 ∷ [];
  expires_at = 1200;
  attempts = 0;
}

abbrev device : Device
device = new_device toy same same around name key

-- The device is on record, revoked, and a code is pending.
abbrev db : DbFile
db = record default_db {
  devices = (derive_device_id toy same same key, record device { revoked = true }) ∷ [];
  pending = some pending;
}

abbrev st : PairingDb
st = record { db = db; file = some db }

abbrev paired : PairingDb
paired = record { db = enrolled device db; file = some (enrolled device db) }

pairs : accept_code toy same same around code name key st ≡ (ok device, paired)
unfolding accept_code emersia.Pairing.validate emersia.Crypto.Code.parse emersia.Crypto.Code.clean
    emersia.Crypto.Code.parse_public_key_hex emersia.Pairing.redeem hash_code
pairs = refl

accept_code-Enrols_example : Enrols toy same same around code name key st device paired
accept_code-Enrols_example =
    accept_code-Enrols toy same same around code name key st device paired pairs

abbrev requests : List (Request toy same same)
requests = accept around wrong name key ∷ accept around code name key ∷ []

guesses_bounded_example : (told toy same same requests st).0 ≤ max_code_attempts
guesses_bounded_example = guesses_bounded toy same same requests st

accept_code_once_example : (told toy same same requests paired).0 ≡ 0
accept_code_once_example =
    accept_code_once toy same same around code name key st device paired requests pairs

-- The device is on record, active, and a code is pending.
abbrev active_db : DbFile
active_db = record db { devices = (derive_device_id toy same same key, device) ∷ [] }

abbrev active_st : PairingDb
active_st = record { db = active_db; file = some active_db }

-- The store after the device's revocation and its next pairing.
abbrev restored : PairingDb
restored =
    let again =
      enrolled device (struck around (derive_device_id toy same same key) device active_db) in
    record { db = again; file = some again }

on_record : lookup (derive_device_id toy same same key) active_db.devices ≡ some device
unfolding lookup derive_device_id
on_record = refl

pairs_again :
    accept_code toy same same around code name key
      (revoke around (derive_device_id toy same same key) active_st).1
    ≡ (ok device, restored)
unfolding accept_code emersia.Pairing.validate emersia.Crypto.Code.parse emersia.Crypto.Code.clean
    emersia.Crypto.Code.parse_public_key_hex emersia.Pairing.redeem hash_code revoke lookup
    derive_device_id
pairs_again = refl

key_fits : eq_ignore_ascii_case key key ≡ true
unfolding eq_ignore_ascii_case
key_fits = refl

accept_code-restores_example :
    ((revoke around (derive_device_id toy same same key) active_st).0
      ≡ ok (revoked_now 1000 device))
    × (allowed same
          (revoke around (derive_device_id toy same same key) active_st).1
          (derive_device_id toy same same key)
          key
        ≡ false)
    × (allowed same restored (derive_device_id toy same same key) key ≡ true)
accept_code-restores_example =
    accept_code-restores toy same same around around code name key
      (derive_device_id toy same same key) active_st device device restored key key refl on_record
      refl (refl, tt) refl key_fits pairs_again

is_paired : lookup (derive_device_id toy same same key) paired.db.devices ≡ some device
unfolding lookup derive_device_id insert
is_paired = refl

abbrev full_disk : Circumstances
full_disk = record around { save_error = some "no space left" }

-- Revoked in memory, and not in the file.
abbrev half : PairingDb
half = record {
  db = struck full_disk (derive_device_id toy same same key) device paired.db;
  file = paired.file;
}

revoke_unsaved_example :
    (revoke full_disk (derive_device_id toy same same key) paired
      ≡ (err (io "no space left"), half))
    × (revoke around (derive_device_id toy same same key) half
        ≡ (err (not_found (derive_device_id toy same same key)), half))
revoke_unsaved_example =
    revoke_unsaved full_disk around (derive_device_id toy same same key) paired device is_paired
      refl "no space left" refl
