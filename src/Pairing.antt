-- ===== src/Pairing.antt =====
-- The pairing store of host/crates/emersia-daemon/src/pairing.rs: `PairingDb` with `load`, `save`,
-- `new_code`, `accept_code`, `devices`, `active_devices` and `revoke`. A text is the list of its
-- code points. The clock, the random source, the file system, `serde_json`, `hex::encode` and
-- `str::trim` are arguments; the file is the value that was last written to it. What a message
-- quotes of another error is left out of it. Devices are listed in the order of the association
-- list, not in that of their ids.
pub mod Guesses
pub mod Redeem
pub mod Revoke
use Prim.Native.String.{String}
use emersia.Base.{
  ℕ, ◌+◌, ◌^◌, ◌%◌, Bool, true, false, not, Option, none, some, List, [], ◌∷◌, ◌++◌, map, length,
  take, ltb, leb, ◌==◌, if◌then◌else◌, bytes_eq, Result, ok, err, map_err, ensure, ◌>>=◌, ◌>>◌,
}
use emersia.Base.Assoc.{bytes_eq_eq, lookup, remove, insert}
use emersia.Base.Text.{codes}
use emersia.Crypto.Primitives.{Primitives}
use emersia.Crypto.Code.{generate, parse, parse_public_key_hex}

abbrev pub schema_version : ℕ
schema_version = 1

-- `CODE_TTL` in seconds.
abbrev pub code_ttl : ℕ
code_ttl = 300

abbrev pub max_code_attempts : ℕ
max_code_attempts = 5

abbrev pub max_name_len : ℕ
max_name_len = 64

pub data PairingError : Type 0 where
  no_config_dir : PairingError
  io : String → PairingError
  corrupt : String → PairingError
  no_pending_code wrong_code too_many_attempts : PairingError
  not_found : List ℕ → PairingError
  invalid : String → PairingError

pub record Device : Type 0 where
  pub id : List ℕ
  pub name : List ℕ
  pub public_key : List ℕ
  pub paired_at : ℕ
  pub revoked : Bool
  pub revoked_at : Option ℕ

pub record PendingCode : Type 0 where
  pub code_hash : List ℕ
  pub salt : List ℕ
  pub expires_at : ℕ
  pub attempts : ℕ

pub record DbFile : Type 0 where
  pub version : ℕ
  pub devices : List (List ℕ × Device)
  pub pending : Option PendingCode

abbrev pub default_db : DbFile
default_db = record { version = schema_version; devices = []; pending = none }

-- The store in memory, and the file's content.
pub record PairingDb : Type 0 where
  pub db : DbFile
  pub file : Option DbFile

-- What `std::fs::read` gives.
pub data Contents : Type 0 where
  bytes : List ℕ → Contents
  no_file : Contents
  unreadable : String → Contents

-- `parsed` stands for `serde_json::from_slice`.
unfoldable pub load : (List ℕ → Result String DbFile) → Contents → Result PairingError DbFile
load parsed (bytes content) = elim (parsed content) [
  | err e ↦ err (corrupt e)
  | ok db ↦
      if not (db.version == schema_version)
      then err (corrupt "unsupported schema version")
      else ok db
]
load parsed no_file = ok default_db
load parsed (unreadable e) = err (io e)

-- `save`, then the answer; `failure` is the first error of its steps, of which the renaming comes
-- last.
abbrev pub save_then :
    {A : Type 0}
    → Option String
    → DbFile
    → Result PairingError A
    → PairingDb
    → Result PairingError A × PairingDb
save_then none db answer st = (answer, record { db = db; file = some db })
save_then (some e) db answer st = (err (io e), record { db = db; file = st.file })

-- What one call meets: the time in seconds, the error of `save`, and the random source's bytes.
pub record Circumstances : Type 0 where
  pub now : ℕ
  pub save_error : Option String
  pub code_bytes : List ℕ
  pub salt : Option (List ℕ)

abbrev pub without_code : DbFile → DbFile
without_code db = record db { pending = none }

unfoldable pub devices : PairingDb → List Device
devices st = map (λ entry. entry.1) st.db.devices

abbrev pub only_active : List Device → List Device
only_active [] = []
only_active (d ∷ ds) = if not d.revoked then d ∷ only_active ds else only_active ds

unfoldable pub active_devices : PairingDb → List Device
unfolding devices
active_devices st = only_active (devices st)

-- A device that is found and not revoked yet is revoked.
abbrev pub revoked_now : ℕ → Device → Device
revoked_now now device = record device { revoked = true; revoked_at = some now }

unfoldable pub revoke : Circumstances → List ℕ → PairingDb → Result PairingError Device × PairingDb
revoke around id st = elim (lookup id st.db.devices) [
  | none ↦ (err (not_found id), st)
  | some device ↦
      if device.revoked
      then (err (not_found id), st)
      else save_then around.save_error
          (record st.db { devices = insert id (revoked_now around.now device) st.db.devices })
          (ok (revoked_now around.now device)) st
]

-- One more failed attempt; the code is burned at the last.
abbrev pub count_miss : PendingCode → Option PendingCode
count_miss pending =
    let attempts = (pending.attempts + 1) % 2 ^ 32 in
    if leb max_code_attempts attempts then none else some (record pending { attempts = attempts })

abbrev pub miss_error : Option PendingCode → PairingError
miss_error none = too_many_attempts
miss_error (some _) = wrong_code

abbrev pub enrolled : Device → DbFile → DbFile
enrolled device db = record db { devices = insert device.id device db.devices; pending = none }

module _ (p : Primitives) (hex_encode trim : List ℕ → List ℕ) where
  unfoldable pub hash_code : List ℕ → List ℕ → List ℕ
  hash_code code salt_hex = hex_encode (p.sha256 (salt_hex ++ (codes "|" ++ code)))

  unfoldable pub derive_device_id : List ℕ → List ℕ
  derive_device_id public_key_hex =
      hex_encode (take 8 (p.sha256 (codes "emersia/device-id/v1" ++ public_key_hex)))

  abbrev pub fresh_code : Circumstances → List ℕ → List ℕ → PendingCode
  fresh_code around code salt_hex = record {
    code_hash = hash_code code salt_hex;
    salt = salt_hex;
    expires_at = (around.now + code_ttl) % 2 ^ 64;
    attempts = 0;
  }

  unfoldable pub new_code : Circumstances → PairingDb → Result PairingError (List ℕ) × PairingDb
  new_code around st = elim (generate around.code_bytes) [
    | err e ↦ (err (invalid "generate"), st)
    | ok code ↦ elim around.salt [
      | none ↦ (err (invalid "no entropy"), st)
      | some salt ↦
          save_then around.save_error
            (record st.db { pending = some (fresh_code around code (hex_encode salt)) }) (ok code)
            st
    ]
  ]

  -- The checks of the input: the code and the name, if they are fit.
  unfoldable pub validate : List ℕ → List ℕ → List ℕ → Result PairingError (List ℕ × List ℕ)
  validate code_input device_name public_key_hex = do
    code ← map_err (parse code_input) (invalid "pairing code")
    key ← map_err (parse_public_key_hex p public_key_hex) (invalid "public key")
    let name = trim device_name
    ensure (not (length name == 0)) (invalid "device name must not be empty")
    ensure (leb (length name) max_name_len) (invalid "device name must be at most 64 characters")
    ok (code, name)

  abbrev pub new_device : Circumstances → List ℕ → List ℕ → Device
  new_device around name public_key_hex = record {
    id = derive_device_id public_key_hex;
    name = name;
    public_key = public_key_hex;
    paired_at = around.now;
    revoked = false;
    revoked_at = none;
  }

  -- A code that is fit, against the pending one.
  unfoldable pub redeem :
      Circumstances
      → List ℕ
      → List ℕ
      → List ℕ
      → PendingCode
      → PairingDb
      → Result PairingError Device × PairingDb
  redeem around code name public_key_hex pending st =
      if ltb pending.expires_at around.now
      then save_then around.save_error (without_code st.db) (err no_pending_code) st
      else if leb max_code_attempts pending.attempts
      then save_then around.save_error (without_code st.db) (err too_many_attempts) st
      else if not (bytes_eq (hash_code code pending.salt) pending.code_hash)
      then save_then around.save_error (record st.db { pending = count_miss pending })
          (err (miss_error (count_miss pending))) st
      else save_then around.save_error (enrolled (new_device around name public_key_hex) st.db)
          (ok (new_device around name public_key_hex)) st

  unfoldable pub accept_code :
      Circumstances → List ℕ → List ℕ → List ℕ → PairingDb → Result PairingError Device × PairingDb
  accept_code around code_input device_name public_key_hex st =
      elim (validate code_input device_name public_key_hex) [
        | err e ↦ (err e, st)
        | ok (code, name) ↦ elim st.db.pending [
          | none ↦ (err no_pending_code, st)
          | some pending ↦ redeem around code name public_key_hex pending st
        ]
      ]
