-- ===== src/Service/Engine/Restored.antt =====
-- From a `revoke` in pairing.rs to an `accept_code` with the same key, as the engine's authorizer in
-- service.rs sees them.
use emersia.Base.{ℕ, true, false, none, some, List, bytes_eq, bytes_eq_refl, ok, ◌≡◌, ap, ◌∙◌}
use emersia.Base.Assoc.{bytes_eq_eq, lookup, insert}
use emersia.Crypto.Primitives.{Primitives}
use emersia.Pairing.{
  Device, PairingDb, Circumstances, devices, revoked_now, enrolled, derive_device_id, accept_code,
  revoke,
}
use emersia.Pairing.Redeem.{accept_code-Enrols}
use emersia.Pairing.Revoke.{struck, revoke_twice}
use emersia.Service.Engine.{eq_ignore_ascii_case, allowed}
use emersia.Service.Engine.Revoked.{IsKeyed, any_admits-struck}

-- After the revocation, in a store that could be saved.
abbrev struck_store : Circumstances → List ℕ → Device → PairingDb → PairingDb
struck_store around id device st =
    let db = struck around id device st.db in record { db = db; file = some db }

allowed-struck :
    (hex_encode : List ℕ → List ℕ) (around : Circumstances) (old : Device) (st : PairingDb)
    (id pubkey : List ℕ)
    → IsKeyed st.db.devices
    → allowed hex_encode (struck_store around (hex_encode id) old st) id pubkey ≡ false
unfolding allowed devices
allowed-struck hex_encode around old st id pubkey keyed =
    any_admits-struck (hex_encode id) (hex_encode pubkey) around old st.db keyed

-- A device that was enrolled is admitted under its id with its key.
allowed-enrolled :
    (hex_encode : List ℕ → List ℕ) (device : Device) (st : PairingDb) (id pubkey : List ℕ)
    → device.id ≡ hex_encode id
    → eq_ignore_ascii_case device.public_key (hex_encode pubkey) ≡ true
    → device.revoked ≡ false
    → allowed hex_encode
        (record { db = enrolled device st.db; file = some (enrolled device st.db) })
        id
        pubkey
      ≡ true
unfolding allowed devices insert
allowed-enrolled hex_encode device st id pubkey same fits active =
    let mine : bytes_eq device.id (hex_encode id) ≡ true =
      ap (λ i. bytes_eq i (hex_encode id)) same ∙ bytes_eq_refl (hex_encode id) in
    simp (mine, fits, active)

module _ (p : Primitives) (hex_encode trim : List ℕ → List ℕ) (first second : Circumstances)
    (code_input device_name key id : List ℕ) (st : PairingDb) (old : Device) where
  -- A device is on record as active, and each device is on record under its own id. It is revoked,
  -- and the store is saved: the store that is left admits no key under its id. If an `accept_code`
  -- then succeeds with the key that the id is derived from, the store after it admits the device
  -- again, under the same id, with every public key whose hex text is that key's up to case.
  pub accept_code-restores :
      (device : Device) (after : PairingDb) (pubkey other : List ℕ)
      → derive_device_id p hex_encode trim key ≡ hex_encode id
      → lookup (hex_encode id) st.db.devices ≡ some old
      → old.revoked ≡ false
      → IsKeyed st.db.devices
      → first.save_error ≡ none
      → eq_ignore_ascii_case key (hex_encode pubkey) ≡ true
      → accept_code p hex_encode trim second code_input device_name key
          (revoke first (hex_encode id) st).1
        ≡ (ok device, after)
      → ((revoke first (hex_encode id) st).0 ≡ ok (revoked_now first.now old))
        × (allowed hex_encode (revoke first (hex_encode id) st).1 id other ≡ false)
        × (allowed hex_encode after id pubkey ≡ true)
  accept_code-restores device after pubkey other derived there active keyed saved fits e =
      let done = (revoke_twice first second (hex_encode id) st old there active saved).0 in
      let middle = (revoke first (hex_encode id) st).1 in
      let enrols =
        accept_code-Enrols p hex_encode trim second code_input device_name key middle device after
          e in
      let new = enrols.8 in
      (
        ap (λ r. r.0) done,
        ap (λ r. allowed hex_encode r.1 id other) done
            ∙ allowed-struck hex_encode first old st id other keyed,
        ap (λ s. allowed hex_encode s id pubkey) enrols.9
            ∙ allowed-enrolled hex_encode device middle id pubkey (ap (λ d. d.id) new ∙ derived)
                (ap (λ d. eq_ignore_ascii_case d.public_key (hex_encode pubkey)) new ∙ fits)
                (ap (λ d. d.revoked) new),
      )
