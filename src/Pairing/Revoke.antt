-- ===== src/Pairing/Revoke.antt =====
-- The revocation of devices in pairing.rs.
use emersia.Base.{
  ℕ, Bool, true, false, not, Option, none, some, List, bytes_eq_refl, ok, err, ◌≡◌, refl, ap, ◌∙◌,
}
use Prim.Native.String.{String}
use emersia.Base.Assoc.{bytes_eq_eq, lookup, insert, lookup-insert_self}
use emersia.Pairing.{
  io, not_found, Device, DbFile, PairingDb, Circumstances, save_then, revoked_now, revoke,
}

-- A device that is on record under the id and not revoked, in memory or in the file.
abbrev pub found_active : Option Device → Bool
found_active none = false
found_active (some device) = not device.revoked

module _ (around : Circumstances) (id : List ℕ) (st : PairingDb) (device : Device)
    (there : lookup id st.db.devices ≡ some device) (active : device.revoked ≡ false) where
  revoke-active :
      revoke around id st
      ≡ save_then around.save_error
          (record st.db { devices = insert id (revoked_now around.now device) st.db.devices })
          (ok (revoked_now around.now device))
          st
  unfolding revoke
  revoke-active = rw (there, revoke) (rw active)

revoke-revoked :
    (around : Circumstances) (id : List ℕ) (st : PairingDb) (device : Device)
    → lookup id st.db.devices ≡ some device
    → device.revoked ≡ true
    → revoke around id st ≡ (err (not_found id), st)
unfolding revoke
revoke-revoked around id st device there again = rw (there, revoke) (rw again)

-- The database with the device revoked.
abbrev pub struck : Circumstances → List ℕ → Device → DbFile → DbFile
struck around id device db = record db {
  devices = insert id (revoked_now around.now device) db.devices;
}

module _ (first second : Circumstances) (id : List ℕ) (st : PairingDb) (device : Device)
    (there : lookup id st.db.devices ≡ some device) (active : device.revoked ≡ false) where
  found-struck :
      lookup id (struck first id device st.db).devices ≡ some (revoked_now first.now device)
  found-struck =
      lookup-insert_self id id (revoked_now first.now device) st.db.devices (bytes_eq_refl id)

  -- A device on record that is active is revoked, in memory and, as the store can be saved, in the
  -- file; to revoke it once more is an error that changes nothing.
  pub revoke_twice :
      first.save_error ≡ none
      → let db = struck first id device st.db in
        (revoke first id st
          ≡ (ok (revoked_now first.now device), record { db = db; file = some db }))
        × (found_active (lookup id db.devices) ≡ false)
        × (revoke second id (record { db = db; file = some db })
            ≡ (err (not_found id), record { db = db; file = some db }))
  revoke_twice saved =
      let db = struck first id device st.db in
      (
        revoke-active first id st device there active
            ∙ ap (λ e. save_then e db (ok (revoked_now first.now device)) st) saved,
        ap found_active found-struck,
        revoke-revoked second id (record { db = db; file = some db }) (revoked_now first.now device)
            found-struck refl,
      )

  -- When the store cannot be saved, the device is revoked in memory but not in the file, and to
  -- revoke it again, when the store could be saved, is an error and leaves the file as it was.
  pub revoke_unsaved :
      (e : String)
      → first.save_error ≡ some e
      → let after : PairingDb = record { db = struck first id device st.db; file = st.file } in
        (revoke first id st ≡ (err (io e), after))
        × (revoke second id after ≡ (err (not_found id), after))
  revoke_unsaved e failed =
      let db = struck first id device st.db in
      (
        revoke-active first id st device there active
            ∙ ap (λ o. save_then o db (ok (revoked_now first.now device)) st) failed,
        revoke-revoked second id (record { db = db; file = st.file }) (revoked_now first.now device)
            found-struck refl,
      )
