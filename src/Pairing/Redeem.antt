-- ===== src/Pairing/Redeem.antt =====
-- What redeeming a pairing code comes to in pairing.rs.
use emersia.Base.{
  ℕ, ◌<◌, ◌≤◌, Option, none, some, List, ltb, leb, bytes_eq, bytes_eq→eq, Result, ok, err,
  Result-cases, Option-cases, Bool-cases, inl, inr, ◌≡◌, refl, sym, ap, subst, ◌∙◌, ltb_false→le,
  leb_false→lt, arith,
}
use Prim.Native.String.{String}
use emersia.Crypto.Primitives.{Primitives}
use emersia.Pairing.{
  PairingError, io, no_pending_code, wrong_code, too_many_attempts, Device, PendingCode, DbFile,
  PairingDb, Circumstances, max_code_attempts, save_then, without_code, count_miss, miss_error,
  enrolled, new_device, hash_code, validate, redeem, accept_code,
}

-- An answer that says that a code was wrong.
abbrev pub tells : PairingError → ℕ
tells wrong_code = 1
tells _ = 0

module _ (p : Primitives) (hex_encode trim : List ℕ → List ℕ) (around : Circumstances)
    (code_input device_name key : List ℕ) (st : PairingDb) where
  -- A pending code is expired or burned, is missed, or is hit.
  pub data Redeemed (out : Result PairingError Device × PairingDb) : Type 0 where
    -- The input is refused, or no code is pending.
    refused : (e : PairingError) → tells e ≡ 0 → out ≡ (err e, st) → Redeemed out
    given_up :
        (e : PairingError)
        → tells e ≡ 0
        → out ≡ save_then around.save_error (without_code st.db) (err e) st
        → Redeemed out
    missed :
        (pending : PendingCode)
        → st.db.pending ≡ some pending
        → pending.attempts < max_code_attempts
        → out
          ≡ save_then around.save_error
              (record st.db { pending = count_miss pending })
              (err (miss_error (count_miss pending)))
              st
        → Redeemed out
    hit :
        (pending : PendingCode) (code name : List ℕ)
        → validate p hex_encode trim code_input device_name key ≡ ok (code, name)
        → st.db.pending ≡ some pending
        → around.now ≤ pending.expires_at
        → pending.attempts < max_code_attempts
        → hash_code p hex_encode trim code pending.salt ≡ pending.code_hash
        → out
          ≡ save_then around.save_error
              (enrolled (new_device p hex_encode trim around name key) st.db)
              (ok (new_device p hex_encode trim around name key))
              st
        → Redeemed out

  module _ (code name : List ℕ) (pending : PendingCode)
      (fit : validate p hex_encode trim code_input device_name key ≡ ok (code, name))
      (stored : st.db.pending ≡ some pending) where
    redeem-Redeemed : Redeemed (redeem p hex_encode trim around code name key pending st)
    redeem-Redeemed = elim (Bool-cases (ltb pending.expires_at around.now)) [
      | inl late ↦ given_up no_pending_code refl (unfold redeem in rw late)
      | inr timely ↦ elim (Bool-cases (leb max_code_attempts pending.attempts)) [
        | inl burned ↦ given_up too_many_attempts refl (unfold redeem in rw timely (rw burned))
        | inr unburned ↦
            elim (Bool-cases
              (bytes_eq (hash_code p hex_encode trim code pending.salt) pending.code_hash)) [
                | inr wrong ↦
                    missed pending stored (leb_false→lt max_code_attempts pending.attempts unburned)
                      (unfold redeem in rw timely (rw unburned (rw wrong)))
                | inl right ↦
                    hit pending code name fit stored
                      (ltb_false→le pending.expires_at around.now timely)
                      (leb_false→lt max_code_attempts pending.attempts unburned)
                      (bytes_eq→eq (hash_code p hex_encode trim code pending.salt) pending.code_hash
                        right)
                      (unfold redeem in rw timely (rw unburned (rw right)))
              ]
      ]
    ]

  validate-tells :
      (e : PairingError)
      → validate p hex_encode trim code_input device_name key ≡ err e
      → tells e ≡ 0
  unfolding validate
  validate-tells e h = ground arith

  -- Every call of `accept_code` takes one of these ways.
  pub accept_code-Redeemed :
      Redeemed (accept_code p hex_encode trim around code_input device_name key st)
  accept_code-Redeemed =
      elim (Result-cases (validate p hex_encode trim code_input device_name key)) [
        | inr (e, unfit) ↦
            refused e (validate-tells e unfit) (unfold accept_code in rw (unfit, accept_code))
        | inl ((code, name), fit) ↦ elim (Option-cases st.db.pending) [
          | inl n ↦
              refused no_pending_code refl (unfold accept_code in rw (fit, accept_code) (simp n))
          | inr (pending, stored) ↦
              subst Redeemed {x = redeem p hex_encode trim around code name key pending st}
                {y = accept_code p hex_encode trim around code_input device_name key st}
                (sym (unfold accept_code in rw (fit, accept_code) (simp stored)))
                (redeem-Redeemed code name pending fit stored)
        ]
      ]

err≢ok :
    (e : PairingError) (device : Device)
    → ◌≡◌ {A = Result PairingError Device} (err e) (ok device)
    → ⊥
err≢ok e device h = cc

save_then-err :
    (o : Option String) (db : DbFile) (e : PairingError) (st : PairingDb) (device : Device)
    → (save_then o db (err e) st).0 ≡ ok device
    → ⊥
save_then-err none db e st device h = err≢ok e device h
save_then-err (some x) db e st device h = err≢ok (io x) device h

save_then-ok :
    (o : Option String) (db : DbFile) (new : Device) (st st' : PairingDb) (device : Device)
    → (ok device, st') ≡ save_then o db (ok new) st
    → (device ≡ new) × (st' ≡ record { db = db; file = some db })
save_then-ok none db new st st' device h = (same (ap (λ o. o.0) h), ap (λ o. o.1) h)
  where
    same : ◌≡◌ {A = Result PairingError Device} (ok device) (ok new) → device ≡ new
    same e = cc
save_then-ok (some x) db new st st' device h = absurd (err≢ok (io x) device (sym (ap (λ o. o.0) h)))

module _ (p : Primitives) (hex_encode trim : List ℕ → List ℕ) (around : Circumstances)
    (code_input device_name key : List ℕ) (st : PairingDb) (device : Device) (st' : PairingDb) where
  -- A pending code is neither expired nor burned and its hash is that of the input's code; the device
  -- is the one of the input, the store has it under its id, the code is gone, and the file says so.
  abbrev pub Enrols : Type 0
  Enrols =
      (pending : PendingCode) × (code name : List ℕ) × (validate p hex_encode trim code_input
          device_name key
        ≡ ok (code, name))
      × (st.db.pending ≡ some pending)
      × (around.now ≤ pending.expires_at)
      × (pending.attempts < max_code_attempts)
      × (hash_code p hex_encode trim code pending.salt ≡ pending.code_hash)
      × (device ≡ new_device p hex_encode trim around name key)
      × (st' ≡ record { db = enrolled device st.db; file = some (enrolled device st.db) })

  Redeemed-Enrols :
      Redeemed p hex_encode trim around code_input device_name key st (ok device, st') → Enrols
  Redeemed-Enrols (refused e t h) = absurd (err≢ok e device (sym (ap (λ o. o.0) h)))
  Redeemed-Enrols (given_up e t h) =
      absurd (save_then-err around.save_error _ e st device (sym (ap (λ o. o.0) h)))
  Redeemed-Enrols (missed pending stored few h) = absurd (
      save_then-err around.save_error _ (miss_error (count_miss pending)) st device
        (sym (ap (λ o. o.0) h)))
  Redeemed-Enrols (hit pending code name fit stored timely few right h) =
      let new = new_device p hex_encode trim around name key in
      let (is_new, saved) =
        save_then-ok around.save_error (enrolled new st.db) new st st' device h in
      (
        pending,
        code,
        name,
        fit,
        stored,
        timely,
        few,
        right,
        is_new,
        saved
            ∙ ap (λ d. record { db = enrolled d st.db; file = some (enrolled d st.db) })
                (sym is_new),
      )

-- A pairing succeeds only with a fit input whose code hashes, with the pending code's salt, to the
-- pending hash, before that code expires and before its fifth failed attempt; the device then stands
-- in the store under the id of its key, not revoked, the code is used up, and the file has the same.
pub accept_code-Enrols :
    (p : Primitives) (hex_encode trim : List ℕ → List ℕ) (around : Circumstances)
    (code_input device_name key : List ℕ) (st : PairingDb) (device : Device) (st' : PairingDb)
    → accept_code p hex_encode trim around code_input device_name key st ≡ (ok device, st')
    → Enrols p hex_encode trim around code_input device_name key st device st'
accept_code-Enrols p hex_encode trim around code_input device_name key st device st' e =
    Redeemed-Enrols p hex_encode trim around code_input device_name key st device st' (
      subst (Redeemed p hex_encode trim around code_input device_name key st) e
        (accept_code-Redeemed p hex_encode trim around code_input device_name key st))
