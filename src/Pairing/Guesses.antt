-- ===== src/Pairing/Guesses.antt =====
-- How often a pending pairing code can be guessed at in pairing.rs.
use emersia.Base.{
  ℕ, ◌+◌, ◌-◌, ◌≤◌, ◌<◌, Option, none, some, List, [], ◌∷◌, Result, ok, err, Option-cases,
  Bool-cases, inl, inr, ◌≡◌, refl, sym, ap, subst, arith,
}
use emersia.Base.Assoc.{bytes_eq_eq, lookup, insert}
use Prim.Native.String.{String}
use emersia.Crypto.Primitives.{Primitives}
use emersia.Pairing.{
  PairingError, Device, PendingCode, DbFile, PairingDb, Circumstances, revoked_now,
  max_code_attempts, save_then, without_code, count_miss, miss_error, enrolled, new_device,
  accept_code, revoke,
}
use emersia.Pairing.Redeem.{
  tells, Redeemed, refused, given_up, missed, hit, accept_code-Redeemed, accept_code-Enrols,
}

-- An answer that says whether the code was right.
abbrev pub verdict : Result PairingError Device → ℕ
verdict (ok _) = 1
verdict (err e) = tells e

-- The attempts that are left.
abbrev pub budget : Option PendingCode → ℕ
budget none = 0
budget (some pending) = max_code_attempts - pending.attempts

abbrev pub left : PairingDb → ℕ
left st = budget st.db.pending

verdict-save_then :
    (e : Option String) (db : DbFile) (answer : Result PairingError Device) (st : PairingDb)
    → verdict (save_then e db answer st).0 ≤ verdict answer
verdict-save_then none db answer st = omega arith
verdict-save_then (some e) db answer st = omega arith

left-save_then :
    (e : Option String) (db : DbFile) (answer : Result PairingError Device) (st : PairingDb)
    → left (save_then e db answer st).1 ≡ budget db.pending
left-save_then none db answer st = refl
left-save_then (some e) db answer st = refl

-- A call costs no more than the answer tells.
abbrev pub Costs : PairingDb → Result PairingError Device × PairingDb → Type 0
Costs st out = verdict out.0 + left out.1 ≤ left st

save_then-Costs :
    (e : Option String) (db : DbFile) (answer : Result PairingError Device) (st : PairingDb)
    → verdict answer + budget db.pending ≤ left st
    → Costs st (save_then e db answer st)
save_then-Costs e db answer st h =
    omega (arith, verdict-save_then e db answer st, left-save_then e db answer st)

count_miss-costs :
    (pending : PendingCode)
    → pending.attempts < max_code_attempts
    → tells (miss_error (count_miss pending)) + budget (count_miss pending)
      ≤ max_code_attempts - pending.attempts
count_miss-costs pending h = ground arith

module _ (p : Primitives) (hex_encode trim : List ℕ → List ℕ) where
  Redeemed-Costs :
      (around : Circumstances) (code_input device_name key : List ℕ) (st : PairingDb)
      (out : Result PairingError Device × PairingDb)
      → Redeemed p hex_encode trim around code_input device_name key st out
      → Costs st out
  Redeemed-Costs around code_input device_name key st out (refused e t h) =
      subst (Costs st) (sym h) (omega (arith, t))
  Redeemed-Costs around code_input device_name key st out (given_up e t h) =
      subst (Costs st) (sym h)
        (save_then-Costs around.save_error (without_code st.db) (err e) st (omega (arith, t)))
  Redeemed-Costs around code_input device_name key st out (missed pending stored few h) =
      subst (Costs st) (sym h) (
        save_then-Costs around.save_error (record st.db { pending = count_miss pending })
          (err (miss_error (count_miss pending))) st
          (omega (arith, ap budget stored, count_miss-costs pending few)))
  Redeemed-Costs around code_input device_name key st out
        (hit pending code name fit stored timely few right h) =
      let new = new_device p hex_encode trim around name key in
      subst (Costs st) (sym h) (
        save_then-Costs around.save_error (enrolled new st.db) (ok new) st
          (omega (arith, ap budget stored)))

  revoke-left :
      (around : Circumstances) (id : List ℕ) (st : PairingDb)
      → left (revoke around id st).1 ≡ left st
  unfolding revoke
  revoke-left around id st = elim (Option-cases (lookup id st.db.devices)) [
    | inl n ↦ rw (n, revoke)
    | inr (device, there) ↦ elim (Bool-cases device.revoked) [
      | inl again ↦ rw (there, revoke) (rw again)
      | inr first ↦
          rw (there, revoke)
            (rw first (
              left-save_then around.save_error
                (record st.db { devices = insert id (revoked_now around.now device) st.db.devices })
                (ok (revoked_now around.now device)) st))
    ]
  ]

  -- A request to the store that starts no new code.
  pub data Request : Type 0 where
    accept : Circumstances → (code_input device_name key : List ℕ) → Request
    strike : Circumstances → (id : List ℕ) → Request

  -- How many of a sequence of requests are told whether their code was right, and the state after it.
  abbrev pub told : List Request → PairingDb → ℕ × PairingDb
  told [] st = (0, st)
  told (accept around code_input device_name key ∷ rest) st =
      let out = accept_code p hex_encode trim around code_input device_name key st in
      let after = told rest out.1 in (verdict out.0 + after.0, after.1)
  told (strike around id ∷ rest) st = told rest (revoke around id st).1

  told-left : (rest : List Request) (st : PairingDb) → (told rest st).0 ≤ left st
  told-left [] st = omega arith
  told-left (accept around code_input device_name key ∷ rest) st =
      let out = accept_code p hex_encode trim around code_input device_name key st in
      omega (
        arith,
        told-left rest out.1,
        Redeemed-Costs around code_input device_name key st out
            (accept_code-Redeemed p hex_encode trim around code_input device_name key st),
      )
  told-left (strike around id ∷ rest) st =
      omega (arith, told-left rest (revoke around id st).1, revoke-left around id st)

left-bounded : (pending : Option PendingCode) → budget pending ≤ max_code_attempts
left-bounded none = omega arith
left-bounded (some pending) = omega arith

-- Between two new codes, whatever is asked of the store and whether or not it can be saved, at most
-- five attempts are told whether their code was right, by a pairing or by `WrongCode`.
pub guesses_bounded :
    (p : Primitives) (hex_encode trim : List ℕ → List ℕ)
    (requests : List (Request p hex_encode trim)) (st : PairingDb)
    → (told p hex_encode trim requests st).0 ≤ max_code_attempts
guesses_bounded p hex_encode trim requests st =
    omega (arith, told-left p hex_encode trim requests st, left-bounded st.db.pending)

-- A code is used up by a pairing: until there is a new code, no later attempt is told anything, so
-- none pairs a second device.
pub accept_code_once :
    (p : Primitives) (hex_encode trim : List ℕ → List ℕ) (around : Circumstances)
    (code_input device_name key : List ℕ) (st : PairingDb) (device : Device) (st' : PairingDb)
    (requests : List (Request p hex_encode trim))
    → accept_code p hex_encode trim around code_input device_name key st ≡ (ok device, st')
    → (told p hex_encode trim requests st').0 ≡ 0
accept_code_once p hex_encode trim around code_input device_name key st device st' requests e =
    let enrols =
      accept_code-Enrols p hex_encode trim around code_input device_name key st device st' e in
    omega (arith, told-left p hex_encode trim requests st', ap left enrols.9)
