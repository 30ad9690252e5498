-- ===== src/Control/Slots.antt =====
-- The connection slots of control.rs: `try_acquire_connection` and `ConnectionPermit`, and the accept
-- loop with the workers that it starts, in any order.
use emersia.Base.{
  ℕ, suc, ◌+◌, ◌-◌, ◌^◌, ◌%◌, ◌≤◌, ◌<◌, Option, none, some, ltb, if◌then◌else◌, ◌≡◌, refl, ap, ◌∙◌,
  arith,
}

abbrev pub max_connections : ℕ
max_connections = 16

unfoldable pub try_acquire_connection : ℕ → Option ℕ
try_acquire_connection count = if ltb count max_connections then some (count + 1) else none

-- `drop` of a permit; `fetch_sub` wraps around.
unfoldable pub release : ℕ → ℕ
release count = (count + 2 ^ 64 - 1) % 2 ^ 64

-- The counter, and the workers that hold a permit.
pub record Slots : Type 0 where
  pub count : ℕ
  pub workers : ℕ

abbrev pub no_slots : Slots
no_slots = record { count = 0; workers = 0 }

pub data Step : Slots → Slots → Type 0 where
  accepted :
      (s : Slots) (count : ℕ)
      → try_acquire_connection s.count ≡ some count
      → Step s (record { count = count; workers = suc s.workers })
  turned_away : (s : Slots) → try_acquire_connection s.count ≡ none → Step s s
  finished :
      (s : Slots) (workers : ℕ)
      → s.workers ≡ suc workers
      → Step s (record { count = release s.count; workers = workers })

pub data Steps : Slots → Slots → Type 0 where
  here : (s : Slots) → Steps s s
  then_step : {s t u : Slots} → Steps s t → Step t u → Steps s u

abbrev pub IsCounted : Slots → Type 0
IsCounted s = (s.count ≡ s.workers) × (s.workers ≤ max_connections)

try_acquire_connection-some :
    (count next : ℕ)
    → try_acquire_connection count ≡ some next
    → (next ≡ count + 1) × (count < max_connections)
unfolding try_acquire_connection
try_acquire_connection-some count next e = (ground (arith, e), ground (arith, e))

release-suc : (count : ℕ) → count < max_connections → release (suc count) ≡ count
unfolding release
release-suc count h = omega arith

Step-IsCounted : {s t : Slots} → Step s t → IsCounted s → IsCounted t
Step-IsCounted (accepted s count e) (same, bound) =
    let (next, room) = try_acquire_connection-some s.count count e in
    (omega (arith, next, same), omega (arith, room, same))
Step-IsCounted (turned_away s e) counted = counted
Step-IsCounted (finished s workers e) (same, bound) =
    (ap release (same ∙ e) ∙ release-suc workers (omega (arith, e, bound)), omega (arith, e, bound))

Steps-keeps : {s t : Slots} → Steps s t → IsCounted s → IsCounted t
Steps-keeps (here s) c = c
Steps-keeps (then_step steps step) c = Step-IsCounted step (Steps-keeps steps c)

-- However connections come and workers finish, the counter is the number of workers, of which there
-- are at most 16, and the slot of a worker that finishes is free again: the counter never wraps.
pub Steps-IsCounted : (s : Slots) → Steps no_slots s → IsCounted s
Steps-IsCounted s steps = Steps-keeps steps (refl, omega arith)
