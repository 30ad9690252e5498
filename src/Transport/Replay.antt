-- ===== src/Transport/Replay.antt =====
-- The replay window of host/crates/emersia-daemon/src/transport/mod.rs: `ReplayWindow` with its
-- `check` and `commit`. Its 32-bit sequence numbers wrap, and its bitmap is a 64-bit word.
pub mod Bitmap
pub mod Ideal
pub mod Refines
pub mod Stream
use emersia.Base.{
  ℕ, ◌^◌, ◌*◌, bit_and, bit_or, Bool, true, false, not, ◌&&◌, Option, none, some, ltb, leb, ◌==◌,
  if◌then◌else◌, ◌≡◌, arith,
}
use emersia.Base.Words.{wrapping_sub, shl64}

pub record ReplayWindow : Type 0 where
  pub highest : Option ℕ
  pub bitmap : ℕ

-- `ReplayWindow::default()`
abbrev pub default : ReplayWindow
default = record { highest = none; bitmap = 0 }

abbrev pub width : ℕ
width = 64

-- `forward != 0 && forward < 0x8000_0000`, for the distance `forward` from the highest number
abbrev pub is_newer : ℕ → Bool
is_newer forward = not (forward == 0) && ltb forward 0x8000_0000

-- `check` once a highest number is known
unfoldable pub check_from : ℕ → ℕ → ℕ → Bool
check_from highest bitmap seq =
    let forward = wrapping_sub seq highest in
    let behind = wrapping_sub highest seq in
    if is_newer forward
    then true
    else if forward == 0
    then false
    else if leb width behind
    then false
    else bit_and bitmap (shl64 1 behind) == 0

unfoldable pub check : ReplayWindow → ℕ → Bool
check w seq = elim w.highest [ none ↦ true | some highest ↦ check_from highest w.bitmap seq ]

-- `commit` once a highest number is known and the number has passed `check`
unfoldable pub commit_from : ℕ → ℕ → ℕ → ReplayWindow
commit_from highest bitmap seq =
    let forward = wrapping_sub seq highest in
    let behind = wrapping_sub highest seq in
    if is_newer forward
    then record {
      highest = some seq;
      bitmap = if leb width forward then 1 else bit_or (shl64 bitmap forward) 1;
    }
    else record { highest = some highest; bitmap = bit_or bitmap (shl64 1 behind) }

-- The answer, and the window afterwards.
unfoldable pub commit : ReplayWindow → ℕ → Bool × ReplayWindow
commit w seq = if not (check w seq) then (false, w) else elim w.highest [
  | none ↦ (true, record { highest = some seq; bitmap = 1 })
  | some highest ↦ (true, commit_from highest w.bitmap seq)
]

-- `commit` accepts what passes `check`, and leaves the window alone otherwise.
pub commit-check : (w : ReplayWindow) (s : ℕ) → (commit w s).0 ≡ check w s
unfolding commit
commit-check w s = ground arith
