-- ===== src/Codec/StartCodes.antt =====
-- `start_code_positions` of codec.rs.
pub mod Prefix
use emersia.Base.{
  ℕ, zero, suc, ◌+◌, ◌-◌, Bool, true, false, ◌&&◌, List, [], ◌∷◌, length, get_or, ltb, leb, ◌==◌,
  if◌then◌else◌,
}

-- `00 00 01` at an index that has two bytes after it.
abbrev pub is_code : List ℕ → ℕ → Bool
is_code buf i =
    (get_or buf i 0 == 0) && ((get_or buf (i + 1) 0 == 0) && (get_or buf (i + 2) 0 == 1))

-- Where the code that was found begins, and its length.
abbrev pub code_at : List ℕ → ℕ → ℕ × ℕ
code_at buf i = if ltb 0 i && (get_or buf (i - 1) 0 == 0) then (i - 1, 4) else (i, 3)

-- One round for each index.
unfoldable pub scan : ℕ → List ℕ → ℕ → List (ℕ × ℕ)
scan zero buf i = []
scan (suc rounds) buf i =
    let found = is_code buf i in
    let rest = scan rounds buf (if found then i + (code_at buf i).1 else i + 1) in
    if leb (i + 3) (length buf) then (if found then code_at buf i ∷ rest else rest) else []

unfoldable pub start_code_positions : List ℕ → List (ℕ × ℕ)
unfolding scan
start_code_positions buf = scan (length buf) buf 0
