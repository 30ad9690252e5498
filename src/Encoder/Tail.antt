-- ===== src/Encoder/Tail.antt =====
-- `StderrTail`, `drain_stderr` and `push_stderr_line` of encoder.rs. A text is its UTF-8 bytes, whose
-- repair by `String::from_utf8_lossy` is an argument; what ffmpeg writes until the pipe ends or
-- fails is a list of bytes, since its pieces do not matter to the loop. The counter `bytes` stays
-- below 2 ^ 64, which the bound shows.
pub mod Bounds
use emersia.Base.{
  ℕ, zero, suc, ◌+◌, ◌-◌, ◌*◌, Bool, true, false, not, ◌||◌, List, [], ◌∷◌, ◌++◌, length, take,
  get_or, ltb, leb, ◌==◌, if◌then◌else◌,
}

abbrev pub stderr_tail_lines : ℕ
stderr_tail_lines = 32

abbrev pub stderr_tail_bytes : ℕ
stderr_tail_bytes = 16 * 1024

abbrev pub stderr_max_line_bytes : ℕ
stderr_max_line_bytes = 4 * 1024

pub record StderrTail : Type 0 where
  pub lines : List (List ℕ)
  pub bytes : ℕ

-- `Default`
abbrev pub new_tail : StderrTail
new_tail = record { lines = []; bytes = 0 }

-- `str::is_char_boundary` inside the text: no continuation byte stands there.
abbrev pub is_char_boundary : List ℕ → ℕ → Bool
is_char_boundary line end = ltb (get_or line end 0) 128 || leb 192 (get_or line end 0)

unfoldable pub boundary : List ℕ → ℕ → ℕ
boundary line zero = 0
boundary line (suc end) =
    let before = boundary line end in if is_char_boundary line (suc end) then suc end else before

-- "..."
abbrev pub dots : List ℕ
dots = 46 ∷ 46 ∷ 46 ∷ []

unfoldable pub clipped : List ℕ → List ℕ
clipped line =
    if ltb stderr_max_line_bytes (length line)
    then take (boundary line stderr_max_line_bytes) line ++ dots
    else line

-- Old lines go until the rest fits.
unfoldable pub evict : List (List ℕ) → ℕ → StderrTail
evict [] bytes = record { lines = []; bytes = bytes }
evict (old ∷ lines) bytes =
    let rest = evict lines (bytes - (length old + 1)) in
    if ltb stderr_tail_lines (length (old ∷ lines)) || ltb stderr_tail_bytes bytes
    then rest
    else record { lines = old ∷ lines; bytes = bytes }

unfoldable pub push_line : List ℕ → StderrTail → StderrTail
push_line line tail =
    evict (tail.lines ++ (clipped line ∷ [])) (tail.bytes + (length (clipped line) + 1))

-- The text without `\r` at its end.
unfoldable pub without_cr : List ℕ → List ℕ
without_cr [] = []
without_cr (b ∷ []) = if b == 13 then [] else b ∷ []
without_cr (b ∷ c ∷ text) = b ∷ without_cr (c ∷ text)

module _ (lossy : List ℕ → List ℕ) where
  unfoldable pub push_stderr_line : List ℕ → Bool → StderrTail → StderrTail
  push_stderr_line line truncated tail =
      push_line (without_cr (if truncated then lossy line ++ dots else lossy line)) tail

  -- What is left at the end is a line too.
  abbrev pub flushed : List ℕ → Bool → StderrTail → StderrTail
  flushed line truncated tail =
      if not (length line == 0) || truncated then push_stderr_line line truncated tail else tail

  -- The bytes to come, after those of the line so far.
  unfoldable pub drain : List ℕ → List ℕ → Bool → StderrTail → StderrTail
  drain [] line truncated tail = flushed line truncated tail
  drain (byte ∷ rest) line truncated tail = elim (byte == 10) [
    | true ↦ drain rest [] false (push_stderr_line line truncated tail)
    | false ↦ elim (ltb (length line) stderr_max_line_bytes) [
      | true ↦ drain rest (line ++ (byte ∷ [])) truncated tail
      | false ↦ drain rest line true tail
    ]
  ]

  unfoldable pub drain_stderr : List ℕ → StderrTail → StderrTail
  unfolding drain
  drain_stderr written tail = drain written [] false tail
