-- ===== src/Encoder/Tail/Bounds.antt =====
-- The tail of stderr that encoder.rs keeps is bounded.
use emersia.Base.{
  ℕ, zero, suc, ◌+◌, ◌-◌, ◌≤◌, Bool, true, false, not, ◌||◌, List, [], ◌∷◌, ◌++◌, length,
  length-append, length-take, take, ltb, ◌==◌, if◌then◌else◌, Bool-cases, inl, inr, ◌≡◌, refl, sym,
  subst, arith,
}
use emersia.Encoder.Tail.{
  stderr_tail_lines, stderr_tail_bytes, stderr_max_line_bytes, StderrTail, new_tail, boundary,
  clipped, evict, push_line, without_cr, push_stderr_line, flushed, drain, drain_stderr,
}

-- The lines with an end each.
abbrev pub total : List (List ℕ) → ℕ
total [] = 0
total (line ∷ lines) = length line + 1 + total lines

total-append :
    (lines : List (List ℕ)) (line : List ℕ)
    → total (lines ++ (line ∷ [])) ≡ total lines + (length line + 1)
total-append [] line = omega arith
total-append (old ∷ lines) line = omega (arith, total-append lines line)

abbrev pub IsBounded : StderrTail → Type 0
IsBounded tail =
    (tail.bytes ≡ total tail.lines)
    × ((length tail.lines ≤ stderr_tail_lines) × (tail.bytes ≤ stderr_tail_bytes))

-- The newest line is there, behind some of those before.
abbrev pub Ends : List ℕ → StderrTail → Type 0
Ends line tail = (before : List (List ℕ)) × (tail.lines ≡ before ++ (line ∷ []))

boundary-le : (line : List ℕ) (end : ℕ) → boundary line end ≤ end
unfolding boundary
boundary-le line zero = omega arith
boundary-le line (suc end) = ground (arith, boundary-le line end)

clipped-short : (line : List ℕ) → length (clipped line) ≤ stderr_max_line_bytes + 3
unfolding clipped
clipped-short line = ground (
  arith,
  length-append (take (boundary line stderr_max_line_bytes) line) (46 ∷ 46 ∷ 46 ∷ []),
  length-take (boundary line stderr_max_line_bytes) line,
  boundary-le line stderr_max_line_bytes,
)

module _ (old : List ℕ) (lines : List (List ℕ)) (bytes : ℕ) where
  evict-over :
      ltb stderr_tail_lines (length (old ∷ lines)) || ltb stderr_tail_bytes bytes ≡ true
      → evict (old ∷ lines) bytes ≡ evict lines (bytes - (length old + 1))
  unfolding evict
  evict-over e = simp (e)

  evict-fits :
      ltb stderr_tail_lines (length (old ∷ lines)) || ltb stderr_tail_bytes bytes ≡ false
      → evict (old ∷ lines) bytes ≡ record { lines = old ∷ lines; bytes = bytes }
  unfolding evict
  evict-fits e = simp (e)

abbrev Kept : List ℕ → StderrTail → Type 0
Kept line tail = IsBounded tail × Ends line tail

evict-Kept :
    (lines : List (List ℕ)) (line : List ℕ) (bytes : ℕ)
    → bytes ≡ total (lines ++ (line ∷ []))
    → length line ≤ stderr_max_line_bytes + 3
    → Kept line (evict (lines ++ (line ∷ [])) bytes)
evict-Kept [] line bytes e h =
    subst (Kept line) (sym (evict-fits line [] bytes (ground (arith, e, h))))
      ((e, (omega arith, omega (arith, e, h))), ([], refl))
evict-Kept (old ∷ lines) line bytes e h =
    let all = lines ++ (line ∷ []) in
    elim (Bool-cases (ltb stderr_tail_lines (length (old ∷ all)) || ltb stderr_tail_bytes bytes)) [
      | inl over ↦
          subst (Kept line) (sym (evict-over old all bytes over))
            (evict-Kept lines line (bytes - (length old + 1)) (omega (arith, e)) h)
      | inr fits ↦
          subst (Kept line) (sym (evict-fits old all bytes fits))
            ((e, (ground (arith, fits), ground (arith, fits))), (old ∷ lines, refl))
    ]

-- A line that is pushed is kept, cut to 4,096 bytes and three dots, and the tail then has at most 32
-- lines and, with their ends, at most 16,384 bytes, which are counted exactly.
pub push_line-IsBounded :
    (line : List ℕ) (tail : StderrTail)
    → IsBounded tail
    → IsBounded (push_line line tail) × Ends (clipped line) (push_line line tail)
push_line-IsBounded line tail (counted, bounds) =
    unfold push_line in
    evict-Kept tail.lines (clipped line) (tail.bytes + (length (clipped line) + 1))
      (omega (arith, counted, total-append tail.lines (clipped line))) (clipped-short line)

module _ (lossy : List ℕ → List ℕ) where
  push_stderr_line-IsBounded :
      (line : List ℕ) (truncated : Bool) (tail : StderrTail)
      → IsBounded tail
      → IsBounded (push_stderr_line lossy line truncated tail)
  push_stderr_line-IsBounded line truncated tail b =
      unfold push_stderr_line in
      (push_line-IsBounded
        (without_cr (if truncated then lossy line ++ (46 ∷ 46 ∷ 46 ∷ []) else lossy line)) tail b).0

  flushed-IsBounded :
      (line : List ℕ) (truncated : Bool) (tail : StderrTail)
      → IsBounded tail
      → IsBounded (flushed lossy line truncated tail)
  flushed-IsBounded line truncated tail b =
      either (not (length line == 0) || truncated)
        (push_stderr_line-IsBounded line truncated tail b)
    where
      either :
          (pushes : Bool)
          → IsBounded (push_stderr_line lossy line truncated tail)
          → IsBounded (if pushes then push_stderr_line lossy line truncated tail else tail)
      either true pushed = pushed
      either false pushed = b

  drain-IsBounded :
      (rest line : List ℕ) (truncated : Bool) (tail : StderrTail)
      → IsBounded tail
      → IsBounded (drain lossy rest line truncated tail)
  unfolding drain
  drain-IsBounded [] line truncated tail b = flushed-IsBounded line truncated tail b
  drain-IsBounded (byte ∷ rest) line truncated tail b =
      let pushed = drain lossy rest [] false (push_stderr_line lossy line truncated tail) in
      let longer = drain lossy rest (line ++ (byte ∷ [])) truncated tail in
      let full = drain lossy rest line true tail in
      let inside : IsBounded
          (elim (ltb (length line) stderr_max_line_bytes) [ true ↦ longer | false ↦ full ]) =
        elim (Bool-cases (ltb (length line) stderr_max_line_bytes)) [
          | inl e ↦
              subst (λ c. IsBounded (elim c [ true ↦ longer | false ↦ full ])) (sym e)
                (drain-IsBounded rest (line ++ (byte ∷ [])) truncated tail b)
          | inr e ↦
              subst (λ c. IsBounded (elim c [ true ↦ longer | false ↦ full ])) (sym e)
                (drain-IsBounded rest line true tail b)
        ] in
      elim (Bool-cases (byte == 10)) [
        | inl e ↦
            subst
              (λ c. IsBounded (elim c [
                | true ↦ pushed
                | false ↦ elim (ltb (length line) stderr_max_line_bytes) [
                  | true ↦ longer
                  | false ↦ full
                ]
              ]))
              (sym e)
              (drain-IsBounded rest [] false (push_stderr_line lossy line truncated tail)
                (push_stderr_line-IsBounded line truncated tail b))
        | inr e ↦
            subst
              (λ c. IsBounded (elim c [
                | true ↦ pushed
                | false ↦ elim (ltb (length line) stderr_max_line_bytes) [
                  | true ↦ longer
                  | false ↦ full
                ]
              ]))
              (sym e) inside
      ]

  -- Whatever ffmpeg writes to stderr, and however its bytes are repaired, the tail that is kept has at
  -- most 32 lines and 16,384 bytes.
  pub drain_stderr-IsBounded : (written : List ℕ) → IsBounded (drain_stderr lossy written new_tail)
  drain_stderr-IsBounded written =
      unfold drain_stderr in
      drain-IsBounded written [] false new_tail (refl, (omega arith, omega arith))
