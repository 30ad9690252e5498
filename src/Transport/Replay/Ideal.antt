-- ===== src/Transport/Replay/Ideal.antt =====
-- What the replay window of transport/mod.rs stands for: the history of the accepted numbers, which
-- do not wrap.
use emersia.Base.{
  ℕ, ◌+◌, ◌≤◌, max, Bool, true, false, not, ◌&&◌, ◌||◌, ltb, if◌then◌else◌, List, [], elem, ◌∷◌,
  ◌≡◌, arith,
}
use emersia.Transport.Replay.{width}

abbrev pub newest : List ℕ → ℕ
newest [] = 0
newest (n ∷ ns) = max n (newest ns)

-- A number is fresh if nothing was accepted yet, if it is newer than all that was accepted, or if
-- it was not accepted and is fewer than `width` behind the newest.
unfoldable pub is_within : List ℕ → ℕ → Bool
is_within hs n = ltb (newest hs) n || (ltb (newest hs) (n + width) && not (elem n hs))

unfoldable pub is_fresh : List ℕ → ℕ → Bool
is_fresh [] n = true
is_fresh (h ∷ hs) n = is_within (h ∷ hs) n

unfoldable pub accept : List ℕ → ℕ → Bool × List ℕ
accept hs n = if is_fresh hs n then (true, n ∷ hs) else (false, hs)

pub elem-le-newest : (hs : List ℕ) (n : ℕ) → elem n hs ≡ true → n ≤ newest hs
elem-le-newest [] n e = cc
elem-le-newest (h ∷ hs) n e = ground (arith, elem-le-newest hs n)

pub elem-newest : (h : ℕ) (hs : List ℕ) → elem (newest (h ∷ hs)) (h ∷ hs) ≡ true
elem-newest h [] = ground arith
elem-newest h (g ∷ gs) = ground (arith, elem-newest g gs)
