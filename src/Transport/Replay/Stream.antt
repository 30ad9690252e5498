-- ===== src/Transport/Replay/Stream.antt =====
-- The replay window of transport/mod.rs over a stream of received numbers.
use emersia.Base.{
  ℕ, ◌+◌, ◌%◌, ◌^◌, ◌<◌, Bool, false, not, List, [], elem, ◌∷◌, map, ◌≡◌, refl, ap₂, ◌∙◌,
  Bool-cases, inl, inr, arith,
}
use emersia.Transport.Replay.{ReplayWindow, width, commit}
use emersia.Transport.Replay.Ideal.{newest, is_within, is_fresh, accept, elem-le-newest}
use emersia.Transport.Replay.Refines.{Represents, Follows, commit_refines}

-- The answers to numbers that arrive one after the other, and the window afterwards.
unfoldable pub commits : ReplayWindow → List ℕ → List Bool
commits w [] = []
commits w (s ∷ ss) = (commit w s).0 ∷ commits (commit w s).1 ss

unfoldable pub window_after : ReplayWindow → List ℕ → ReplayWindow
window_after w [] = w
window_after w (s ∷ ss) = window_after (commit w s).1 ss

unfoldable pub verdicts : List ℕ → List ℕ → List Bool
verdicts hs [] = []
verdicts hs (n ∷ ns) = (accept hs n).0 ∷ verdicts (accept hs n).1 ns

unfoldable pub history_after : List ℕ → List ℕ → List ℕ
history_after hs [] = hs
history_after hs (n ∷ ns) = history_after (accept hs n).1 ns

abbrev pub wire : ℕ → ℕ
wire n = n % 2 ^ 32

-- Each number that arrives is near the newest accepted by then.
abbrev pub AllFollow : List ℕ → List ℕ → Type 0
AllFollow hs [] = Unit {0}
AllFollow hs (n ∷ ns) = Follows hs n × AllFollow (accept hs n).1 ns

-- A window that represents a history gives, for numbers that arrive one after the other, the answers
-- of that history, which is unbounded and whose numbers do not wrap, however often the 32-bit numbers
-- on the wire do. The condition is that each number that arrives is less than 2 ^ 31 from the newest
-- accepted by then, if one was.
pub commits_refine :
    (w : ReplayWindow) (hs ns : List ℕ)
    → Represents w hs
    → AllFollow hs ns
    → commits w (map wire ns) ≡ verdicts hs ns
unfolding commits verdicts
commits_refine w hs [] r f = refl
commits_refine w hs (n ∷ ns) r f =
    let (same, r') = commit_refines w hs n r f.0 in
    ap₂ ◌∷◌ same (commits_refine (commit w (wire n)).1 (accept hs n).1 ns r' f.1)

pub window_after-Represents :
    (w : ReplayWindow) (hs ns : List ℕ)
    → Represents w hs
    → AllFollow hs ns
    → Represents (window_after w (map wire ns)) (history_after hs ns)
unfolding window_after history_after
window_after-Represents w hs [] r f = r
window_after-Represents w hs (n ∷ ns) r f =
    window_after-Represents (commit w (wire n)).1 (accept hs n).1 ns (commit_refines w hs n r f.0).1
      f.1

-- A number that the history has, or that is too far behind it, is stale for good.
abbrev IsStale : List ℕ → ℕ → Type 0
IsStale hs n = is_fresh hs n ≡ false

added-is_within : (hs : List ℕ) (n : ℕ) → is_within (n ∷ hs) n ≡ false
unfolding is_within
added-is_within hs n = ground arith

grown-is_within : (hs : List ℕ) (n m : ℕ) → is_within hs n ≡ false → is_within (m ∷ hs) n ≡ false
unfolding is_within
grown-is_within hs n m s = ground (arith, elem-le-newest hs n)

accept-IsStale : (hs : List ℕ) (n : ℕ) → IsStale (accept hs n).1 n
unfolding accept is_fresh
accept-IsStale [] n = added-is_within [] n
accept-IsStale (h ∷ hs) n = elim (Bool-cases (is_within (h ∷ hs) n)) [
  | inl fresh ↦ rw fresh (added-is_within (h ∷ hs) n)
  | inr stale ↦ rw stale stale
]

accept-keeps-IsStale : (hs : List ℕ) (n m : ℕ) → IsStale hs n → IsStale (accept hs m).1 n
unfolding accept is_fresh
accept-keeps-IsStale [] n m s = cc
accept-keeps-IsStale (h ∷ hs) n m s = elim (Bool-cases (is_within (h ∷ hs) m)) [
  | inl fresh ↦ rw fresh (grown-is_within (h ∷ hs) n m s)
  | inr stale ↦ rw stale s
]

history_after-IsStale : (hs ns : List ℕ) (n : ℕ) → IsStale hs n → IsStale (history_after hs ns) n
unfolding history_after
history_after-IsStale hs [] n s = s
history_after-IsStale hs (m ∷ ns) n s =
    history_after-IsStale (accept hs m).1 ns n (accept-keeps-IsStale hs n m s)

-- A number that arrives a second time is refused, whatever arrived in between and however often
-- the 32-bit numbers wrapped, as long as each number that arrives is near the newest accepted.
pub commit_once :
    (w : ReplayWindow) (hs : List ℕ) (n : ℕ) (between : List ℕ)
    → Represents w hs
    → AllFollow hs (n ∷ between)
    → Follows (history_after hs (n ∷ between)) n
    → (commit (window_after w (map wire (n ∷ between))) (wire n)).0 ≡ false
unfolding history_after
commit_once w hs n between r f g =
    (commit_refines _ _ n (window_after-Represents w hs (n ∷ between) r f) g).0
    ∙ stale-accept (history_after (accept hs n).1 between) n
        (history_after-IsStale (accept hs n).1 between n (accept-IsStale hs n))
  where
    stale-accept : (l : List ℕ) (m : ℕ) → IsStale l m → (accept l m).0 ≡ false
    stale-accept l m s = unfold accept in rw s

-- A window that represents a history that is not empty accepts a number that is less than 2 ^ 31 from
-- the newest of it, and fewer than `width` behind it, exactly when the number is new to the history.
pub commit_fresh :
    (w : ReplayWindow) (h n : ℕ) (hs : List ℕ)
    → Represents w (h ∷ hs)
    → Follows (h ∷ hs) n
    → newest (h ∷ hs) < n + width
    → ((commit w (wire n)).0 ≡ not (elem n (h ∷ hs)))
unfolding accept is_fresh is_within
commit_fresh w h n hs r f near =
    (commit_refines w (h ∷ hs) n r f).0 ∙ ground (arith, elem-le-newest (h ∷ hs) n)
