-- ===== src/Tests/Replay.antt =====
-- The theorems about the replay window of transport/mod.rs at concrete inputs.
use emersia.Base.{ℕ, true, false, not, some, List, [], ◌∷◌, elem, ◌≡◌, refl, arith}
use emersia.Transport.Replay.{ReplayWindow, default, check, commit}
use emersia.Transport.Replay.Ideal.{accept, is_fresh, is_within}
use emersia.Transport.Replay.Refines.{Represents, Follows}
use emersia.Transport.Replay.Stream.{
  commits, window_after, verdicts, history_after, AllFollow, window_after-Represents,
  commits_refine, commit_once, commit_fresh,
}

-- The numbers wrap on the wire between the second and the third.
abbrev arrivals : List ℕ
arrivals = 4294967294 ∷ 4294967295 ∷ 4294967297 ∷ 4294967296 ∷ 4294967295 ∷ []

arrivals-AllFollow : AllFollow [] arrivals
unfolding accept is_fresh is_within
arrivals-AllFollow = ground arith

commits_refine_example :
    commits default (4294967294 ∷ 4294967295 ∷ 1 ∷ 0 ∷ 4294967295 ∷ [])
    ≡ true ∷ true ∷ true ∷ true ∷ false ∷ []
unfolding verdicts accept is_fresh is_within
commits_refine_example = commits_refine default [] arrivals refl arrivals-AllFollow

abbrev before_repeat : List ℕ
before_repeat = 4294967295 ∷ 4294967297 ∷ []

before_repeat-AllFollow : AllFollow [] before_repeat
unfolding accept is_fresh is_within
before_repeat-AllFollow = ground arith

repeat-Follows : Follows (history_after [] before_repeat) 4294967295
unfolding history_after accept is_fresh is_within
repeat-Follows = ground arith

commit_once_example : (commit (window_after default (4294967295 ∷ 1 ∷ [])) 4294967295).0 ≡ false
commit_once_example =
    commit_once default [] 4294967295 (4294967297 ∷ []) refl before_repeat-AllFollow repeat-Follows

-- The window after the number 5, which the history `5 ∷ []` stands for.
abbrev pub seen : ReplayWindow
seen = record { highest = some 5; bitmap = 1 }

pub seen-Represents : Represents seen (5 ∷ [])
unfolding window_after history_after accept is_fresh commit check
seen-Represents = window_after-Represents default [] (5 ∷ []) refl (tt, tt)

commit_fresh_example : (commit seen 3).0 ≡ not (elem 3 (5 ∷ []))
commit_fresh_example =
    commit_fresh seen 5 3 [] seen-Represents (omega arith, omega arith) (omega arith)
