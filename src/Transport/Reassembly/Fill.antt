-- ===== src/Transport/Reassembly/Fill.antt =====
-- The fragments of one frame as they fill up: `fill done o cs` holds those of `cs` whose index,
-- counted from `o`, is in `done`. This is the state of `PendingFrame` in transport/mod.rs.
use emersia.Base.{
  ℕ, zero, suc, ◌+◌, ◌<◌, ◌≤◌, false, Option, none, some, List, [], ◌∷◌, ◌++◌, concat, elem, length,
  get_elem?, set, replicate, if◌then◌else◌, ◌≡◌, refl, sym, ap, ◌∙◌, Bool-cases, inl, inr, arith,
}
use emersia.Transport.Reassembly.{concat_some}
use emersia.Transport.Reassembly.Valid.{count_some, count_some-set}

unfoldable pub fill : List ℕ → ℕ → List (List ℕ) → List (Option (List ℕ))
fill done o [] = []
fill done o (c ∷ cs) = (if elem o done then some c else none) ∷ fill done (suc o) cs

pub fill-nil : (o : ℕ) (cs : List (List ℕ)) → fill [] o cs ≡ replicate (length cs) none
unfolding fill
fill-nil o [] = refl
fill-nil o (c ∷ cs) = ap (◌∷◌ none) (fill-nil (suc o) cs)

pub length-fill : (done : List ℕ) (o : ℕ) (cs : List (List ℕ)) → length (fill done o cs) ≡ length cs
unfolding fill
length-fill done o [] = refl
length-fill done o (c ∷ cs) = ap suc (length-fill done (suc o) cs)

-- A slot is free until its index is done.
pub get_elem?-fill :
    (done : List ℕ) (o i : ℕ) (cs : List (List ℕ))
    → i < length cs
    → elem (o + i) done ≡ false
    → get_elem? (fill done o cs) i ≡ some none
unfolding fill
get_elem?-fill done o i [] h e = absurd (omega arith)
get_elem?-fill done o zero (c ∷ cs) h e = let start : o + 0 ≡ o = omega arith in rw (rw start at e)
get_elem?-fill done o (suc i) (c ∷ cs) h e =
    let next : o + suc i ≡ suc o + i = omega arith in
    get_elem?-fill done (suc o) i cs (omega arith) (rw next at e)

-- An index before all of `cs` makes no difference.
fill-before :
    (done : List ℕ) (j o : ℕ) (cs : List (List ℕ)) → j < o → fill (j ∷ done) o cs ≡ fill done o cs
unfolding fill
fill-before done j o [] h = refl
fill-before done j o (c ∷ cs) h = ground (arith, fill-before done j (suc o) cs)

-- Storing the fragment of an index marks it done.
pub set-fill :
    (done : List ℕ) (o i k : ℕ) (cs : List (List ℕ)) (p : List ℕ)
    → k ≡ o + i
    → get_elem? cs i ≡ some p
    → set (fill done o cs) i (some p) ≡ fill (k ∷ done) o cs
unfolding fill
set-fill done o i k [] p s e = refl
set-fill done o zero k (c ∷ cs) p s e = ground (arith, fill-before done k (suc o) cs)
set-fill done o (suc i) k (c ∷ cs) p s e = ground (arith, set-fill done (suc o) i k cs p)

count_some-le : (fs : List (Option (List ℕ))) → count_some fs ≤ length fs
count_some-le [] = omega arith
count_some-le (none ∷ fs) = omega (arith, count_some-le fs)
count_some-le (some f ∷ fs) = omega (arith, count_some-le fs)

-- When all slots are filled, they hold the whole frame.
pub concat_some-fill :
    (done : List ℕ) (o : ℕ) (cs : List (List ℕ))
    → count_some (fill done o cs) ≡ length cs
    → concat_some (fill done o cs) ≡ concat cs
unfolding fill
concat_some-fill done o [] e = refl
concat_some-fill done o (c ∷ cs) e = elim (Bool-cases (elem o done)) [
  | inl there ↦ rw there (ap (◌++◌ c) (concat_some-fill done (suc o) cs (ground arith)))
  | inr missing ↦
      absurd (ground (arith, count_some-le (fill done (suc o) cs), length-fill done (suc o) cs))
]

-- Each index that is done for the first time fills one slot more.
pub count_some-fill :
    (done : List ℕ) (i : ℕ) (cs : List (List ℕ)) (p : List ℕ)
    → get_elem? cs i ≡ some p
    → i < length cs
    → elem i done ≡ false
    → count_some (fill (i ∷ done) 0 cs) ≡ suc (count_some (fill done 0 cs))
count_some-fill done i cs p e h new =
    let start : 0 + i ≡ i = omega arith in
    ap count_some (sym (set-fill done 0 i i cs p (sym start) e))
    ∙ count_some-set (fill done 0 cs) i p (get_elem?-fill done 0 i cs h (rw start new))
