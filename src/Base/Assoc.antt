-- ===== src/Base/Assoc.antt =====
-- Maps as association lists. A key is inserted in place of its old entry; the order of the entries
-- is that in which a hash map happens to be walked.
use Prim.Native.Nat.{ℕ, suc, ◌≤◌, ◌<◌}
use mathlib.Core.Path.{◌≡◌, refl}
use mathlib.Core.Bool.{Bool, true, false, not}
use mathlib.Core.Option.{Option, none, some}
use mathlib.Core.List.{List, [], ◌∷◌}
use native.Mathlib.Omega.{arith}
use emersia.Base.Tests.{◌==◌, if◌then◌else◌, ==_iff, is_some}
use emersia.Base.Lists.{length, bytes_eq, bytes_eq_refl, bytes_eq→eq}

pub record Eq (K : Type 0) : Type 0 where
  pub beq : K → K → Bool
  pub beq-refl : (a : K) → beq a a ≡ true
  pub beq→eq : (a b : K) → beq a b ≡ true → a ≡ b

pub nat_beq_refl : (a : ℕ) → (a == a) ≡ true
nat_beq_refl a = (==_iff a a).1 refl

pub nat_beq→eq : (a b : ℕ) → (a == b) ≡ true → a ≡ b
nat_beq→eq a b = (==_iff a b).0

instance abbrev pub nat_eq : Eq ℕ
nat_eq = record { beq = ◌==◌; beq-refl = nat_beq_refl; beq→eq = nat_beq→eq }

instance abbrev pub bytes_eq_eq : Eq (List ℕ)
bytes_eq_eq = record { beq = bytes_eq; beq-refl = bytes_eq_refl; beq→eq = bytes_eq→eq }

module _ {K V : Type 0} ⦃e : Eq K⦄ where
  unfoldable pub lookup : K → List (K × V) → Option V
  lookup k [] = none
  lookup k ((j, v) ∷ m) = if e.beq j k then some v else lookup k m

  unfoldable pub remove : K → List (K × V) → List (K × V)
  remove k [] = []
  remove k ((j, v) ∷ m) = if e.beq j k then remove k m else (j, v) ∷ remove k m

  unfoldable pub insert : K → V → List (K × V) → List (K × V)
  unfolding remove
  insert k v m = (k, v) ∷ remove k m

  -- Entries whose key is `k`.
  unfoldable pub occurrences : K → List (K × V) → ℕ
  occurrences k [] = 0
  occurrences k ((j, v) ∷ m) = if e.beq j k then suc (occurrences k m) else occurrences k m

  pub lookup-remove_self : (k : K) (m : List (K × V)) → lookup k (remove k m) ≡ none
  unfolding lookup remove
  lookup-remove_self k [] = refl
  lookup-remove_self k ((j, v) ∷ m) = ground (arith, lookup-remove_self k m)

  -- What another key's removal leaves out was not there.
  pub lookup-remove-none :
      (k j : K) (m : List (K × V)) → lookup k m ≡ none → lookup k (remove j m) ≡ none
  unfolding lookup remove
  lookup-remove-none k j [] h = refl
  lookup-remove-none k j ((i, v) ∷ m) h = ground (arith, lookup-remove-none k j m)

  pub lookup-insert_other :
      (k j : K) (v : V) (m : List (K × V))
      → e.beq j k ≡ false
      → lookup k m ≡ none
      → lookup k (insert j v m) ≡ none
  unfolding lookup insert
  lookup-insert_other k j v m n h = ground (arith, lookup-remove-none k j m)

  pub lookup-insert_self :
      (k j : K) (v : V) (m : List (K × V)) → e.beq j k ≡ true → lookup k (insert j v m) ≡ some v
  unfolding lookup insert
  lookup-insert_self k j v m s = rw s

  pub length-remove-le : (k : K) (m : List (K × V)) → length (remove k m) ≤ length m
  unfolding remove
  length-remove-le k [] = omega arith
  length-remove-le k ((j, v) ∷ m) = ground (arith, length-remove-le k m)

  -- A key that is there makes room when it is removed.
  pub length-remove-lt :
      (k : K) (m : List (K × V)) → is_some (lookup k m) ≡ true → length (remove k m) < length m
  unfolding lookup remove
  length-remove-lt k [] h = cc
  length-remove-lt k ((j, v) ∷ m) h = ground (arith, length-remove-lt k m, length-remove-le k m)

module _ {K V : Type 0} where
  -- Keeps the entries whose value passes the test.
  unfoldable pub retain : (V → Bool) → List (K × V) → List (K × V)
  retain p [] = []
  retain p ((k, v) ∷ m) = if p v then (k, v) ∷ retain p m else retain p m

  -- How many values pass the test.
  unfoldable pub count_values : (V → Bool) → List (K × V) → ℕ
  count_values p [] = 0
  count_values p ((k, v) ∷ m) = if p v then suc (count_values p m) else count_values p m

  pub length-retain-le : (p : V → Bool) (m : List (K × V)) → length (retain p m) ≤ length m
  unfolding retain
  length-retain-le p [] = omega arith
  length-retain-le p ((k, v) ∷ m) = ground (arith, length-retain-le p m)

  pub count_values-retain-le :
      (q p : V → Bool) (m : List (K × V)) → count_values q (retain p m) ≤ count_values q m
  unfolding retain count_values
  count_values-retain-le q p [] = omega arith
  count_values-retain-le q p ((k, v) ∷ m) = ground (arith, count_values-retain-le q p m)

  -- What holds of every entry that is kept.
  pub count_values-retain-not :
      (p : V → Bool) (m : List (K × V)) → count_values p (retain (λ v. not (p v)) m) ≡ 0
  unfolding retain count_values
  count_values-retain-not p [] = refl
  count_values-retain-not p ((k, v) ∷ m) = ground (arith, count_values-retain-not p m)

module _ {K V : Type 0} ⦃e : Eq K⦄ (p : V → Bool) where
  pub count_values-remove-le :
      (k : K) (m : List (K × V)) → count_values p (remove k m) ≤ count_values p m
  unfolding remove count_values
  count_values-remove-le k [] = omega arith
  count_values-remove-le k ((j, v) ∷ m) = ground (arith, count_values-remove-le k m)

  -- Removing the key of a value that passes the test lowers the count.
  pub count_values-remove-lt :
      (k : K) (m : List (K × V)) (v : V)
      → lookup k m ≡ some v
      → p v ≡ true
      → count_values p (remove k m) < count_values p m
  unfolding lookup remove count_values
  count_values-remove-lt k [] v l h = absurd (ground arith)
  count_values-remove-lt k ((j, u) ∷ m) v l h =
      ground (arith, count_values-remove-lt k m v, count_values-remove-le k m)

  count_values-remove_absent :
      (k : K) (m : List (K × V))
      → occurrences k m ≡ 0
      → count_values p (remove k m) ≡ count_values p m
  unfolding remove count_values occurrences
  count_values-remove_absent k [] o = refl
  count_values-remove_absent k ((j, u) ∷ m) o = ground (arith, count_values-remove_absent k m)

  -- Removing a key that occurs once, with a value that does not pass, leaves the count.
  pub count_values-remove_other :
      (k : K) (m : List (K × V)) (v : V)
      → lookup k m ≡ some v
      → occurrences k m ≡ 1
      → p v ≡ false
      → count_values p (remove k m) ≡ count_values p m
  unfolding lookup remove count_values occurrences
  count_values-remove_other k [] v l o h = absurd (ground arith)
  count_values-remove_other k ((j, u) ∷ m) v l o h =
      ground (arith, count_values-remove_other k m v, count_values-remove_absent k m)

module _ {K V : Type 0} ⦃e : Eq K⦄ (p : V → Bool) where
  -- Removing a key that occurs once, with a value that passes, takes one away.
  pub count_values-remove_once :
      (k : K) (m : List (K × V)) (v : V)
      → lookup k m ≡ some v
      → occurrences k m ≡ 1
      → p v ≡ true
      → suc (count_values p (remove k m)) ≡ count_values p m
  unfolding lookup remove count_values occurrences
  count_values-remove_once k [] v l o h = absurd (ground arith)
  count_values-remove_once k ((j, u) ∷ m) v l o h =
      ground (arith, count_values-remove_once k m v, count_values-remove_absent p k m)

  -- What is found after a selection has passed it.
  pub lookup-retain :
      (k : K) (m : List (K × V)) (v : V) → lookup k (retain p m) ≡ some v → p v ≡ true
  unfolding lookup retain
  lookup-retain k [] v h = absurd (ground arith)
  lookup-retain k ((j, u) ∷ m) v h = ground (arith, lookup-retain k m v)
