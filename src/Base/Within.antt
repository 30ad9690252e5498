-- ===== src/Base/Within.antt =====
-- Lists that are others with elements left out.
use Prim.Native.Nat.{ℕ, zero, suc}
use mathlib.Core.List.{List, [], ◌∷◌, ◌++◌}
use emersia.Base.Lists.{drop}

-- The first list is the second with bytes left out, in the same order.
pub data Within : List ℕ → List ℕ → Type 0 where
  done : Within [] []
  kept : {xs ys : List ℕ} (b : ℕ) → Within xs ys → Within (b ∷ xs) (b ∷ ys)
  skipped : {xs ys : List ℕ} (b : ℕ) → Within xs ys → Within xs (b ∷ ys)

pub Within-refl : (xs : List ℕ) → Within xs xs
Within-refl [] = done
Within-refl (b ∷ xs) = kept b (Within-refl xs)

pub Within-trans : {xs ys zs : List ℕ} → Within xs ys → Within ys zs → Within xs zs
Within-trans w done = w
Within-trans (kept b w) (kept _ v) = kept b (Within-trans w v)
Within-trans (skipped b w) (kept _ v) = skipped b (Within-trans w v)
Within-trans w (skipped b v) = skipped b (Within-trans w v)

pub Within-append :
    {xs ys us vs : List ℕ} → Within xs ys → Within us vs → Within (xs ++ us) (ys ++ vs)
Within-append done v = v
Within-append (kept b w) v = kept b (Within-append w v)
Within-append (skipped b w) v = skipped b (Within-append w v)

pub Within-none : (ys : List ℕ) → Within [] ys
Within-none [] = done
Within-none (b ∷ ys) = skipped b (Within-none ys)

pub Within-drop : (n : ℕ) (xs : List ℕ) → Within (drop n xs) xs
Within-drop zero xs = Within-refl xs
Within-drop (suc n) [] = done
Within-drop (suc n) (b ∷ xs) = skipped b (Within-drop n xs)

-- More may stand before.
pub Within-behind : (us : List ℕ) {xs ys : List ℕ} → Within xs ys → Within xs (us ++ ys)
Within-behind us w = Within-append (Within-none us) w
