-- ===== src/Base/Bools.antt =====
-- Laws of the Boolean operators.
use mathlib.Core.Bool.{Bool, true, false, not, ◌&&◌, ◌||◌}
use mathlib.Core.Path.{◌≡◌, refl}
use native.Mathlib.Omega.{arith}

pub or_false : (b : Bool) → b || false ≡ b
or_false true = refl
or_false false = refl

pub or_true : (b : Bool) → b || true ≡ true
or_true true = refl
or_true false = refl

pub or_assoc : (a b c : Bool) → a || (b || c) ≡ (a || b) || c
or_assoc true b c = refl
or_assoc false b c = refl

pub and_split : (a b : Bool) → a && b ≡ true → (a ≡ true) × (b ≡ true)
and_split true b h = (refl, h)
and_split false b h = absurd (ground (arith, h))

pub and_join : (a b : Bool) → a ≡ true → b ≡ true → a && b ≡ true
and_join a b h h' = simp (h, h')

pub not-false : (b : Bool) → b ≡ false → not b ≡ true
not-false b h = simp (h)
