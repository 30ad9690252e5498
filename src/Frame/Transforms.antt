-- ===== src/Frame/Transforms.antt =====
-- The transforms of frame.rs place every upright pixel within the buffer, no two at one place.
use emersia.Base.{ℕ, ◌<◌, ◌≡◌, ap, arith}
use emersia.Frame.{
  Transform, normal, rotated_90, rotated_180, rotated_270, flipped, flipped_90, flipped_180,
  flipped_270, unknown_transform, swaps_axes, forward, upright,
}

-- Every pixel of the upright image lies within the buffer.
pub forward-within :
    (t : Transform) (x y bw bh : ℕ)
    → x < (upright t bw bh).0
    → y < (upright t bw bh).1
    → ((forward t x y (upright t bw bh).0 (upright t bw bh).1).0 < bw)
      × ((forward t x y (upright t bw bh).0 (upright t bw bh).1).1 < bh)
unfolding forward swaps_axes
forward-within normal x y bw bh hx hy = (hx, hy)
forward-within rotated_90 x y bw bh hx hy = (omega arith, omega arith)
forward-within rotated_180 x y bw bh hx hy = (omega arith, omega arith)
forward-within rotated_270 x y bw bh hx hy = (omega arith, omega arith)
forward-within flipped x y bw bh hx hy = (omega arith, omega arith)
forward-within flipped_90 x y bw bh hx hy = (omega arith, omega arith)
forward-within flipped_180 x y bw bh hx hy = (omega arith, omega arith)
forward-within flipped_270 x y bw bh hx hy = (omega arith, omega arith)
forward-within unknown_transform x y bw bh hx hy = (hx, hy)

-- Two pixels of the upright image that lie at one place of the buffer are the same.
pub forward_injective :
    (t : Transform) (x y x' y' lw lh : ℕ)
    → x < lw
    → y < lh
    → x' < lw
    → y' < lh
    → forward t x y lw lh ≡ forward t x' y' lw lh
    → (x ≡ x') × (y ≡ y')
unfolding forward
forward_injective normal x y x' y' lw lh hx hy hx' hy' e = (ap (λ q. q.0) e, ap (λ q. q.1) e)
forward_injective rotated_90 x y x' y' lw lh hx hy hx' hy' e =
    (omega (arith, ap (λ q. q.1) e), ap (λ q. q.0) e)
forward_injective rotated_180 x y x' y' lw lh hx hy hx' hy' e =
    (omega (arith, ap (λ q. q.0) e), omega (arith, ap (λ q. q.1) e))
forward_injective rotated_270 x y x' y' lw lh hx hy hx' hy' e =
    (ap (λ q. q.1) e, omega (arith, ap (λ q. q.0) e))
forward_injective flipped x y x' y' lw lh hx hy hx' hy' e =
    (omega (arith, ap (λ q. q.0) e), ap (λ q. q.1) e)
forward_injective flipped_90 x y x' y' lw lh hx hy hx' hy' e = (ap (λ q. q.1) e, ap (λ q. q.0) e)
forward_injective flipped_180 x y x' y' lw lh hx hy hx' hy' e =
    (ap (λ q. q.0) e, omega (arith, ap (λ q. q.1) e))
forward_injective flipped_270 x y x' y' lw lh hx hy hx' hy' e =
    (omega (arith, ap (λ q. q.1) e), omega (arith, ap (λ q. q.0) e))
forward_injective unknown_transform x y x' y' lw lh hx hy hx' hy' e =
    (ap (λ q. q.0) e, ap (λ q. q.1) e)
