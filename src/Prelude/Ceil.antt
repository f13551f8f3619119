-- ===== src/Prelude/Ceil.antt =====
-- `math.ceil(a / b)` and `-(a // -b)` on numbers: the least `q` with `a ≤ q * b`.
use Prim.Native.Nat.{ℕ, ◌+◌, ◌-◌, ◌*◌, ◌/◌, ◌≤◌, ◌<◌}
use native.Mathlib.Omega.{arith}

unfoldable pub ceil_div : ℕ → ℕ → ℕ
ceil_div a b = (a + b - 1) / b

module _ (a b : ℕ) (positive : 0 < b) where
  pub le-ceil_div : a ≤ ceil_div a b * b
  unfolding ceil_div
  le-ceil_div = grind arith

  pub ceil_div-lt : ceil_div a b * b < a + b
  unfolding ceil_div
  ceil_div-lt = grind arith

-- No fewer suffices.
pub ceil_div-least : (a b q : ℕ) → 0 < b → a ≤ q * b → ceil_div a b ≤ q
ceil_div-least a b q h fits = grind (arith, ceil_div-lt a b h)
