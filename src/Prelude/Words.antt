-- ===== src/Prelude/Words.antt =====
-- Machine words. A `usize` or `u64` is a number below `u64_mod`; the operations say which of
-- wrapping (plain `+` in a release build) and saturating arithmetic the source uses.
use Prim.Native.Nat.{ℕ, ◌+◌, ◌-◌, ◌*◌, ◌%◌, ◌^◌, ◌≤◌, min}
use native.Mathlib.Omega.{arith}

unfoldable pub u64_mod : ℕ
u64_mod = 2 ^ 64

unfoldable pub u64_max : ℕ
unfolding u64_mod
u64_max = u64_mod - 1

unfoldable pub wrapping_add : ℕ → ℕ → ℕ
wrapping_add a b = (a + b) % u64_mod

unfoldable pub wrapping_mul : ℕ → ℕ → ℕ
wrapping_mul a b = (a * b) % u64_mod

unfoldable pub saturating_add : ℕ → ℕ → ℕ
saturating_add a b = min (a + b) u64_max

pub saturating_add-le-max : (a b : ℕ) → saturating_add a b ≤ u64_max
unfolding saturating_add
saturating_add-le-max a b = omega arith
