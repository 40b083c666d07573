-- ===== src/Prelude/Words.antt =====
-- Sums of `usize`, which wrap at 2^64 in a release build.
use Prim.Native.Nat.{ℕ, ◌+◌, ◌%◌, ◌^◌, ◌<◌}
use mathlib.Core.Path.{◌≡◌}
use native.Mathlib.Omega.{arith}

unfoldable pub usize_add : ℕ → ℕ → ℕ
usize_add a b = (a + b) % 2 ^ 64

-- A sum that fits does not wrap.
pub usize_add-fits : (a b : ℕ) → a + b < 2 ^ 64 → usize_add a b ≡ a + b
unfolding usize_add
usize_add-fits a b h = omega arith
