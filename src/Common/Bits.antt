-- ===== src/Common/Bits.antt =====
-- Masks and joins of machine words as arithmetic, and tables that evaluation checks.
mod Digits
mod Join
mod Mask
mod Xor
use Prim.Native.Nat.{ℕ, zero, suc, ◌<◌}
use mathlib.Core.Path.{◌≡◌}
use mathlib.Core.Bool.{Bool, true, ◌&&◌}
use native.Mathlib.Omega.{arith}
use jule.Common.Tests.{◌==◌, ==_iff}
pub use Join.*
pub use Mask.*
pub use Xor.*

-- Whether two functions have the same table of `n` entries.
unfoldable pub same_table : (n : ℕ) (f g : ℕ → ℕ) → Bool
same_table zero f g = true
same_table (suc n) f g = f n == g n && same_table n f g

-- Functions with the same table agree at each of its entries.
pub agree : (n : ℕ) (f g : ℕ → ℕ) → same_table n f g ≡ true → (k : ℕ) → k < n → f k ≡ g k
unfolding same_table
agree zero f g same k inside = absurd (omega arith)
agree (suc n) f g same k inside = ground (arith, (==_iff (f n) (g n)).0, agree n f g _ k)
