-- ===== src/Platform/Widths.antt =====
-- The width of the integers that hold an address.
use jule.Common.{ℕ, ◌%◌, ◌^◌, ◌<◌, ◌≡◌, ◌↔◌, Bool, Bool-cases, inl, inr, if◌then◌else◌, arith}
use jule.Platform.{Macro, x64, int_width}

-- An address that is cast to `Uintptr` is read back exactly when it fits the width that the
-- preprocessor found: below 2 ^ 64 with `ARCH_X64`, below 2 ^ 32 without.
pub int_width-address :
    (defined : Macro → Bool) (address : ℕ)
    → (address % 2 ^ int_width defined ≡ address)
      ↔ (address < (if x64 defined then 2 ^ 64 else 2 ^ 32))
unfolding int_width
int_width-address defined address = elim (Bool-cases (x64 defined)) [
  | inl wide ↦ rw wide ((λ e. omega arith), λ h. omega arith)
  | inr narrow ↦ rw narrow ((λ e. omega arith), λ h. omega arith)
]
