-- ===== src/Panic.antt =====
-- api/panic.hpp and api/error.hpp: a panic ends the process, so an operation returns a value or
-- the panic that it stopped with. The text of a panic is modelled for the index errors (`Error`).
use jule.Common.{ℕ}
use jule.Common.Int.{ℤ}

pub data Panic : Type 0 where
  index_out_of_range : ℤ → ℕ → Panic
  slicing_out_of_range : ℤ → ℤ → ℕ → Panic
  negative_length : Panic
  negative_capacity : Panic
  length_over_capacity : Panic
  invalid_memory : Panic
  incompatible_type : Panic
  divide_by_zero : Panic
  memory_allocation_failed : Panic

pub data Outcome {ℓ} (A : Type ℓ) : Type ℓ where
  ok : A → Outcome A
  panic : Panic → Outcome A

infixl 5 ◌>>=◌
abbrev pub ◌>>=◌ {ℓ κ} : {A : Type ℓ} {B : Type κ} → Outcome A → (A → Outcome B) → Outcome B
ok a >>= f = f a
panic p >>= f = panic p
