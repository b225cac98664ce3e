-- ===== src/Fn.antt =====
-- api/fn.hpp: `jule::Fn<Function>`, a function and its address. `target` is the address that
-- `std::function::target` finds in a function, if it does.
use jule.Common.{ℕ, Bool, true, false, not, Option, none, some, ◌==◌, if◌then◌else◌}
use jule.Panic.{Outcome, panic, invalid_memory}

-- `buffer`, which may be empty, and `_addr`; `none` is an address that is not set yet.
pub record Fn {ℓ κ} (A : Type ℓ) (B : Type κ) : Type (ℓ ⊔ κ) where
  pub buffer : Option (A → Outcome B)
  pub address : Option ℕ

module _ {ℓ κ} {A : Type ℓ} {B : Type κ} where
  -- `Fn()` and `Fn(nullptr)`
  abbrev pub nil_fn : Fn A B
  nil_fn = record { buffer = none; address = none }

  -- `addr_of_fn(f)`
  pub addr_of_fn : ((A → Outcome B) → Option ℕ) → (A → Outcome B) → ℕ
  addr_of_fn target f = elim (target f) [ none ↦ 0 | some a ↦ a ]

  -- `Fn(function)`; `place` is `&function`, and for a pointer to a function the pointer.
  pub from_function : ((A → Outcome B) → Option ℕ) → (place : ℕ) → (A → Outcome B) → Fn A B
  unfolding addr_of_fn
  from_function target place f =
      let a = addr_of_fn target f in
      record { buffer = some f; address = some (if a == 0 then place else a) }

  -- `call(arguments...)`, which is `operator()`.
  unfoldable pub call : Fn A B → A → Outcome B
  call f arguments = elim f.buffer [ none ↦ panic invalid_memory | some g ↦ g arguments ]

  -- `operator=(nullptr)` and `operator=(function)`
  pub assign_nil : Fn A B → Fn A B
  assign_nil f = record f { buffer = none }

  pub assign_function : Fn A B → (A → Outcome B) → Fn A B
  assign_function f g = record f { buffer = some g }

  -- `operator==(nullptr)`
  pub is_nil : Fn A B → Bool
  is_nil f = elim f.buffer [ none ↦ true | some g ↦ false ]

  -- `operator!=(nullptr)`, and `addr`
  pub not_nil : Fn A B → Bool
  unfolding is_nil
  not_nil f = not (is_nil f)

  pub addr : Fn A B → Option ℕ
  addr f = f.address
