-- ===== src/Any/Equality.antt =====
-- Comparing two `any` values.
use jule.Common.{
  ℕ, ◌≡◌, ◌≢◌, refl, ap, Bool, true, false, ◌==◌, Option, none, some, Option-cases, inl, inr, arith,
}
use native.Mathlib.Decide.{ℕ_discrete}
use jule.Memory.{Memory, Cmd, undefined}
use jule.Any.{Any, is_nil, equal}

module _ {V : Type 0} (eq : ℕ → Option (ℕ → ℕ → Cmd V Bool)) where
  -- If the comparison of every type takes its operands in either order, then so does that of two
  -- values, undefined behaviour included.
  equal_comm :
      ((type : ℕ) (f : ℕ → ℕ → Cmd V Bool) → eq type ≡ some f → (x y : ℕ) → f x y ≡ f y x)
      → (a b : Any) → equal eq a b ≡ equal eq b a
  unfolding equal is_nil
  equal_comm either a b = elim (ℕ_discrete a.type b.type) [
    | yes ty ↦ elim (Option-cases (eq a.type)) [
      | inl no_eq ↦ ground (arith, ap eq ty)
      | inr (f, found) ↦
          ground (arith, ap eq ty, either a.type f found a.memory.alloc b.memory.alloc)
    ]
    | no other ↦ ground arith
  ]

  -- Two values of one type that point to different blocks, neither nil, cannot be compared where the
  -- type has no comparison: the behaviour is undefined.
  equal_undefined :
      (a b : Any) (m : Memory V)
      → a.memory.alloc ≢ 0
      → b.memory.alloc ≢ 0
      → a.memory.alloc ≢ b.memory.alloc
      → a.type ≡ b.type
      → eq a.type ≡ none
      → equal eq a b m ≡ undefined
  unfolding equal is_nil
  equal_undefined a b m na nb ne same no_eq =
      let x : (a.memory.alloc == 0) ≡ false = ground arith in
      let y : (b.memory.alloc == 0) ≡ false = ground arith in
      let z : (a.memory.alloc == b.memory.alloc) ≡ false = ground arith in
      let w : (a.type == b.type) ≡ true = ground arith in rw (x, y, z, w, no_eq) refl
