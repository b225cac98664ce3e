-- ===== src/Unchecked/Values.antt =====
-- Pointers, `any` and trait values without the tests for null and for the type (api/ptr.hpp,
-- api/any.hpp, api/trait.hpp). A cast reads the block as it is; what C++ makes of its bytes in another type is not
-- modelled.
use jule.Common.{ℕ, true, false, not, ◌==◌}
use jule.Common.Int.{ℤ}
use jule.Memory.{Cmd, pure, load_block}
use jule.Panic.{invalid_memory, incompatible_type}
use jule.Ptr
use jule.Ptr.{Ptr}
use jule.Any
use jule.Any.{Any}
use jule.Trait
use jule.Trait.{Trait}
use jule.Unchecked.Keeps.{Keeps, Keeps-refl, Keeps-test, Keeps-guard}

module _ {V : Type 0} where
  -- `Ptr::ptr()` and `Ptr::get()`
  pub checked_ptr : Ptr → Cmd V ℕ
  checked_ptr p = pure p.alloc

  pub get : Ptr → Cmd V V
  get p = load_block p.alloc

  -- `Any::cast<T>(type)` and `Any::cast_ptr<T>(type)`
  pub any_cast : Any → ℕ → Cmd V V
  any_cast a type = load_block a.memory.alloc

  pub any_cast_ptr : Any → Cmd V Ptr
  unfolding Ptr.as_counted
  any_cast_ptr a = Ptr.as_counted a.memory

  -- `Trait::safe_ptr<T>()`, `Trait::cast<T>(type_offset)` and `Trait::cast_ptr<T>(type_offset)`
  pub safe_ptr : Trait → Cmd V ℕ
  safe_ptr a = pure a.memory.alloc

  pub trait_cast : Trait → ℤ → Cmd V V
  trait_cast a type_offset = load_block a.memory.alloc

  pub trait_cast_ptr : Trait → Cmd V Ptr
  unfolding Ptr.as_counted
  trait_cast_ptr a = Ptr.as_counted a.memory

  pub Ptr-Keeps :
      (p : Ptr)
      → Keeps (Ptr.checked_ptr {T = V} p) (checked_ptr p) × Keeps (Ptr.get {T = V} p) (get p)
  unfolding Ptr.checked_ptr Ptr.get Ptr.must_ok checked_ptr get
  Ptr-Keeps p = (
    Keeps-test (p.alloc == 0) invalid_memory tt _ (checked_ptr p) (Keeps-refl (checked_ptr p)),
    Keeps-test (p.alloc == 0) invalid_memory tt _ (get p) (Keeps-refl (get p)),
  )

  pub Any-Keeps :
      (a : Any) (type : ℕ)
      → Keeps (Any.cast {V = V} a type) (any_cast a type)
        × Keeps (Any.cast_ptr {V = V} a type) (any_cast_ptr a)
  unfolding Any.cast Any.cast_ptr Any.must_ok any_cast any_cast_ptr
  Any-Keeps a type = (
    Keeps-test (Any.is_nil a) invalid_memory tt _ _
        (Keeps-guard (not (a.type == type)) incompatible_type _ _ (Keeps-refl (any_cast a type))),
    Keeps-test (Any.is_nil a) invalid_memory tt _ _
        (Keeps-guard (not (a.type == type)) incompatible_type _ _ (Keeps-refl (any_cast_ptr a))),
  )

  pub Trait-Keeps :
      (a : Trait) (type_offset : ℤ)
      → Keeps (Trait.safe_ptr {V = V} a) (safe_ptr a)
        × Keeps (Trait.cast {V = V} a type_offset) (trait_cast a type_offset)
        × Keeps (Trait.cast_ptr {V = V} a type_offset) (trait_cast_ptr a)
  unfolding Trait.safe_ptr Trait.cast Trait.cast_ptr Trait.must_ok safe_ptr trait_cast
      trait_cast_ptr
  Trait-Keeps a type_offset = (
    Keeps-test (Trait.is_nil a) invalid_memory tt _ _ (Keeps-refl (safe_ptr a)),
    Keeps-test (Trait.is_nil a) invalid_memory tt _ _ (
        Keeps-guard (not (Trait.type_is a false type_offset)) incompatible_type _ _
          (Keeps-refl (trait_cast a type_offset))),
    Keeps-test (Trait.is_nil a) invalid_memory tt _ _ (
        Keeps-guard (not (Trait.type_is a true type_offset)) incompatible_type _ _
          (Keeps-refl (trait_cast_ptr a))),
  )
