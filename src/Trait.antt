-- ===== src/Trait.antt =====
-- api/trait.hpp: trait values, a counted pointer beside the address of a type's table, the number of
-- the type, and whether the value is a smart pointer.
pub mod Release
pub mod Values
use jule.Common.{ℕ, Bool, true, false, not, ◌&&◌, ◌==◌, if◌then◌else◌}
use jule.Common.Int.{ℤ, negsuc, eq_int}
use jule.Memory.{Memory, Cmd, pure, stop, ◌>>=◌, ◌>>◌, put_block, load_block}
use jule.Panic.{memory_allocation_failed, invalid_memory, incompatible_type}
use jule.Ptr
use jule.Ptr.{Ptr, nil}

-- `data`, `type`, `type_offset` and `ptr`; type 0 is the null pointer.
pub record Trait : Type 0 where
  pub memory : Ptr
  pub type : ℕ
  pub type_offset : ℤ
  pub is_ptr : Bool

abbrev pub trait : Ptr → ℕ → ℤ → Bool → Trait
trait p t o b = record { memory = p; type = t; type_offset = o; is_ptr = b }

-- `Trait()` and `Trait(nullptr)`
abbrev pub nil_trait : Trait
nil_trait = trait nil 0 (negsuc 0) false

-- `operator==(nullptr)`
pub is_nil : Trait → Bool
is_nil a = a.memory.alloc == 0

-- `operator==(src)`
pub equal : Trait → Trait → Bool
equal a src = a.memory.alloc == src.memory.alloc

-- `operator!=(nullptr)`, and `operator!=(src)`
pub not_nil : Trait → Bool
unfolding is_nil
not_nil a = not (is_nil a)

pub not_equal : Trait → Trait → Bool
unfolding equal
not_equal a src = not (equal a src)

-- `type_is`
unfoldable pub type_is : Trait → Bool → ℤ → Bool
type_is a is_ptr type_offset =
    (if a.is_ptr then is_ptr else not is_ptr) && eq_int a.type_offset type_offset

module _ {V : Type 0} where
  -- `DynamicType<T>::dealloc`: the temporary pointer releases, and then its destructor runs.
  unfoldable pub dynamic_dealloc : Ptr → Cmd V (Unit {0})
  unfolding Ptr.as_uncounted
  dynamic_dealloc alloc = do
    temporary ← Ptr.dealloc (Ptr.as_uncounted alloc)
    Ptr.dealloc {T = V} temporary
    pure tt

  -- `dealloc`, which is also the destructor and `operator=(nullptr)`.
  pub dealloc : Trait → Cmd V Trait
  unfolding dynamic_dealloc
  dealloc a = if a.type == 0 then pure nil_trait else do dynamic_dealloc a.memory; pure nil_trait

  -- `Trait(data, type_offset)`; `type` is the address that `new_type<T>` gives, `fresh` and
  -- `fresh_ref` are what `new T` and `new Uint` return.
  pub make : (fresh fresh_ref : ℕ) → V → ℕ → ℤ → Cmd V Trait
  unfolding Ptr.adopt
  make fresh fresh_ref v type type_offset = if fresh == 0 then stop memory_allocation_failed else do
    put_block fresh v
    d ← Ptr.adopt fresh_ref nil fresh
    pure (trait d type type_offset false)

  -- `Trait(ref, type_offset)`
  pub make_ptr : Ptr → ℕ → ℤ → Cmd V Trait
  make_ptr ref type type_offset = do
    temporary ← Ptr.as_counted ref
    d ← Ptr.assign nil temporary
    Ptr.dealloc {T = V} temporary
    pure (trait d type type_offset true)

  -- `operator=(src)`, where `src` is another object.
  pub assign : Trait → Trait → Cmd V Trait
  unfolding dealloc
  assign a src = do
    t ← dealloc a
    d ← Ptr.assign t.memory src.memory
    pure (trait d src.type src.type_offset src.is_ptr)

  -- `operator=(src)`, where `src` is the object itself, and so as `dealloc` left it.
  pub assign_self : Trait → Cmd V Trait
  unfolding dealloc
  assign_self a = do
    t ← dealloc a
    d ← Ptr.assign t.memory t.memory
    pure (trait d t.type t.type_offset t.is_ptr)

  -- `must_ok`
  unfoldable pub must_ok : Trait → Cmd V (Unit {0})
  unfolding is_nil
  must_ok a = if is_nil a then stop invalid_memory else pure tt

  -- `safe_ptr<T>()`
  unfoldable pub safe_ptr : Trait → Cmd V ℕ
  unfolding must_ok
  safe_ptr a = do must_ok a; pure a.memory.alloc

  -- `cast<T>(type_offset)`
  unfoldable pub cast : Trait → ℤ → Cmd V V
  unfolding must_ok type_is
  cast a type_offset = do
    must_ok a
    if not (type_is a false type_offset) then stop incompatible_type else load_block a.memory.alloc

  -- `cast_ptr<T>(type_offset)`
  unfoldable pub cast_ptr : Trait → ℤ → Cmd V Ptr
  unfolding must_ok type_is
  cast_ptr a type_offset = do
    must_ok a
    if not (type_is a true type_offset) then stop incompatible_type else Ptr.as_counted a.memory
