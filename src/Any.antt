-- ===== src/Any.antt =====
-- api/any.hpp: values of any type, a counted pointer beside the address of a type's table. The
-- compiler writes the tables (src/julec/obj/cxx/object.jule); an entry `.eq` that it leaves out is a
-- null pointer.
pub mod Release
pub mod Values
pub mod Assign
pub mod Equality
use jule.Common.{ℕ, ◌-◌, Bool, true, false, not, ◌&&◌, Option, none, some, ◌==◌, if◌then◌else◌}
use jule.Memory.{Memory, Cmd, pure, stop, undef, ◌>>=◌, ◌>>◌, put_block, load_block}
use jule.Panic.{memory_allocation_failed, invalid_memory, incompatible_type}
use jule.Ptr
use jule.Ptr.{Ptr, nil}

-- `data` and `type`; type 0 is the null pointer.
pub record Any : Type 0 where
  pub memory : Ptr
  pub type : ℕ

abbrev pub any : Ptr → ℕ → Any
any p t = record { memory = p; type = t }

-- `Any()` and `Any(nullptr)`
abbrev pub nil_any : Any
nil_any = any nil 0

-- `operator==(nullptr)`
pub is_nil : Any → Bool
is_nil a = a.memory.alloc == 0

-- `operator!=(nullptr)`
pub not_nil : Any → Bool
unfolding is_nil
not_nil a = not (is_nil a)

module _ {V : Type 0} where
  -- The `dealloc` of a type's table, `alloc.__as<T>().dealloc()`: the temporary pointer releases,
  -- and then its destructor runs.
  unfoldable pub type_dealloc : Ptr → Cmd V (Unit {0})
  unfolding Ptr.as_uncounted
  type_dealloc alloc = do
    temporary ← Ptr.dealloc (Ptr.as_uncounted alloc)
    Ptr.dealloc {T = V} temporary
    pure tt

  -- `dealloc`, which is also the destructor and `operator=(nullptr)`.
  pub dealloc : Any → Cmd V Any
  unfolding type_dealloc
  dealloc a = if a.type == 0 then pure nil_any else do type_dealloc a.memory; pure nil_any

  -- `Any(data, type)`; `fresh` and `fresh_ref` are what `new T` and `new Uint` return.
  pub make : (fresh fresh_ref : ℕ) → V → ℕ → Cmd V Any
  unfolding Ptr.adopt
  make fresh fresh_ref v type =
      if fresh == 0
      then stop memory_allocation_failed
      else do put_block fresh v; d ← Ptr.adopt fresh_ref nil fresh; pure (any d type)

  -- `Any(ref, type)`
  pub make_ptr : Ptr → ℕ → Cmd V Any
  make_ptr ref type = do
    temporary ← Ptr.as_counted ref
    d ← Ptr.assign nil temporary
    Ptr.dealloc {T = V} temporary
    pure (any d type)

  -- The copy constructor, member by member.
  pub copy : Any → Cmd V Any
  copy src = do d ← Ptr.copy src.memory; pure (any d src.type)

  -- `operator=(src)`, where `src` is another object.
  pub assign : Any → Any → Cmd V Any
  unfolding dealloc
  assign a src = do t ← dealloc a; d ← Ptr.assign t.memory src.memory; pure (any d src.type)

  -- `operator=(src)`, where `src` is the object itself, and so as `dealloc` left it.
  pub assign_self : Any → Cmd V Any
  unfolding dealloc
  assign_self a = do t ← dealloc a; d ← Ptr.assign t.memory t.memory; pure (any d t.type)

  -- `must_ok`
  unfoldable pub must_ok : Any → Cmd V (Unit {0})
  unfolding is_nil
  must_ok a = if is_nil a then stop invalid_memory else pure tt

  -- `cast<T>(type)`
  unfoldable pub cast : Any → ℕ → Cmd V V
  unfolding must_ok
  cast a type = do
    must_ok a
    if not (a.type == type) then stop incompatible_type else load_block a.memory.alloc

  -- `cast_ptr<T>(type)`
  unfoldable pub cast_ptr : Any → ℕ → Cmd V Ptr
  unfolding must_ok
  cast_ptr a type = do
    must_ok a
    if not (a.type == type) then stop incompatible_type else Ptr.as_counted a.memory

module _ {V : Type 0} (eq : ℕ → Option (ℕ → ℕ → Cmd V Bool)) where
  -- `operator==(other)`
  pub equal : Any → Any → Cmd V Bool
  unfolding is_nil
  equal a other =
      if not (a.memory.alloc == 0) && a.memory.alloc == other.memory.alloc
      then pure true
      else if is_nil a
      then pure (is_nil other)
      else if is_nil other
      then pure false
      else if not (a.type == other.type)
      then pure false
      else elim (eq a.type) [ none ↦ undef | some f ↦ f a.memory.alloc other.memory.alloc ]

  -- `operator!=(other)`
  pub not_equal : Any → Any → Cmd V Bool
  unfolding equal
  not_equal a other = do e ← equal a other; pure (not e)

-- `VoidExceptional`, and `Exceptional<T>` beside its result.
pub record VoidExceptional : Type 0 where
  pub error : Any

pub record Exceptional {ℓ} (T : Type ℓ) : Type ℓ where
  pub error : Any
  pub result : T

-- `ok`
pub void_ok : VoidExceptional → Bool
unfolding is_nil
void_ok e = is_nil e.error

pub ok {ℓ} : {T : Type ℓ} → Exceptional T → Bool
unfolding is_nil
ok e = is_nil e.error
