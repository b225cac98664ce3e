-- ===== src/Uncounted.antt =====
-- The build without reference counting (`__JULE_DISABLE__REFERENCE_COUNTING`, api/*.hpp): the
-- operations that differ from the build with it. No counter is made, so that no block is freed.
pub mod Program
use jule.Common.{ℕ, ◌+◌, ◌*◌, List, false, ◌==◌, if◌then◌else◌, replicate}
use jule.Memory.{Cmd, pure, stop, put_block, ◌>>=◌, ◌>>◌}
use jule.Panic.{memory_allocation_failed}
use jule.Ptr
use jule.Ptr.{Ptr, ptr, nil}
use jule.Slice
use jule.Slice.{Slice, nil_slice, place, is_nil}
use jule.Any
use jule.Any.{Any}
use jule.Trait
use jule.Trait.{Trait}
use jule.Common.Int.{ℤ}

-- `Ptr::make(ptr)`
pub make_counted : ℕ → Ptr
make_counted p = ptr p 0

-- `Ptr::as<T2>()`
pub as_counted : Ptr → Ptr
as_counted p = ptr p.alloc p.ref

module _ {T : Type 0} where
  -- `Ptr::make(instance)`; `fresh` is what `new T` returns.
  unfoldable pub make_instance : (fresh : ℕ) → T → Cmd T Ptr
  unfolding Ptr.make_instance_with
  make_instance fresh instance' = Ptr.make_instance_with fresh instance' 0

  -- `new_ptr(init)`
  pub new_ptr_of : (fresh : ℕ) → T → Cmd T Ptr
  unfolding Ptr.make_instance_with
  new_ptr_of fresh init = Ptr.make_instance_with fresh init 0

  -- `p = Ptr::make(alloc, nullptr)`: the temporary pointer is destroyed behind the assignment.
  pub adopt : Ptr → ℕ → Cmd T Ptr
  unfolding Ptr.assign Ptr.dealloc
  adopt p alloc = do d ← Ptr.assign p (ptr alloc 0); Ptr.dealloc (ptr alloc 0); pure d

  -- `Any(data, type)` and `Trait(data, type_offset)`, `type` being the table of the type.
  pub make_any : (fresh : ℕ) → T → (type : ℕ) → Cmd T Any
  unfolding adopt
  make_any fresh data' type =
      if fresh == 0
      then stop memory_allocation_failed
      else do put_block fresh data'; d ← adopt nil fresh; pure (Any.any d type)

  pub make_trait : (fresh : ℕ) → T → (type : ℕ) → ℤ → Cmd T Trait
  unfolding adopt
  make_trait fresh data' type type_offset = if fresh == 0 then stop memory_allocation_failed else do
    put_block fresh data'
    d ← adopt nil fresh
    pure (Trait.trait d type type_offset false)

module _ {A : Type 0} where
  -- `Slice::dealloc`
  pub dealloc_slice : Slice → Cmd (List A) Slice
  unfolding Ptr.dealloc
  dealloc_slice s = do d ← Ptr.dealloc s.memory; pure (record s { memory = d; len = 0; cap = 0 })

  -- `Slice::alloc_new(len, cap)`
  pub alloc_new : A → (fresh : ℕ) → Slice → ℕ → ℕ → Cmd (List A) Slice
  unfolding dealloc_slice adopt
  alloc_new blank fresh s len cap = do
    t ← dealloc_slice s
    if fresh == 0 then stop memory_allocation_failed else do
      put_block fresh (replicate cap blank)
      d ← adopt t.memory fresh
      pure (record { memory = d; items = place fresh 0; len = len; cap = cap })
