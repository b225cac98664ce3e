-- ===== src/Ptr.antt =====
-- api/ptr.hpp: the reference-counted pointer `jule::Ptr<T>` over the heap. A method that changes
-- the pointer returns it. A cast between pointer types keeps both addresses.
pub mod Handles
pub mod Ownership
pub mod Release
pub mod Acquire
pub mod Assign
pub mod Program
pub mod Fresh
pub mod Finish
pub mod Threads
pub mod Phases
pub mod Interleaving
use jule.Common.{ℕ, ◌+◌, ◌-◌, ◌^◌, Bool, true, false, not, ◌&&◌, ◌==◌, if◌then◌else◌}
use jule.Memory.{
  Memory, Cmd, pure, stop, ◌>>=◌, ◌>>◌, put_block, put_count, load_block, load_count, fetch_add,
  delete_block, delete_count,
}
use jule.Panic.{memory_allocation_failed, invalid_memory}

abbrev pub reference_delta : ℕ
reference_delta = 1

pub record Ptr : Type 0 where
  pub alloc : ℕ
  pub ref : ℕ

abbrev pub ptr : ℕ → ℕ → Ptr
ptr a c = record { alloc = a; ref = c }

-- `Ptr()` and `Ptr(nullptr)`
abbrev pub nil : Ptr
nil = ptr 0 0

-- `make(ptr, ref)`
pub make_with : ℕ → ℕ → Ptr
make_with p ref = ptr p ref

module _ {T : Type 0} where
  -- `make(ptr)`; `fresh` is what `new jule::Uint` returns.
  unfoldable pub make_counted : (fresh : ℕ) → ℕ → Cmd T Ptr
  make_counted fresh p =
      if fresh == 0
      then stop memory_allocation_failed
      else do put_count fresh reference_delta; pure (ptr p fresh)

  -- `make(instance, ref)`; `fresh` is what `new T` returns.
  unfoldable pub make_instance_with : (fresh : ℕ) → T → ℕ → Cmd T Ptr
  make_instance_with fresh instance' ref =
      if fresh == 0
      then stop memory_allocation_failed
      else do put_block fresh instance'; pure (ptr fresh ref)

  -- `make(instance)`
  unfoldable pub make_instance : (fresh_ref fresh : ℕ) → T → Cmd T Ptr
  unfolding make_instance_with
  make_instance fresh_ref fresh instance' =
      if fresh_ref == 0
      then stop memory_allocation_failed
      else do put_count fresh_ref reference_delta; make_instance_with fresh instance' fresh_ref

  -- `drop_ref`: the delta is added as the wrapped negative number.
  unfoldable pub drop_ref : Ptr → Cmd T ℕ
  drop_ref p = fetch_add p.ref (2 ^ 64 - reference_delta)

  unfoldable pub add_ref : Ptr → Cmd T ℕ
  add_ref p = fetch_add p.ref reference_delta

  unfoldable pub get_ref_n : Ptr → Cmd T ℕ
  get_ref_n p = load_count p.ref

  -- `__get_copy(src)`: what the pointer becomes.
  unfoldable pub get_copy : Ptr → Cmd T Ptr
  unfolding add_ref
  get_copy src =
      if src.ref == 0
      then pure (ptr src.alloc src.ref)
      else do add_ref src; pure (ptr src.alloc src.ref)

  -- `Ptr(src)`
  unfoldable pub copy : Ptr → Cmd T Ptr
  unfolding get_copy
  copy src = get_copy src

  -- `__free`
  unfoldable pub free : Ptr → Cmd T Ptr
  free p = do delete_count p.ref; delete_block p.alloc; pure nil

  -- `dealloc`, which is also the destructor.
  unfoldable pub dealloc : Ptr → Cmd T Ptr
  unfolding drop_ref free
  dealloc p =
      if p.ref == 0
      then pure (record p { alloc = 0 })
      else do n ← drop_ref p; if not (n == reference_delta) then pure nil else free p

  -- `operator=(src)`: the pointer after it. A source that is the pointer itself has an equal
  -- address, or is null with it.
  unfoldable pub assign : Ptr → Ptr → Cmd T Ptr
  unfolding dealloc get_copy
  assign p src =
      if not (p.alloc == 0) && p.alloc == src.alloc then pure p else do dealloc p; get_copy src

  -- `p = Ptr::make(alloc)`: the temporary pointer is destroyed behind the assignment.
  unfoldable pub adopt : (fresh_ref : ℕ) → Ptr → ℕ → Cmd T Ptr
  unfolding make_counted assign dealloc
  adopt fresh_ref p alloc = do
    temporary ← make_counted fresh_ref alloc
    d ← assign p temporary
    dealloc temporary
    pure d

  -- `as<T2>()`
  unfoldable pub as_counted : Ptr → Cmd T Ptr
  unfolding add_ref
  as_counted p =
      if p.ref == 0 then pure (ptr p.alloc p.ref) else do add_ref p; pure (ptr p.alloc p.ref)

  -- `must_ok`
  unfoldable pub must_ok : Ptr → Cmd T (Unit {0})
  must_ok p = if p.alloc == 0 then stop invalid_memory else pure tt

  -- `ptr()`, which is `operator->`
  unfoldable pub checked_ptr : Ptr → Cmd T ℕ
  unfolding must_ok
  checked_ptr p = do must_ok p; pure p.alloc

  -- A read of `get()`, which is `operator*`.
  unfoldable pub get : Ptr → Cmd T T
  unfolding must_ok
  get p = do must_ok p; load_block p.alloc

-- `Ptr(Ptr &&src)`: the new pointer, and the source after it.
unfoldable pub move : Ptr → Ptr × Ptr
move src = (ptr src.alloc src.ref, record src { ref = 0 })

-- `__as<T2>()`
unfoldable pub as_uncounted : Ptr → Ptr
as_uncounted p = ptr p.alloc p.ref

-- `operator==(nullptr)`
unfoldable pub is_nil : Ptr → Bool
is_nil p = p.alloc == 0

-- `ptr_equal`, and `operator==`
pub ptr_equal : ℕ → ℕ → Bool
ptr_equal a b = a == b

pub equal : Ptr → Ptr → Bool
unfolding ptr_equal
equal p q = ptr_equal p.alloc q.alloc

-- `operator!=(nullptr)`, and `operator!=`
pub not_nil : Ptr → Bool
unfolding is_nil
not_nil p = not (is_nil p)

pub not_equal : Ptr → Ptr → Bool
unfolding equal
not_equal p q = not (equal p q)

-- `Ptr(T *)`, and the conversions to an address.
pub from_address : ℕ → Ptr
from_address src = record nil { alloc = src }

pub address : Ptr → ℕ
address p = p.alloc

-- `new_ptr()`, with the value `T()`, and `new_ptr(init)`.
pub new_ptr : {T : Type 0} → T → (fresh_ref fresh : ℕ) → Cmd T Ptr
unfolding make_instance
new_ptr blank fresh_ref fresh = make_instance fresh_ref fresh blank

pub new_ptr_of : {T : Type 0} → (fresh_ref fresh : ℕ) → T → Cmd T Ptr
unfolding make_instance
new_ptr_of fresh_ref fresh init = make_instance fresh_ref fresh init
