-- ===== src/Std/Thread.antt =====
-- std/thread/thread.hpp: the handle of a thread, a counted pointer to a `std::thread`.
pub mod Counting
use jule.Common.{ℕ, true, false, ◌==◌, if◌then◌else◌}
use jule.Memory.{Cmd, pure, ◌>>=◌, ◌>>◌, put_block}
use jule.Ptr
use jule.Ptr.{Ptr, nil}

pub record ThreadHandle : Type 0 where
  pub thread : Ptr

abbrev pub handle : Ptr → ThreadHandle
handle p = record { thread = p }

module _ {T : Type 0} where
  -- The copy constructor and `operator=(jth)`.
  pub copy : ThreadHandle → Cmd T ThreadHandle
  unfolding Ptr.assign
  copy jth = do p ← Ptr.assign nil jth.thread; pure (handle p)

  pub assign : ThreadHandle → ThreadHandle → Cmd T ThreadHandle
  unfolding Ptr.assign
  assign h jth = do p ← Ptr.assign h.thread jth.thread; pure (handle p)

  -- `drop`
  pub drop : ThreadHandle → Cmd T ThreadHandle
  unfolding Ptr.dealloc
  drop h = do p ← Ptr.dealloc h.thread; pure (handle p)

  -- `ref_count`
  pub ref_count : ThreadHandle → Cmd T ℕ
  unfolding Ptr.get_ref_n
  ref_count h = if h.thread.ref == 0 then pure 0 else Ptr.get_ref_n h.thread

  -- `__jule_spawn_thread(routine)`, `thread` being the `std::thread` that runs the routine, and
  -- `fresh` and `fresh_ref` what `new` returns.
  pub spawn : (fresh fresh_ref : ℕ) → T → Cmd T ThreadHandle
  unfolding Ptr.adopt
  spawn fresh fresh_ref thread = do
    put_block fresh thread
    p ← Ptr.adopt fresh_ref nil fresh
    pure (handle p)
