-- ===== src/Std/Dynar.antt =====
-- std/internal/dynar/dynar.hpp: the buffer of a dynamic array, which frees nothing itself.
pub mod Copying
use jule.Common.{ℕ, Bool, true, false, not, ◌&&◌, List, ◌==◌, if◌then◌else◌, replicate}
use jule.Memory.{Cmd, pure, stop, ◌>>=◌, ◌>>◌, put_block}
use jule.Panic.{memory_allocation_failed}
use jule.Slice.{place, copy_items}

pub record DynarBuffer : Type 0 where
  pub heap : ℕ
  pub len : ℕ
  pub cap : ℕ

-- `DynarBuffer()`
abbrev pub empty_buffer : DynarBuffer
empty_buffer = record { heap = 0; len = 0; cap = 0 }

module _ {A : Type 0} (blank : A) where
  -- `operator=(ref)`; `fresh` is what `new Item[ref.len]` returns.
  pub assign : (fresh : ℕ) → DynarBuffer → DynarBuffer → Cmd (List A) DynarBuffer
  assign fresh buffer ref =
      if not (buffer.heap == 0) && buffer.heap == ref.heap
      then pure buffer
      else if fresh == 0
      then stop memory_allocation_failed
      else do
        put_block fresh (replicate ref.len blank)
        copy_items ref.len 0 (place ref.heap 0) (place fresh 0)
        pure (record { heap = fresh; len = ref.len; cap = ref.len })

  -- `DynarBuffer(ref)`
  pub copy : (fresh : ℕ) → DynarBuffer → Cmd (List A) DynarBuffer
  unfolding assign
  copy fresh ref = assign fresh empty_buffer ref
