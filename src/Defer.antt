-- ===== src/Defer.antt =====
-- api/defer.hpp: a block that is put off to the end of the scope around it. `__JULE_DEFER(BLOCK)`
-- declares an object whose destructor runs the block. The state `S` is all that blocks may change.
use jule.Common.{Option, none, some}
use jule.Panic.{Outcome}

pub record DeferBase (S : Type 0) : Type 0 where
  pub scope : Option (S → Outcome S)

module _ {S : Type 0} where
  -- `DeferBase()` and `DeferBase(fn)`
  abbrev pub empty_defer : DeferBase S
  empty_defer = record { scope = none }

  abbrev pub defer_base : (S → Outcome S) → DeferBase S
  defer_base fn = record { scope = some fn }

  -- `~DeferBase()`; `none` is the call of an empty `std::function`, which ends the process.
  unfoldable pub destroy : DeferBase S → S → Option (Outcome S)
  destroy d st = elim d.scope [ none ↦ none | some fn ↦ some (fn st) ]
