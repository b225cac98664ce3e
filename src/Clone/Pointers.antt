-- ===== src/Clone/Pointers.antt =====
-- The clone of a counted pointer.
use jule.Common.{
  ℕ, ◌+◌, ◌^◌, ◌<◌, ◌≡◌, ◌≢◌, sym, ap, ◌∙◌, false, none, some, List, ◌∷◌, length, ◌==◌, arith,
}
use jule.Memory.{Memory, done, load_block-some}
use jule.Ptr
use jule.Ptr.{Ptr, ptr}
use jule.Ptr.Handles.{Take}
use jule.Ptr.Acquire.{make_instance-Owns, make_instance-others}
use jule.Ptr.Program.{World, world, start, Reach, next, make, Reach-IsSafe, held_block}
use jule.Clone.{clone_ptr}

module _ {T : Type 0} (clone : T → T) {w : World T} (r : Reach start w) where
  -- In every state that a program reaches, the clone of a held pointer that is not null, where `new`
  -- returns addresses that are not null and not in use and there is room for one more reference: a
  -- pointer to a block of its own with the clone of the value, while the block of the first keeps
  -- its value, in a state that a program reaches too.
  pub clone_ptr-Reach :
      {p : Ptr} {ks : List Ptr}
      → Take p w.held ks
      → p.alloc ≢ 0
      → (fr fa : ℕ) → fr ≢ 0
      → fa ≢ 0
      → w.memory.counts fr ≡ none
      → w.memory.blocks fa ≡ none
      → length w.held + 1 < 2 ^ 64
      → (v : T) × (m : Memory T) × (w.memory.blocks p.alloc ≡ some v)
        × (clone_ptr clone fr fa p w.memory ≡ done (ptr fa fr) m)
        × (m.blocks fa ≡ some (clone v))
        × (m.blocks p.alloc ≡ some v)
        × Reach start (world m (ptr fa fr ∷ w.held))
  unfolding clone_ptr Ptr.is_nil Ptr.get
  clone_ptr-Reach {p} t ne fr fa fr_ne fa_ne no_count no_block room =
      let (pair, o) = Reach-IsSafe r in
      let (v, found) = held_block r t ne in
      let (m, run, _, block) =
        make_instance-Owns o room fr fa (clone v) fr_ne fa_ne no_count no_block in
      let not_null : (p.alloc == 0) ≡ false = ground arith in
      let apart : p.alloc ≢ fa = λ e. ground (arith, sym found ∙ ap w.memory.blocks e ∙ no_block) in
      (
        v,
        m,
        found,
        rw not_null (rw (load_block-some w.memory p.alloc v found) run),
        block,
        make_instance-others o room fr fa (clone v) fr_ne fa_ne no_count no_block p.alloc run apart
            ∙ found,
        next r (make fr fa (clone v) fr_ne fa_ne no_count no_block room run),
      )
