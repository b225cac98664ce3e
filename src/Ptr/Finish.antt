-- ===== src/Ptr/Finish.antt =====
-- Every program over counted pointers can end: its pointers are destroyed one after the other.
use jule.Common.{ℕ, ◌≡◌, ◌≢◌, refl, none, List, [], ◌∷◌}
use jule.Memory.{Memory, done}
use jule.Ptr.{Ptr, dealloc}
use jule.Ptr.Handles.{Take, here}
use jule.Ptr.Ownership.{Owns}
use jule.Ptr.Release.{dealloc-Owns}
use jule.Ptr.Program.{World, world, start, destroy, Reach, Reach-IsSafe, nothing_leaks}

-- The states that destructions of held pointers lead to.
pub data Destroyed {T : Type 0} (w : World T) : World T → Type 0 where
  stay : Destroyed w w
  next :
      {u : World T} {p q : Ptr} {ks : List Ptr} {m : Memory T}
      → Destroyed w u
      → Take p u.held ks
      → dealloc p u.memory ≡ done q m
      → Destroyed w (world m ks)

module _ {T : Type 0} where
  -- Destructions are steps of a program.
  Reach-Destroyed : {u v w : World T} → Reach u v → Destroyed v w → Reach u w
  Reach-Destroyed r stay = r
  Reach-Destroyed r (next s t run) = Reach.next (Reach-Destroyed r s) (destroy t run)

  Destroyed-trans : {u v w : World T} → Destroyed u v → Destroyed v w → Destroyed u w
  Destroyed-trans r stay = r
  Destroyed-trans r (next s t run) = next (Destroyed-trans r s) t run

  -- Destroying the pointers from the first to the last.
  destroy_all :
      {pair : ℕ → ℕ} (hs : List Ptr) (m : Memory T)
      → Owns pair m hs
      → (m' : Memory T) × Destroyed (world m hs) (world m' [])
  destroy_all [] m o = (m, stay)
  destroy_all (p ∷ hs) m o =
      let (m1, run, o1) = dealloc-Owns o here in
      let (m2, r) = destroy_all hs m1 o1 in (m2, Destroyed-trans (next stay here run) r)

-- From every state that a program reaches, destructions of held pointers, which all succeed, lead
-- to a state that holds no pointer, and there nothing is allocated: no block, and no counter.
pub can_finish :
    {T : Type 0} {w : World T}
    → Reach start w
    → (u : World T) × Destroyed w u
      × (u.held ≡ [])
      × ((a : ℕ) → a ≢ 0 → (u.memory.blocks a ≡ none) × (u.memory.counts a ≡ none))
can_finish {w} r =
    let (pair, o) = Reach-IsSafe r in
    let (m', s) = destroy_all w.held w.memory o in
    (world m' [], s, refl, nothing_leaks (Reach-Destroyed r s) refl)
