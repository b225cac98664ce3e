-- ===== src/Any/Assign.antt =====
-- Assigning one `any` to another, and to itself.
use jule.Common.{ℕ, ◌≡◌, refl, List, ◌∷◌, arith}
use jule.Memory.{Memory, done}
use jule.Ptr
use jule.Ptr.{Ptr, nil, get_copy}
use jule.Ptr.Handles.{Take, length-Take}
use jule.Ptr.Ownership.{Owns}
use jule.Ptr.Acquire.{get_copy-Owns}
use jule.Any.{Any, any, nil_any, assign, assign_self}
use jule.Any.Release.{Good, any_dealloc-Owns}

module _ {V : Type 0} {pair : ℕ → ℕ} {m : Memory V} {a : Any} {hs ks : List Ptr}
    (o : Owns pair m hs) (t : Take a.memory hs ks) where
  -- Where the counters are exact, for a held value that holds no pointer if it has no type:
  -- assigning another held value to it gives one with the source's pointer and type; and assigning
  -- it to itself makes it nil and releases its pointer. The counters are exact for the pointers
  -- held afterwards.
  pub any-assign-Owns :
      {src : Any} {ls : List Ptr}
      → Take src.memory ks ls
      → Good a
      → ((m' : Memory V) × (assign a src m ≡ done (any src.memory src.type) m')
          × Owns pair m' (src.memory ∷ ks))
        × ((m' : Memory V) × (assign_self a m ≡ done nil_any m') × Owns pair m' ks)
  unfolding assign assign_self Ptr.assign Ptr.dealloc Ptr.get_copy
  any-assign-Owns {src} s good =
      let (m1, run1, o1) = any_dealloc-Owns o t good in
      let (m2, run2, o2) = get_copy-Owns o1 s (omega (arith, length-Take t, o.few)) in
      ((m2, rw run1 (rw run2 refl), o2), (m1, rw run1 refl, o1))
