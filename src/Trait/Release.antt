-- ===== src/Trait/Release.antt =====
-- Destroying a trait value, and assigning to it.
use jule.Common.{ℕ, ◌≡◌, refl, ap, true, false, ◌==◌, List, ◌∷◌, arith}
use native.Mathlib.Decide.{ℕ_discrete}
use jule.Memory.{Memory, done}
use jule.Ptr
use jule.Ptr.{Ptr, nil}
use jule.Ptr.Handles.{Take, length-Take}
use jule.Ptr.Ownership.{Owns, dealloc_null}
use jule.Ptr.Release.{dealloc-Owns}
use jule.Ptr.Acquire.{get_copy-Owns}
use jule.Trait.{Trait, nil_trait, dynamic_dealloc, dealloc, assign, assign_self}

-- A value without a type holds no pointer.
abbrev pub Good : Trait → Type 0
Good a = a.type ≡ 0 → a.memory ≡ nil

module _ {V : Type 0} {pair : ℕ → ℕ} {m : Memory V} (a : Trait) {hs ks : List Ptr}
    (o : Owns pair m hs) (t : Take a.memory hs ks) (good : Good a) where
  trait_dealloc-Owns : (m' : Memory V) × (dealloc a m ≡ done nil_trait m') × Owns pair m' ks
  unfolding dealloc dynamic_dealloc Ptr.as_uncounted Ptr.dealloc
  trait_dealloc-Owns = elim (ℕ_discrete a.type 0) [
    | yes none ↦
        let untyped : (a.type == 0) ≡ true = ground arith in
        (m, rw untyped refl, dealloc_null o t (ap (λ p. p.ref) (good none)))
    | no typed ↦
        let has_type : (a.type == 0) ≡ false = ground arith in
        let (m', run, o') = dealloc-Owns o t in (m', rw (has_type, run) refl, o')
  ]

  -- Where the counters are exact, for a held value that holds no pointer if it has no type:
  -- destroying it ends as nil and releases its pointer; assigning another held value to it gives
  -- that value; and assigning it to itself makes it nil. The counters are exact for the pointers
  -- held afterwards.
  pub trait_assign-Owns :
      {src : Trait} {ls : List Ptr}
      → Take src.memory ks ls
      → ((m' : Memory V) × (dealloc a m ≡ done nil_trait m') × Owns pair m' ks)
        × ((m' : Memory V) × (assign a src m ≡ done src m') × Owns pair m' (src.memory ∷ ks))
        × ((m' : Memory V) × (assign_self a m ≡ done nil_trait m') × Owns pair m' ks)
  unfolding assign assign_self Ptr.assign Ptr.dealloc Ptr.get_copy
  trait_assign-Owns {src} s =
      let (m1, run1, o1) = trait_dealloc-Owns in
      let (m2, run2, o2) = get_copy-Owns o1 s (omega (arith, length-Take t, o.few)) in
      ((m1, run1, o1), (m2, rw run1 (rw run2 refl), o2), (m1, rw run1 refl, o1))
