-- ===== src/Ptr/Assign.antt =====
-- `operator=` from one pointer that the program holds to another.
use jule.Common.{ℕ, ◌≡◌, inl, inr, refl, ap, ◌∙◌, not, ◌&&◌, List, ◌∷◌, ◌==◌, arith, Bool-cases}
use jule.Memory.{Memory, done}
use jule.Ptr.{Ptr, assign}
use jule.Ptr.Handles.{refs, Take, refs-Take, length-Take, All-Take}
use jule.Ptr.Ownership.{Owns, Good, Live, counted}
use jule.Ptr.Release.{dealloc-Owns}
use jule.Ptr.Acquire.{get_copy-Owns}

module _ {T : Type 0} {pair : ℕ → ℕ} {m : Memory T} {p : Ptr} {hs ks : List Ptr}
    (o : Owns pair m hs) (t : Take p hs ks) where
  refs_front : (c : ℕ) → refs c hs ≡ refs c (p ∷ ks)
  refs_front c = refs-Take c t

  front : (c : ℕ) → Live c hs → Live c (p ∷ ks)
  front c (nz, l) = (nz, omega (arith, refs_front c))

  back : (c : ℕ) → Live c (p ∷ ks) → Live c hs
  back c (nz, l) = (nz, omega (arith, refs_front c))

  -- The order of the pointers does not matter.
  Owns-front : Owns pair m (p ∷ ks)
  Owns-front = record {
    counts_refs = λ c nz. o.counts_refs c nz ∙ ap counted (refs_front c);
    handles = All-Take (Good pair) t o.handles;
    alive = λ c l. o.alive c (back c l);
    owned = λ a h. let (c, l, e) = o.owned a h in (c, front c l, e);
    apart = λ c d l k. o.apart c d (back c l) (back d k);
    few = omega (arith, length-Take t, o.few);
  }

  -- After an assignment from a held pointer the pointer has the source's address, and all pointers
  -- own the memory after it: the old block is released, and the new one kept.
  pub assign-Owns :
      (src : Ptr) (ls : List Ptr)
      → Take src ks ls
      → (q : Ptr) × (m' : Memory T) × (assign p src m ≡ done q m')
        × Owns pair m' (q ∷ ks)
        × (q.alloc ≡ src.alloc)
  unfolding assign
  assign-Owns src ls s = elim (Bool-cases (not (p.alloc == 0) && p.alloc == src.alloc)) [
    | inl same ↦ (p, m, rw same, Owns-front, ground arith)
    | inr other ↦
        let (m1, run1, o1) = dealloc-Owns o t in
        let (m2, run2, o2) = get_copy-Owns o1 s (omega (arith, length-Take t, o.few)) in
        (src, m2, rw (other, run1) run2, o2, refl)
  ]
