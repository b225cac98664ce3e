-- ===== src/Ptr/Interleaving.antt =====
-- Every order of the steps of threads that copy and destroy pointers to one block.
use jule.Common.{
  ℕ, ◌<◌, ◌≡◌, ◌≢◌, ◌⊎◌, refl, sym, subst, ap, ◌∙◌, none, some, List, [], ◌∷◌, All, arith,
}
use jule.Memory.{Memory, done}
use jule.Ptr.{Ptr}
use jule.Ptr.Threads.{
  Phase, held, finished, dealloc_step, Turn, total, least-Turn, Crowd, crowd, is_held, Move,
  advance, share, Moves, stay, next,
}
use jule.Ptr.Phases.{
  is_last, is_half, steps_left, Exact, shared, last, half, freed, Goes, Goes-Exact, share-Exact,
}

total-finished :
    (f : Phase → ℕ)
    → f finished ≡ 0
    → (hs : List Phase) → All (λ a. a ≡ finished) hs
    → total f hs ≡ 0
total-finished f z [] h = refl
total-finished f z (a ∷ hs) (e, h) = omega (arith, ap f e, z, total-finished f z hs h)

done_inj : {T A : Type 0} {a b : A} {m n : Memory T} → done a m ≡ done b n → (a ≡ b) × (m ≡ n)
done_inj h = (cc, cc)

module _ {T : Type 0} (p : Ptr) (counted : p.ref ≢ 0) (block : p.alloc ≢ 0) where
  Move-Exact : {w u : Crowd T} → Move p w u → Exact p w.memory w.phases → Exact p u.memory u.phases
  unfolding Goes
  Move-Exact {w} (advance {a} {hs} t run) x =
      let (b, m, e, _, next_exact) = Goes-Exact p counted block a t x in
      let (same_phase, same_memory) = done_inj (sym e ∙ run) in
      subst (λ n. Exact p n hs) same_memory
        (next_exact hs (subst (λ c. Turn a c w.phases hs) (sym same_phase) t))
  Move-Exact {w} (share t few run) x =
      let (m, e, y) = share-Exact p counted block (omega (arith, least-Turn is_held t)) few x in
      subst (λ n. Exact p n (held ∷ w.phases)) (done_inj (sym e ∙ run)).1 y

  Moves-Exact :
      {w u : Crowd T} → Moves p w u → Exact p w.memory w.phases → Exact p u.memory u.phases
  Moves-Exact stay x = x
  Moves-Exact (next r s) x = Move-Exact s (Moves-Exact r x)

  gone :
      {m : Memory T} {hs : List Phase}
      → Exact p m hs
      → All (λ a. a ≡ finished) hs
      → (m.counts p.ref ≡ none) × (m.blocks p.alloc ≡ none)
  gone {hs} (shared v h r l d e f) all =
      absurd (omega (arith, h, total-finished is_held refl hs all))
  gone {hs} (last v n h l d e f) all = absurd (omega (arith, l, total-finished is_last refl hs all))
  gone {hs} (half v h l d e f) all = absurd (omega (arith, d, total-finished is_half refl hs all))
  gone (freed h l d e f) all = (e, f)

  -- Threads share a block, whose address and counter are not null, from one held pointer on.
  -- Whatever the order of their atomic steps, as pointers are copied and destroyed: the next step
  -- of every destruction is defined, and leaves it fewer steps unless it is finished; and when all
  -- destructions are finished, both the counter and the block are freed.
  pub threads_safe :
      {m : Memory T} {w : Crowd T} (v : T)
      → m.counts p.ref ≡ some 1
      → m.blocks p.alloc ≡ some v
      → Moves p (crowd m (held ∷ [])) w
      → ((a : Phase)
          → Turn a a w.phases w.phases
          → (b : Phase) × (m' : Memory T) × (dealloc_step p a w.memory ≡ done b m')
            × ((a ≡ finished) ⊎ (steps_left b < steps_left a)))
        × (All (λ a. a ≡ finished) w.phases
            → (w.memory.counts p.ref ≡ none) × (w.memory.blocks p.alloc ≡ none))
  unfolding Goes
  threads_safe v one full r =
      let x = Moves-Exact r (shared v (omega arith) (omega arith) refl refl one full) in
      (
        λ a t. let (b, m', e, fewer, _) = Goes-Exact p counted block a t x in (b, m', e, fewer),
        gone x,
      )
