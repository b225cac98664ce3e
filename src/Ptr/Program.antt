-- ===== src/Ptr/Program.antt =====
-- Programs over counted pointers, as sequences of steps: make, copy, assign and destroy.
use jule.Common.{
  ℕ, ◌+◌, ◌^◌, ◌<◌, ◌≡◌, ◌≢◌, ◌⊎◌, inl, inr, refl, sym, ap, ◌∙◌, none, some, Option-cases, true,
  false, List, [], ◌∷◌, length, ◌==◌, arith,
}
use native.Mathlib.Decide.{ℕ_discrete}
use jule.Memory.{Memory, done, load_block-some}
use jule.Ptr.{Ptr, nil, make_instance, get_copy, assign, dealloc, get}
use jule.Ptr.Handles.{refs, Take, refs-Take, All-Take}
use jule.Ptr.Ownership.{Owns, Good, counted, is_some}
use jule.Ptr.Release.{dealloc-Owns, some_of}
use jule.Ptr.Acquire.{make_instance-Owns, get_copy-Owns}
use jule.Ptr.Assign.{assign-Owns}

pub record World (T : Type 0) : Type 0 where
  pub memory : Memory T
  pub held : List Ptr

abbrev pub world : {T : Type 0} → Memory T → List Ptr → World T
world m hs = record { memory = m; held = hs }

-- Nothing is allocated and no pointer is held.
abbrev pub start : {T : Type 0} → World T
start = world (record { blocks = λ a. none; counts = λ c. none }) []

-- `new` returns addresses that are not in use. There are fewer pointers than a counter can count.
pub data Step {T : Type 0} (w : World T) : World T → Type 0 where
  make :
      (fr fa : ℕ) (v : T) {p : Ptr} {m : Memory T}
      → fr ≢ 0
      → fa ≢ 0
      → w.memory.counts fr ≡ none
      → w.memory.blocks fa ≡ none
      → length w.held + 1 < 2 ^ 64
      → make_instance fr fa v w.memory ≡ done p m
      → Step w (world m (p ∷ w.held))
  copy :
      {p q : Ptr} {ks : List Ptr} {m : Memory T}
      → Take p w.held ks
      → length w.held + 1 < 2 ^ 64
      → get_copy p w.memory ≡ done q m
      → Step w (world m (q ∷ w.held))
  reassign :
      {p src q : Ptr} {ks ls : List Ptr} {m : Memory T}
      → Take p w.held ks
      → Take src ks ls
      → assign p src w.memory ≡ done q m
      → Step w (world m (q ∷ ks))
  destroy :
      {p q : Ptr} {ks : List Ptr} {m : Memory T}
      → Take p w.held ks
      → dealloc p w.memory ≡ done q m
      → Step w (world m ks)

pub data Reach {T : Type 0} (w : World T) : World T → Type 0 where
  here : Reach w w
  next : {u v : World T} → Reach w u → Step u v → Reach w v

abbrev pub IsSafe : {T : Type 0} → World T → Type 0
IsSafe w = (pair : ℕ → ℕ) × Owns pair w.memory w.held

done_inj : {T : Type 0} {p q : Ptr} {m n : Memory T} → done p m ≡ done q n → (p ≡ q) × (m ≡ n)
done_inj h = (cc, cc)

moved :
    {T : Type 0} {pair : ℕ → ℕ} {p q : Ptr} {m n : Memory T} (ks : List Ptr)
    → Owns pair m (p ∷ ks)
    → done p m ≡ done q n
    → Owns pair n (q ∷ ks)
moved ks o h = let (a, b) = done_inj h in rw (← a, ← b) o

Step-IsSafe : {T : Type 0} {w u : World T} → Step w u → IsSafe w → IsSafe u
Step-IsSafe {w} (make fr fa v a b c d room run) (pair, o) =
    let (m, e, o', _) = make_instance-Owns o room fr fa v a b c d in
    (_, moved w.held o' (sym e ∙ run))
Step-IsSafe {w} (copy t room run) (pair, o) =
    let (m, e, o') = get_copy-Owns o t room in (pair, moved w.held o' (sym e ∙ run))
Step-IsSafe (reassign {src} {ks} {ls} t s run) (pair, o) =
    let (q, m, e, o', _) = assign-Owns o t src ls s in (pair, moved ks o' (sym e ∙ run))
Step-IsSafe (destroy t run) (pair, o) =
    let (m, e, o') = dealloc-Owns o t in (pair, rw (← (done_inj (sym e ∙ run)).1) o')

start-IsSafe : {T : Type 0} → IsSafe (start {T = T})
start-IsSafe = (
  λ c. c,
  record {
    counts_refs = λ c nz. refl;
    handles = tt;
    alive = λ c l. absurd (omega (arith, l.1));
    owned = λ a h. cc;
    apart = λ c d l k e. e;
    few = omega arith;
  },
)

-- Reference counting is exact in every state that a program of makes, copies, assignments and
-- destructions reaches: a counter is allocated just when a held pointer names it, and then holds
-- the number of those pointers; every held pointer is null without a counter or points to an
-- allocated block, the one of its counter; every allocated block belongs to one counter that is
-- in use.
pub Reach-IsSafe : {T : Type 0} {w : World T} → Reach start w → IsSafe w
Reach-IsSafe here = start-IsSafe
Reach-IsSafe (next r s) = Step-IsSafe s (Reach-IsSafe r)

module _ {T : Type 0} {w : World T} (r : Reach start w) where
  -- The block of a held pointer that is not null is allocated.
  pub held_block :
      {p : Ptr} {ks : List Ptr}
      → Take p w.held ks
      → p.alloc ≢ 0
      → (v : T) × (w.memory.blocks p.alloc ≡ some v)
  held_block {p} t ne =
      let (pair, o) = Reach-IsSafe r in
      elim (All-Take (Good pair) t o.handles).0 [
        | inl (_, z) ↦ absurd (ne z)
        | inr (nz, e, _) ↦
            let live : is_some (w.memory.blocks (pair p.ref)) ≡ true =
              o.alive p.ref (nz, ground (arith, refs-Take p.ref t)) in
            some_of (w.memory.blocks p.alloc) (rw e live)
      ]

  held_readable :
      {p : Ptr} {ks : List Ptr}
      → Take p w.held ks
      → p.alloc ≢ 0
      → (v : T) × (get p w.memory ≡ done v w.memory)
  unfolding get
  held_readable {p} t ne =
      let (v, found) = held_block t ne in
      let not_null : (p.alloc == 0) ≡ false = ground arith in
      (v, rw (not_null) (load_block-some w.memory p.alloc v found))

  -- In every state that a program reaches, with two held pointers and room for one more
  -- reference, destroying the first ends as null, copying it gives the same pointer, assigning the
  -- second to it gives a pointer to the second's block, and `get` of the first gives a value and
  -- leaves the memory as it is unless the pointer is null: no panic, and no use of freed memory.
  pub held_usable :
      {p src : Ptr} {ks ls : List Ptr}
      → Take p w.held ks
      → Take src ks ls
      → length w.held + 1 < 2 ^ 64
      → ((m : Memory T) × (dealloc p w.memory ≡ done nil m))
        × ((m : Memory T) × (get_copy p w.memory ≡ done p m))
        × ((q : Ptr) × (m : Memory T) × (assign p src w.memory ≡ done q m) × (q.alloc ≡ src.alloc))
        × ((p.alloc ≡ 0) ⊎ ((v : T) × (get p w.memory ≡ done v w.memory)))
  held_usable {p} {src} {ls} t s room =
      let (pair, o) = Reach-IsSafe r in
      let (m1, e1, _) = dealloc-Owns o t in
      let (m2, e2, _) = get_copy-Owns o t room in
      let (q, m3, e3, _, a) = assign-Owns o t src ls s in
      (
        (m1, e1),
        (m2, e2),
        (q, m3, e3, a),
        elim (ℕ_discrete p.alloc 0) [ yes null ↦ inl null | no ne ↦ inr (held_readable t ne) ],
      )

  -- In a state that a program reaches and that holds no pointer nothing is allocated: no block,
  -- and no counter.
  pub nothing_leaks :
      w.held ≡ [] → (a : ℕ) → a ≢ 0 → (w.memory.blocks a ≡ none) × (w.memory.counts a ≡ none)
  nothing_leaks e a nz =
      let (pair, o) = Reach-IsSafe r in
      let zero_refs : (c : ℕ) → refs c w.held ≡ 0 = λ c. ap (refs c) e in
      (
        elim (Option-cases (w.memory.blocks a)) [
          | inl gone ↦ gone
          | inr (v, there) ↦
              let (c, l, _) = o.owned a (ap is_some there) in
              absurd (omega (arith, l.1, zero_refs c))
        ],
        o.counts_refs a nz ∙ ap counted (zero_refs a),
      )
