-- ===== src/Uncounted/Program.antt =====
-- Programs over pointers without counters, as sequences of steps: make, copy, assign and destroy.
use jule.Common.{
  ℕ, ◌≡◌, ◌⊎◌, inl, inr, refl, sym, ap, ◌∙◌, subst, none, some, true, List, [], ◌∷◌, All, ◌==◌, not,
  ◌&&◌, Bool-cases, arith,
}
use jule.Memory.{Memory, done, put, put_same, put_other, put_block, load_block-some}
use jule.Ptr
use jule.Ptr.{Ptr, ptr, nil}
use jule.Ptr.Handles.{Take, All-Take}
use jule.Ptr.Program.{World, world, start}
use jule.Uncounted.{make_instance}

-- `new` returns addresses that are not in use.
pub data Step {T : Type 0} (w : World T) : World T → Type 0 where
  make :
      (fa : ℕ) (v : T) {p : Ptr} {m : Memory T}
      → w.memory.blocks fa ≡ none
      → make_instance fa v w.memory ≡ done p m
      → Step w (world m (p ∷ w.held))
  copy :
      {p q : Ptr} {ks : List Ptr} {m : Memory T}
      → Take p w.held ks
      → Ptr.get_copy p w.memory ≡ done q m
      → Step w (world m (q ∷ w.held))
  reassign :
      {p src q : Ptr} {ks ls : List Ptr} {m : Memory T}
      → Take p w.held ks
      → Take src ks ls
      → Ptr.assign p src w.memory ≡ done q m
      → Step w (world m (q ∷ ks))
  destroy :
      {p q : Ptr} {ks : List Ptr} {m : Memory T}
      → Take p w.held ks
      → Ptr.dealloc p w.memory ≡ done q m
      → Step w (world m ks)

pub data Reach {T : Type 0} (w : World T) : World T → Type 0 where
  here : Reach w w
  next : {u v : World T} → Reach w u → Step u v → Reach w v

-- A pointer without a counter, null or to an allocated block.
abbrev pub IsLive : {T : Type 0} → Memory T → Ptr → Type 0
IsLive {T} m p = (p.ref ≡ 0) × ((p.alloc ≡ 0) ⊎ ((v : T) × (m.blocks p.alloc ≡ some v)))

-- What is allocated stays so, with its value; the counters stay as they were.
abbrev pub Keeps : {T : Type 0} → Memory T → Memory T → Type 0
Keeps {T} m n =
    ((a : ℕ) (v : T) → m.blocks a ≡ some v → n.blocks a ≡ some v) × (n.counts ≡ m.counts)

module _ {T : Type 0} (m : Memory T) where
  done_inj : {p q : Ptr} {n k : Memory T} → done p n ≡ done q k → (p ≡ q) × (n ≡ k)
  done_inj h = (cc, cc)

  get_copy-uncounted : (p : Ptr) → p.ref ≡ 0 → Ptr.get_copy p m ≡ done p m
  unfolding Ptr.get_copy
  get_copy-uncounted p e = let z : (p.ref == 0) ≡ true = ground arith in rw z refl

  dealloc-uncounted : (p : Ptr) → p.ref ≡ 0 → Ptr.dealloc p m ≡ done (record p { alloc = 0 }) m
  unfolding Ptr.dealloc
  dealloc-uncounted p e = let z : (p.ref == 0) ≡ true = ground arith in rw z refl

  -- An assignment gives the pointer itself, or the source.
  assign-uncounted :
      (p src : Ptr)
      → IsLive m p
      → IsLive m src
      → (q : Ptr) × (Ptr.assign p src m ≡ done q m) × IsLive m q × (q.alloc ≡ src.alloc)
  unfolding Ptr.assign
  assign-uncounted p src live live_src =
      elim (Bool-cases (not (p.alloc == 0) && p.alloc == src.alloc)) [
        | inl same ↦ (p, rw same refl, live, ground arith)
        | inr other ↦ (
          src,
          rw other (rw (dealloc-uncounted p live.0) (get_copy-uncounted src live_src.0)),
          live_src,
          refl,
        )
      ]

module _ {T : Type 0} where
  Keeps-refl : (m : Memory T) → Keeps m m
  Keeps-refl m = ((λ a v e. e), refl)

  -- Live pointers stay live.
  All-Keeps : {m n : Memory T} (hs : List Ptr) → Keeps m n → All (IsLive m) hs → All (IsLive n) hs
  All-Keeps [] k h = tt
  All-Keeps (p ∷ hs) k ((z, inl null), h) = ((z, inl null), All-Keeps hs k h)
  All-Keeps (p ∷ hs) k ((z, inr (v, e)), h) = ((z, inr (v, k.0 p.alloc v e)), All-Keeps hs k h)

  make_instance-Keeps :
      {p : Ptr} {m n : Memory T} (fa : ℕ) (v : T)
      → m.blocks fa ≡ none
      → make_instance fa v m ≡ done p n
      → IsLive n p × Keeps m n
  unfolding make_instance Ptr.make_instance_with put_block
  make_instance-Keeps {p} {m} {n} fa v free run = elim (Bool-cases (fa == 0)) [
    | inl null ↦ absurd (ground (arith, rw null at run))
    | inr there ↦
        let after : Memory T = record m { blocks = put m.blocks fa (some v) } in
        let (same, mem) = done_inj m (rw there at run) in
        let made : IsLive after (ptr fa 0) = (refl, inr (v, put_same m.blocks fa (some v))) in
        let kept : Keeps m after = (
          (λ a w e.
              put_other m.blocks fa a (some v)
                (λ s. ground (arith, sym free ∙ ap m.blocks (sym s) ∙ e))
              ∙ e),
          refl,
        ) in
        rw (← same, ← mem) (made, kept)
  ]

  moved :
      {p q : Ptr} {m n : Memory T} (ks : List Ptr)
      → All (IsLive m) (p ∷ ks)
      → done p m ≡ done q n
      → All (IsLive n) (q ∷ ks) × Keeps m n
  moved {p} {m} {n} ks h e =
      let (same, mem) = done_inj m e in
      let kept : Keeps m n = subst (λ k. Keeps m k) mem (Keeps-refl m) in
      let (live, rest) = All-Keeps (p ∷ ks) kept h in
      ((subst (λ r. IsLive n r) same live, rest), kept)

  Step-Live :
      {w u : World T}
      → Step w u
      → All (IsLive w.memory) w.held
      → All (IsLive u.memory) u.held × Keeps w.memory u.memory
  Step-Live {w} (make fa v free run) h =
      let (live, kept) = make_instance-Keeps fa v free run in
      ((live, All-Keeps w.held kept h), kept)
  Step-Live {w} (copy {p} t run) h =
      let (live, _) = All-Take (IsLive w.memory) t h in
      moved w.held (live, h) (sym (get_copy-uncounted w.memory p live.0) ∙ run)
  Step-Live {w} (reassign {p} {src} {ks} t s run) h =
      let (live, rest) = All-Take (IsLive w.memory) t h in
      let (live_src, _) = All-Take (IsLive w.memory) s rest in
      let (q, assigned, live_q, _) = assign-uncounted w.memory p src live live_src in
      moved ks (live_q, rest) (sym assigned ∙ run)
  Step-Live {w} (destroy {p} {ks} t run) h =
      let (live, rest) = All-Take (IsLive w.memory) t h in
      let ((_, rest'), kept) =
        moved ks ((live.0, inl refl), rest) (sym (dealloc-uncounted w.memory p live.0) ∙ run) in
      (rest', kept)

  Keeps-trans : (m n k : Memory T) → Keeps m n → Keeps n k → Keeps m k
  Keeps-trans m n k (b, c) (b', c') = ((λ a v e. b' a v (b a v e)), c' ∙ c)

  Reach-Live :
      {w u : World T}
      → Reach w u
      → All (IsLive w.memory) w.held
      → All (IsLive u.memory) u.held × Keeps w.memory u.memory
  Reach-Live {w} here h = (h, Keeps-refl w.memory)
  Reach-Live {w} (next {u} {v} r s) h =
      let (live, kept) = Reach-Live r h in
      let (live', kept') = Step-Live s live in
      (live', Keeps-trans w.memory u.memory v.memory kept kept')

  -- In every state that a program without reference counting reaches, and from there on: a held
  -- pointer has no counter and is null or can be read through `get`, no counter is ever allocated,
  -- and what is allocated is never freed or changed.
  pub nothing_freed :
      {w u : World T} {p : Ptr} {ks : List Ptr}
      → Reach start w
      → Reach w u
      → Take p u.held ks
      → (p.ref ≡ 0)
        × ((p.alloc ≡ 0) ⊎ ((v : T) × (Ptr.get p u.memory ≡ done v u.memory)))
        × ((c : ℕ) → u.memory.counts c ≡ none)
        × ((a : ℕ) (v : T) → w.memory.blocks a ≡ some v → u.memory.blocks a ≡ some v)
  unfolding Ptr.get Ptr.must_ok
  nothing_freed {w} {u} {p} r r' t =
      let (live_w, kept_w) = Reach-Live r tt in
      let (live_u, kept_u) = Reach-Live r' live_w in
      let ((z, live), _) = All-Take (IsLive u.memory) t live_u in
      (
        z,
        elim live [
          | inl null ↦ inl null
          | inr (v, e) ↦ elim (Bool-cases (p.alloc == 0)) [
            | inl null ↦ inl (ground arith)
            | inr there ↦ inr (v, rw there (load_block-some u.memory p.alloc v e))
          ]
        ],
        (λ c. ap (λ f. f c) (kept_u.1 ∙ kept_w.1)),
        kept_u.0,
      )
