-- ===== src/Ptr/Phases.antt =====
-- What the block and its counter are while threads copy and destroy the pointers to it, and that every
-- step keeps to it.
use jule.Common.{
  ℕ, ◌+◌, ◌-◌, ◌%◌, ◌^◌, ◌<◌, ◌≡◌, ◌≢◌, ◌⊎◌, inl, inr, refl, sym, subst, ap, ◌∙◌, true, false, none,
  some, List, ◌∷◌, ◌==◌, if◌then◌else◌, arith,
}
use native.Mathlib.Decide.{ℕ_discrete}
use jule.Memory.{Memory, done, fetch_add-some, delete_count-some, delete_block-some, put, put_same}
use jule.Ptr
use jule.Ptr.{Ptr, reference_delta, get_copy}
use jule.Ptr.Threads.{
  Phase, held, dropped, count_gone, finished, dealloc_step, Turn, total, total-Turn, least-Turn,
  is_held,
}

-- A pointer that found that it was the last one; and one that deleted the counter.
abbrev pub is_last : Phase → ℕ
is_last held = 0
is_last (dropped n) = if n == 1 then 1 else 0
is_last count_gone = 0
is_last finished = 0

abbrev pub is_half : Phase → ℕ
is_half held = 0
is_half (dropped n) = 0
is_half count_gone = 1
is_half finished = 0

-- The steps that a destruction has left.
abbrev pub steps_left : Phase → ℕ
steps_left held = 3
steps_left (dropped n) = 2
steps_left count_gone = 1
steps_left finished = 0

module _ {T : Type 0} (p : Ptr) where
  -- The block and its counter while the pointers are in their phases: shared, taken over by the last
  -- of them, half freed, and freed.
  pub data Exact (m : Memory T) (hs : List Phase) : Type 0 where
    shared :
        (v : T)
        → 0 < total is_held hs
        → total is_held hs < 2 ^ 64
        → total is_last hs ≡ 0
        → total is_half hs ≡ 0
        → m.counts p.ref ≡ some (total is_held hs)
        → m.blocks p.alloc ≡ some v
        → Exact m hs
    last :
        (v : T) (n : ℕ)
        → total is_held hs ≡ 0
        → total is_last hs ≡ 1
        → total is_half hs ≡ 0
        → m.counts p.ref ≡ some n
        → m.blocks p.alloc ≡ some v
        → Exact m hs
    half :
        (v : T)
        → total is_held hs ≡ 0
        → total is_last hs ≡ 0
        → total is_half hs ≡ 1
        → m.counts p.ref ≡ none
        → m.blocks p.alloc ≡ some v
        → Exact m hs
    freed :
        total is_held hs ≡ 0
        → total is_last hs ≡ 0
        → total is_half hs ≡ 0
        → m.counts p.ref ≡ none
        → m.blocks p.alloc ≡ none
        → Exact m hs

  -- Phases with equal totals.
  same-Exact :
      {m : Memory T} {hs ks : List Phase}
      → total is_held hs ≡ total is_held ks
      → total is_last hs ≡ total is_last ks
      → total is_half hs ≡ total is_half ks
      → Exact m hs
      → Exact m ks
  same-Exact a b c (shared v h r l d e f) =
      shared v (omega (arith, a, h)) (omega (arith, a, r)) (omega (arith, b, l))
        (omega (arith, c, d)) (e ∙ ap some a) f
  same-Exact a b c (last v n h l d e f) =
      last v n (omega (arith, a, h)) (omega (arith, b, l)) (omega (arith, c, d)) e f
  same-Exact a b c (half v h l d e f) =
      half v (omega (arith, a, h)) (omega (arith, b, l)) (omega (arith, c, d)) e f
  same-Exact a b c (freed h l d e f) =
      freed (omega (arith, a, h)) (omega (arith, b, l)) (omega (arith, c, d)) e f

  -- The next step of a pointer in phase `a`.
  unfoldable pub Goes : Phase → Memory T → List Phase → Type 0
  Goes a m hs =
      (b : Phase) × (m' : Memory T) × (dealloc_step p a m ≡ done b m')
      × ((a ≡ finished) ⊎ (steps_left b < steps_left a))
      × ((ks : List Phase) → Turn a b hs ks → Exact m' ks)

module _ {T : Type 0} (p : Ptr) (counted : p.ref ≢ 0) (block : p.alloc ≢ 0) where
  drop-Goes :
      {m : Memory T} {hs : List Phase} → 0 < total is_held hs → Exact p m hs → Goes p held m hs
  unfolding dealloc_step Goes Ptr.drop_ref
  drop-Goes {m} {hs} some_held (shared v h r l d e f) =
      let k = total is_held hs in
      let z : (p.ref == 0) ≡ false = ground arith in
      let lower : (k + (2 ^ 64 - 1)) % 2 ^ 64 ≡ k - 1 = omega (arith, h, r) in
      let now = put_same m.counts p.ref (some ((k + (2 ^ 64 - 1)) % 2 ^ 64)) in
      (
        dropped k,
        record m { counts = put m.counts p.ref (some ((k + (2 ^ 64 - 1)) % 2 ^ 64)) },
        rw z (rw (fetch_add-some m p.ref k (2 ^ 64 - 1) e) refl),
        inr (omega arith),
        λ ks t. elim (ℕ_discrete k 1) [
          | yes one ↦
              let it_is : (k == 1) ≡ true = ground arith in
              last v _ (omega (arith, total-Turn is_held t, one))
                (ground (arith, total-Turn is_last t, l, it_is))
                (omega (arith, total-Turn is_half t, d)) now f
          | no more ↦
              let it_is : (k == 1) ≡ false = ground arith in
              let left : total is_held ks ≡ k - 1 = omega (arith, total-Turn is_held t) in
              shared v (omega (arith, left, more, h)) (omega (arith, left, r))
                (ground (arith, total-Turn is_last t, l, it_is))
                (omega (arith, total-Turn is_half t, d)) (now ∙ ap some (lower ∙ sym left)) f
        ],
      )
  drop-Goes some_held (last v n h l d e f) = absurd (omega arith)
  drop-Goes some_held (half v h l d e f) = absurd (omega arith)
  drop-Goes some_held (freed h l d e f) = absurd (omega arith)

  -- The last one deletes the counter.
  last-Goes :
      {m : Memory T} {hs : List Phase}
      → 0 < total is_last hs
      → Exact p m hs
      → Goes p (dropped 1) m hs
  unfolding dealloc_step Goes
  last-Goes found (shared v h r l d e f) = absurd (omega arith)
  last-Goes {m} found (last v n h l d e f) = (
    count_gone,
    record m { counts = put m.counts p.ref none },
    rw (delete_count-some m p.ref n counted e) refl,
    inr (omega arith),
    λ ks t.
        half v (omega (arith, total-Turn is_held t, h)) (omega (arith, total-Turn is_last t, l))
          (omega (arith, total-Turn is_half t, d)) (put_same m.counts p.ref none) f,
  )
  last-Goes found (half v h l d e f) = absurd (omega arith)
  last-Goes found (freed h l d e f) = absurd (omega arith)

  -- And then the block.
  half-Goes :
      {m : Memory T} {hs : List Phase}
      → 0 < total is_half hs
      → Exact p m hs
      → Goes p count_gone m hs
  unfolding dealloc_step Goes
  half-Goes found (shared v h r l d e f) = absurd (omega arith)
  half-Goes found (last v n h l d e f) = absurd (omega arith)
  half-Goes {m} found (half v h l d e f) = (
    finished,
    record m { blocks = put m.blocks p.alloc none },
    rw (delete_block-some m p.alloc v block f) refl,
    inr (omega arith),
    λ ks t.
        freed (omega (arith, total-Turn is_held t, h)) (omega (arith, total-Turn is_last t, l))
          (omega (arith, total-Turn is_half t, d)) e (put_same m.blocks p.alloc none),
  )
  half-Goes found (freed h l d e f) = absurd (omega arith)

  -- Every pointer can go on.
  pub Goes-Exact :
      {m : Memory T} {hs ls : List Phase} (a : Phase) {c : Phase}
      → Turn a c hs ls
      → Exact p m hs
      → Goes p a m hs
  unfolding dealloc_step Goes
  Goes-Exact held t x = drop-Goes (omega (arith, least-Turn is_held t)) x
  Goes-Exact {m} {hs} (dropped n) t x = elim (ℕ_discrete n 1) [
    | yes one ↦
        let it_is : (n == 1) ≡ true = ground arith in
        subst (λ k. Goes p (dropped k) m hs) (sym one)
          (last-Goes (ground (arith, least-Turn is_last t, it_is)) x)
    | no more ↦
        let it_is : (n == 1) ≡ false = ground arith in
        (
          finished,
          m,
          rw it_is refl,
          inr (omega arith),
          λ ks s.
              same-Exact p (omega (arith, total-Turn is_held s))
                (ground (arith, total-Turn is_last s, it_is)) (omega (arith, total-Turn is_half s))
                x,
        )
  ]
  Goes-Exact count_gone t x = half-Goes (omega (arith, least-Turn is_half t)) x
  Goes-Exact {m} finished t x = (
    finished,
    m,
    refl,
    inl refl,
    λ ks s.
        same-Exact p (omega (arith, total-Turn is_held s)) (omega (arith, total-Turn is_last s))
          (omega (arith, total-Turn is_half s)) x,
  )

  -- A copy of a held pointer.
  pub share-Exact :
      {m : Memory T} {hs : List Phase}
      → 0 < total is_held hs
      → total is_held hs + 1 < 2 ^ 64
      → Exact p m hs
      → (m' : Memory T) × (get_copy p m ≡ done p m') × Exact p m' (held ∷ hs)
  unfolding get_copy Ptr.add_ref
  share-Exact {m} {hs} found few (shared v h r l d e f) =
      let k = total is_held hs in
      let z : (p.ref == 0) ≡ false = ground arith in
      let more : (k + 1) % 2 ^ 64 ≡ 1 + k = omega (arith, few) in
      (
        record m { counts = put m.counts p.ref (some ((k + 1) % 2 ^ 64)) },
        rw z (rw (fetch_add-some m p.ref k 1 e) refl),
        shared v (omega arith) (omega (arith, few)) (omega (arith, l)) (omega (arith, d))
            (put_same m.counts p.ref (some ((k + 1) % 2 ^ 64)) ∙ ap some more) f,
      )
  share-Exact found few (last v n h l d e f) = absurd (omega arith)
  share-Exact found few (half v h l d e f) = absurd (omega arith)
  share-Exact found few (freed h l d e f) = absurd (omega arith)
