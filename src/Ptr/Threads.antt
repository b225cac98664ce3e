-- ===== src/Ptr/Threads.antt =====
-- Threads that share a block: the destructor of api/ptr.hpp as its atomic steps, in any order of the
-- threads. Each pointer is destroyed by one thread, and copied only before that.
use jule.Common.{
  ℕ, Option-cases, Bool-cases, inl, inr, ◌+◌, ◌-◌, ◌%◌, ◌^◌, ◌<◌, ◌≤◌, ◌≡◌, ◌≢◌, refl, false, not,
  some, List, [], ◌∷◌, ◌==◌, if◌then◌else◌, arith,
}
use jule.Memory.{
  Memory, Cmd, Run, and_then, done, stopped, undefined, pure, ◌>>=◌, ◌>>◌, fetch_add, delete_count,
  delete_block, put,
}
use jule.Ptr
use jule.Ptr.{Ptr, ptr, nil, reference_delta, get_copy, dealloc}

-- How far the destruction of a pointer is: not begun; the counter was lowered, from the value given;
-- the counter is deleted; finished.
pub data Phase : Type 0 where
  held : Phase
  dropped : ℕ → Phase
  count_gone : Phase
  finished : Phase

module _ {T : Type 0} where
  -- The next atomic step of `dealloc`, with `__free` at its end.
  unfoldable pub dealloc_step : Ptr → Phase → Cmd T Phase
  unfolding Ptr.drop_ref
  dealloc_step p held =
      if p.ref == 0 then pure finished else do n ← Ptr.drop_ref p; pure (dropped n)
  dealloc_step p (dropped n) =
      if not (n == reference_delta) then pure finished else do delete_count p.ref; pure count_gone
  dealloc_step p count_gone = do delete_block p.alloc; pure finished
  dealloc_step p finished = pure finished

  freed_alone :
      (r : Run T (Unit {0}))
      → and_then (and_then r (λ _. pure nil)) (λ _. pure finished) ≡ and_then r (λ _. pure finished)
  freed_alone (done u m) = refl
  freed_alone (stopped e) = refl
  freed_alone undefined = refl

  free_alone :
      (p : Ptr) (r : Run T (Unit {0}))
      → and_then
          (and_then r (λ _ m. and_then (delete_block p.alloc m) (λ _. pure nil)))
          (λ _. pure finished)
        ≡ and_then (and_then r (λ _. pure count_gone)) (dealloc_step p)
  unfolding dealloc_step
  free_alone p (done u m) = freed_alone (delete_block p.alloc m)
  free_alone p (stopped e) = refl
  free_alone p undefined = refl

  -- The steps of one thread alone are `dealloc`.
  alone :
      (p : Ptr) (m : Memory T)
      → p.ref ≢ 0
      → (dealloc p >> pure finished) m
        ≡ (dealloc_step p held >>= λ a. dealloc_step p a >>= λ b. dealloc_step p b) m
  unfolding dealloc_step dealloc Ptr.free Ptr.drop_ref fetch_add
  alone p m ne =
      let counted : (p.ref == 0) ≡ false = ground arith in
      elim (Option-cases (m.counts p.ref)) [
        | inl gone ↦ rw (counted, gone, fetch_add) refl
        | inr (n, there) ↦ elim (Bool-cases (n == reference_delta)) [
          | inl last ↦
              rw (counted, there, fetch_add, last, Ptr.free)
                (free_alone p (
                  delete_count p.ref (record m {
                    counts = put m.counts p.ref (some ((n + (2 ^ 64 - 1)) % 2 ^ 64));
                  })))
          | inr more ↦ rw (counted, there, fetch_add, more) refl
        ]
      ]

-- `Turn a b hs ks`: one of the pointers is in phase `a` in `hs` and in phase `b` in `ks`.
pub data Turn (a b : Phase) : List Phase → List Phase → Type 0 where
  here : {hs : List Phase} → Turn a b (a ∷ hs) (b ∷ hs)
  there : {c : Phase} {hs ks : List Phase} → Turn a b hs ks → Turn a b (c ∷ hs) (c ∷ ks)

abbrev pub total : (Phase → ℕ) → List Phase → ℕ
total f [] = 0
total f (a ∷ hs) = f a + total f hs

pub total-Turn :
    (f : Phase → ℕ) {a b : Phase} {hs ks : List Phase}
    → Turn a b hs ks
    → total f hs + f b ≡ total f ks + f a
total-Turn f here = omega arith
total-Turn f (there t) = omega (arith, total-Turn f t)

pub least-Turn :
    (f : Phase → ℕ) {a b : Phase} {hs ks : List Phase} → Turn a b hs ks → f a ≤ total f hs
least-Turn f here = omega arith
least-Turn f (there t) = omega (arith, least-Turn f t)

-- The memory, and the phase of every pointer to the block.
pub record Crowd (T : Type 0) : Type 0 where
  pub memory : Memory T
  pub phases : List Phase

abbrev pub crowd : {T : Type 0} → Memory T → List Phase → Crowd T
crowd m hs = record { memory = m; phases = hs }

abbrev pub is_held : Phase → ℕ
is_held held = 1
is_held (dropped n) = 0
is_held count_gone = 0
is_held finished = 0

-- A step of the threads: one destruction goes on by one step, or a pointer that is held is copied.
-- There are fewer pointers than a counter can count.
pub data Move {T : Type 0} (p : Ptr) (w : Crowd T) : Crowd T → Type 0 where
  advance :
      {a b : Phase} {hs : List Phase} {m : Memory T}
      → Turn a b w.phases hs
      → dealloc_step p a w.memory ≡ done b m
      → Move p w (crowd m hs)
  share :
      {m : Memory T}
      → Turn held held w.phases w.phases
      → total is_held w.phases + 1 < 2 ^ 64
      → get_copy p w.memory ≡ done p m
      → Move p w (crowd m (held ∷ w.phases))

pub data Moves {T : Type 0} (p : Ptr) (w : Crowd T) : Crowd T → Type 0 where
  stay : Moves p w w
  next : {u v : Crowd T} → Moves p w u → Move p u v → Moves p w v
