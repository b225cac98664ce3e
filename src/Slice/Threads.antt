-- ===== src/Slice/Threads.antt =====
-- Two threads that destroy two slices of one array: the destructor of api/slice.hpp as its atomic
-- steps, in any order of the threads.
use jule.Common.{
  ◌-◌, ◌^◌, ◌≡◌, ◌≢◌, refl, false, not, none, some, List, ◌==◌, if◌then◌else◌, Option-cases,
  Bool-cases, inl, inr, arith,
}
use jule.Memory.{
  Memory, Cmd, Run, and_then, stopped, undefined, done, pure, ◌>>=◌, ◌>>◌, put, put_same,
  load_count, fetch_add, delete_count, delete_block, load_count-some, fetch_add-some,
  delete_count-some,
}
use jule.Ptr
use jule.Ptr.{Ptr, ptr, nil, dealloc}
use jule.Ptr.Threads.{Phase, held, dropped, count_gone, finished, dealloc_step}
use jule.Slice.{Slice, destroy_slice, dealloc_slice, free_slice, null_place}

-- How far the destruction of a slice is: not begun; it found that it is the last, and deletes the
-- counter and then the array; or the destructor of its pointer runs.
pub data Destruction : Type 0 where
  whole : Destruction
  last : Destruction
  array_left : Destruction
  member : Phase → Destruction

module _ {A : Type 0} where
  -- The next atomic step of `~Slice`. In the destructor of `data` the address is null.
  unfoldable pub destroy_step : Slice → Destruction → Cmd (List A) Destruction
  unfolding dealloc_step
  destroy_step s whole =
      if s.memory.ref == 0
      then pure (member held)
      else do n ← load_count s.memory.ref; if not (n == 1) then pure (member held) else pure last
  destroy_step s last = do delete_count s.memory.ref; pure array_left
  destroy_step s array_left = do delete_block s.memory.alloc; pure (member finished)
  destroy_step s (member a) = do b ← dealloc_step (ptr 0 s.memory.ref) a; pure (member b)

  array_alone :
      (s t : Slice) (r : Run (List A) (Unit {0}))
      → t.memory ≡ nil
      → and_then
          (and_then (and_then r (λ _. pure t)) (λ u. dealloc {T = List A} u.memory >> pure tt))
          (λ _. pure (member finished))
        ≡ and_then (and_then r (λ _. pure (member finished))) (destroy_step s)
  unfolding destroy_step dealloc_step dealloc
  array_alone s t (done u m) e = rw e refl
  array_alone s t (stopped f) e = refl
  array_alone s t undefined e = refl

  count_alone :
      (s t : Slice) (r : Run (List A) (Unit {0}))
      → t.memory ≡ nil
      → and_then
          (and_then
            (and_then r (λ _. delete_block s.memory.alloc >> pure t))
            (λ u. dealloc {T = List A} u.memory >> pure tt))
          (λ _. pure (member finished))
        ≡ and_then
            (and_then r (λ _. pure array_left))
            (λ b. destroy_step s b >>= λ c. destroy_step s c)
  unfolding destroy_step
  count_alone s t (done u m) e = array_alone s t (delete_block s.memory.alloc m) e
  count_alone s t (stopped f) e = refl
  count_alone s t undefined e = refl

  -- The steps of one thread alone are the destructor.
  alone :
      (s : Slice) (m : Memory (List A))
      → (destroy_slice s >> pure (member finished)) m
        ≡ (destroy_step s whole >>= λ a.
              destroy_step s a >>= λ b. destroy_step s b >>= λ c. destroy_step s c)
            m
  unfolding destroy_step dealloc_step destroy_slice dealloc_slice free_slice load_count fetch_add
      dealloc Ptr.drop_ref Ptr.get_ref_n
  alone s m = elim (Bool-cases (s.memory.ref == 0)) [
    | inl none_held ↦ rw none_held (rw (dealloc, none_held) refl)
    | inr counted ↦ elim (Option-cases (m.counts s.memory.ref)) [
      | inl gone ↦ rw (counted, gone, load_count) refl
      | inr (n, there) ↦ elim (Bool-cases (n == 1)) [
        | inl one ↦
            rw (counted, there, load_count, one, free_slice)
              (count_alone s (record s { memory = nil; items = null_place; len = 0; cap = 0 })
                (delete_count s.memory.ref m) refl)
        | inr more ↦
            rw (counted, there, load_count, more)
              (rw (dealloc, counted) (rw (there, Ptr.drop_ref, fetch_add, more) refl))
      ]
    ]
  ]

-- The memory, and the destructions of two slices `s` and `t`.
pub record Race (A : Type 0) : Type 0 where
  pub memory : Memory (List A)
  pub left : Destruction
  pub right : Destruction

abbrev pub race : {A : Type 0} → Memory (List A) → Destruction → Destruction → Race A
race m a b = record { memory = m; left = a; right = b }

pub data Steps {A : Type 0} (s t : Slice) (w : Race A) : Race A → Type 0 where
  stay : Steps s t w w
  by_left :
      {u : Race A} {a : Destruction} {m : Memory (List A)}
      → Steps s t w u
      → destroy_step s u.left u.memory ≡ done a m
      → Steps s t w (race m a u.right)
  by_right :
      {u : Race A} {b : Destruction} {m : Memory (List A)}
      → Steps s t w u
      → destroy_step t u.right u.memory ≡ done b m
      → Steps s t w (race m u.left b)

module _ {A : Type 0} (m : Memory (List A)) (s t : Slice) (counted : s.memory.ref ≢ 0)
    (same : t.memory.ref ≡ s.memory.ref) (two : m.counts s.memory.ref ≡ some 2) where
  -- Two threads destroy two slices with one counter, which is not null and holds 2. There is an
  -- order of their atomic steps in which both finish, the counter is freed, and no array is.
  pub destroy_race :
      (m' : Memory (List A)) × Steps s t
        (race m whole whole)
        (race m' (member finished) (member finished))
      × (m'.counts s.memory.ref ≡ none)
      × (m'.blocks ≡ m.blocks)
  unfolding destroy_step dealloc_step delete_block
  destroy_race =
      let c = s.memory.ref in
      let z : (c == 0) ≡ false = ground arith in
      let tz : (t.memory.ref == 0) ≡ false = ground (arith, same) in
      let m1 : Memory (List A) = record m { counts = put m.counts c (some 1) } in
      let m2 : Memory (List A) = record m { counts = put m1.counts c (some 0) } in
      let m3 : Memory (List A) = record m { counts = put m2.counts c none } in
      let one = put_same m.counts c (some 1) in
      let zero_left = put_same m1.counts c (some 0) in
      let a1 : destroy_step s whole m ≡ done (member held) m =
        rw z (rw (load_count-some m c 2 two) refl) in
      let b1 : destroy_step t whole m ≡ done (member held) m =
        rw tz (rw same (rw (load_count-some m c 2 two) refl)) in
      let a2 : destroy_step s (member held) m ≡ done (member (dropped 2)) m1 =
        rw z (rw (fetch_add-some m c 2 (2 ^ 64 - 1) two) refl) in
      let b2 : destroy_step t (member held) m1 ≡ done (member (dropped 1)) m2 =
        rw tz (rw same (rw (fetch_add-some m1 c 1 (2 ^ 64 - 1) one) refl)) in
      let b3 : destroy_step t (member (dropped 1)) m2 ≡ done (member count_gone) m3 =
        rw same (rw (delete_count-some m2 c 0 counted zero_left) refl) in
      (
        m3,
        by_right
            (by_right (by_right (by_left (by_left (by_right (by_left stay a1) b1) a2) refl) b2) b3)
            refl,
        put_same m2.counts c none,
        refl,
      )
