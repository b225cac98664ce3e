-- ===== src/Slice/Sequence.antt =====
-- A slice as a sequence of items, and how `push` (api/slice.hpp) makes it longer.
pub mod Pushes
pub mod Writes
pub mod Programs
use jule.Common.{
  ℕ, zero, suc, ◌+◌, ◌-◌, ◌*◌, ◌^◌, ◌≤◌, ◌<◌, ◌≡◌, ◌≢◌, ◌⊎◌, inl, inr, refl, sym, ap, ◌∙◌, some,
  none, List, [], ◌∷◌, ◌++◌, ◌==◌, if◌then◌else◌, length, length-append, length-set,
  length-replicate, get_or, set, replicate, arith, ltb,
}
use native.Mathlib.Decide.{ℕ_discrete}
use jule.Common.Int.{pos}
use jule.Memory.{Memory, done, put, put_other}
use jule.Slice.{Slice, nil_slice, push, at}
use jule.Slice.Items.{In, at-inside, written, get_or-set}
use jule.Slice.Copy.{pasted, length-pasted}
use jule.Slice.Replace.{Held, uncounted, counted, Held-holding, Held-longer}
use jule.Slice.Push.{push-room}
use jule.Slice.Grow.{Unused, Source, fresh_slice, push-grow, grown-items, pushed}

-- The slice is the sequence `ys`: it is nil or lies in the array that it holds, its counter is in
-- use, and its items are `ys`.
pub record Lists {A : Type 0} (blank : A) (m : Memory (List A)) (s : Slice) (ys : List A)
    : Type 0 where
  pub block : List A
  pub source : Source m s block
  pub in_use : Held m s
  pub whole : s.items.block ≡ s.memory.alloc
  pub size : s.len ≡ length ys
  pub items : (i : ℕ) → i < length ys → get_or block (s.items.offset + i) blank ≡ get_or ys i blank

pub nil-Lists : {A : Type 0} (blank : A) (m : Memory (List A)) → Lists blank m nil_slice []
nil-Lists blank m = record {
  block = [];
  source = inl (refl, refl);
  in_use = uncounted refl refl;
  whole = refl;
  size = refl;
  items = λ i h. absurd (omega arith);
}

get_or-snoc :
    {A : Type 0} (ys : List A) (v d : A) (i : ℕ)
    → get_or (ys ++ (v ∷ [])) i d ≡ (if i == length ys then v else get_or ys i d)
get_or-snoc [] v d zero = refl
get_or-snoc [] v d (suc i) = ground arith
get_or-snoc (y ∷ ys) v d zero = ground arith
get_or-snoc (y ∷ ys) v d (suc i) = ground (arith, get_or-snoc ys v d i)

module _ {A : Type 0} {blank : A} {m : Memory (List A)} {s : Slice} {ys : List A}
    (l : Lists blank m s ys) where
  -- Every item can be read.
  pub at-Lists : (i : ℕ) → i < length ys → at s (pos i) m ≡ done (get_or ys i blank) m
  at-Lists i h = elim l.source [
    | inl (z, _) ↦ absurd (omega (arith, l.size))
    | inr o ↦ at-inside o i blank (omega (arith, l.size)) ∙ ap (λ x. done x m) (l.items i h)
  ]

  pushed-snoc :
      (v : A) (i : ℕ)
      → i < length (ys ++ (v ∷ []))
      → pushed blank s l.block v i ≡ get_or (ys ++ (v ∷ [])) i blank
  pushed-snoc v i h = elim (ℕ_discrete i s.len) [
    | yes last ↦ ground (arith, get_or-snoc ys v blank i, l.size)
    | no inside ↦
        let near : i < length ys = omega (arith, l.size, length-append ys (v ∷ [])) in
        ground (arith, get_or-snoc ys v blank i, l.items i near, l.size)
  ]

  module _ {fresh fresh_ref : ℕ} (u : Unused m fresh fresh_ref) (v : A) where
    -- What `push` leaves as it was.
    abbrev pub Frame : Memory (List A) → Type 0
    Frame m' =
        ((b : ℕ) → b ≢ fresh → b ≢ s.memory.alloc → m'.blocks b ≡ m.blocks b)
        × ((k : ℕ) → k ≢ fresh_ref → k ≢ s.memory.ref → m'.counts k ≡ m.counts k)

    push_grow-Lists :
        s.len ≡ s.cap
        → (t : Slice) × (m' : Memory (List A)) × (push blank fresh fresh_ref s v m ≡ done t m')
          × Lists blank m' t (ys ++ (v ∷ []))
          × Frame m'
    push_grow-Lists full =
        let (m', run, block, one, kept, kept_counts) = push-grow blank u v l.source l.in_use full in
        let cap = (s.len + 1) * 2 in
        let t = fresh_slice fresh fresh_ref (s.len + 1) cap in
        let zs = pasted blank s.len l.block s.items.offset (replicate cap blank) 0 in
        let ws = set zs s.len v in
        let size : length ws ≡ cap =
          length-set zs s.len v
          ∙ length-pasted blank s.len l.block s.items.offset (replicate cap blank) 0
          ∙ length-replicate cap blank in
        (
          t,
          m',
          run,
          record {
            block = ws;
            source = inr (record {
              allocated = block;
              not_nil = u.block_ne;
              fits = omega (arith, size);
              within = omega arith;
            });
            in_use = counted 1 ws u.ref_ne (omega arith) (omega arith) one u.block_ne block;
            whole = refl;
            size = omega (arith, l.size, length-append ys (v ∷ []));
            items = λ i h.
                let start : 0 + i ≡ i = omega arith in
                let near : i ≤ s.len = omega (arith, l.size, length-append ys (v ∷ [])) in
                ap (λ j. get_or ws j blank) start
                ∙ grown-items blank u s l.block v cap i (omega arith) near
                ∙ pushed-snoc v i h;
          },
          (kept, kept_counts),
        )

    push_room-Lists :
        s.len ≢ s.cap
        → (t : Slice) × (m' : Memory (List A)) × (push blank fresh fresh_ref s v m ≡ done t m')
          × Lists blank m' t (ys ++ (v ∷ []))
          × Frame m'
    push_room-Lists room = elim l.source [
      | inl (z, y) ↦ absurd (room (z ∙ sym y))
      | inr o ↦
          let k = s.items.offset + s.len in
          let (run, after) = push-room o blank fresh fresh_ref v (omega (arith, o.within)) in
          (
            record s { len = s.len + 1 },
            written o o k v,
            run,
            record {
              block = set l.block k v;
              source = inr after;
              in_use =
                  Held-longer (Held-holding s.items.block (set l.block k v) o.allocated l.in_use);
              whole = l.whole;
              size = omega (arith, l.size, length-append ys (v ∷ []));
              items = λ i h.
                  let near : i ≤ s.len = omega (arith, l.size, length-append ys (v ∷ [])) in
                  let bound : k < length l.block = omega (arith, o.fits, o.within) in
                  ground (
                    arith,
                    get_or-set l.block k (s.items.offset + i) v blank bound,
                    pushed-snoc v i h,
                  );
            },
            (
              (λ b _ ne.
                  put_other m.blocks s.items.block b (some (set l.block k v))
                    (λ e. ne (e ∙ l.whole))),
              λ c _ _. refl,
            ),
          )
    ]

    -- `push` gives the sequence with the item at its end.
    pub push-Lists :
        (t : Slice) × (m' : Memory (List A)) × (push blank fresh fresh_ref s v m ≡ done t m')
        × Lists blank m' t (ys ++ (v ∷ []))
        × Frame m'
    push-Lists = elim (ℕ_discrete s.len s.cap) [
      | yes full ↦ push_grow-Lists full
      | no room ↦ push_room-Lists room
    ]
