-- ===== src/Slice/Subslice.antt =====
-- Slices of slices (api/slice.hpp): the same array, and one more reference to it.
use jule.Common.{
  ℕ, ◌+◌, ◌-◌, ◌%◌, ◌^◌, ◌≤◌, ◌≡◌, ◌≢◌, refl, Bool, true, false, some, ◌==◌, if◌then◌else◌, arith,
  Bool-cases, inl, inr, List, ◌||◌, ltb, get_or,
}
use jule.Common.Int.{pos}
use jule.Memory.{Memory, done, stopped, pure, ◌>>=◌, put, fetch_add-some}
use jule.Panic.{index_out_of_range}
use jule.Ptr.{assign, dealloc, get_copy, add_ref}
use jule.Slice.{Slice, place, slice, at, check}
use jule.Slice.Items.{In, check-pass, at-items, bad_index-pos}

module _ {A : Type 0} {m : Memory (List A)} {s : Slice} {xs : List A} (o : In m s xs) (n : ℕ)
    (nz : s.memory.ref ≢ 0) (count : m.counts s.memory.ref ≡ some n) where
  abbrev part : ℕ → ℕ → Slice
  part a b = record {
    memory = s.memory;
    items = place s.items.block (s.items.offset + a);
    len = b - a;
    cap = s.cap - a;
  }

  abbrev referred : Memory (List A)
  referred = record m { counts = put m.counts s.memory.ref (some ((n + 1) % 2 ^ 64)) }

  check_any : (c : Bool) → (if c then check s else pure tt) m ≡ done tt m
  check_any true = check-pass o
  check_any false = refl

  slice-part : (a b : ℕ) → a ≤ b → b ≤ s.len → slice s (pos a) (pos b) m ≡ done (part a b) referred
  unfolding slice assign dealloc get_copy add_ref
  slice-part a b h k =
      let counted : (s.memory.ref == 0) ≡ false = ground arith in
      let inside : (ltb (a + 0) 0
            || (ltb (b + 0) 0 || (ltb (b + 0) (a + 0) || ltb (s.len + 0) (b + 0))))
          ≡ false =
        ground arith in
      rw (check_any _, inside, counted, fetch_add-some m s.memory.ref n 1 count) refl

  In-part : (a b : ℕ) → a ≤ b → b ≤ s.len → In referred (part a b) xs
  In-part a b h k = record {
    allocated = o.allocated;
    not_nil = o.not_nil;
    fits = omega (arith, o.fits, o.within);
    within = omega (arith, o.within);
  }

  -- For a slice in an allocated array with a counter, and bounds in order and within the slice,
  -- reading item `i` of the subslice from `a` to `b` gives item `a + i` of the slice when `i` is
  -- below `b - a`, and leaves the counter one higher modulo 2 ^ 64; from there on it panics with
  -- the subslice's length.
  pub at-slice_items :
      (a b i : ℕ) (v : A)
      → a ≤ b
      → b ≤ s.len
      → (slice s (pos a) (pos b) >>= λ t. at t (pos i)) m ≡ (
          if ltb i (b - a)
          then done (get_or xs (s.items.offset + (a + i)) v) referred
          else stopped (index_out_of_range (pos i) (b - a)))
  at-slice_items a b i v h k =
      let place_same : s.items.offset + a + i ≡ s.items.offset + (a + i) = omega arith in
      rw (slice-part a b h k) (
        rw (at-items (In-part a b h k) (pos i) v, bad_index-pos (In-part a b h k) i)
          (elim (Bool-cases (ltb i (b - a))) [
            | inl inside ↦ rw (inside, place_same) refl
            | inr outside ↦ rw outside refl
          ]))
