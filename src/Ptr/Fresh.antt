-- ===== src/Ptr/Fresh.antt =====
-- Single steps on the counter of a pointer, and the pointer to a fresh block.
use jule.Common.{ℕ, ◌+◌, ◌-◌, ◌%◌, ◌^◌, ◌≡◌, ◌≢◌, refl, false, some, ◌==◌, arith}
use jule.Memory.{Memory, done, put, put_same, put-put, put_count, fetch_add-some}
use jule.Ptr.{Ptr, ptr, nil, make_counted, assign, dealloc, drop_ref, get_copy, add_ref, adopt}

-- A fresh block, and a fresh counter at one.
abbrev pub allocated : {V : Type 0} → Memory V → (fresh fresh_ref : ℕ) → V → Memory V
allocated m fresh fresh_ref v = record {
  blocks = put m.blocks fresh (some v);
  counts = put m.counts fresh_ref (some 1);
}

module _ {T : Type 0} (m : Memory T) where
  abbrev pub counting : ℕ → ℕ → Memory T
  counting c n = record m { counts = put m.counts c (some n) }

  make_counted_lem : (c p : ℕ) → c ≢ 0 → make_counted c p m ≡ done (ptr p c) (counting c 1)
  unfolding make_counted put_count
  make_counted_lem c p nz = let there : (c == 0) ≡ false = ground arith in rw there refl

  -- Nil takes over a counted pointer.
  pub assign_nil_lem :
      (src : Ptr) (n : ℕ)
      → src.ref ≢ 0
      → m.counts src.ref ≡ some n
      → assign nil src m ≡ done src (counting src.ref ((n + 1) % 2 ^ 64))
  unfolding assign dealloc get_copy add_ref
  assign_nil_lem src n nz e =
      let there : (src.ref == 0) ≡ false = ground arith in
      rw (there, fetch_add-some m src.ref n 1 e) refl

  pub dealloc_many :
      (p : Ptr) (n : ℕ)
      → p.ref ≢ 0
      → m.counts p.ref ≡ some n
      → n ≢ 1
      → dealloc p m ≡ done nil (counting p.ref ((n + (2 ^ 64 - 1)) % 2 ^ 64))
  unfolding dealloc drop_ref
  dealloc_many p n nz e many =
      let there : (p.ref == 0) ≡ false = ground arith in
      let several : (n == 1) ≡ false = ground arith in
      rw (there, fetch_add-some m p.ref n (2 ^ 64 - 1) e, several) refl

-- The temporary pointer leaves no trace.
pub adopt-nil :
    {T : Type 0} (m : Memory T) (c p : ℕ)
    → c ≢ 0
    → adopt c nil p m ≡ done (ptr p c) (counting m c 1)
unfolding adopt
adopt-nil m c p nz =
    let m1 = counting m c 1 in
    let m2 = counting m1 c 2 in
    rw (make_counted_lem m c p nz) (
      rw (assign_nil_lem m1 (ptr p c) 1 nz (put_same m.counts c (some 1))) (
        rw (dealloc_many m2 (ptr p c) 2 nz (put_same m1.counts c (some 2)) (omega arith))
          (rw (put-put m1.counts c (some 2) (some 1), put-put m.counts c (some 1) (some 1)) refl)))
