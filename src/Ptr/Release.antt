-- ===== src/Ptr/Release.antt =====
-- `dealloc` on a pointer that the program holds.
use jule.Common.{
  ℕ, suc, ◌+◌, ◌-◌, ◌%◌, ◌^◌, ◌<◌, ◌≡◌, ◌≢◌, refl, true, false, Option, none, some, List, ◌==◌,
  arith,
}
use native.Mathlib.Decide.{ℕ_discrete}
use jule.Memory.{
  Memory, done, put, put_same, put-put, fetch_add-some, delete_block-some, delete_count-some,
}
use jule.Ptr.{Ptr, nil, dealloc}
use jule.Ptr.Handles.{refs, Take, refs-le-length}
use jule.Ptr.Ownership
use jule.Ptr.Ownership.{Owns, is_some}

lowered : (n : ℕ) → n < 2 ^ 64 → (suc n + (2 ^ 64 - 1)) % 2 ^ 64 ≡ n
lowered n h = omega arith

pub some_of {ℓ} : {A : Type ℓ} (o : Option A) → is_some o ≡ true → (v : A) × (o ≡ some v)
some_of none h = cc
some_of (some v) h = (v, refl)

module _ {T : Type 0} {pair : ℕ → ℕ} {m : Memory T} {p : Ptr} {hs ks : List Ptr}
    (o : Owns pair m hs) (t : Take p hs ks) where
  fits : refs p.ref ks < 2 ^ 64
  fits = omega (arith, refs-le-length p.ref ks, Ownership.few_left o t)

  block_held : p.ref ≢ 0 → (v : T) × (m.blocks p.alloc ≡ some v)
  block_held ne = some_of (m.blocks p.alloc) (
      rw (Ownership.address o t ne).0
        (o.alive p.ref (ne, omega (arith, Ownership.refs_before o t ne))))

  dealloc_null_run : p.ref ≡ 0 → dealloc p m ≡ done nil m
  unfolding dealloc
  dealloc_null_run e = rw e

  module _ (ne : p.ref ≢ 0) where
    counted_ref : (p.ref == 0) ≡ false
    counted_ref = ground arith

    dealloc_shared_run :
        refs p.ref ks ≢ 0
        → dealloc p m ≡ done nil (record m { counts = put m.counts p.ref (some (refs p.ref ks)) })
    unfolding dealloc
    dealloc_shared_run many =
        let others : (suc (refs p.ref ks) == 1) ≡ false = ground arith in
        rw (
          counted_ref,
          fetch_add-some m p.ref (suc (refs p.ref ks)) (2 ^ 64 - 1) (Ownership.count_before o t ne),
          lowered (refs p.ref ks) fits,
          others,
        )

    dealloc_last_run :
        refs p.ref ks ≡ 0
        → dealloc p m
          ≡ done nil
              (record m { counts = put m.counts p.ref none; blocks = put m.blocks p.alloc none })
    unfolding dealloc
    dealloc_last_run z =
        let (v, held) = block_held ne in
        let one : m.counts p.ref ≡ some 1 = rw z at (Ownership.count_before o t ne) in
        let m1 : Memory T = record m { counts = put m.counts p.ref (some 0) } in
        let m2 : Memory T = record m1 { counts = put m1.counts p.ref none } in
        rw (
          counted_ref,
          fetch_add-some m p.ref 1 (2 ^ 64 - 1) one,
          delete_count-some m1 p.ref 0 ne (put_same m.counts p.ref (some 0)),
          delete_block-some m2 p.alloc v (Ownership.address o t ne).1 held,
          put-put m.counts p.ref (some 0) none,
        )

  -- The pointer goes, and the pointers that are left own the memory that is left.
  pub dealloc-Owns : (m' : Memory T) × (dealloc p m ≡ done nil m') × Owns pair m' ks
  dealloc-Owns = elim (ℕ_discrete p.ref 0) [
    | yes e ↦ (m, dealloc_null_run e, Ownership.dealloc_null o t e)
    | no ne ↦ elim (ℕ_discrete (refs p.ref ks) 0) [
      | yes z ↦ (_, dealloc_last_run ne z, Ownership.dealloc_last o t ne z)
      | no many ↦ (_, dealloc_shared_run ne many, Ownership.dealloc_shared o t ne (omega arith))
    ]
  ]
