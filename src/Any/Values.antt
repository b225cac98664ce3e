-- ===== src/Any/Values.antt =====
-- Making an `any` from a value, and casting it back.
use jule.Common.{ℕ, ◌≡◌, ◌≢◌, refl, false, ◌==◌, some, arith, if◌then◌else◌, Bool-cases, inl, inr}
use jule.Memory.{Memory, done, stopped, ◌>>=◌, put, put_same, put_block, load_block-some}
use jule.Panic.{incompatible_type}
use jule.Ptr.{ptr}
use jule.Ptr.Fresh.{adopt-nil, allocated}
use jule.Any.{any, make, cast, must_ok, is_nil}

module _ {V : Type 0} (m : Memory V) (fresh fresh_ref : ℕ) (nz : fresh ≢ 0)
    (nz_ref : fresh_ref ≢ 0) where
  pub make_lem :
      (v : V) (type : ℕ)
      → make fresh fresh_ref v type m
        ≡ done (any (ptr fresh fresh_ref) type) (allocated m fresh fresh_ref v)
  unfolding make put_block
  make_lem v type =
      let there : (fresh == 0) ≡ false = ground arith in
      rw there (
        rw (adopt-nil (record m { blocks = put m.blocks fresh (some v) }) fresh_ref fresh nz_ref)
          refl)

  -- A value is made into an `any`, where the allocations return addresses that are not null, and
  -- cast to a type: this gives the value, if the type is the one it was made with, and else a
  -- panic.
  pub cast-make :
      (v : V) (type target : ℕ)
      → (make fresh fresh_ref v type >>= λ a. cast a target) m ≡ (
          if type == target
          then done v (allocated m fresh fresh_ref v)
          else stopped incompatible_type)
  unfolding cast must_ok is_nil
  cast-make v type target =
      let there : (fresh == 0) ≡ false = ground arith in
      rw (make_lem v type) (
        rw there (elim (Bool-cases (type == target)) [
          | inl same ↦ rw same (
              load_block-some (allocated m fresh fresh_ref v) fresh v
                (put_same m.blocks fresh (some v)))
          | inr other ↦ rw other refl
        ]))
