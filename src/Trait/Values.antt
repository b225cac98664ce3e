-- ===== src/Trait/Values.antt =====
-- Making a trait value from a value, and casting it.
use jule.Common.{ℕ, ◌≡◌, ◌≢◌, refl, false, ◌==◌, some, arith, if◌then◌else◌, Bool-cases, inl, inr}
use jule.Common.Int.{ℤ, eq_int}
use jule.Memory.{Memory, done, stopped, ◌>>=◌, put, put_same, put_block, load_block-some}
use jule.Panic.{incompatible_type}
use jule.Ptr.{ptr}
use jule.Ptr.Fresh.{adopt-nil, allocated}
use jule.Trait.{trait, make, cast, cast_ptr, must_ok, is_nil, type_is}

module _ {V : Type 0} (m : Memory V) (fresh fresh_ref : ℕ) (nz : fresh ≢ 0)
    (nz_ref : fresh_ref ≢ 0) where
  make_lem :
      (v : V) (type : ℕ) (i : ℤ)
      → make fresh fresh_ref v type i m
        ≡ done (trait (ptr fresh fresh_ref) type i false) (allocated m fresh fresh_ref v)
  unfolding make put_block
  make_lem v type i =
      let there : (fresh == 0) ≡ false = ground arith in
      rw there (
        rw (adopt-nil (record m { blocks = put m.blocks fresh (some v) }) fresh_ref fresh nz_ref)
          refl)

  -- A value that is made into a trait value and cast to a type: the value, if it is the number of
  -- its type, and else a panic; cast to a smart pointer it always panics.
  trait_cast-make :
      (v : V) (type : ℕ) (i target : ℤ)
      → ((make fresh fresh_ref v type i >>= λ a. cast a target) m ≡ (
          if eq_int i target
          then done v (allocated m fresh fresh_ref v)
          else stopped incompatible_type))
        × ((make fresh fresh_ref v type i >>= λ a. cast_ptr a target) m ≡ stopped incompatible_type)
  unfolding cast cast_ptr must_ok is_nil type_is
  trait_cast-make v type i target =
      let there : (fresh == 0) ≡ false = ground arith in
      rw (make_lem v type i) (
        rw there (elim (Bool-cases (eq_int i target)) [
          | inl same ↦ rw same (
            load_block-some (allocated m fresh fresh_ref v) fresh v
                (put_same m.blocks fresh (some v)),
            refl,
          )
          | inr other ↦ rw other (refl, refl)
        ]))
