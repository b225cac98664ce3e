-- ===== src/Any/Release.antt =====
-- Destroying an `any`, and assigning nil to it.
use jule.Common.{ℕ, ◌≡◌, refl, ap, true, false, ◌==◌, List, arith}
use native.Mathlib.Decide.{ℕ_discrete}
use jule.Memory.{Memory, done}
use jule.Ptr
use jule.Ptr.{Ptr, ptr, nil}
use jule.Ptr.Handles.{Take}
use jule.Ptr.Ownership.{Owns, dealloc_null}
use jule.Ptr.Release.{dealloc-Owns}
use jule.Any.{Any, nil_any, type_dealloc, dealloc}

-- A value without a type holds no pointer.
abbrev pub Good : Any → Type 0
Good a = a.type ≡ 0 → a.memory ≡ nil

module _ {V : Type 0} {pair : ℕ → ℕ} {m : Memory V} {a : Any} {hs ks : List Ptr}
    (o : Owns pair m hs) (t : Take a.memory hs ks) (good : Good a) where
  -- The value becomes nil, its pointer goes, and the pointers that are left own the memory.
  pub any_dealloc-Owns : (m' : Memory V) × (dealloc a m ≡ done nil_any m') × Owns pair m' ks
  unfolding dealloc type_dealloc Ptr.as_uncounted Ptr.dealloc
  any_dealloc-Owns = elim (ℕ_discrete a.type 0) [
    | yes none ↦
        let untyped : (a.type == 0) ≡ true = ground arith in
        (m, rw untyped refl, dealloc_null o t (ap (λ p. p.ref) (good none)))
    | no typed ↦
        let has_type : (a.type == 0) ≡ false = ground arith in
        let (m', run, o') = dealloc-Owns o t in (m', rw (has_type, run) refl, o')
  ]
