-- ===== src/Tests/Dynamic.antt =====
-- Values of a dynamic type (api/any.hpp, api/trait.hpp), and checked division (api/misc.hpp).
use jule.Common.{ℕ, ◌+◌, ◌*◌, ◌<◌, ◌≡◌, ◌≢◌, refl, ap, ◌⊎◌, true, false, none, some, [], ◌∷◌, arith}
use jule.Common.Int.{ℤ, pos, negsuc}
use jule.Panic.{ok, panic, divide_by_zero, incompatible_type}
use jule.Memory.{Memory, done, stopped, ◌>>=◌}
use jule.Any.Values.{cast-make}
use jule.Ptr.Handles.{here}
use jule.Ptr.Ownership.{Owns}
use jule.Ptr.Program.{World, Reach-IsSafe, start}
use jule.Ptr.Finish.{Destroyed, can_finish}
use jule.Any
use jule.Any.{Any, any, nil_any}
use jule.Any.Assign.{any-assign-Owns}
use jule.Trait
use jule.Trait.{Trait, trait, nil_trait}
use jule.Trait.Release.{trait_assign-Owns}
use jule.Arithmetic.{fits, magnitude, signed, div, modulo}
use jule.Arithmetic.Quotient.{div_mod_lem}
use jule.Tests.Pointers.{one, copied, Reach-copied}

can_finish_example :
    (u : World ℕ) × Destroyed copied u
    × (u.held ≡ [])
    × ((a : ℕ) → a ≢ 0 → (u.memory.blocks a ≡ none) × (u.memory.counts a ≡ none))
can_finish_example = can_finish Reach-copied

any-assign-Owns_example :
    ((m' : Memory ℕ) × (Any.assign (any one 6) (any one 8) copied.memory ≡ done (any one 8) m')
      × Owns (Reach-IsSafe Reach-copied).0 m' (one ∷ one ∷ []))
    × ((m' : Memory ℕ) × (Any.assign_self (any one 6) copied.memory ≡ done nil_any m')
        × Owns (Reach-IsSafe Reach-copied).0 m' (one ∷ []))
any-assign-Owns_example =
    any-assign-Owns (Reach-IsSafe Reach-copied).1 here {src = any one 8} here
      (λ e. absurd (omega (arith, e)))

trait_assign-Owns_example :
    ((m' : Memory ℕ) × (Trait.dealloc (trait one 6 (pos 0) false) copied.memory ≡ done nil_trait m')
      × Owns (Reach-IsSafe Reach-copied).0 m' (one ∷ []))
    × ((m' : Memory ℕ) × (Trait.assign
            (trait one 6 (pos 0) false)
            (trait one 8 (pos 1) true)
            copied.memory
          ≡ done (trait one 8 (pos 1) true) m')
        × Owns (Reach-IsSafe Reach-copied).0 m' (one ∷ one ∷ []))
    × ((m' : Memory ℕ) × (Trait.assign_self (trait one 6 (pos 0) false) copied.memory
          ≡ done nil_trait m')
        × Owns (Reach-IsSafe Reach-copied).0 m' (one ∷ []))
trait_assign-Owns_example =
    trait_assign-Owns (trait one 6 (pos 0) false) (Reach-IsSafe Reach-copied).1 here
      (λ e. absurd (omega (arith, e))) {src = trait one 8 (pos 1) true} here

div_mod_lem_example :
    ((◌≡◌ {A = ℤ} (pos 2) (pos 0))
      × (div 8 (negsuc 6) (pos 2) ≡ panic divide_by_zero)
      × (modulo 8 (negsuc 6) (pos 2) ≡ panic divide_by_zero))
    ⊎ ((◌≢◌ {A = ℤ} (pos 2) (pos 0))
        × (q : ℤ) × (r : ℤ) × (div 8 (negsuc 6) (pos 2) ≡ ok (some q))
        × (modulo 8 (negsuc 6) (pos 2) ≡ ok (some r))
        × (fits 8 q ≡ true)
        × (fits 8 r ≡ true)
        × (2 * magnitude q + magnitude r ≡ 7)
        × (magnitude r < 2)
        × (r ≡ signed true (magnitude r))
        × (q ≡ signed true (magnitude q)))
div_mod_lem_example =
    div_mod_lem 8 (negsuc 6) (pos 2) refl refl (λ e. absurd (omega (arith, ap magnitude e)))

-- A value of the type 6 is cast to the type 8.
cast-make_example :
    (Any.make 2 1 7 6 >>= λ a. Any.cast a 8) (start {T = ℕ}).memory ≡ stopped incompatible_type
cast-make_example = cast-make (start {T = ℕ}).memory 2 1 (omega arith) (omega arith) 7 6 8
