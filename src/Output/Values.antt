-- ===== src/Output/Values.antt =====
-- What `operator<<` writes for single values.
use jule.Common.{ℕ, Option, List, [], ◌∷◌, ◌++◌, if◌then◌else◌}
use jule.Common.Int.{ℤ}
use jule.Memory.{Cmd, pure, ◌>>=◌}
use jule.Str.{Str}
use jule.Ptr
use jule.Ptr.{Ptr}
use jule.Any
use jule.Any.{Any}
use jule.Trait
use jule.Trait.{Trait}
use jule.Fn
use jule.Fn.{Fn}
use jule.Error.{text}

-- An `I8` and a `U8`, cast to `int` (api/types.hpp).
pub byte_output : (ℤ → List ℕ) → List ℕ → ℤ → List ℕ
byte_output show_int stream x = stream ++ show_int x

-- A string: the loop over its bytes (api/str.hpp).
pub str_output : List ℕ → Str → List ℕ
str_output stream [] = stream
str_output stream (b ∷ src) = str_output (stream ++ (b ∷ [])) src

-- A pointer (api/ptr.hpp).
pub ptr_output : (ℕ → List ℕ) → List ℕ → Ptr → List ℕ
unfolding Ptr.is_nil
ptr_output show_address stream ref =
    if Ptr.is_nil ref then stream ++ text "<nil>" else stream ++ show_address ref.alloc

-- A trait value (api/trait.hpp).
pub trait_output : (ℕ → List ℕ) → List ℕ → Trait → List ℕ
trait_output show_address stream src =
    if Trait.is_nil src then stream ++ text "<nil>" else stream ++ show_address src.memory.alloc

-- A function (api/fn.hpp); the address of one that was never set is what the memory holds.
pub fn_output {ℓ κ} : {A : Type ℓ} {B : Type κ} → (Option ℕ → List ℕ) → List ℕ → Fn A B → List ℕ
fn_output show_address stream src =
    if Fn.is_nil src then stream ++ text "<nil>" else stream ++ show_address src.address

-- An `any`, by the `to_str` of its type's table (api/any.hpp).
pub any_output : {V : Type 0} → (ℕ → ℕ → Cmd V Str) → List ℕ → Any → Cmd V (List ℕ)
unfolding str_output
any_output to_str stream src =
    if Any.is_nil src
    then pure (stream ++ text "<nil>")
    else do s ← to_str src.type src.memory.alloc; pure (str_output stream s)
