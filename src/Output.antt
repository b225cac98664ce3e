-- ===== src/Output.antt =====
-- What `operator<<` writes (api/*.hpp). A stream is the text written so far, a list of bytes. What
-- the library writes for a number or an address is an argument.
pub mod Values
pub mod Sequences
pub mod Console
use jule.Common.{ℕ, List, [], ◌∷◌, ◌++◌}

-- The texts one after the other, with a separator between two of them.
abbrev pub joined : List ℕ → List (List ℕ) → List ℕ
joined separator [] = []
joined separator (t ∷ []) = t
joined separator (t ∷ u ∷ ts) = t ++ (separator ++ joined separator (u ∷ ts))
