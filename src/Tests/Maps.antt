-- ===== src/Tests/Maps.antt =====
-- The map (api/map.hpp) with numbers for keys, and the hash of keys of bytes.
use jule.Common.{
  ℕ, ◌+◌, ◌<◌, refl, false, true, none, some, ◌^◌, ◌≡◌, ◌≢◌, List, [], ◌∷◌, ◌++◌, ◌==◌, ==_iff,
  arith,
}
use jule.Map.{KeyEqual, Map, map_of, len, find}
use jule.Map.Keys.{Distinct}
use jule.Map.Refine.{Op, look, read, write, remove, run, replay, run_refines}
use jule.Clone.{clone_map}
use jule.Clone.Maps.{cloned_or, clone_map-find}
use jule.Map.Hash.{hash_bytes, hash-separates}

instance numbers : KeyEqual ℕ
numbers = record { same = λ a b. a == b; same_iff = ==_iff }

abbrev requests : List (Op ℕ ℕ)
requests =
    write 5 1
    ∷ read 7
    ∷ write 5 2
    ∷ remove 7
    ∷ look 5 none (some false)
    ∷ look 7 (some 3) (some true)
    ∷ []

run_refines_example :
    (find (run 0 requests (map_of [])).0.buffer ≡ (replay 0 requests (find [])).0)
    × ((run 0 requests (map_of [])).1 ≡ (replay 0 requests (find [])).1)
    × Distinct (run 0 requests (map_of [])).0.buffer
run_refines_example = run_refines 0 requests (map_of []) tt

abbrev pairs : Map ℕ ℕ
pairs = map_of ((5, 1) ∷ (7, 2) ∷ [])

pairs-Distinct : Distinct {K = ℕ} pairs.buffer
unfolding find numbers
pairs-Distinct = (refl, (refl, tt))

clone_map-find_example :
    ((j : ℕ)
      → find (clone_map (λ k. k) (λ v. v + 1) pairs).buffer j
        ≡ cloned_or (λ v. v + 1) (find pairs.buffer j) none)
    × (len {K = ℕ} (clone_map (λ k. k) (λ v. v + 1) pairs) ≡ len {K = ℕ} pairs)
    × Distinct {K = ℕ} (clone_map (λ k. k) (λ v. v + 1) pairs).buffer
clone_map-find_example =
    clone_map-find {K = ℕ} (λ k. k) (λ v. v + 1) (λ k. refl) pairs pairs-Distinct

hash-separates_example :
    (hash_bytes ((104 ∷ []) ++ (105 ∷ 33 ∷ [])) < 2 ^ 64)
    × (hash_bytes ((104 ∷ []) ++ (105 ∷ 33 ∷ [])) ≢ hash_bytes ((104 ∷ []) ++ (106 ∷ 33 ∷ [])))
hash-separates_example =
    hash-separates (104 ∷ []) 105 106 (33 ∷ []) (omega arith) (omega arith) (omega arith, tt)
      (omega arith)
