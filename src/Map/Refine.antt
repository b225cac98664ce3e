-- ===== src/Map/Refine.antt =====
-- Any sequence of map operations against a function from keys to values.
use jule.Common.{
  ◌≡◌, refl, sym, subst, ap, fun_ext, Bool, true, false, Option, none, some, List, [], ◌∷◌, ◌++◌,
  Option-cases, inl, inr,
}
use jule.Map.{KeyEqual, Map, find, lookup, del, at, at_write, clear}
use jule.Map.Keys.{Distinct, put-Distinct, erase-Distinct}
use jule.Map.Changes.{
  update, or_blank, find-write, find-del, find-at, at_write-none, at_write-some, at-none, at-some,
}

-- `look` is `lookup`, with what its two pointers hold before, `none` being a null pointer; `read` and
-- `write` are `operator[]`.
pub data Op {ℓ κ} (K : Type ℓ) (V : Type κ) : Type (ℓ ⊔ κ) where
  look : K → Option V → Option Bool → Op K V
  read : K → Op K V
  write : K → V → Op K V
  remove : K → Op K V
  empty : Op K V

-- What a lookup leaves behind a pointer to a value, which it keeps without a value for the key, and
-- behind a pointer to a flag, whatever the flag was.
abbrev pub left_value {κ} : {V : Type κ} → Option V → Option V → Option V
left_value none found = none
left_value (some old) found = some (or_blank old found)

abbrev pub left_flag {κ} : {V : Type κ} → Option Bool → Option V → Option Bool
left_flag none found = none
left_flag (some old) none = some false
left_flag (some old) (some v) = some true

module _ {ℓ κ} {K : Type ℓ} {V : Type κ} ⦃e : KeyEqual K⦄ (blank : V) where
  unfoldable pub step : Op K V → Map K V → Map K V
  step (look k value ok) m = m
  step (read k) m = (at blank m k).0
  step (write k v) m = at_write m k v
  step (remove k) m = del m k
  step empty m = clear m

  -- What an operation hands out: the value and the flag of a lookup, the value of a read.
  unfoldable pub output : Op K V → Map K V → List (Option V × Option Bool)
  output (look k value ok) m = lookup m k value ok ∷ []
  output (read k) m = (some (at blank m k).1, none) ∷ []
  output (write k v) m = []
  output (remove k) m = []
  output empty m = []

  unfoldable pub run : List (Op K V) → Map K V → Map K V × List (Option V × Option Bool)
  unfolding step output
  run [] m = (m, [])
  run (op ∷ ops) m = let (u, out) = run ops (step op m) in (u, output op m ++ out)

  -- The same on a function, where a read of a missing key adds the blank value.
  abbrev pub change : Op K V → (K → Option V) → K → Option V
  change (look k value ok) f = f
  change (read k) f = update f k (some (or_blank blank (f k)))
  change (write k v) f = update f k (some v)
  change (remove k) f = update f k none
  change empty f = λ _. none

  abbrev pub answer : Op K V → (K → Option V) → List (Option V × Option Bool)
  answer (look k value ok) f = (left_value value (f k), left_flag ok (f k)) ∷ []
  answer (read k) f = (some (or_blank blank (f k)), none) ∷ []
  answer (write k v) f = []
  answer (remove k) f = []
  answer empty f = []

  unfoldable pub replay :
      List (Op K V) → (K → Option V) → (K → Option V) × List (Option V × Option Bool)
  replay [] f = (f, [])
  replay (op ∷ ops) f = let (g, out) = replay ops (change op f) in (g, answer op f ++ out)

  find-step : (op : Op K V) (m : Map K V) → find (step op m).buffer ≡ change op (find m.buffer)
  unfolding step find clear
  find-step (look k value ok) m = refl
  find-step (read k) m = fun_ext λ j. find-at blank m k j
  find-step (write k v) m = fun_ext λ j. find-write m k j v
  find-step (remove k) m = fun_ext λ j. find-del m k j
  find-step empty m = refl

  output-answer : (op : Op K V) (m : Map K V) → output op m ≡ answer op (find m.buffer)
  unfolding output lookup
  output-answer (look k none none) m = elim (Option-cases (find m.buffer k)) [
    | inl gone ↦ rw (gone, lookup) refl
    | inr (v, there) ↦ rw (there, lookup) refl
  ]
  output-answer (look k none (some flag)) m = elim (Option-cases (find m.buffer k)) [
    | inl gone ↦ rw (gone, lookup) refl
    | inr (v, there) ↦ rw (there, lookup) refl
  ]
  output-answer (look k (some old) none) m = elim (Option-cases (find m.buffer k)) [
    | inl gone ↦ rw (gone, lookup) refl
    | inr (v, there) ↦ rw (there, lookup) refl
  ]
  output-answer (look k (some old) (some flag)) m = elim (Option-cases (find m.buffer k)) [
    | inl gone ↦ rw (gone, lookup) refl
    | inr (v, there) ↦ rw (there, lookup) refl
  ]
  output-answer (read k) m = elim (Option-cases (find m.buffer k)) [
    | inl gone ↦ rw (at-none blank m k gone, gone) refl
    | inr (v, there) ↦ rw (at-some blank m k there, there) refl
  ]
  output-answer (write k v) m = refl
  output-answer (remove k) m = refl
  output-answer empty m = refl

  step-Distinct : (op : Op K V) (m : Map K V) → Distinct m.buffer → Distinct (step op m).buffer
  unfolding step clear del
  step-Distinct (look k value ok) m d = d
  step-Distinct (read k) m d = elim (Option-cases (find m.buffer k)) [
    | inl gone ↦ subst (λ x. Distinct x.0.buffer) (sym (at-none blank m k gone)) (gone, d)
    | inr (v, there) ↦ subst (λ x. Distinct x.0.buffer) (sym (at-some blank m k there)) d
  ]
  step-Distinct (write k v) m d = elim (Option-cases (find m.buffer k)) [
    | inl gone ↦ subst (λ x. Distinct x.buffer) (sym (at_write-none m k v gone)) (gone, d)
    | inr (w, there) ↦
        subst (λ x. Distinct x.buffer) (sym (at_write-some m k v there))
          (put-Distinct m.buffer k v there d).0
  ]
  step-Distinct (remove k) m d = erase-Distinct m.buffer k d
  step-Distinct empty m d = tt

  -- Any sequence of operations on a map with different keys, of a type whose `==` is the equality of
  -- keys, hands out what the same sequence does on the function that the map stands for, ends in a
  -- map that stands for the function's end, and keeps the keys different. A lookup hands out the
  -- value and the flag that it leaves behind its pointers, whatever they held before.
  pub run_refines :
      (ops : List (Op K V)) (m : Map K V)
      → Distinct m.buffer
      → (find (run ops m).0.buffer ≡ (replay ops (find m.buffer)).0)
        × ((run ops m).1 ≡ (replay ops (find m.buffer)).1)
        × Distinct (run ops m).0.buffer
  unfolding run replay
  run_refines [] m d = (refl, refl, d)
  run_refines (op ∷ ops) m d =
      let (a, b, c) = run_refines ops (step op m) (step-Distinct op m d) in
      rw (← find-step op m, output-answer op m) (a, ap (λ t. answer op (find m.buffer) ++ t) b, c)
