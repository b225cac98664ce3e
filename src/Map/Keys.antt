-- ===== src/Map/Keys.antt =====
-- The pairs of a map by their keys: what `find` gives after each change, and one pair for each key.
use jule.Common.{
  suc, ◌≡◌, inl, inr, refl, sym, ap, ◌∙◌, true, false, none, some, List, [], ◌∷◌, length,
  if◌then◌else◌, Bool-cases, arith,
}
use jule.Map.{KeyEqual, find, put, erase}

module _ {ℓ} {K : Type ℓ} ⦃e : KeyEqual K⦄ where
  pub same_refl : (k : K) → e.same k k ≡ true
  same_refl k = (e.same_iff k k).1 refl

  -- A key that another equals stands for it.
  same_trans : (i k j : K) → e.same i k ≡ true → e.same i j ≡ e.same k j
  same_trans i k j h = ap (λ x. e.same x j) ((e.same_iff i k).0 h)

module _ {ℓ κ} {K : Type ℓ} {V : Type κ} ⦃e : KeyEqual K⦄ where
  pub find-put_self :
      (b : List (K × V)) (k : K) (v : V) {w : V} → find b k ≡ some w → find (put b k v) k ≡ some v
  unfolding find put
  find-put_self [] k v h = absurd (ground arith)
  find-put_self ((i, x) ∷ b) k v h = elim (Bool-cases (e.same i k)) [
    | inl s ↦ rw (s, s) refl
    | inr s ↦ rw (s, s) (find-put_self b k v (rw s at h))
  ]

  pub find-put_ne :
      (b : List (K × V)) (k j : K) (v : V) → e.same k j ≡ false → find (put b k v) j ≡ find b j
  unfolding find put
  find-put_ne [] k j v h = refl
  find-put_ne ((i, x) ∷ b) k j v h = elim (Bool-cases (e.same i k)) [
    | inl s ↦ rw (s, same_trans i k j s ∙ h) refl
    | inr s ↦ rw s (ap (λ t. if e.same i j then some x else t) (find-put_ne b k j v h))
  ]

  pub find-erase_self : (b : List (K × V)) (k : K) → find (erase b k) k ≡ none
  unfolding find erase
  find-erase_self [] k = refl
  find-erase_self ((i, x) ∷ b) k = elim (Bool-cases (e.same i k)) [
    | inl s ↦ rw s (find-erase_self b k)
    | inr s ↦ rw (s, s) (find-erase_self b k)
  ]

  pub find-erase_ne :
      (b : List (K × V)) (k j : K) → e.same k j ≡ false → find (erase b k) j ≡ find b j
  unfolding find erase
  find-erase_ne [] k j h = refl
  find-erase_ne ((i, x) ∷ b) k j h = elim (Bool-cases (e.same i k)) [
    | inl s ↦ rw (s, same_trans i k j s ∙ h) (find-erase_ne b k j h)
    | inr s ↦ rw s (ap (λ t. if e.same i j then some x else t) (find-erase_ne b k j h))
  ]

  -- The keys are different.
  abbrev pub Distinct : List (K × V) → Type κ
  Distinct [] = Unit
  Distinct ((k, v) ∷ b) = (find b k ≡ none) × Distinct b

  pub put-Distinct :
      (b : List (K × V)) (k : K) (v : V) {w : V}
      → find b k ≡ some w
      → Distinct b
      → Distinct (put b k v) × (length (put b k v) ≡ length b)
  unfolding find put
  put-Distinct [] k v h d = absurd (ground arith)
  put-Distinct ((i, x) ∷ b) k v h (new, d) = elim (Bool-cases (e.same i k)) [
    | inl s ↦ rw s ((new, d), refl)
    | inr s ↦
        let there = rw s at h in
        let (rest, size) = put-Distinct b k v there d in
        let other : e.same k i ≡ false = elim (Bool-cases (e.same k i)) [
          | inl t ↦ absurd (ground (arith, (e.same_iff k i).0, same_refl k))
          | inr t ↦ t
        ] in
        rw s ((find-put_ne b k i v other ∙ new, rest), ap suc size)
  ]

  pub erase-none : (b : List (K × V)) (k : K) → find b k ≡ none → erase b k ≡ b
  unfolding find erase
  erase-none [] k h = refl
  erase-none ((i, x) ∷ b) k h = elim (Bool-cases (e.same i k)) [
    | inl s ↦ absurd (ground arith)
    | inr s ↦ rw s (ap (λ t. (i, x) ∷ t) (erase-none b k (rw s at h)))
  ]

  pub erase-Distinct : (b : List (K × V)) (k : K) → Distinct b → Distinct (erase b k)
  unfolding find erase
  erase-Distinct [] k d = d
  erase-Distinct ((i, x) ∷ b) k (new, d) = elim (Bool-cases (e.same i k)) [
    | inl s ↦ rw s (erase-Distinct b k d)
    | inr s ↦
        let other : e.same k i ≡ false = elim (Bool-cases (e.same k i)) [
          | inl t ↦ absurd (ground (arith, (e.same_iff k i).0, same_refl k))
          | inr t ↦ t
        ] in
        rw s (find-erase_ne b k i other ∙ new, erase-Distinct b k d)
  ]

  pub length-erase :
      (b : List (K × V)) (k : K) {w : V}
      → find b k ≡ some w
      → Distinct b
      → length b ≡ suc (length (erase b k))
  unfolding find erase
  length-erase [] k h d = absurd (ground arith)
  length-erase ((i, x) ∷ b) k h (new, d) = elim (Bool-cases (e.same i k)) [
    | inl s ↦ rw s (ap suc (ap length (sym (erase-none b k (rw (← (e.same_iff i k).0 s) new)))))
    | inr s ↦ rw s (ap suc (length-erase b k (rw s at h) d))
  ]
