-- ===== src/Map/Initial.antt =====
-- The map of an initializer list.
use jule.Common.{
  ◌≡◌, refl, sym, ap, ◌∙◌, subst, inl, inr, Bool-cases, Option-cases, Option, none, some, List, [],
  ◌∷◌, if◌then◌else◌,
}
use jule.Map.{KeyEqual, find, insert, from_pairs, from_pairs_loop}
use jule.Map.Keys.{Distinct}

-- What was found first.
abbrev pub first_of {κ} : {V : Type κ} → Option V → Option V → Option V
first_of none r = r
first_of (some v) r = some v

first_of-none {κ} : {V : Type κ} (o : Option V) → first_of o none ≡ o
first_of-none none = refl
first_of-none (some v) = refl

first_of_assoc {κ} :
    {V : Type κ} (o p q : Option V) → first_of (first_of o p) q ≡ first_of o (first_of p q)
first_of_assoc none p q = refl
first_of_assoc (some v) p q = refl

module _ {ℓ κ} {K : Type ℓ} {V : Type κ} ⦃e : KeyEqual K⦄ where
  find-insert :
      (b : List (K × V)) (k j : K) (v : V)
      → find (insert b k v) j ≡ first_of (find b j) (if e.same k j then some v else none)
  unfolding find insert
  find-insert b k j v = elim (Option-cases (find b k)) [
    | inl gone ↦ elim (Bool-cases (e.same k j)) [
      | inl s ↦ rw (gone, find) (rw (s, ← (e.same_iff k j).0 s, gone) refl)
      | inr s ↦ rw (gone, find) (rw s (sym (first_of-none (find b j))))
    ]
    | inr (w, there) ↦
        rw (there, find)
          (elim (Bool-cases (e.same k j)) [
            | inl s ↦ rw (← (e.same_iff k j).0 s, there) refl
            | inr s ↦ rw s (sym (first_of-none (find b j)))
          ])
  ]

  insert-Distinct : (b : List (K × V)) (k : K) (v : V) → Distinct b → Distinct (insert b k v)
  unfolding insert
  insert-Distinct b k v d = elim (Option-cases (find b k)) [
    | inl gone ↦
        let added : insert b k v ≡ (k, v) ∷ b = rw (gone, insert) refl in
        subst (λ c. Distinct c) (sym added) (gone, d)
    | inr (w, there) ↦
        let kept : insert b k v ≡ b = rw (there, insert) refl in
        subst (λ c. Distinct c) (sym kept) d
  ]

  from_pairs_loop-find :
      (src b : List (K × V)) (j : K)
      → find (from_pairs_loop src b) j ≡ first_of (find b j) (find src j)
  unfolding from_pairs_loop find
  from_pairs_loop-find [] b j = sym (first_of-none (find b j))
  from_pairs_loop-find ((k, v) ∷ src) b j =
      from_pairs_loop-find src (insert b k v) j
      ∙ ap (λ o. first_of o (find src j)) (find-insert b k j v)
      ∙ first_of_assoc (find b j) (if e.same k j then some v else none) (find src j)
      ∙ ap (first_of (find b j))
          (elim (Bool-cases (e.same k j)) [ inl s ↦ rw s refl | inr s ↦ rw s refl ])

  from_pairs_loop-Distinct : (src b : List (K × V)) → Distinct b → Distinct (from_pairs_loop src b)
  unfolding from_pairs_loop
  from_pairs_loop-Distinct [] b d = d
  from_pairs_loop-Distinct ((k, v) ∷ src) b d =
      from_pairs_loop-Distinct src (insert b k v) (insert-Distinct b k v d)

  -- The map of a list of pairs has different keys, and each is looked up as in its first pair.
  from_pairs-find :
      (src : List (K × V))
      → ((j : K) → find (from_pairs src).buffer j ≡ find src j) × Distinct (from_pairs src).buffer
  unfolding from_pairs find
  from_pairs-find src = ((λ j. from_pairs_loop-find src [] j), from_pairs_loop-Distinct src [] tt)
