-- ===== src/Slice/Copy.antt =====
-- Copying items from one array to another (`std::copy` and `std::move` in api/slice.hpp and
-- api/builtin.hpp), and the array of a new slice.
use jule.Common.{
  ℕ, zero, suc, ◌+◌, ◌-◌, ◌≤◌, ◌≡◌, ◌≢◌, refl, ap, ◌∙◌, ◌&&◌, some, ltb, leb, arith, List,
  if◌then◌else◌, length, length-set, get_or, set,
}
use native.Mathlib.Decide.{dec_lt, ℕ_discrete}
use jule.Memory.{Memory, done, put, put_same, put_other, put-put}
use jule.Ptr.{nil}
use jule.Slice.{Slice, place, copy_items}
use jule.Slice.Items.{In, read_item-get_or, write_item-set, get_or-set}

-- The items `xs`, from `p` on, written over those of `ys` from `q` on, `n` of them.
abbrev pub pasted {ℓ} : {A : Type ℓ} → A → ℕ → List A → ℕ → List A → ℕ → List A
pasted d zero xs p ys q = ys
pasted d (suc n) xs p ys q = pasted d n xs (p + 1) (set ys q (get_or xs p d)) (q + 1)

pub length-pasted {ℓ} :
    {A : Type ℓ} (d : A) (n : ℕ) (xs : List A) (p : ℕ) (ys : List A) (q : ℕ)
    → length (pasted d n xs p ys q) ≡ length ys
length-pasted d zero xs p ys q = refl
length-pasted d (suc n) xs p ys q =
    length-pasted d n xs (p + 1) (set ys q (get_or xs p d)) (q + 1)
    ∙ length-set ys q (get_or xs p d)

pub get_or-pasted :
    {A : Type 0} (d : A) (n : ℕ) (xs : List A) (p : ℕ) (ys : List A) (q k : ℕ)
    → q + n ≤ length ys
    → get_or (pasted d n xs p ys q) k d
      ≡ (if leb q k && ltb k (q + n) then get_or xs (p + (k - q)) d else get_or ys k d)
get_or-pasted d zero xs p ys q k h = ground arith
get_or-pasted d (suc n) xs p ys q k h =
    let v = get_or xs p d in
    let size = length-set ys q v in
    let rest = get_or-pasted d n xs (p + 1) (set ys q v) (q + 1) k (omega (arith, size)) in
    let here = get_or-set ys q k v d (omega arith) in
    elim (dec_lt q k) [
      | yes after ↦
          let e : p + 1 + (k - (q + 1)) ≡ p + (k - q) = omega arith in
          ground (arith, rest, here, ap (λ i. get_or xs i d) e)
      | no before ↦ elim (ℕ_discrete q k) [
        | yes at_q ↦
            let e : p + (k - q) ≡ p = omega arith in
            ground (arith, rest, here, ap (λ i. get_or xs i d) e)
        | no less ↦ ground (arith, rest, here)
      ]
    ]

-- The memory with the array `b` written.
abbrev pub holding : {A : Type 0} → Memory (List A) → ℕ → List A → Memory (List A)
holding m b ys = record m { blocks = put m.blocks b (some ys) }

-- A slice of no items at a place.
abbrev pub at_place : ℕ → ℕ → Slice
at_place b i = record { memory = nil; items = place b i; len = 0; cap = 0 }

module _ {A : Type 0} (d : A) (m : Memory (List A)) (a b : ℕ) (xs : List A) (na : a ≢ 0)
    (nb : b ≢ 0) (ne : a ≢ b) (from : m.blocks a ≡ some xs) where
  -- Between different arrays, within both.
  pub copy_items-pasted :
      (n i p q : ℕ) (ys : List A)
      → p + i + n ≤ length xs
      → q + i + n ≤ length ys
      → copy_items n i (place a p) (place b q) (holding m b ys)
        ≡ done tt (holding m b (pasted d n xs (p + i) ys (q + i)))
  unfolding copy_items
  copy_items-pasted zero i p q ys h k = refl
  copy_items-pasted (suc n) i p q ys h k =
      let v = get_or xs (p + i) d in
      let ys' = set ys (q + i) v in
      let source : In (holding m b ys) (at_place a p) xs = record {
        allocated = put_other m.blocks b a (some ys) ne ∙ from;
        not_nil = na;
        fits = omega arith;
        within = omega arith;
      } in
      let target : In (holding m b ys) (at_place b q) ys = record {
        allocated = put_same m.blocks b (some ys);
        not_nil = nb;
        fits = omega arith;
        within = omega arith;
      } in
      let size = length-set ys (q + i) v in
      let rest = copy_items-pasted n (i + 1) p q ys' (omega arith) (omega (arith, size)) in
      let next_p : p + (i + 1) ≡ p + i + 1 = omega arith in
      let next_q : q + (i + 1) ≡ q + i + 1 = omega arith in
      rw (read_item-get_or source i d (omega arith)) (
        rw (write_item-set target i v (omega arith))
          (rw (put-put m.blocks b (some ys) (some ys')) (rw (next_p, next_q) at rest)))
