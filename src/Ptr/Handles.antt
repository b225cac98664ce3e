-- ===== src/Ptr/Handles.antt =====
-- The pointers that a program holds, and how many of them share a counter.
use jule.Common.{
  ℕ, suc, ◌+◌, ◌≤◌, ◌≡◌, refl, List, [], ◌∷◌, All, length, ◌==◌, if◌then◌else◌, arith, ap,
}
use jule.Ptr.{Ptr}

abbrev pub refs : ℕ → List Ptr → ℕ
refs c [] = 0
refs c (p ∷ hs) = (if p.ref == c then 1 else 0) + refs c hs

-- `Take p hs ks`: the pointers `ks` are `hs` without one `p`.
pub data Take (p : Ptr) : List Ptr → List Ptr → Type 0 where
  here : {hs : List Ptr} → Take p (p ∷ hs) hs
  there : {q : Ptr} {hs ks : List Ptr} → Take p hs ks → Take p (q ∷ hs) (q ∷ ks)

pub refs-Take :
    {p : Ptr} {hs ks : List Ptr} (c : ℕ)
    → Take p hs ks
    → refs c hs ≡ (if p.ref == c then 1 else 0) + refs c ks
refs-Take c here = refl
refs-Take c (there {q} t) = omega (arith, refs-Take c t)

pub length-Take : {p : Ptr} {hs ks : List Ptr} → Take p hs ks → length hs ≡ suc (length ks)
length-Take here = refl
length-Take (there t) = ap suc (length-Take t)

module _ {p : Ptr} (P : Ptr → Type 0) where
  pub All-Take : {hs ks : List Ptr} → Take p hs ks → All P hs → P p × All P ks
  All-Take here h = h
  All-Take (there t) (x, h) = let (y, k) = All-Take t h in (y, (x, k))

pub refs-le-length : (c : ℕ) (hs : List Ptr) → refs c hs ≤ length hs
refs-le-length c [] = omega arith
refs-le-length c (p ∷ hs) = ground (arith, refs-le-length c hs)
