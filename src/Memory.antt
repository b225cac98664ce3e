-- ===== src/Memory.antt =====
-- The heap that the pointers and slices of api/ share: blocks made by `new`, and the reference
-- counters of api/ptr.hpp beside them. Address 0 is the null pointer. What `new (std::nothrow)`
-- returns is an argument of the commands that allocate: an unused address, or 0.
use native.Mathlib.Omega.{arith}
use jule.Common.{
  ℕ, ◌≡◌, ◌≢◌, ap, fun_ext, ◌+◌, ◌%◌, ◌^◌, Bool, true, false, Option, none, some, ◌==◌,
  if◌then◌else◌,
}
use jule.Panic.{Panic}

pub record Memory (T : Type 0) : Type 0 where
  pub blocks : ℕ → Option T
  pub counts : ℕ → Option ℕ

-- A command ends, or panics, or has undefined behaviour: it used memory that is not allocated.
pub data Run (T A : Type 0) : Type 0 where
  done : A → Memory T → Run T A
  stopped : Panic → Run T A
  undefined : Run T A

abbrev pub Cmd : Type 0 → Type 0 → Type 0
Cmd T A = Memory T → Run T A

abbrev pub pure : {T A : Type 0} → A → Cmd T A
pure = done

abbrev pub stop : {T A : Type 0} → Panic → Cmd T A
stop p m = stopped p

abbrev pub undef : {T A : Type 0} → Cmd T A
undef m = undefined

module _ {T A B : Type 0} where
  abbrev pub and_then : Run T A → (A → Cmd T B) → Run T B
  and_then (done a m) k = k a m
  and_then (stopped p) k = stopped p
  and_then undefined k = undefined

  infixl 5 ◌>>=◌ ◌>>◌
  abbrev pub ◌>>=◌ : Cmd T A → (A → Cmd T B) → Cmd T B
  m >>= k = λ h. and_then (m h) k

  abbrev pub ◌>>◌ : Cmd T A → Cmd T B → Cmd T B
  m >> n = m >>= λ _. n

abbrev pub put {ℓ} : {A : Type ℓ} → (ℕ → Option A) → ℕ → Option A → ℕ → Option A
put f a v b = if b == a then v else f b

module _ {T : Type 0} where
  -- A write to an address whatever it holds: what `new` does at a fresh address.
  unfoldable pub put_block : ℕ → T → Cmd T (Unit {0})
  put_block a v m = done tt (record m { blocks = put m.blocks a (some v) })

  unfoldable pub put_count : ℕ → ℕ → Cmd T (Unit {0})
  put_count c n m = done tt (record m { counts = put m.counts c (some n) })

  -- `*alloc`, for an allocated block.
  unfoldable pub load_block : ℕ → Cmd T T
  load_block a m = elim (m.blocks a) [ none ↦ undefined | some v ↦ done v m ]

  unfoldable pub load_count : ℕ → Cmd T ℕ
  load_count c m = elim (m.counts c) [ none ↦ undefined | some n ↦ done n m ]

  -- `*alloc = v`, for an allocated block.
  unfoldable pub store_block : ℕ → T → Cmd T (Unit {0})
  store_block a v m = elim (m.blocks a) [ none ↦ undefined | some _ ↦ put_block a v m ]

  -- `__atomic_fetch_add` on a counter: the value before, and a wrapping sum.
  unfoldable pub fetch_add : ℕ → ℕ → Cmd T ℕ
  fetch_add c delta m = elim (m.counts c) [
    | none ↦ undefined
    | some n ↦ done n (record m { counts = put m.counts c (some ((n + delta) % 2 ^ 64)) })
  ]

  -- `__atomic_store` and `__atomic_exchange`, which gives the value before.
  unfoldable pub atomic_store : ℕ → ℕ → Cmd T (Unit {0})
  atomic_store c v m = elim (m.counts c) [ none ↦ undefined | some _ ↦ put_count c v m ]

  unfoldable pub atomic_swap : ℕ → ℕ → Cmd T ℕ
  atomic_swap c new m = elim (m.counts c) [
    | none ↦ undefined
    | some n ↦ done n (record m { counts = put m.counts c (some new) })
  ]

  -- `__atomic_compare_exchange`: whether it stored, and what `*OLD` holds afterwards.
  unfoldable pub atomic_compare_swap : ℕ → ℕ → ℕ → Cmd T (Bool × ℕ)
  atomic_compare_swap c old new m = elim (m.counts c) [
    | none ↦ undefined
    | some n ↦
        if n == old
        then done (true, old) (record m { counts = put m.counts c (some new) })
        else done (false, n) m
  ]

  -- `delete p` and `delete[] p`; at the null pointer it does nothing.
  unfoldable pub delete_block : ℕ → Cmd T (Unit {0})
  delete_block a m = if a == 0 then done tt m else elim (m.blocks a) [
    | none ↦ undefined
    | some _ ↦ done tt (record m { blocks = put m.blocks a none })
  ]

  unfoldable pub delete_count : ℕ → Cmd T (Unit {0})
  delete_count c m = if c == 0 then done tt m else elim (m.counts c) [
    | none ↦ undefined
    | some _ ↦ done tt (record m { counts = put m.counts c none })
  ]

pub put_same {ℓ} : {A : Type ℓ} (f : ℕ → Option A) (a : ℕ) (v : Option A) → put f a v a ≡ v
put_same f a v = let e : (a == a) ≡ true = ground arith in rw e

pub put_other {ℓ} :
    {A : Type ℓ} (f : ℕ → Option A) (a b : ℕ) (v : Option A) → b ≢ a → put f a v b ≡ f b
put_other f a b v ne = let e : (b == a) ≡ false = ground arith in rw e

pub put-put {ℓ} :
    {A : Type ℓ} (f : ℕ → Option A) (a : ℕ) (v w : Option A) → put (put f a v) a w ≡ put f a w
put-put f a v w = fun_ext λ b. ground arith

-- Writing what is there changes nothing.
pub put_own {ℓ} : {A : Type ℓ} (f : ℕ → Option A) (a : ℕ) {v : Option A} → f a ≡ v → put f a v ≡ f
put_own f a e = fun_ext λ b. ground (arith, e, ap f)

-- The commands on memory that is allocated.
module _ {T : Type 0} (m : Memory T) where
  pub fetch_add-some :
      (c n delta : ℕ)
      → m.counts c ≡ some n
      → fetch_add c delta m
        ≡ done n (record m { counts = put m.counts c (some ((n + delta) % 2 ^ 64)) })
  unfolding fetch_add
  fetch_add-some c n delta e = rw (e, fetch_add)

  pub load_count-some : (c n : ℕ) → m.counts c ≡ some n → load_count c m ≡ done n m
  unfolding load_count
  load_count-some c n e = rw (e, load_count)

  pub load_block-some : (a : ℕ) (v : T) → m.blocks a ≡ some v → load_block a m ≡ done v m
  unfolding load_block
  load_block-some a v e = rw (e, load_block)

  pub delete_count-some :
      (c n : ℕ)
      → c ≢ 0
      → m.counts c ≡ some n
      → delete_count c m ≡ done tt (record m { counts = put m.counts c none })
  unfolding delete_count
  delete_count-some c n ne e = let z : (c == 0) ≡ false = ground arith in rw (z, e, delete_count)

  pub delete_block-some :
      (a : ℕ) (v : T)
      → a ≢ 0
      → m.blocks a ≡ some v
      → delete_block a m ≡ done tt (record m { blocks = put m.blocks a none })
  unfolding delete_block
  delete_block-some a v ne e = let z : (a == 0) ≡ false = ground arith in rw (z, e, delete_block)
