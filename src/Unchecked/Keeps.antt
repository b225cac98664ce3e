-- ===== src/Unchecked/Keeps.antt =====
-- When a command without tests keeps what the command with tests does: where that ends with a
-- value, it ends with the same value in the same memory.
use jule.Common.{◌≡◌, refl, sym, subst, Bool, true, false, Option, some, if◌then◌else◌}
use jule.Memory.{Memory, Cmd, Run, done, stopped, undefined, and_then, stop, ◌>>=◌}
use jule.Panic.{Panic, Outcome, ok, panic}

abbrev pub Kept : {T A : Type 0} → Run T A → Run T A → Type 0
Kept (done a m) r = r ≡ done a m
Kept (stopped p) r = Unit {0}
Kept undefined r = Unit {0}

abbrev pub Keeps : {T A : Type 0} → Cmd T A → Cmd T A → Type 0
Keeps {T} c d = (m : Memory T) → Kept (c m) (d m)

-- The same for an operation without memory; `none` is undefined.
abbrev pub Answers {ℓ} : {A : Type ℓ} → Outcome A → Option A → Type ℓ
Answers (ok a) o = o ≡ some a
Answers (panic p) o = Unit

module _ {T A : Type 0} where
  Kept-refl : (r : Run T A) → Kept r r
  Kept-refl (done a m) = refl
  Kept-refl (stopped p) = tt
  Kept-refl undefined = tt

  pub Keeps-refl : (c : Cmd T A) → Keeps c c
  Keeps-refl c m = Kept-refl (c m)

  -- A test before a command.
  pub Keeps-guard :
      (b : Bool) (p : Panic) (c d : Cmd T A) → Keeps c d → Keeps (if b then stop p else c) d
  Keeps-guard true p c d k m = tt
  Keeps-guard false p c d k m = k m

  -- A test that fails.
  pub Keeps-stopped :
      (b : Bool) (p : Panic) (c d : Cmd T A) → b ≡ true → Keeps (if b then stop p else c) d
  Keeps-stopped b p c d e m = subst (λ t. Kept ((if t then stop p else c) m) (d m)) (sym e) tt

module _ {T A B : Type 0} where
  Kept-bind :
      (r r' : Run T A) (f g : A → Cmd T B)
      → Kept r r'
      → ((a : A) → Keeps (f a) (g a))
      → Kept (and_then r f) (and_then r' g)
  Kept-bind (done a m) r' f g e k = subst (λ x. Kept (f a m) (and_then x g)) (sym e) (k a m)
  Kept-bind (stopped p) r' f g e k = tt
  Kept-bind undefined r' f g e k = tt

  pub Keeps-bind :
      (c d : Cmd T A) (f g : A → Cmd T B)
      → Keeps c d
      → ((a : A) → Keeps (f a) (g a))
      → Keeps (c >>= f) (d >>= g)
  Keeps-bind c d f g e k m = Kept-bind (c m) (d m) f g (e m) k

  -- A command that only tests.
  pub Keeps-test :
      (b : Bool) (p : Panic) (a : A) (f : A → Cmd T B) (d : Cmd T B)
      → Keeps (f a) d
      → Keeps ((if b then stop p else done a) >>= f) d
  Keeps-test true p a f d k m = tt
  Keeps-test false p a f d k m = k m
