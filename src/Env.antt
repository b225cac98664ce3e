-- ===== src/Env.antt =====
-- api/env.hpp as it is built for Linux and macOS: the arguments and the environment of the process,
-- as slices of strings. What the system passes are C strings, lists of bytes with a zero at their
-- end.
pub mod Windows
pub mod Arguments
pub mod Entries
use jule.Common.{ℕ, zero, suc, ◌+◌, Option, none, some, List, [], ◌∷◌, ◌==◌, if◌then◌else◌}
use jule.Memory.{Cmd, pure, undef, ◌>>=◌, ◌>>◌}
use jule.Slice.{Slice, Place, nil_slice, alloc_new, write_item, push}
use jule.Str.{Str}
use jule.Str.Bytes.{from_c_string}

-- `argc`, `argv` and `envp`, without the null pointer at the end of `envp`.
pub record Process : Type 0 where
  pub argc : ℕ
  pub argv : List (List ℕ)
  pub envp : List (List ℕ)

pub setup_argv : ℕ → List (List ℕ) → Process → Process
setup_argv argc argv p = record p { argc = argc; argv = argv }

pub setup_envp : List (List ℕ) → Process → Process
setup_envp envp p = record p { envp = envp }

-- The loop of `args` over `n` arguments, from item `i` of the slice on; `convert` makes the string of
-- one argument, and is `none` where it reads past its end.
pub write_args : (List ℕ → Option Str) → ℕ → List (List ℕ) → ℕ → Place → Cmd (List Str) (Unit {0})
write_args convert zero argv i p = pure tt
write_args convert (suc n) [] i p = undef
write_args convert (suc n) (a ∷ argv) i p = elim (convert a) [
  | none ↦ undef
  | some s ↦ do write_item p i s; write_args convert n argv (i + 1) p
]

-- The slice that `args` makes of `argc` arguments; `fresh` and `fresh_ref` are what the allocations
-- return.
pub args_of :
    (List ℕ → Option Str) → (fresh fresh_ref argc : ℕ) → List (List ℕ) → Cmd (List Str) Slice
unfolding write_args
args_of convert fresh fresh_ref argc argv = do
  slice ← alloc_new [] fresh fresh_ref nil_slice argc argc
  write_args convert argc argv 0 slice.items
  pure slice

-- `args`
pub args : (fresh fresh_ref : ℕ) → Process → Cmd (List Str) Slice
unfolding args_of
args fresh fresh_ref p = args_of from_c_string fresh fresh_ref p.argc p.argv

-- The loop of `env`; `fresh i` is what the allocations of its `i`-th `push` return.
pub env_loop : (ℕ → ℕ × ℕ) → ℕ → List (List ℕ) → Slice → Cmd (List Str) Slice
env_loop fresh i [] env = pure env
env_loop fresh i (e ∷ it) env = elim (from_c_string e) [
  | none ↦ undef
  | some s ↦ do next ← push [] (fresh i).0 (fresh i).1 env s; env_loop fresh (i + 1) it next
]

pub env : (ℕ → ℕ × ℕ) → Process → Cmd (List Str) Slice
unfolding env_loop
env fresh p = env_loop fresh 0 p.envp nil_slice

-- `executable`, of the bytes that `readlink` writes, or `none` when it fails.
pub executable : Option (List ℕ) → Str
executable none = []
executable (some result) = result

-- `executable` for macOS, of what `_NSGetExecutablePath` returns and the buffer that it writes.
pub executable_darwin : (result : ℕ) → (buff : List ℕ) → Option Str
executable_darwin result buff = if result == 0 then from_c_string buff else some []
