-- ===== src/Env/Windows.antt =====
-- api/env.hpp as it is built for Windows, where texts are lists of UTF-16 units with a zero at their
-- end. What the system's calls return is an argument.
pub mod Texts
use jule.Common.{
  ℕ, zero, suc, ◌+◌, Option, none, some, List, [], ◌∷◌, length, take, ◌==◌, if◌then◌else◌,
}
use jule.Memory.{Cmd, pure, undef, ◌>>=◌}
use jule.Slice.{Slice, nil_slice, push}
use jule.Utf16.{utf16_to_utf8_str}
use jule.Str.{Str}
use jule.Env.{Process, args_of}

-- The units before the first zero, which `wcslen` counts and over which `env` moves `np`, and the
-- units after it. `none` is a text without a zero.
pub scan : List ℕ → Option (List ℕ × List ℕ)
scan [] = none
scan (u ∷ np) =
    let rest = scan np in
    if u == 0
    then some ([], np)
    else elim rest [ none ↦ none | some split ↦ some (u ∷ split.0, split.1) ]

-- An argument of the process as a string.
pub from_wide : List ℕ → Option Str
unfolding scan
from_wide warg = elim (scan warg) [ none ↦ none | some split ↦ utf16_to_utf8_str split.0 ]

-- `args`: `argvw` is what `CommandLineToArgvW` returns, which writes their number to `argc`.
pub args_windows :
    (fresh fresh_ref : ℕ) → (argvw : List (List ℕ)) → Process → Cmd (List Str) (Process × Slice)
unfolding from_wide
args_windows fresh fresh_ref argvw p = do
  slice ← args_of from_wide fresh fresh_ref (length argvw) argvw
  pure (record p { argc = length argvw }, slice)

-- The loop of `env`, with the units from `latest` on; `fresh i` is what the allocations of its
-- `i`-th `push` return. A round takes a unit at least.
pub env_windows_loop :
    (fuel : ℕ) → (ℕ → ℕ × ℕ) → (i : ℕ) → (latest : List ℕ) → Slice → Cmd (List Str) Slice
unfolding scan
env_windows_loop zero fresh i latest env = undef
env_windows_loop (suc fuel) fresh i [] env = undef
env_windows_loop (suc fuel) fresh i (u ∷ latest) env =
    if u == 0 then pure env else elim (scan (u ∷ latest)) [
      | none ↦ undef
      | some (text, after) ↦ elim (utf16_to_utf8_str text) [
        | none ↦ undef
        | some s ↦ do
          next ← push [] (fresh i).0 (fresh i).1 env s
          env_windows_loop fuel fresh (i + 1) after next
      ]
    ]

-- `env`: `env_s` is the block that `GetEnvironmentStringsW` returns.
pub env_windows : (ℕ → ℕ × ℕ) → (env_s : List ℕ) → Cmd (List Str) Slice
unfolding env_windows_loop
env_windows fresh env_s = env_windows_loop (length env_s) fresh 0 env_s nil_slice

-- `executable`: `n` is what `GetModuleFileNameW` returns, and `buffer` what it writes.
pub executable_windows : (n : ℕ) → (buffer : List ℕ) → Option Str
executable_windows n buffer = if n == 0 then some [] else utf16_to_utf8_str (take n buffer)
