-- ===== src/Output/Console.antt =====
-- `out` and `outln` (api/builtin.hpp), and the end of the process by a panic (api/panic.hpp).
use jule.Common.{ℕ, Option, none, some, List, ◌++◌}
use jule.Utf16.{utf16_from_str}
use jule.Error.{text}

-- What the process has written: bytes to a stream, and on Windows UTF-16 units to the console.
pub record Console : Type 0 where
  pub stream : List ℕ
  pub units : List ℕ

-- `out(obj)` where `shown` is what `operator<<` writes for the object, and on Windows, where it is
-- what `to_str` gives.
pub out : Console → List ℕ → Console
out c shown = record c { stream = c.stream ++ shown }

pub out_windows : Console → List ℕ → Option Console
out_windows c shown = elim (utf16_from_str shown) [
  | none ↦ none
  | some u ↦ some (record c { units = c.units ++ u })
]

-- `std::cout << std::endl`
abbrev pub end_line : Console → Console
end_line c = record c { stream = c.stream ++ text "\n" }

-- `outln(obj)`
pub outln : Console → List ℕ → Console
unfolding out
outln c shown = end_line (out c shown)

pub outln_windows : Console → List ℕ → Option Console
unfolding out_windows
outln_windows c shown = elim (out_windows c shown) [ none ↦ none | some d ↦ some (end_line d) ]

abbrev pub exit_panic : ℕ
exit_panic = 2

-- How a process ends: what stands on its error stream, and its exit code.
pub record Exit : Type 0 where
  pub error : Console
  pub code : ℕ

-- `panic(expr)`, and the same on Windows.
pub panic : Console → List ℕ → Exit
panic c expr = record {
  error = end_line (record c { stream = (c.stream ++ text "panic: ") ++ expr });
  code = exit_panic;
}

pub panic_windows : Console → List ℕ → Option Exit
unfolding out_windows
panic_windows c expr = elim (out_windows (record c { stream = c.stream ++ text "panic: " }) expr) [
  | none ↦ none
  | some d ↦ some (record { error = d; code = exit_panic })
]
