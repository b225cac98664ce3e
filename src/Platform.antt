-- ===== src/Platform.antt =====
-- The platform that the preprocessor finds (api/platform.hpp), the version of C++
-- (api/impl_flag.hpp), and the integer types that depend on them (api/types.hpp).
pub mod Widths
use jule.Common.{ℕ, ◌+◌, ◌-◌, ◌^◌, Bool, true, false, ◌||◌, Option, none, some, ◌==◌, if◌then◌else◌}
use jule.Common.Int.{ℤ, pos, negsuc}

-- The macros that a compiler defines before it reads a file.
pub data Macro : Type 0 where
  win32 win32_of_msvc win32_of_gcc nt : Macro
  linux_of_gcc linux linux_short : Macro
  apple mach : Macro
  amd64 amd64_long x86_64 x86_64_long msvc_amd64 : Macro
  arm thumb msvc_arm arm_short : Macro
  aarch64 : Macro
  i386 i386_short i386_long x86 i86 i386_number : Macro

pub data Os : Type 0 where
  windows linux_os darwin : Os

pub data Arch : Type 0 where
  arch_amd64 arch_arm arch_arm64 arch_i386 : Arch

module _ (defined : Macro → Bool) where
  -- `OS_WINDOWS`, `OS_LINUX` and `OS_DARWIN`
  pub os : Option Os
  os =
      if defined win32 || (defined win32_of_msvc || (defined win32_of_gcc || defined nt))
      then some windows
      else if defined linux_of_gcc || (defined linux || defined linux_short)
      then some linux_os
      else if defined apple || defined mach
      then some darwin
      else none

  -- `OS_UNIX`
  pub unix : Bool
  unfolding os
  unix = elim os [
    | none ↦ false
    | some o ↦ elim o [ windows ↦ false | linux_os ↦ true | darwin ↦ true ]
  ]

  -- `ARCH_AMD64`, `ARCH_ARM`, `ARCH_ARM64` and `ARCH_I386`
  pub arch : Option Arch
  arch =
      if defined amd64
        || (defined amd64_long || (defined x86_64 || (defined x86_64_long || defined msvc_amd64)))
      then some arch_amd64
      else if defined arm || (defined thumb || (defined msvc_arm || defined arm_short))
      then some arch_arm
      else if defined aarch64
      then some arch_arm64
      else if defined i386
          || (defined i386_short
              || (defined i386_long || (defined x86 || (defined i86 || defined i386_number))))
      then some arch_i386
      else none

  -- `ARCH_X64`; otherwise `ARCH_X32`
  pub x64 : Bool
  unfolding arch
  x64 = elim arch [
    | none ↦ false
    | some a ↦ elim a [
      | arch_amd64 ↦ true
      | arch_arm ↦ false
      | arch_arm64 ↦ true
      | arch_i386 ↦ false
    ]
  ]

  -- The bits of `Int`, `Uint` and `Uintptr`.
  pub int_width : ℕ
  unfolding x64
  int_width = if x64 then 64 else 32

-- The limits of 64-bit integers.
abbrev pub max_i64 : ℤ
max_i64 = pos 9223372036854775807

abbrev pub min_i64 : ℤ
min_i64 = negsuc 9223372036854775807

abbrev pub max_u64 : ℕ
max_u64 = 18446744073709551615

pub data Standard : Type 0 where
  cpp98 cpp11 cpp14 cpp17 cpp20 : Standard

-- `__JULE_CPP98` to `__JULE_CPP20`, of the value of `__cplusplus`.
pub standard : ℕ → Option Standard
standard cplusplus =
    if cplusplus == 199711
    then some cpp98
    else if cplusplus == 201103
    then some cpp11
    else if cplusplus == 201402
    then some cpp14
    else if cplusplus == 201703
    then some cpp17
    else if cplusplus == 202002
    then some cpp20
    else none

-- Whether `__JULE_CONSTEXPR_SINCE_CPP20` is `constexpr`; otherwise the functions are `inline`.
pub constexpr_since_cpp20 : ℕ → Bool
unfolding standard
constexpr_since_cpp20 cplusplus = elim (standard cplusplus) [
  | none ↦ false
  | some s ↦ elim s [ cpp98 ↦ false | cpp11 ↦ false | cpp14 ↦ false | cpp17 ↦ false | cpp20 ↦ true ]
]
