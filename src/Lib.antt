-- ===== src/Lib.antt =====
-- A model of the C++ runtime of Jule (api/*.hpp), the code that every compiled Jule program is
-- linked with: text encodings, the built-in string, counted pointers, slices, maps and dynamic
-- values.
--
-- Parts, and how they correspond to the code:
--   Common    lists, tests, bit operations and integers that the parts share.
--   Panic     the outcome of an operation that may panic (api/panic.hpp). A panic ends the process;
--             what it writes is in Output.
--   Error     __jule_push_int_to_str and the texts of the index errors (api/error.hpp).
--             std::to_string is an argument.
--   Utf8      utf8_decode_rune_str, utf8_push_rune_bytes, runes_to_utf8 and the tables
--             (api/utf8.hpp). Utf8.Standard states RFC 3629 with no reference to the code.
--   Utf16     all of api/utf16.hpp. A write past the end of a vector is none. Utf16.Standard states
--             RFC 2781 with no reference to the code.
--   Str       the built-in string (api/str.hpp), which calls Utf8; Str.Bytes is its side to slices
--             of bytes and to C strings.
--   Memory    a heap of blocks and reference counters, with the atomic steps that api/ptr.hpp uses.
--             What `new (std::nothrow)` returns is an argument: an unused address, or null.
--   Ptr       jule::Ptr<T> (api/ptr.hpp) over Memory, programs as sequences of steps, and threads as
--             interleavings of the atomic steps of destructors and copies.
--   Slice     jule::Slice<Item> (api/slice.hpp) over Memory and Ptr. Slice.Sequence takes a slice for
--             the list of its items, for programs of pushes, reads, writes and swaps.
--   Builtin   append and copy of slices (api/builtin.hpp) over Slice.
--   Array     jule::Array<Item, N> (api/array.hpp) as the list of its items; its slices are new
--             slices over Memory.
--   Map       jule::Map<Key, Value> (api/map.hpp) as the list of its pairs, and the hash of keys.
--   Any       jule::Any (api/any.hpp), VoidExceptional and Exceptional (api/exceptional.hpp): a
--             counted pointer beside the address of a type's table, which the compiler writes
--             (src/julec/obj/cxx/object.jule).
--   Trait     jule::Trait<Mask> (api/trait.hpp), in the same way.
--   Arithmetic  div and mod with their tests for zero (api/misc.hpp).
--   Clone     the clones of all types (api/derive/clone.hpp).
--   Fn        jule::Fn<Function> (api/fn.hpp).
--   Defer     the object of a deferred block (api/defer.hpp).
--   Unchecked  indexing, swapping, slices of strings, casts, calls and divisions as they are built
--             with __JULE_DISABLE__SAFETY.
--   Uncounted  pointers, slices, any and trait values as they are built with
--             __JULE_DISABLE__REFERENCE_COUNTING.
--   Platform  what the preprocessor finds out about the platform and the compiler, and the widths
--             and limits of integers (api/platform.hpp, api/impl_flag.hpp, api/types.hpp).
--   Env       args, env and executable (api/env.hpp), as they are built for Linux and macOS, and
--             Env.Windows as they are built for Windows.
--   Output    what operator<< writes for each type (api/*.hpp), out and outln (api/builtin.hpp) and
--             panic (api/panic.hpp).
--   Std       the bindings of the standard library: thread handles (std/thread/thread.hpp) and the
--             buffer of a dynamic array (std/internal/dynar/dynar.hpp).
--   Tests     concrete runs, and each theorem listed below at a concrete input.
--
-- State and operations. A method that changes its object returns the new object; a command over
-- the heap takes and returns it, and ends with a value, a panic, or undefined behaviour (the use of
-- memory that is not allocated, or the overflow of a signed integer). Machine words keep their wrap-around: a counter is modulo 2 ^ 64,
-- an I32 is its bit pattern below 2 ^ 32. A `jule::Int` that a caller passes is an integer of
-- Common.Int. The debug argument `file`, which only adds to a panic's text, is left out. The safety
-- checks and reference counting are on, as in a default build, but in Unchecked and Uncounted.
--
-- Fuel. The loops that decode a text take its length in bytes as fuel, since a round takes a byte
-- at least, and so does the loop over the environment of Windows with its units; the decimal printer
-- takes 20 rounds, the digits of a 64-bit number. Theorems state that no loop runs out.
--
-- Not modelled: the destructors of the values in a block, which `delete` runs (the theorems are for
-- values whose destructors change nothing in the heap), the order in which C++ runs the destructors
-- of a scope, what C++ makes of the bytes of a value in another type, the limits of floating-point
-- numbers and the type names (api/types.hpp), iterators over strings, arrays and maps, which are read
-- as lists, the slicing of slices and arrays in a build without safety checks, and the compiler and
-- standard library, which are written in Jule. The atomic operations of api/atomic.hpp are steps in
-- one order for all threads: the weaker orders of relaxed operations are not modelled.
pub mod Common
pub mod Utf8
pub mod Utf16
pub mod Panic
pub mod Error
pub mod Str
pub mod Memory
pub mod Ptr
pub mod Slice
pub mod Map
pub mod Any
pub mod Trait
pub mod Builtin
pub mod Array
pub mod Clone
pub mod Arithmetic
pub mod Fn
pub mod Env
pub mod Output
pub mod Std
pub mod Tests
pub mod Unchecked
pub mod Uncounted
pub mod Defer
pub mod Platform
