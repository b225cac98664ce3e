-- ===== src/Std.antt =====
-- The C++ that modules of the standard library bind to (std/internal/dynar, std/thread).
pub mod Dynar
pub mod Thread
