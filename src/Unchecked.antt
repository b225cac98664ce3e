-- ===== src/Unchecked.antt =====
-- The build without safety checks (`__JULE_DISABLE__SAFETY`, api/*.hpp): the operations that test
-- their arguments in other builds, without their tests.
pub mod Keeps
pub mod Slices
pub mod Texts
pub mod Values
pub mod Programs
