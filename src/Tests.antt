-- ===== src/Tests.antt =====
-- Concrete runs, and the theorems at concrete inputs, part by part.
mod Text
mod Wide
mod Strings
mod Pointers
mod Slices
mod Growth
mod Maps
mod Dynamic
mod Threads
mod Process
mod Printing
mod Sequences
mod Builds
