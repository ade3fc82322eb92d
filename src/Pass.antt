-- ===== src/Pass.antt =====
-- storeinst-pass: the compiler pass that puts a call of `checkMemory` before stores, and what the
-- library makes of the program that it compiles.
pub mod Instrument
pub mod Blocks
pub mod Exec
pub mod Steps
pub mod Covers
