-- ===== src/Asm/Sound.antt =====
-- src/asm as a whole: the invariant of an assembly run, kept by the second pass and the third.
pub mod State
mod Names
pub mod Emission
mod Strings
mod Data
mod Directives
pub mod Pass
pub mod Relocations
pub mod Resolution
