-- ===== src/Asm/Driver.antt =====
-- The assembler driver (asm/asm.c).
pub mod Layout
pub mod Resolve
pub mod Patching
