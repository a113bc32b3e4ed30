-- ===== src/Asm.antt =====
-- src/asm: the sections, symbols and fixups of an assembly run, its directives and its three passes.
pub mod Section
pub mod Unit
pub mod Align
pub mod SymTab
pub mod FixList
pub mod Assembly
pub mod Strdec
pub mod Quote
pub mod Literal
pub mod Directive
pub mod Driver
pub mod Sound
