-- ===== src/Asm/SymTab.antt =====
-- The symbol table of asm/internal/symtab.c: names interned through an array of buckets.
pub mod Ops
pub mod Buckets
pub mod Probing
pub mod Index
pub mod Rehash
pub mod Names
pub mod Room
pub mod Append
pub mod Intern
