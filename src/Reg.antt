-- ===== src/Reg.antt =====
-- src/reg: the x86-64 register table of reg.c and its lookup. A name is the list of its bytes, and
-- a pointer into the table is the row that it points to. `Names` says what the lookup finds.
pub mod Table
pub mod Lookup
pub mod Names
