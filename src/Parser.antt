-- ===== src/Parser.antt =====
-- src/parser/parser.c: the tokens ahead, and the memory operands.
pub mod State
pub mod Memory
pub mod Ahead
pub mod Operand
pub mod Instruction
pub mod Accepted
