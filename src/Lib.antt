-- ===== src/Lib.antt =====
-- qas, an x86-64 assembler in C: a model of its sources and the theorems about it.
--
-- The program turns an Intel-syntax source into an ELF object. `src/source` holds the bytes and their
-- line index; `src/lexer` cuts them into the tokens of `src/token`; the parser builds the statements of
-- `src/ast`, with the registers of `src/reg`; `src/encoder` turns an instruction into bytes and fixups;
-- `src/asm` collects them in sections, whose bytes are the buffers of `src/buf`; `src/elf` writes the
-- object. What is wrong with a source is a diagnostic of `src/diag`. The result codes are those of `src/status`.
--
-- Which file models what:
--   Common      shared helpers: lists and tests over the native numbers, integers, machine words
--   Status      src/status/status.h, `qas_status`
--   Reg         src/reg/reg.c: `Table` the register table, `Lookup` the search, `Names` its law
--   Ast         src/ast/ast.h: operands and statements
--   Encoder     src/encoder: `Forms` and `Table` are internal/insn_table.h and the table of
--               internal/insn_table.c, `Select` is `qas_insn_select`, `Address` the memory operands of
--               encoder.c, `Engine` its `qas_encode`. `Decode` is no code of the repository but what the
--               processor reads, from the format in the Intel manual; `Roundtrip`, `AddressParts`,
--               `Displacement` and `Misread` compare the two; `Shape`, `Emit`, `Safety` and `Layout` are
--               about the whole instruction; `Immediate`, `SignedRows` and `Extension` about its immediate
--               field; `OperandSize`, `Slots` and `FirstFit` about the selection, with the operand
--               specifications in the notation of the manual
--   Buf         src/buf/buf.c: `Ops` has the operations, `Growth`, `Append` and `Patch` their laws
--   Source      src/source/source.c: `Index` has the operations, `Search` and `Location` their laws
--   Lexer       src/lexer/lexer.c and src/token/token.h: `Cursor` and `Scan` have the scanner, `Place`,
--               `Span`, `Next`, `Digits` and `Value` its laws
--   Parser      src/parser/parser.c: `State` the tokens ahead, `Memory` the memory operands, `Instruction`
--               the operands of an instruction; `Ahead`, `Operand` and `Accepted` their laws
--   Diag        src/diag/diag.c: `Sink` has the operations, `Counts` their law
--   Asm         src/asm. `Section` is internal/section.c, `Unit` and `Assembly` internal/unit.c, `SymTab`
--               internal/symtab.c, `FixList` internal/fixups.c, `Strdec` internal/strdec.c, `Directive`
--               internal/directive.c, `Driver` asm.c: `Layout` its second pass, `Resolve` its third.
--               In `SymTab` the operations are in `Ops`; `Buckets`, `Probing`, `Index`, `Rehash`, `Names`,
--               `Room`, `Append` and `Intern` lead to the refinement. `Align` is about emission, `Sound`
--               about whole passes, `Quote` and `Literal` about strings, `Directive.Range` about the
--               range of data and alignments, `Driver.Patching` about a field that is resolved in place
--   Tests       the theorems at concrete inputs
--
-- How the code is modelled. A struct is a record and an enum a data type; an array with its count is
-- a list, and a buffer's `len` is the length of its bytes. A function that returns a status and writes
-- through a pointer returns both. Casts and wrap-around are written out as `% 2 ^ w`; a mask is
-- `low_bits`, a shift a product or quotient by a power of two. In the encoder a result is `done`,
-- `refused` with the diagnostic's cause, or `fault` where the C code would dereference a NULL pointer.
-- The lexer keeps the bytes from its cursor on in place of the source and the offset. What asks the
-- allocator takes an argument that grants or refuses; a pass takes a supply of such answers, in order; NULL
-- arguments and freeing are not modelled. Sums of displacements and addends (`encode_rip`, `pc_value`) are
-- sums of integers, as in C where no int64_t overflows.
--
-- Bounds and fuel. The doubling loop of `qas_buf_reserve` has 64 rounds, enough for a 64-bit
-- capacity; the binary search of `qas_source_location` has one round more than there are lines; the
-- loops of the lexer have one round for each unread byte, and each round takes a byte; so has the
-- decoding of strings, and the loop over the terms of a memory operand has two more for the tokens ahead.
-- A probe of the symbol table has one round for each bucket, enough since a bucket is empty; `none` stands for a run that would not return. Names of symbols hold no NUL.
--
-- Not modelled: the parser's directive arguments and statements, the relocatable object (`build_object` of
-- src/asm/asm.c and the ELF writer), the arena; reading files, printing diagnostics and the command line, which are I/O; the functions that name
-- enum values for messages.
pub mod Common
pub mod Status
pub mod Reg
pub mod Ast
pub mod Buf
pub mod Source
pub mod Encoder
pub mod Lexer
pub mod Asm
pub mod Diag
pub mod Parser
pub mod Tests
