-- ===== src/Encoder.antt =====
-- src/encoder: from one instruction statement to its bytes and fixups. `Forms` is the instruction
-- table, `Select` the choice of a form, `Address` the ModR/M and SIB bytes of an operand, `Engine`
-- the emission; the other modules prove what these promise.
pub mod Forms
pub mod Table
pub mod Select
pub mod Address
pub mod Engine
pub mod Decode
pub mod Roundtrip
pub mod AddressParts
pub mod Displacement
pub mod Misread
pub mod Shape
pub mod Emit
pub mod Safety
pub mod Layout
pub mod Immediate
pub mod SignedRows
pub mod Extension
pub mod OperandSize
pub mod Slots
pub mod FirstFit
