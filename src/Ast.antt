-- ===== src/Ast.antt =====
-- src/ast/ast.h: the statements that the parser builds and the encoder reads. A C record of a kind
-- and a part for each kind is a data type here; an operand array with its count is a list.
use quicks_qas.Common.{ℕ, Bool, List, Option}
use quicks_qas.Common.Int.{ℤ}
use quicks_qas.Reg.Table.{Reg}

-- `value` is the literal's 64-bit pattern, or the addend when `is_symbol`.
pub record Imm : Type 0 where
  pub is_symbol : Bool
  pub sym_off : ℕ
  pub sym_len : ℕ
  pub value : ℕ

-- An absent base or index is `none`; `size` is the hint in bits, 0 for none.
pub record Mem : Type 0 where
  pub base : Option Reg
  pub index : Option Reg
  pub scale : ℕ
  pub has_disp : Bool
  pub disp_is_symbol : Bool
  pub sym_off : ℕ
  pub sym_len : ℕ
  pub disp : ℤ
  pub size : ℕ

pub data OperandKind : Type 0 where
  no_operand : OperandKind
  reg : Reg → OperandKind
  imm : Imm → OperandKind
  mem : Mem → OperandKind

pub record Operand : Type 0 where
  pub offset : ℕ
  pub length : ℕ
  pub kind : OperandKind

pub data StmtKind : Type 0 where
  label directive instruction : StmtKind

pub data DirArgKind : Type 0 where
  int_arg string_arg symbol_arg : DirArgKind

pub record DirArg : Type 0 where
  pub kind : DirArgKind
  pub off : ℕ
  pub len : ℕ
  pub int_value : ℕ

pub record Stmt : Type 0 where
  pub kind : StmtKind
  pub offset : ℕ
  pub length : ℕ
  pub line : ℕ
  pub name_off : ℕ
  pub name_len : ℕ
  pub operands : List Operand
  pub args : List DirArg
