-- ===== src/Encoder/Select.antt =====
-- `qas_insn_select` (encoder/internal/insn_table.c): the operand size that the operands imply, the
-- test of one operand against a specification, and the first form that fits.
use quicks_qas.Common.{
  ℕ, Bool, true, false, not, ◌&&◌, ◌||◌, List, [], ◌∷◌, Option, none, some, leb, ◌==◌,
  if◌then◌else◌,
}
use quicks_qas.Common.Int.{pos, negsuc, leb_ℤ}
use quicks_qas.Common.Words.{to_int64, fits_int8, fits_int32}
use quicks_qas.Reg.Table.{Reg, RegClass, gpr}
use quicks_qas.Reg.Lookup.{span_ieq}
use quicks_qas.Ast.{Operand, OperandKind, no_operand, reg, imm, mem, Imm, Mem}
use quicks_qas.Encoder.Forms.{
  InsnForm, OpSpec, ops_none, ops_r8, ops_rv, ops_rm8, ops_rmv, ops_r64, ops_rm64, ops_m, ops_imm8,
  ops_imm8s, ops_immv, ops_imm32, ops_imm64, ops_rel8, ops_rel32, ops_al, ops_rax, ops_cl, ops_one,
}
use quicks_qas.Encoder.Table.{insn_forms}

-- The size that one operand has by itself, 0 for none.
unfoldable pub operand_size : OperandKind → ℕ
operand_size no_operand = 0
operand_size (reg r) = r.size_bits
operand_size (imm i) = 0
operand_size (mem m) = m.size

-- 0xFF is a conflict; sizes below 16 are left out.
unfoldable pub op_size_loop : ℕ → List Operand → ℕ
unfolding operand_size
op_size_loop size [] = size
op_size_loop size (op ∷ ops) =
    let s = operand_size op.kind in
    let keep = op_size_loop size ops in
    let found = op_size_loop s ops in
    if leb 16 s then (if size == 0 then found else if not (size == s) then 0xFF else keep) else keep

unfoldable pub compute_op_size : List Operand → ℕ
unfolding op_size_loop
compute_op_size = op_size_loop 0

-- The range tests over a raw 64-bit pattern.
abbrev pub fits_byte : ℕ → Bool
fits_byte v = leb_ℤ (negsuc 127) (to_int64 v) && leb_ℤ (to_int64 v) (pos 255)

abbrev pub class_is_gpr : RegClass → Bool
class_is_gpr gpr = true
class_is_gpr _ = false

-- `match_spec` by the kind of the operand: on a register, an immediate, a memory reference.
unfoldable pub match_reg : OpSpec → Reg → ℕ → Bool
match_reg ops_r8 r size = class_is_gpr r.reg_class && r.size_bits == 8
match_reg ops_rv r size = class_is_gpr r.reg_class && r.size_bits == size && leb 16 size
match_reg ops_r64 r size = class_is_gpr r.reg_class && r.size_bits == 64
match_reg ops_rm8 r size = class_is_gpr r.reg_class && r.size_bits == 8
match_reg ops_rmv r size = class_is_gpr r.reg_class && r.size_bits == size && leb 16 size
match_reg ops_rm64 r size = class_is_gpr r.reg_class && r.size_bits == 64
match_reg ops_al r size = r.size_bits == 8 && r.encoding == 0 && not r.high_byte
match_reg ops_rax r size =
    class_is_gpr r.reg_class && r.encoding == 0 && r.size_bits == size && leb 16 size
match_reg ops_cl r size = r.size_bits == 8 && r.encoding == 1 && not r.high_byte
match_reg _ r size = false

unfoldable pub match_imm : OpSpec → Imm → Bool
match_imm ops_imm8 i = not i.is_symbol && fits_byte i.value
match_imm ops_imm8s i = not i.is_symbol && fits_int8 (to_int64 i.value)
match_imm ops_immv i = true
match_imm ops_imm32 i = i.is_symbol || fits_int32 (to_int64 i.value)
match_imm ops_imm64 i = true
match_imm ops_rel8 i = not i.is_symbol && fits_int8 (to_int64 i.value)
match_imm ops_rel32 i = true
match_imm ops_one i = not i.is_symbol && i.value == 1
match_imm _ i = false

unfoldable pub match_mem : OpSpec → Mem → ℕ → Bool
match_mem ops_rm8 m size = m.size == 8 || (m.size == 0 && size == 8)
match_mem ops_rmv m size = (leb 16 m.size && m.size == size) || (m.size == 0 && leb 16 size)
match_mem ops_rm64 m size = m.size == 64 || m.size == 0
match_mem ops_m m size = true
match_mem _ m size = false

abbrev pub spec_is_none : OpSpec → Bool
spec_is_none ops_none = true
spec_is_none _ = false

unfoldable pub match_spec : OpSpec → OperandKind → ℕ → Bool
unfolding match_reg match_imm match_mem
match_spec spec no_operand size = spec_is_none spec
match_spec spec (reg r) size = match_reg spec r size
match_spec spec (imm i) size = match_imm spec i
match_spec spec (mem m) size = match_mem spec m size

-- The loop over the operands; the count test is the case of lists of unlike lengths.
unfoldable pub match_all : List OpSpec → List Operand → ℕ → Bool
unfolding match_spec
match_all [] [] size = true
match_all [] (op ∷ ops) size = false
match_all (spec ∷ specs) [] size = false
match_all (spec ∷ specs) (op ∷ ops) size = match_spec spec op.kind size && match_all specs ops size

-- Does the form fit the statement: its mnemonic span, its operands, their size?
unfoldable pub form_fits : List ℕ → List Operand → ℕ → InsnForm → Bool
unfolding match_all span_ieq
form_fits mn ops size f = span_ieq mn f.mnemonic && match_all f.op ops size

unfoldable pub first_fit : List ℕ → List Operand → ℕ → List InsnForm → Option InsnForm
unfolding form_fits
first_fit mn ops size [] = none
first_fit mn ops size (f ∷ fs) =
    if form_fits mn ops size f then some f else first_fit mn ops size fs

pub record InsnMatch : Type 0 where
  pub form : InsnForm
  pub op_size : ℕ

abbrev pub matched : ℕ → Option InsnForm → Option InsnMatch
matched size none = none
matched size (some f) = some (record { form = f; op_size = size })

-- `qas_insn_select` over a given table.
unfoldable pub select_in : List InsnForm → List ℕ → List Operand → Option InsnMatch
select_in forms mn ops =
    let size = compute_op_size ops in
    if size == 0xFF then none else matched size (first_fit mn ops size forms)

unfoldable pub insn_select : List ℕ → List Operand → Option InsnMatch
insn_select = select_in insn_forms
