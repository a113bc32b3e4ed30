-- ===== src/Encoder/Extension.antt =====
-- The immediate field of a selected form: what the table of encoder/internal/insn_table.c and the range
-- check of `qas_encode` (encoder/encoder.c) admit together is what the processor reads.
use quicks_qas.Common.{
  ℕ, ◌+◌, ◌^◌, ◌<◌, ◌≤◌, ◌≡◌, ◌⊎◌, inl, inr, refl, true, false, List, ◌++◌, some, length, arith,
  Bool-cases,
}
use quicks_qas.Common.Words.{to_int64, fits_int32, le_bytes}
use quicks_qas.Ast.{Imm, Operand}
use quicks_qas.Encoder.Address.{done}
use quicks_qas.Encoder.Forms.{InsnForm, Enc, ImmK, immk_none, immk_iv, immk_iov}
use quicks_qas.Encoder.Select.{InsnMatch, insn_select, match_all, compute_op_size}
use quicks_qas.Encoder.Engine.{
  Encoded, emit_imm_operand, imm_operand, imm_width, imm_in_range, find_imm_operand, is_iv,
  form_rex_w,
}
use quicks_qas.Encoder.Shape.{insn_select_row}
use quicks_qas.Encoder.Immediate.{KeptAs, in_range-Keeps, extends32, emitted_literal}
use quicks_qas.Encoder.SignedRows.{
  extends_opcode, extends_sign, admits_unsigned, signed_row, wide_row, branch_row, rows_pass, Wide,
  wide_slots-Wide, signed_slots-KeptAs, emitted_first,
}

width_none :
    (k : ImmK) (enc : Enc) (ops : List Operand) (size : ℕ) {i : Imm}
    → imm_operand k enc ops ≡ some i
    → 1 ≤ imm_width k size
unfolding imm_operand imm_width
width_none immk_none enc ops size h = cc
width_none immk_iv enc ops size h = ground arith
width_none immk_iov enc ops size h = ground arith
width_none k enc ops size h = omega arith

width_iv : (size : ℕ) → (size ≡ 64) ⊎ (size ≡ 0) → imm_width immk_iv size ≡ 4
unfolding imm_width
width_iv size (inl e) = rw e refl
width_iv size (inr e) = rw e refl

checked_iv :
    (v : ℕ)
    → imm_in_range immk_iv 64 (imm_width immk_iv 64) v ≡ true
    → fits_int32 (to_int64 v) ≡ true
unfolding imm_in_range
checked_iv v h = h

iv_KeptAs :
    (size v : ℕ)
    → v < 2 ^ 64
    → (size ≡ 64) ⊎ (size ≡ 0)
    → fits_int32 (to_int64 v) ≡ true
    → KeptAs true (imm_width immk_iv size) v
iv_KeptAs size v l e fits = rw (width_iv size e) (extends32 v l fits)

module _ (f : InsnForm) (ops : List Operand) (size : ℕ) (i : Imm) (lit : i.is_symbol ≡ false)
    (l : i.value < 2 ^ 64) (m : match_all f.op ops size ≡ true) (s : size ≡ compute_op_size ops)
    (first : find_imm_operand ops ≡ some i) where
  is_iv-kind : (k : ImmK) → is_iv k ≡ true → k ≡ immk_iv
  is_iv-kind immk_iv h = refl
  is_iv-kind k h = absurd (ground (arith, h))

  by_opcode :
      signed_row f ≡ true
      → admits_unsigned f ≡ false
      → extends_opcode f ≡ true
      → KeptAs true (imm_width f.imm size) i.value
  unfolding signed_row
  by_opcode row u e =
      signed_slots-KeptAs f.imm f.op ops size size i lit l (ground (arith, row, u, e)) m first

  by_width :
      wide_row f ≡ true
      → is_iv f.imm ≡ true
      → form_rex_w f size ≡ true
      → imm_in_range f.imm size (imm_width f.imm size) i.value ≡ true
      → KeptAs true (imm_width f.imm size) i.value
  unfolding wide_row Wide
  by_width row iv w range = elim (Bool-cases f.size_variant) [
    | inl sv ↦
        let at64 : size ≡ 64 = ground (arith, rw sv at w) in
        rw (is_iv-kind f.imm iv) (
          iv_KeptAs size i.value l (inl at64)
            (checked_iv i.value (rw (is_iv-kind f.imm iv, at64) at range)))
    | inr sv ↦
        let pair =
          wide_slots-Wide f.op ops size i lit (ground (arith, row, iv, sv, rw sv at w)) m first in
        rw (is_iv-kind f.imm iv) (iv_KeptAs size i.value l (rw s pair.0) pair.1)
  ]

  extended_KeptAs :
      signed_row f ≡ true
      → wide_row f ≡ true
      → admits_unsigned f ≡ false
      → imm_in_range f.imm size (imm_width f.imm size) i.value ≡ true
      → extends_sign f size ≡ true
      → KeptAs true (imm_width f.imm size) i.value
  extended_KeptAs row wide u range x = elim (Bool-cases (extends_opcode f)) [
    | inl e ↦ by_opcode row u e
    | inr e ↦ by_width wide (ground (arith, e, x)) (ground (arith, e, x)) range
  ]

  all_KeptAs :
      signed_row f ≡ true
      → wide_row f ≡ true
      → admits_unsigned f ≡ false
      → 1 ≤ imm_width f.imm size
      → imm_in_range f.imm size (imm_width f.imm size) i.value ≡ true
      → KeptAs (extends_sign f size) (imm_width f.imm size) i.value
  all_KeptAs row wide u w range = elim (Bool-cases (extends_sign f size)) [
    | inl x ↦ rw x (extended_KeptAs row wide u range x)
    | inr x ↦ rw x (in_range-Keeps f.imm size i.value l w range)
  ]

-- For a selected form, other than push with a byte and the relative branches of 32 bits, whose literal
-- immediate is below 2^64 and has room: when it is emitted, its little-endian field is appended, and the
-- processor reads the value from it. Where the processor extends the field by its sign, as an arithmetic
-- form with a byte, push, a relative branch and an immediate of the operand size with REX.W do, the
-- extended field is the value as a signed 64-bit number; elsewhere the field is the value as an unsigned
-- or as a two's complement number.
pub emit_imm_operand-KeptAs :
    (mn : List ℕ) (ops : List Operand) (m : InsnMatch) (i : Imm) (out r : Encoded)
    → insn_select mn ops ≡ some m
    → imm_operand m.form.imm m.form.enc ops ≡ some i
    → i.is_symbol ≡ false
    → i.value < 2 ^ 64
    → admits_unsigned m.form ≡ false
    → length out.bytes + imm_width m.form.imm m.op_size ≤ 15
    → emit_imm_operand m.form.imm m.op_size (imm_width m.form.imm m.op_size) i out ≡ done r
    → (r.bytes ≡ out.bytes ++ le_bytes (imm_width m.form.imm m.op_size) i.value)
      × KeptAs (extends_sign m.form m.op_size) (imm_width m.form.imm m.op_size) i.value
emit_imm_operand-KeptAs mn ops m i out r sel given lit l u room h =
    let signed = insn_select_row mn ops signed_row rows_pass.0 sel in
    let wide = insn_select_row mn ops wide_row rows_pass.1 sel in
    let branch = insn_select_row mn ops branch_row rows_pass.2 sel in
    let found = emitted_literal m.form.imm m.op_size i out r lit room h in
    let first =
      emitted_first m.form.imm m.form.enc m.form.op ops m.op_size (unfold branch_row in branch.0)
        signed.1 given in
    (
      found.1,
      all_KeptAs m.form ops m.op_size i lit l signed.1 signed.2 first signed.0 wide.0 u
          (width_none m.form.imm m.form.enc ops m.op_size given) found.0,
    )
