-- ===== src/Encoder/Engine.antt =====
-- `qas_encode` (encoder/encoder.c): the fields of a selected form, and their emission in the order
-- of the instruction format.
use quicks_qas.Common.{
  ℕ, zero, suc, ◌+◌, bit_or, Bool, true, false, not, ◌&&◌, ◌||◌, List, [], ◌∷◌, ◌++◌, Option, none,
  some, length, leb, ◌==◌, if◌then◌else◌,
}
use quicks_qas.Common.Int.{ℤ, pos, negsuc, ◌-ℤ◌, leb_ℤ}
use quicks_qas.Common.Words.{u8, to_int64, to_uint64, fits_int8, fits_int32, low_bits, ◌<<<◌, ◌>>>◌}
use quicks_qas.Reg.Table.{low3}
use quicks_qas.Ast.{Operand, OperandKind, no_operand, reg, imm, mem, Imm}
use quicks_qas.Encoder.Forms.{
  InsnForm, Enc, enc_zo, enc_o, enc_oi, enc_mr, enc_rm, enc_mi, enc_m, enc_m1, enc_mc, enc_d, enc_i,
  ImmK, immk_none, immk_ib, immk_iw, immk_id, immk_iv, immk_iov, immk_rel8, immk_rel32,
}
use quicks_qas.Encoder.Select.{insn_select, InsnMatch}
use quicks_qas.Encoder.Address.{
  FixupKind, pc32, abs32s, abs64, Fixup, no_encoding, high_byte_rex, symbol_width, imm_range,
  too_long, Result, done, refused, fault, ◌>>=◌, RmEncoding, zero_rm, extended, encode_rm_register,
  encode_rm_memory,
}

-- QAS_INSN_MAX_LEN.
abbrev pub insn_max_len : ℕ
insn_max_len = 15

-- `qas_encoded`: `len` and `fixup_count` are the lengths of the lists.
pub record Encoded : Type 0 where
  pub bytes : List ℕ
  pub fixups : List Fixup

unfoldable pub put : Encoded → ℕ → Result Encoded
put out b =
    if leb insn_max_len (length out.bytes)
    then refused too_long
    else done (record out { bytes = out.bytes ++ b ∷ [] })

unfoldable pub put_le : Encoded → ℕ → ℕ → Result Encoded
unfolding put
put_le out value zero = done out
put_le out value (suc width) = do
  next ← put out (u8 (low_bits value 8))
  put_le next (value >>> 8) width

unfoldable pub imm_width : ImmK → ℕ → ℕ
imm_width immk_none size = 0
imm_width immk_ib size = 1
imm_width immk_iw size = 2
imm_width immk_id size = 4
imm_width immk_iv size = if size == 16 then 2 else 4
imm_width immk_iov size = if size == 16 then 2 else if size == 32 then 4 else 8
imm_width immk_rel8 size = 1
imm_width immk_rel32 size = 4

unfoldable pub find_imm_operand : List Operand → Option Imm
find_imm_operand [] = none
find_imm_operand (op ∷ ops) = elim op.kind [ imm i ↦ some i | _ ↦ find_imm_operand ops ]

-- `insn->operands[0].imm`, all zero where the operand is of another kind.
abbrev pub zero_imm : Imm
zero_imm = record { is_symbol = false; sym_off = 0; sym_len = 0; value = 0 }

abbrev pub imm_part : OperandKind → Imm
imm_part (imm i) = i
imm_part _ = zero_imm

unfoldable pub first_imm : List Operand → Imm
first_imm [] = zero_imm
first_imm (op ∷ ops) = imm_part op.kind

-- What the form makes of its register and memory operands.
pub record Fields : Type 0 where
  pub opcode : ℕ
  pub reg3 : ℕ
  pub rex_r : Bool
  pub need_rex : Bool
  pub forbid_rex : Bool
  pub have_modrm : Bool
  pub rm : RmEncoding

abbrev pub no_fields : ℕ → ℕ → Fields
no_fields opcode reg3 = record {
  opcode = opcode;
  reg3 = reg3;
  rex_r = false;
  need_rex = false;
  forbid_rex = false;
  have_modrm = false;
  rm = zero_rm;
}

-- A register in the opcode's low bits.
unfoldable pub opcode_reg : ℕ → OperandKind → Result Fields
opcode_reg opcode (reg r) = done (record (no_fields (u8 (opcode + low3 r)) 0) {
  need_rex = r.rex_required;
  forbid_rex = r.high_byte;
  rm = record zero_rm { rex_b = extended r };
})
opcode_reg opcode _ = fault

-- `reg_op`: the register in the reg field.
unfoldable pub reg_field : ℕ → OperandKind → Result Fields
reg_field opcode (reg r) = done (record (no_fields opcode (low3 r)) {
  rex_r = extended r;
  need_rex = r.rex_required;
  forbid_rex = r.high_byte;
})
reg_field opcode _ = fault

-- `rm_op`: the register or memory reference in the r/m field.
unfoldable pub rm_field : ℕ → Fields → OperandKind → Result Fields
rm_field imm_bytes p (reg r) = done (record p {
  need_rex = p.need_rex || r.rex_required;
  forbid_rex = p.forbid_rex || r.high_byte;
  have_modrm = true;
  rm = encode_rm_register r;
})
rm_field imm_bytes p (mem m) = do
  rm ← encode_rm_memory m imm_bytes
  done (record p { have_modrm = true; rm = rm })
rm_field imm_bytes p _ = fault

abbrev pub kind_at : List Operand → ℕ → OperandKind
kind_at [] i = no_operand
kind_at (op ∷ ops) zero = op.kind
kind_at (op ∷ ops) (suc i) = kind_at ops i

-- The switch on `f->enc`.
unfoldable pub operand_fields : Enc → ℕ → ℕ → ℕ → List Operand → Result Fields
operand_fields enc_zo opcode digit imm_bytes ops = done (no_fields opcode 0)
operand_fields enc_i opcode digit imm_bytes ops = done (no_fields opcode 0)
operand_fields enc_d opcode digit imm_bytes ops = done (no_fields opcode 0)
operand_fields enc_o opcode digit imm_bytes ops = opcode_reg opcode (kind_at ops 0)
operand_fields enc_oi opcode digit imm_bytes ops = opcode_reg opcode (kind_at ops 0)
operand_fields enc_mr opcode digit imm_bytes ops = do
  p ← reg_field opcode (kind_at ops 1)
  rm_field imm_bytes p (kind_at ops 0)
operand_fields enc_rm opcode digit imm_bytes ops = do
  p ← reg_field opcode (kind_at ops 0)
  rm_field imm_bytes p (kind_at ops 1)
operand_fields enc_mi opcode digit imm_bytes ops =
    rm_field imm_bytes (no_fields opcode digit) (kind_at ops 0)
operand_fields enc_m opcode digit imm_bytes ops =
    rm_field imm_bytes (no_fields opcode digit) (kind_at ops 0)
operand_fields enc_m1 opcode digit imm_bytes ops =
    rm_field imm_bytes (no_fields opcode digit) (kind_at ops 0)
operand_fields enc_mc opcode digit imm_bytes ops =
    rm_field imm_bytes (no_fields opcode digit) (kind_at ops 0)

abbrev pub put_if : Bool → Encoded → ℕ → Result Encoded
put_if b out byte = if b then put out byte else done out

abbrev pub bit : Bool → ℕ
bit true = 1
bit false = 0

unfoldable pub rex_byte : Bool → Fields → ℕ
rex_byte w p = u8 (
    bit_or (bit_or (bit_or (bit_or 0x40 (bit w <<< 3)) (bit p.rex_r <<< 2)) (bit p.rm.rex_x <<< 1))
      (bit p.rm.rex_b))

-- `rex_needed`.
unfoldable pub rex_needed : Bool → Fields → Bool
rex_needed w p = w || p.rex_r || p.rm.rex_x || p.rm.rex_b || p.need_rex

unfoldable pub emit_disp : RmEncoding → Encoded → Result Encoded
emit_disp rm out =
    if rm.disp_len == 0
    then done out
    else if rm.disp_symbol
    then put_le
        (record out {
          fixups =
              out.fixups
              ++ record {
                offset = length out.bytes;
                size = rm.disp_len;
                kind = rm.disp_fixkind;
                sym_off = rm.sym_off;
                sym_len = rm.sym_len;
                addend = rm.disp_addend;
              }
                ∷ [];
        })
        0 rm.disp_len
    else put_le out (to_uint64 rm.disp) rm.disp_len

unfoldable pub emit_rm : Fields → Encoded → Result Encoded
emit_rm p out = do
  a ← put out (u8 (bit_or p.rm.modrm (p.reg3 <<< 3)))
  b ← put_if p.rm.has_sib a p.rm.sib
  emit_disp p.rm b

unfoldable pub emit_modrm : Fields → Encoded → Result Encoded
emit_modrm p out = if p.have_modrm then emit_rm p out else done out

abbrev pub is_rel : ImmK → Bool
is_rel immk_rel8 = true
is_rel immk_rel32 = true
is_rel _ = false

abbrev pub is_iv : ImmK → Bool
is_iv immk_iv = true
is_iv _ = false

abbrev pub push_fixup : Encoded → ℕ → Imm → FixupKind → ℤ → Encoded
push_fixup out imm_bytes i kind addend = record out {
  fixups =
      out.fixups
      ++ record {
        offset = length out.bytes;
        size = imm_bytes;
        kind = kind;
        sym_off = i.sym_off;
        sym_len = i.sym_len;
        addend = addend;
      }
        ∷ [];
}

unfoldable pub emit_symbol_imm : ImmK → ℕ → Imm → Encoded → Result Encoded
emit_symbol_imm k imm_bytes i out =
    let value = to_int64 i.value in
    if is_rel k
    then put_le (push_fixup out imm_bytes i pc32 (value -ℤ pos imm_bytes)) 0 imm_bytes
    else if imm_bytes == 8
    then put_le (push_fixup out imm_bytes i abs64 value) 0 imm_bytes
    else if imm_bytes == 4
    then put_le (push_fixup out imm_bytes i abs32s value) 0 imm_bytes
    else refused symbol_width

-- The range check of a literal immediate.
unfoldable pub imm_in_range : ImmK → ℕ → ℕ → ℕ → Bool
imm_in_range k op_size imm_bytes v =
    if is_iv k && op_size == 64
    then fits_int32 (to_int64 v)
    else if imm_bytes == 1
    then fits_int8 (to_int64 v) || leb v 0xFF
    else if imm_bytes == 2
    then (leb_ℤ (negsuc 32767) (to_int64 v) && leb_ℤ (to_int64 v) (pos 32767)) || leb v 0xFFFF
    else if imm_bytes == 4
    then fits_int32 (to_int64 v) || leb v 0xFFFFFFFF
    else true

unfoldable pub emit_imm_operand : ImmK → ℕ → ℕ → Imm → Encoded → Result Encoded
emit_imm_operand k op_size imm_bytes i out =
    if i.is_symbol
    then emit_symbol_imm k imm_bytes i out
    else if not (imm_in_range k op_size imm_bytes i.value)
    then refused imm_range
    else put_le out i.value imm_bytes

-- `imm_op`: none for a form with no immediate.
unfoldable pub imm_operand : ImmK → Enc → List Operand → Option Imm
imm_operand immk_none enc ops = none
imm_operand k enc_d ops = some (first_imm ops)
imm_operand k enc ops = find_imm_operand ops

unfoldable pub emit_imm : ImmK → ℕ → ℕ → Option Imm → Encoded → Result Encoded
emit_imm k op_size imm_bytes none out = done out
emit_imm k op_size imm_bytes (some i) out = emit_imm_operand k op_size imm_bytes i out

-- The prefixes, the escape and the opcode.
unfoldable pub emit_opcode : InsnForm → Bool → Bool → Fields → Encoded → Result Encoded
emit_opcode f pfx_66 w p out = do
  a ← put_if (not (f.mand_pfx == 0)) out f.mand_pfx
  b ← put_if pfx_66 a 0x66
  c ← put_if (rex_needed w p) b (rex_byte w p)
  d ← put_if f.two_byte c 0x0F
  put d p.opcode

abbrev pub empty : Encoded
empty = record { bytes = []; fixups = [] }

abbrev pub form_pfx_66 : InsnForm → ℕ → Bool
form_pfx_66 f op_size = if f.size_variant then op_size == 16 else f.pfx_66

abbrev pub form_rex_w : InsnForm → ℕ → Bool
form_rex_w f op_size = if f.size_variant then op_size == 64 else f.rex_w

abbrev pub rex_conflict : Bool → Fields → Bool
rex_conflict w p = rex_needed w p && p.forbid_rex

-- "Emit, in the order of Intel SDM Vol 2 Figure 2-1".
unfoldable pub emit_fields : InsnForm → ℕ → List Operand → Fields → Result Encoded
emit_fields f op_size ops p = do
  a ← emit_opcode f (form_pfx_66 f op_size) (form_rex_w f op_size) p empty
  b ← emit_modrm p a
  emit_imm f.imm op_size (imm_width f.imm op_size) (imm_operand f.imm f.enc ops) b

unfoldable pub checked_fields : InsnForm → ℕ → List Operand → Fields → Result Encoded
checked_fields f op_size ops p =
    if rex_conflict (form_rex_w f op_size) p
    then refused high_byte_rex
    else emit_fields f op_size ops p

unfoldable pub encode_form : InsnForm → ℕ → List Operand → Result Encoded
encode_form f op_size ops = do
  p ← operand_fields f.enc f.opcode f.ext (imm_width f.imm op_size) ops
  checked_fields f op_size ops p

abbrev pub encode_match : List Operand → Option InsnMatch → Result Encoded
encode_match ops none = refused no_encoding
encode_match ops (some m) = encode_form m.form m.op_size ops

-- `qas_encode`, of a statement's mnemonic span and operands.
unfoldable pub encode : List ℕ → List Operand → Result Encoded
encode mn ops = encode_match ops (insn_select mn ops)
