-- ===== src/Tests.antt =====
-- Runs of the theorems on concrete inputs: operands, sources and buffers as the program meets them.
mod Driver
use quicks_qas.Common.{
  ℕ, ◌+◌, ◌^◌, ◌<◌, ◌≤◌, ◌≡◌, ◌≢◌, ◌⊎◌, refl, Bool, true, false, List, [], ◌∷◌, none, some,
  replicate, codes, get_elem?, ◌-◌, arith,
}
use quicks_qas.Common.Int.{pos, negsuc}
use quicks_qas.Common.Words.{to_uint64, to_int64, le_bytes}
use quicks_qas.Status.{ok, invalid_argument}
use quicks_qas.Reg.Table.{Reg, reg_table, rows_64, gpr_row}
use quicks_qas.Ast.{Imm, Mem, Operand, reg, imm, mem}
use quicks_qas.Encoder.Address.{
  done, RmEncoding, Holds, pc32, encode_rm_memory, encode_plain, choose_mod, address_bytes,
  sib_byte, scale_to_bits, is_done,
}
use quicks_qas.Encoder.Decode.{decode_address, read_disp}
use quicks_qas.Encoder.AddressParts.{IsAddress}
use quicks_qas.Encoder.Displacement.{Encodes, encode_rm_memory-Encodes, encode_rm_memory_accepts}
use quicks_qas.Encoder.Engine.{
  Encoded, empty, encode, emit_imm_operand, imm_operand, find_imm_operand, imm_width, imm_in_range,
  put_le, put,
}
use quicks_qas.Encoder.Forms.{immk_ib, enc_mi, ops_rmv, ops_imm8s}
use quicks_qas.Encoder.Table.{insn_forms}
use quicks_qas.Encoder.OperandSize.{AtMost64}
use quicks_qas.Encoder.Slots.{AllSized}
use quicks_qas.Encoder.Extension.{emit_imm_operand-KeptAs}
use quicks_qas.Encoder.Immediate.{KeptAs}
use quicks_qas.Reg.Names.{Listed, SpellsName, reg_lookup_finds, reg_lookup-Listed}
use quicks_qas.Reg.Lookup.{reg_lookup, span_ieq, ascii_lower}
use quicks_qas.Encoder.Select.{
  InsnMatch, insn_select, select_in, compute_op_size, op_size_loop, operand_size, first_fit,
  form_fits, match_all, match_spec, match_reg, match_imm, match_mem,
}
use quicks_qas.Encoder.FirstFit.{Selects, insn_select-Selects}
use quicks_qas.Encoder.Layout.{IsEncoding, encode-IsEncoding}
use quicks_qas.Encoder.Misread.{symbol_index_misread, absolute_disp_misread}
use quicks_qas.Buf.Ops.{Buf, append, append_u8, append_zeros, append_le, patch_u32le, reserve}
use quicks_qas.Buf.Growth.{IsValid, HasRoom, reserve-HasRoom}
use quicks_qas.Buf.Append.{Appends, writers-Appends}
use quicks_qas.Buf.Patch.{Patched, patch_u32le-Patched}
use quicks_qas.Source.Index.{from_memory, source_location}
use quicks_qas.Source.Location.{source_location-walk}
use quicks_qas.Lexer.Cursor.{Lexer, lexer_init}
use quicks_qas.Lexer.Scan.{lex_number, lexer_next}
use quicks_qas.Lexer.Next.{Placed, lexer_next-Placed, ends_within, lexer_init-ends_within}
use quicks_qas.Lexer.Value.{Valued, lex_number-Valued}
use quicks_qas.Asm.Section.{Section, sht_progbits, section_set_at, section_size}
use quicks_qas.Asm.Unit.{AsmUnit, unit_current, unit_align, emit_zeros}
use quicks_qas.Asm.Align.{Enters, Grows, Aligns, unit_align-Aligns, emit_zeros-Grows}

abbrev rax : Reg
rax = gpr_row (codes "rax") 64 0

abbrev rcx : Reg
rcx = gpr_row (codes "rcx") 64 1

abbrev rsp : Reg
rsp = gpr_row (codes "rsp") 64 4

abbrev r9 : Reg
r9 = gpr_row (codes "r9") 64 9

-- [rsp + r9*8 - 5]
abbrev stack_slot : Mem
stack_slot = record {
  base = some rsp;
  index = some r9;
  scale = 8;
  has_disp = true;
  disp_is_symbol = false;
  sym_off = 0;
  sym_len = 0;
  disp = negsuc 4;
  size = 0;
}

stack_slot-IsAddress : IsAddress stack_slot
unfolding rows_64
stack_slot-IsAddress = record {
  base_64 = λ e. refl;
  index_64 = refl;
  index_valid = ground arith;
  rip_alone = ground arith;
  symbol_based = ground arith;
  absolute_fits = ground arith;
}

abbrev stack_slot_rm : RmEncoding
stack_slot_rm = record {
  modrm = 0x44;
  has_sib = true;
  sib = 0xCC;
  disp_len = 1;
  disp = negsuc 4;
  rex_x = true;
  rex_b = false;
  disp_symbol = false;
  sym_off = 0;
  sym_len = 0;
  disp_fixkind = pc32;
  disp_addend = pos 0;
}

stack_slot_encoded : encode_rm_memory stack_slot 0 ≡ done stack_slot_rm
unfolding encode_rm_memory encode_plain choose_mod address_bytes sib_byte scale_to_bits
stack_slot_encoded = refl

encode_rm_memory-Encodes_example : Encodes stack_slot 0 stack_slot_rm
encode_rm_memory-Encodes_example =
    encode_rm_memory-Encodes stack_slot 0 {rm = stack_slot_rm} stack_slot-IsAddress
      stack_slot_encoded

abbrev operand_reg : Reg → Operand
operand_reg r = record { offset = 4; length = 3; kind = reg r }

-- mov rax, [rsp + r9*8 - 5]
abbrev mov_operands : List Operand
mov_operands = operand_reg rax ∷ record { offset = 9; length = 16; kind = mem stack_slot } ∷ []

encode-IsEncoding_example :
    Holds (IsEncoding (codes "mov") mov_operands) (encode (codes "mov") mov_operands)
encode-IsEncoding_example = encode-IsEncoding (codes "mov") mov_operands

mov_operands-AtMost64 : AtMost64 mov_operands
mov_operands-AtMost64 s u = ground (arith, u)

mov_operands-AllSized : AllSized mov_operands
mov_operands-AllSized = ground arith

insn_select-Selects_example :
    Selects (codes "mov") mov_operands (insn_select (codes "mov") mov_operands)
insn_select-Selects_example =
    insn_select-Selects (codes "mov") mov_operands mov_operands-AtMost64 mov_operands-AllSized

encode_rm_memory_accepts_example : is_done (encode_rm_memory stack_slot 0) ≡ true
encode_rm_memory_accepts_example = encode_rm_memory_accepts stack_slot 0

abbrev minus_two : Imm
minus_two = record { is_symbol = false; sym_off = 0; sym_len = 0; value = 2 ^ 64 - 2 }

-- add rcx, -2
abbrev add_operands : List Operand
add_operands = operand_reg rcx ∷ record { offset = 9; length = 2; kind = imm minus_two } ∷ []

abbrev add_match : InsnMatch
add_match = record {
  form = record {
    mnemonic = codes "add";
    op = ops_rmv ∷ ops_imm8s ∷ [];
    enc = enc_mi;
    opcode = 0x83;
    ext = 0;
    two_byte = false;
    size_variant = true;
    rex_w = false;
    pfx_66 = false;
    mand_pfx = 0;
    imm = immk_ib;
  };
  op_size = 64;
}

add_selected : insn_select (codes "add") add_operands ≡ some add_match
unfolding insn_select select_in compute_op_size op_size_loop operand_size insn_forms first_fit
    form_fits span_ieq ascii_lower match_all match_spec match_reg match_imm match_mem to_int64
add_selected = refl

minus_two_given : imm_operand immk_ib enc_mi add_operands ≡ some minus_two
unfolding imm_operand find_imm_operand
minus_two_given = refl

abbrev minus_two_field : Encoded
minus_two_field = record { bytes = 0xFE ∷ []; fixups = [] }

minus_two_emitted :
    emit_imm_operand immk_ib 64 (imm_width immk_ib 64) minus_two empty ≡ done minus_two_field
unfolding emit_imm_operand imm_width imm_in_range put_le put to_int64
minus_two_emitted = refl

imm_width-ib : imm_width immk_ib 64 ≡ 1
unfolding imm_width
imm_width-ib = refl

emit_imm_operand-KeptAs_example :
    (minus_two_field.bytes ≡ le_bytes (imm_width immk_ib 64) (2 ^ 64 - 2))
    × KeptAs true (imm_width immk_ib 64) (2 ^ 64 - 2)
emit_imm_operand-KeptAs_example =
    emit_imm_operand-KeptAs (codes "add") add_operands add_match minus_two empty minus_two_field
      add_selected minus_two_given refl (omega arith) refl (omega (arith, imm_width-ib))
      minus_two_emitted

-- [table + rcx*8]
abbrev table_entry : Mem
table_entry = record {
  base = none;
  index = some rcx;
  scale = 8;
  has_disp = true;
  disp_is_symbol = true;
  sym_off = 5;
  sym_len = 5;
  disp = pos 0;
  size = 0;
}

symbol_index_misread_example :
    (rm : RmEncoding) × (encode_rm_memory table_entry 0 ≡ done rm)
    × ((decode_address rm.modrm rm.sib rm.rex_x rm.rex_b).base ≡ some 5)
    × ((decode_address rm.modrm rm.sib rm.rex_x rm.rex_b).index ≡ some 1)
symbol_index_misread_example = symbol_index_misread table_entry 0 rcx refl refl (ground arith) refl

-- [0x100000000]
abbrev far_absolute : Mem
far_absolute = record {
  base = none;
  index = none;
  scale = 0;
  has_disp = true;
  disp_is_symbol = false;
  sym_off = 0;
  sym_len = 0;
  disp = pos (2 ^ 32);
  size = 64;
}

absolute_disp_misread_example :
    (rm : RmEncoding) × (encode_rm_memory far_absolute 0 ≡ done rm)
    × (read_disp rm.disp_len (to_uint64 rm.disp) ≢ pos (2 ^ 32))
absolute_disp_misread_example = absolute_disp_misread far_absolute 0 refl refl refl

-- "mov rax, 0x10" and a second line.
abbrev two_lines : List ℕ
two_lines = codes "mov rax, 0x10\n ret\n"

source_location-walk_example :
    source_location (from_memory two_lines) 15 ≡ some (record { line = 2; column = 2 })
source_location-walk_example = source_location-walk two_lines 15

lexer_next-Placed_example : Placed two_lines 0 (lexer_next (lexer_init two_lines))
lexer_next-Placed_example =
    lexer_next-Placed two_lines (lexer_init two_lines) (refl, omega arith, refl)

lexer_init-ends_within_example : ends_within 20 (lexer_init two_lines) ≡ true
lexer_init-ends_within_example = lexer_init-ends_within two_lines

-- A literal of 65 bits.
abbrev wide_literal : Lexer
wide_literal = lexer_init (codes "0x10000000000000000 ")

lex_number-Valued_example : Valued (lex_number wide_literal) (2 ^ 64)
lex_number-Valued_example = lex_number-Valued wide_literal

abbrev granting : ℕ → Bool
granting size = true

abbrev small_buf : Buf
small_buf = record { bytes = 1 ∷ 2 ∷ 3 ∷ 4 ∷ 5 ∷ []; cap = 64 }

small_buf-IsValid : IsValid small_buf
small_buf-IsValid = record { holds_len = omega arith; cap_fits = omega arith }

writers-Appends_example :
    Appends small_buf (7 ∷ []) (append granting small_buf (7 ∷ []))
    × Appends small_buf (9 ∷ []) (append_u8 granting small_buf 9)
    × Appends small_buf (replicate 3 0) (append_zeros granting small_buf 3)
    × Appends small_buf (le_bytes 4 9) (append_le granting small_buf 9 4)
writers-Appends_example =
    writers-Appends granting small_buf (7 ∷ []) 9 3 4 small_buf-IsValid (omega arith) (omega arith)
      (omega arith)

reserve-HasRoom_example :
    IsValid (reserve granting small_buf 100).1
    × HasRoom small_buf 100 (reserve granting small_buf 100)
reserve-HasRoom_example = reserve-HasRoom granting small_buf 100 (omega arith) small_buf-IsValid

patch_u32le-Patched_example :
    ((5 ≤ 5)
      × (after : Buf) × (patch_u32le small_buf 1 258 ≡ (ok, after))
      × Patched small_buf 1 258 after)
    ⊎ ((5 < 5) × (patch_u32le small_buf 1 258 ≡ (invalid_argument, small_buf)))
patch_u32le-Patched_example =
    patch_u32le-Patched small_buf 1 258 (omega arith) (omega arith) (omega arith)

abbrev text_section : Section
text_section = record {
  name = codes ".text";
  type = sht_progbits;
  flags = 6;
  addralign = 1;
  contents = small_buf;
  bss_size = 0;
}

abbrev text_unit : AsmUnit
text_unit = record { sections = record { items = text_section ∷ []; capacity = 8 }; current = 0 }

text_unit-Enters : Enters text_unit text_section
unfolding unit_current section_set_at
text_unit-Enters = (refl, small_buf-IsValid)

text_section-ends : section_size text_section + 16 < 2 ^ 64
unfolding section_size
text_section-ends = omega arith

unit_align-Aligns_example : Aligns text_section 16 (unit_align granting text_unit 16)
unit_align-Aligns_example =
    unit_align-Aligns granting text_unit text_section 16 text_unit-Enters (omega arith)
      (omega arith) text_section-ends

emit_zeros-Grows_example : Grows text_section 16 (emit_zeros granting text_unit 16)
emit_zeros-Grows_example =
    emit_zeros-Grows granting text_unit text_section 16 text_unit-Enters text_section-ends

rax_row : get_elem? reg_table 0 ≡ some rax
unfolding reg_table rows_64
rax_row = refl

rax_spelled : SpellsName (codes "RaX") (codes "rax")
rax_spelled = ground arith

reg_lookup_finds_example : reg_lookup (codes "RaX") ≡ some rax
reg_lookup_finds_example = reg_lookup_finds (codes "RaX") 0 rax rax_row rax_spelled

reg_lookup-Listed_example : Listed reg_table (codes "R9") (reg_lookup (codes "R9"))
reg_lookup-Listed_example = reg_lookup-Listed (codes "R9")
