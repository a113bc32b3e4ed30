-- ===== src/Encoder/Forms.antt =====
-- The vocabulary of the instruction table (encoder/internal/insn_table.h) and the row macros of
-- insn_table.c.
use quicks_qas.Common.{ℕ, ◌+◌, ◌*◌, Bool, true, false, List, [], ◌∷◌}
use quicks_qas.Common.Words.{u8}

pub data OpSpec : Type 0 where
  ops_none ops_r8 ops_rv ops_rm8 ops_rmv ops_r64 ops_rm64 ops_m : OpSpec
  ops_imm8 ops_imm8s ops_immv ops_imm32 ops_imm64 ops_rel8 ops_rel32 : OpSpec
  ops_al ops_rax ops_cl ops_one : OpSpec

pub data Enc : Type 0 where
  enc_zo enc_o enc_oi enc_mr enc_rm enc_mi enc_m enc_m1 enc_mc enc_d enc_i : Enc

pub data ImmK : Type 0 where
  immk_none immk_ib immk_iw immk_id immk_iv immk_iov immk_rel8 immk_rel32 : ImmK

-- `op` holds the first `op_count` specifications, so its length is the count.
pub record InsnForm : Type 0 where
  pub mnemonic : List ℕ
  pub op : List OpSpec
  pub enc : Enc
  pub opcode : ℕ
  pub ext : ℕ
  pub two_byte : Bool
  pub size_variant : Bool
  pub rex_w : Bool
  pub pfx_66 : Bool
  pub mand_pfx : ℕ
  pub imm : ImmK

-- A row with the fields that an initializer leaves out at zero.
abbrev pub row : List ℕ → List OpSpec → Enc → ℕ → InsnForm
row mn op enc opcode = record {
  mnemonic = mn;
  op = op;
  enc = enc;
  opcode = opcode;
  ext = 0;
  two_byte = false;
  size_variant = false;
  rex_w = false;
  pfx_66 = false;
  mand_pfx = 0;
  imm = immk_none;
}

-- `.size_variant = true`, `.imm`, `.ext` and `.two_byte` of an initializer.
abbrev pub sized : InsnForm → InsnForm
sized f = record f { size_variant = true }

abbrev pub with_imm : ImmK → InsnForm → InsnForm
with_imm k f = record f { imm = k }

abbrev pub digit : ℕ → InsnForm → InsnForm
digit n f = record f { ext = n }

abbrev pub escaped : InsnForm → InsnForm
escaped f = record f { two_byte = true }

abbrev pub wide : InsnForm → InsnForm
wide f = record f { rex_w = true }

abbrev two : OpSpec → OpSpec → List OpSpec
two a b = a ∷ b ∷ []

abbrev one : OpSpec → List OpSpec
one a = a ∷ []

-- The macros, each as a list of rows in front of the rows that follow.
abbrev pub arith_forms : List ℕ → ℕ → List InsnForm → List InsnForm
arith_forms mn g rest =
    row mn (two ops_rm8 ops_r8) enc_mr (u8 (0x00 + g * 8))
    ∷ sized (row mn (two ops_rmv ops_rv) enc_mr (u8 (0x01 + g * 8)))
    ∷ row mn (two ops_r8 ops_rm8) enc_rm (u8 (0x02 + g * 8))
    ∷ sized (row mn (two ops_rv ops_rmv) enc_rm (u8 (0x03 + g * 8)))
    ∷ with_imm immk_ib (sized (digit g (row mn (two ops_rmv ops_imm8s) enc_mi 0x83)))
    ∷ with_imm immk_ib (row mn (two ops_al ops_imm8) enc_i (u8 (0x04 + g * 8)))
    ∷ with_imm immk_iv (sized (row mn (two ops_rax ops_immv) enc_i (u8 (0x05 + g * 8))))
    ∷ with_imm immk_ib (digit g (row mn (two ops_rm8 ops_imm8) enc_mi 0x80))
    ∷ with_imm immk_iv (sized (digit g (row mn (two ops_rmv ops_immv) enc_mi 0x81)))
    ∷ rest

abbrev pub unary_forms : List ℕ → ℕ → List InsnForm → List InsnForm
unary_forms mn n rest =
    digit n (row mn (one ops_rm8) enc_m 0xF6)
    ∷ sized (digit n (row mn (one ops_rmv) enc_m 0xF7))
    ∷ rest

abbrev pub incdec_forms : List ℕ → ℕ → List InsnForm → List InsnForm
incdec_forms mn n rest =
    digit n (row mn (one ops_rm8) enc_m 0xFE)
    ∷ sized (digit n (row mn (one ops_rmv) enc_m 0xFF))
    ∷ rest

abbrev pub shift_forms : List ℕ → ℕ → List InsnForm → List InsnForm
shift_forms mn n rest =
    digit n (row mn (two ops_rm8 ops_one) enc_m1 0xD0)
    ∷ sized (digit n (row mn (two ops_rmv ops_one) enc_m1 0xD1))
    ∷ digit n (row mn (two ops_rm8 ops_cl) enc_mc 0xD2)
    ∷ sized (digit n (row mn (two ops_rmv ops_cl) enc_mc 0xD3))
    ∷ with_imm immk_ib (digit n (row mn (two ops_rm8 ops_imm8) enc_mi 0xC0))
    ∷ with_imm immk_ib (sized (digit n (row mn (two ops_rmv ops_imm8) enc_mi 0xC1)))
    ∷ rest

abbrev pub jcc_forms : List ℕ → ℕ → List InsnForm → List InsnForm
jcc_forms mn cc rest =
    with_imm immk_rel8 (row mn (one ops_rel8) enc_d (u8 (0x70 + cc)))
    ∷ with_imm immk_rel32 (escaped (row mn (one ops_rel32) enc_d (u8 (0x80 + cc))))
    ∷ rest
