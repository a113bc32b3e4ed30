-- ===== src/Encoder/SignedRows.antt =====
-- What the rows of the instruction table (encoder/internal/insn_table.c) say of a literal immediate: which
-- opcodes extend it by its sign, and that their specifications admit only what the field then holds.
use quicks_qas.Common.{
  ℕ, ◌^◌, ◌<◌, ◌≡◌, ◌⊎◌, inl, inr, refl, ◌∙◌, Bool, true, false, not, ◌&&◌, ◌||◌, List, [], ◌∷◌,
  Option, some, leb, ◌==◌, if◌then◌else◌, arith,
}
use quicks_qas.Common.Words.{to_int64, fits_int32}
use quicks_qas.Ast.{Imm, Operand, OperandKind, no_operand, reg, imm, mem}
use quicks_qas.Encoder.Forms.{
  InsnForm, OpSpec, ops_rm64, ops_imm8, ops_imm8s, ops_immv, ops_imm32, ops_imm64, ops_rel8,
  ops_rel32, ops_one, Enc, enc_d, ImmK, immk_none, immk_ib, immk_id, immk_rel8,
}
use quicks_qas.Encoder.Table.{insn_forms}
use quicks_qas.Encoder.Select.{
  match_all, match_spec, match_imm, match_mem, match_reg, compute_op_size, op_size_loop,
  operand_size,
}
use quicks_qas.Encoder.Engine.{
  imm_operand, imm_width, find_imm_operand, first_imm, is_iv, form_rex_w,
}
use quicks_qas.Encoder.Shape.{all_forms}
use quicks_qas.Encoder.Immediate.{KeptAs, extends8, extends32}

-- Opcodes whose immediate is extended by its sign (Intel SDM Vol 2): the arithmetic group with a byte,
-- push, and the relative branches.
abbrev pub extends_opcode : InsnForm → Bool
extends_opcode f =
    if f.two_byte
    then leb 0x80 f.opcode && leb f.opcode 0x8F
    else (f.opcode == 0x83
        || f.opcode == 0x6A
        || f.opcode == 0x68
        || f.opcode == 0xEB
        || f.opcode == 0xE8
        || f.opcode == 0xE9
        || (leb 0x70 f.opcode && leb f.opcode 0x7F))

-- And with REX.W every immediate of the operand size, which stays at 32 bits.
abbrev pub extends_sign : InsnForm → ℕ → Bool
extends_sign f size = extends_opcode f || (is_iv f.imm && form_rex_w f size)

-- push with a byte, and the relative branches of 32 bits: they admit numbers that are not signed.
abbrev pub admits_unsigned : InsnForm → Bool
admits_unsigned f =
    if f.two_byte
    then leb 0x80 f.opcode && leb f.opcode 0x8F
    else (f.opcode == 0x6A || f.opcode == 0xE8 || f.opcode == 0xE9)

abbrev pub takes_imm : OpSpec → Bool
takes_imm ops_imm8 = true
takes_imm ops_imm8s = true
takes_imm ops_immv = true
takes_imm ops_imm32 = true
takes_imm ops_imm64 = true
takes_imm ops_rel8 = true
takes_imm ops_rel32 = true
takes_imm ops_one = true
takes_imm _ = false

-- The specification admits no immediate that the field, extended by its sign, does not hold.
abbrev pub signed_slot : ImmK → OpSpec → Bool
signed_slot immk_ib ops_imm8s = true
signed_slot immk_rel8 ops_rel8 = true
signed_slot immk_id ops_imm32 = true
signed_slot k s = not (takes_imm s)

unfoldable pub signed_slots : ImmK → List OpSpec → Bool
signed_slots k [] = true
signed_slots k (s ∷ ss) = signed_slot k s && signed_slots k ss

abbrev pub is_rm64 : OpSpec → Bool
is_rm64 ops_rm64 = true
is_rm64 _ = false

abbrev pub is_imm32 : OpSpec → Bool
is_imm32 ops_imm32 = true
is_imm32 _ = false

abbrev pub wide_slots : List OpSpec → Bool
wide_slots (a ∷ b ∷ []) = is_rm64 a && is_imm32 b
wide_slots _ = false

abbrev pub is_d : Enc → Bool
is_d enc_d = true
is_d _ = false

abbrev pub head_takes_imm : List OpSpec → Bool
head_takes_imm [] = false
head_takes_imm (s ∷ ss) = takes_imm s

unfoldable pub signed_row : InsnForm → Bool
signed_row f = admits_unsigned f || not (extends_opcode f) || signed_slots f.imm f.op

unfoldable pub wide_row : InsnForm → Bool
wide_row f = not (is_iv f.imm && not f.size_variant && f.rex_w) || wide_slots f.op

unfoldable pub branch_row : InsnForm → Bool
branch_row f = not (is_d f.enc) || head_takes_imm f.op

pub rows_pass :
    (all_forms signed_row insn_forms ≡ true)
    × (all_forms wide_row insn_forms ≡ true)
    × (all_forms branch_row insn_forms ≡ true)
unfolding all_forms signed_row wide_row branch_row signed_slots insn_forms
rows_pass = (refl, refl, refl)

slot_lem :
    (k : ImmK) (s : OpSpec) (size : ℕ) (i : Imm)
    → i.is_symbol ≡ false
    → i.value < 2 ^ 64
    → signed_slot k s ≡ true
    → match_imm s i ≡ true
    → KeptAs true (imm_width k size) i.value
unfolding match_imm imm_width
slot_lem immk_ib ops_imm8s size i lit l a b = extends8 i.value l (ground (arith, b))
slot_lem immk_rel8 ops_rel8 size i lit l a b = extends8 i.value l (ground (arith, b))
slot_lem immk_id ops_imm32 size i lit l a b = extends32 i.value l (ground (arith, lit, b))
slot_lem k s size i lit l a b = absurd (ground (arith, a, b))

-- The first immediate of the operands, by the kind of the operand in front.
pick_imm :
    (kd : OperandKind) (rest : Option Imm) {i : Imm}
    → elim kd [ imm j ↦ some j | _ ↦ rest ] ≡ some i
    → (kd ≡ imm i) ⊎ (rest ≡ some i)
pick_imm no_operand rest h = inr h
pick_imm (reg r) rest h = inr h
pick_imm (imm j) rest h = inl (cc)
pick_imm (mem m) rest h = inr h

imm_found :
    (op : Operand) (ops : List Operand) {i : Imm}
    → find_imm_operand (op ∷ ops) ≡ some i
    → (op.kind ≡ imm i) ⊎ (find_imm_operand ops ≡ some i)
unfolding find_imm_operand
imm_found op ops h = pick_imm op.kind (find_imm_operand ops) h

spec_of_imm :
    (s : OpSpec) (kd : OperandKind) (size : ℕ) (i : Imm)
    → kd ≡ imm i
    → match_spec s kd size ≡ true
    → match_imm s i ≡ true
unfolding match_spec
spec_of_imm s kd size i e h = rw e at h

pub signed_slots-KeptAs :
    (k : ImmK) (ss : List OpSpec) (ops : List Operand) (size wide : ℕ) (i : Imm)
    → i.is_symbol ≡ false
    → i.value < 2 ^ 64
    → signed_slots k ss ≡ true
    → match_all ss ops size ≡ true
    → find_imm_operand ops ≡ some i
    → KeptAs true (imm_width k wide) i.value
unfolding signed_slots match_all
signed_slots-KeptAs k [] [] size wide i lit l a m f = unfold find_imm_operand in cc
signed_slots-KeptAs k [] (op ∷ ops) size wide i lit l a m f = cc
signed_slots-KeptAs k (s ∷ ss) [] size wide i lit l a m f = cc
signed_slots-KeptAs k (s ∷ ss) (op ∷ ops) size wide i lit l a m f = elim (imm_found op ops f) [
  | inl e ↦
      slot_lem k s wide i lit l (ground (arith, a))
        (spec_of_imm s op.kind size i e (ground (arith, m)))
  | inr g ↦ signed_slots-KeptAs k ss ops size wide i lit l (ground (arith, a)) (ground (arith, m)) g
]

-- A 64-bit register or memory operand beside an immediate leaves the size at 64, or at none.
rm64_size :
    (s : OpSpec) (kd : OperandKind) (size : ℕ)
    → is_rm64 s ≡ true
    → match_spec s kd size ≡ true
    → (operand_size kd ≡ 64) ⊎ (operand_size kd ≡ 0)
unfolding match_spec match_reg match_mem operand_size
rm64_size ops_rm64 no_operand size a h = cc
rm64_size ops_rm64 (reg r) size a h = ground (arith, h)
rm64_size ops_rm64 (imm i) size a h = inr refl
rm64_size ops_rm64 (mem m) size a h = ground (arith, h)
rm64_size s kd size a h = absurd (ground (arith, a))

imm32_fits :
    (s : OpSpec) (i : Imm)
    → i.is_symbol ≡ false
    → is_imm32 s ≡ true
    → match_imm s i ≡ true
    → fits_int32 (to_int64 i.value) ≡ true
unfolding match_imm
imm32_fits ops_imm32 i lit a h = ground (arith, lit, h)
imm32_fits s i lit a h = absurd (ground (arith, a))

rm64_imm : (s : OpSpec) (i : Imm) → is_rm64 s ≡ true → match_imm s i ≡ true → ⊥
unfolding match_imm
rm64_imm ops_rm64 i a h = cc
rm64_imm s i a h = ground (arith, a)

imm_size : (kd : OperandKind) (i : Imm) → kd ≡ imm i → operand_size kd ≡ 0
unfolding operand_size
imm_size kd i e = rw e refl

pair_size :
    (a b : Operand)
    → (operand_size a.kind ≡ 64) ⊎ (operand_size a.kind ≡ 0)
    → operand_size b.kind ≡ 0
    → (compute_op_size (a ∷ b ∷ []) ≡ 64) ⊎ (compute_op_size (a ∷ b ∷ []) ≡ 0)
unfolding compute_op_size op_size_loop
pair_size a b (inl e) z = inl (rw (e, z) refl)
pair_size a b (inr e) z = inr (rw (e, z) refl)

-- What a row of a 64-bit operand and a 32-bit immediate says of its operands.
unfoldable pub Wide : List Operand → Imm → Type 0
Wide ops i =
    ((compute_op_size ops ≡ 64) ⊎ (compute_op_size ops ≡ 0))
    × (fits_int32 (to_int64 i.value) ≡ true)

pair-Wide :
    (s t : OpSpec) (a b : Operand) (size : ℕ) (i : Imm)
    → i.is_symbol ≡ false
    → is_rm64 s ≡ true
    → is_imm32 t ≡ true
    → match_spec s a.kind size ≡ true
    → match_spec t b.kind size ≡ true
    → find_imm_operand (a ∷ b ∷ []) ≡ some i
    → Wide (a ∷ b ∷ []) i
unfolding Wide
pair-Wide s t a b size i lit r m here there f = elim (imm_found a (b ∷ []) f) [
  | inl e ↦ absurd (rm64_imm s i r (spec_of_imm s a.kind size i e here))
  | inr g ↦ elim (imm_found b [] g) [
    | inl e ↦ (
      pair_size a b (rm64_size s a.kind size r here) (imm_size b.kind i e),
      imm32_fits t i lit m (spec_of_imm t b.kind size i e there),
    )
    | inr h ↦ unfold find_imm_operand in cc
  ]
]

pub wide_slots-Wide :
    (ss : List OpSpec) (ops : List Operand) (size : ℕ) (i : Imm)
    → i.is_symbol ≡ false
    → wide_slots ss ≡ true
    → match_all ss ops size ≡ true
    → find_imm_operand ops ≡ some i
    → Wide ops i
unfolding match_all
wide_slots-Wide (s ∷ t ∷ []) (a ∷ b ∷ []) size i lit w m f =
    pair-Wide s t a b size i lit (ground (arith, w)) (ground (arith, w)) (ground (arith, m))
      (ground (arith, m)) f
wide_slots-Wide (s ∷ t ∷ []) [] size i lit w m f = cc
wide_slots-Wide (s ∷ t ∷ []) (a ∷ []) size i lit w m f = absurd (ground (arith, m))
wide_slots-Wide (s ∷ t ∷ []) (a ∷ b ∷ c ∷ ops) size i lit w m f = absurd (ground (arith, m))
wide_slots-Wide [] ops size i lit w m f = cc
wide_slots-Wide (s ∷ []) ops size i lit w m f = cc
wide_slots-Wide (s ∷ t ∷ u ∷ ss) ops size i lit w m f = cc

imm_spec :
    (s : OpSpec) (kd : OperandKind) (size : ℕ)
    → takes_imm s ≡ true
    → match_spec s kd size ≡ true
    → (i : Imm) × (kd ≡ imm i)
unfolding match_spec match_reg match_mem
imm_spec s (imm i) size a h = (i, refl)
imm_spec s no_operand size a h = absurd (ground (arith, a, h))
imm_spec s (reg r) size a h = absurd (ground (arith, a, h))
imm_spec s (mem m) size a h = absurd (ground (arith, a, h))

first_found :
    (op : Operand) (ops : List Operand) (i : Imm)
    → op.kind ≡ imm i
    → find_imm_operand (op ∷ ops) ≡ some (first_imm (op ∷ ops))
unfolding find_imm_operand first_imm
first_found op ops i e = rw e refl

head_found :
    (ss : List OpSpec) (ops : List Operand) (size : ℕ)
    → head_takes_imm ss ≡ true
    → match_all ss ops size ≡ true
    → find_imm_operand ops ≡ some (first_imm ops)
unfolding match_all
head_found [] ops size a m = cc
head_found (s ∷ ss) [] size a m = cc
head_found (s ∷ ss) (op ∷ ops) size a m =
    let (i, e) = imm_spec s op.kind size a (ground (arith, m)) in first_found op ops i e

-- The operand that the engine emits is the first immediate.
pub emitted_first :
    (k : ImmK) (enc : Enc) (ss : List OpSpec) (ops : List Operand) (size : ℕ) {i : Imm}
    → (not (is_d enc) || head_takes_imm ss) ≡ true
    → match_all ss ops size ≡ true
    → imm_operand k enc ops ≡ some i
    → find_imm_operand ops ≡ some i
unfolding imm_operand
emitted_first immk_none enc ss ops size a m e = cc
emitted_first k enc_d ss ops size a m e = head_found ss ops size a m ∙ e
emitted_first k enc ss ops size a m e = e
