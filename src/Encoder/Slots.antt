-- ===== src/Encoder/Slots.antt =====
-- What an operand specification of encoder/internal/insn_table.h stands for, in the notation of the Intel
-- SDM, and that `match_spec` and the mnemonic test of `qas_insn_select` admit just that.
use quicks_qas.Common.{
  ℕ, ◌^◌, ◌≤◌, ◌<◌, ◌≡◌, ◌≢◌, ◌⊎◌, ◌↔◌, refl, Bool, true, false, List, [], ◌∷◌, arith, both_hold,
}
use quicks_qas.Common.Int.{ℤ, pos, negsuc, leb_ℤ}
use quicks_qas.Common.Words.{to_int64}
use quicks_qas.Reg.Table.{Reg, gpr}
use quicks_qas.Ast.{Operand, OperandKind, no_operand, reg, imm, mem, Imm, Mem}
use quicks_qas.Encoder.Forms.{
  OpSpec, ops_none, ops_r8, ops_rv, ops_rm8, ops_rmv, ops_r64, ops_rm64, ops_m, ops_imm8, ops_imm8s,
  ops_immv, ops_imm32, ops_imm64, ops_rel8, ops_rel32, ops_al, ops_rax, ops_cl, ops_one,
}
use quicks_qas.Encoder.Select.{match_spec, match_reg, match_imm, match_mem, match_all}

-- The width of a register or memory operand: fixed, or the operand size, which has 16 bits at least.
pub data Width : Type 0 where
  bits : ℕ → Width
  operand_bits any_bits : Width

-- Registers that the specification takes: none, each, or the one of a number.
pub data Registers : Type 0 where
  no_register each_register : Registers
  register_number : ℕ → Registers

-- Immediates: none, literals in a range, symbols beside them or not.
pub data Immediates : Type 0 where
  no_immediate every_immediate : Immediates
  literals : ℤ → ℤ → Immediates
  symbols_or : ℤ → ℤ → Immediates

pub record Slot : Type 0 where
  pub width : Width
  pub registers : Registers
  pub memory : Bool
  pub immediates : Immediates

abbrev pub reg_slot : Width → Slot
reg_slot w = record {
  width = w;
  registers = each_register;
  memory = false;
  immediates = no_immediate;
}

abbrev pub rm_slot : Width → Slot
rm_slot w = record {
  width = w;
  registers = each_register;
  memory = true;
  immediates = no_immediate;
}

abbrev pub one_slot : Width → ℕ → Slot
one_slot w n = record {
  width = w;
  registers = register_number n;
  memory = false;
  immediates = no_immediate;
}

abbrev pub imm_slot : Immediates → Slot
imm_slot k = record { width = any_bits; registers = no_register; memory = false; immediates = k }

abbrev pub slot : OpSpec → Slot
slot ops_none = imm_slot no_immediate
slot ops_r8 = reg_slot (bits 8)
slot ops_rv = reg_slot operand_bits
slot ops_r64 = reg_slot (bits 64)
slot ops_rm8 = rm_slot (bits 8)
slot ops_rmv = rm_slot operand_bits
slot ops_rm64 = rm_slot (bits 64)
slot ops_m = record {
  width = any_bits;
  registers = no_register;
  memory = true;
  immediates = no_immediate;
}
slot ops_al = one_slot (bits 8) 0
slot ops_rax = one_slot operand_bits 0
slot ops_cl = one_slot (bits 8) 1
slot ops_imm8 = imm_slot (literals (negsuc 127) (pos 255))
slot ops_imm8s = imm_slot (literals (negsuc 127) (pos 127))
slot ops_rel8 = imm_slot (literals (negsuc 127) (pos 127))
slot ops_one = imm_slot (literals (pos 1) (pos 1))
slot ops_imm32 = imm_slot (symbols_or (negsuc 2147483647) (pos 2147483647))
slot ops_immv = imm_slot every_immediate
slot ops_imm64 = imm_slot every_immediate
slot ops_rel32 = imm_slot every_immediate

abbrev pub HasWidth : Width → ℕ → ℕ → Type 0
HasWidth (bits n) size w = w ≡ n
HasWidth operand_bits size w = (w ≡ size) × (16 ≤ size)
HasWidth any_bits size w = Unit {0}

-- A register alone: of the number, and no high byte.
abbrev pub InRegisters : Registers → Reg → Type 0
InRegisters no_register r = ⊥
InRegisters each_register r = Unit {0}
InRegisters (register_number n) r = (r.encoding ≡ n) × (r.high_byte ≡ false)

abbrev pub InImmediates : Immediates → Imm → Type 0
InImmediates no_immediate i = ⊥
InImmediates every_immediate i = Unit {0}
InImmediates (literals low high) i =
    (i.is_symbol ≡ false)
    × (leb_ℤ low (to_int64 i.value) ≡ true)
    × (leb_ℤ (to_int64 i.value) high ≡ true)
InImmediates (symbols_or low high) i =
    (i.is_symbol ≡ true)
    ⊎ ((leb_ℤ low (to_int64 i.value) ≡ true) × (leb_ℤ (to_int64 i.value) high ≡ true))

-- A memory operand without a size takes that of the instruction, where that has more than 8 bits.
abbrev pub Implied : Width → ℕ → Type 0
Implied (bits n) size = 16 ≤ n
Implied operand_bits size = 16 ≤ size
Implied any_bits size = Unit {0}

abbrev pub MemWidth : Width → ℕ → ℕ → Type 0
MemWidth w size have = HasWidth w size have ⊎ ((have ≡ 0) × Implied w size)

abbrev pub Admits : OpSpec → OperandKind → ℕ → Type 0
Admits s no_operand size = s ≡ ops_none
Admits s (reg r) size = InRegisters (slot s).registers r × HasWidth (slot s).width size r.size_bits
Admits s (imm i) size = InImmediates (slot s).immediates i
Admits s (mem m) size = ((slot s).memory ≡ true) × MemWidth (slot s).width size m.size

-- Each operand is admitted by the specification at its place.
abbrev pub AllAdmits : List OpSpec → List Operand → ℕ → Type 0
AllAdmits [] [] size = Unit {0}
AllAdmits [] (op ∷ ops) size = ⊥
AllAdmits (s ∷ ss) [] size = ⊥
AllAdmits (s ∷ ss) (op ∷ ops) size = Admits s op.kind size × AllAdmits ss ops size

-- A register with a size, as all of the table but rip, is a general-purpose one, and a high byte has 8 bits;
-- a literal has 64.
abbrev pub IsSized : OperandKind → Type 0
IsSized (reg r) =
    ((r.size_bits ≡ 0) ⊎ (r.reg_class ≡ gpr)) × ((r.high_byte ≡ false) ⊎ (r.size_bits ≡ 8))
IsSized (imm i) = i.value < 2 ^ 64
IsSized no_operand = Unit {0}
IsSized (mem m) = Unit {0}

abbrev pub AllSized : List Operand → Type 0
AllSized [] = Unit {0}
AllSized (op ∷ ops) = IsSized op.kind × AllSized ops

match_reg_iff :
    (s : OpSpec) (r : Reg) (size : ℕ)
    → IsSized (reg r)
    → (match_reg s r size ≡ true) ↔ Admits s (reg r) size
unfolding match_reg
match_reg_iff ops_r8 r size k = ground (arith, k)
match_reg_iff ops_rv r size k = ground (arith, k)
match_reg_iff ops_rm8 r size k = ground (arith, k)
match_reg_iff ops_rmv r size k = ground (arith, k)
match_reg_iff ops_r64 r size k = ground (arith, k)
match_reg_iff ops_rm64 r size k = ground (arith, k)
match_reg_iff ops_al r size k = ground (arith, k)
match_reg_iff ops_rax r size k = ground (arith, k)
match_reg_iff ops_cl r size k = ground (arith, k)
match_reg_iff s r size k = ground (arith, k)

match_imm_iff :
    (s : OpSpec) (i : Imm) (size : ℕ)
    → i.value < 2 ^ 64
    → (match_imm s i ≡ true) ↔ Admits s (imm i) size
unfolding match_imm to_int64
match_imm_iff ops_one i size l = ground arith
match_imm_iff s i size l = ground arith

match_mem_iff :
    (s : OpSpec) (m : Mem) (size : ℕ)
    → size ≢ 8
    → (match_mem s m size ≡ true) ↔ Admits s (mem m) size
unfolding match_mem
match_mem_iff s m size h = ground arith

no_operand_iff :
    (s : OpSpec) (size : ℕ) → (match_spec s no_operand size ≡ true) ↔ Admits s no_operand size
unfolding match_spec
no_operand_iff ops_none size = (λ h. refl, λ h. refl)
no_operand_iff s size = (λ h. cc, λ h. cc)

match_spec_iff :
    (s : OpSpec) (kd : OperandKind) (size : ℕ)
    → size ≢ 8
    → IsSized kd
    → (match_spec s kd size ≡ true) ↔ Admits s kd size
unfolding match_spec
match_spec_iff s no_operand size h k = unfold match_spec in no_operand_iff s size
match_spec_iff s (reg r) size h k = match_reg_iff s r size k
match_spec_iff s (imm i) size h k = match_imm_iff s i size k
match_spec_iff s (mem m) size h k = match_mem_iff s m size h

-- At an operand size other than 8, `match_all` admits what the specifications admit.
pub match_all_iff :
    (ss : List OpSpec) (ops : List Operand) (size : ℕ)
    → size ≢ 8
    → AllSized ops
    → (match_all ss ops size ≡ true) ↔ AllAdmits ss ops size
unfolding match_all
match_all_iff [] [] size h k = (λ e. tt, λ e. refl)
match_all_iff [] (op ∷ ops) size h k = (λ e. cc, λ e. absurd e)
match_all_iff (s ∷ ss) [] size h k = (λ e. cc, λ e. absurd e)
match_all_iff (s ∷ ss) (op ∷ ops) size h k =
    let here = match_spec_iff s op.kind size h k.0 in
    let there = match_all_iff ss ops size h k.1 in
    (
      λ e.
          let both = both_hold (match_spec s op.kind size) (match_all ss ops size) e in
          (here.0 both.0, there.0 both.1),
      λ (a, b). ground (arith, here.1 a, there.1 b),
    )
