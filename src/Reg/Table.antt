-- ===== src/Reg/Table.antt =====
-- The rows of `qas_reg_table` (reg/reg.c), in order, and the split of a register number.
use quicks_qas.Common.{ℕ, Bool, true, false, List, [], ◌∷◌, ◌++◌, codes}
use quicks_qas.Common.Words.{low_bits, ◌>>>◌}

-- `qas_reg_class`; QAS_REG_CLASS_NONE marks no row of the table.
pub data RegClass : Type 0 where
  none_class gpr ip : RegClass

pub record Reg : Type 0 where
  pub name : List ℕ
  pub reg_class : RegClass
  pub size_bits : ℕ
  pub encoding : ℕ
  pub rex_required : Bool
  pub high_byte : Bool

-- The row constructors GPR, GPR_REX and GPR_HI.
abbrev pub gpr_row : List ℕ → ℕ → ℕ → Reg
gpr_row name size enc = record {
  name = name;
  reg_class = gpr;
  size_bits = size;
  encoding = enc;
  rex_required = false;
  high_byte = false;
}

abbrev pub gpr_rex : List ℕ → ℕ → Reg
gpr_rex name enc = record {
  name = name;
  reg_class = gpr;
  size_bits = 8;
  encoding = enc;
  rex_required = true;
  high_byte = false;
}

abbrev pub gpr_hi : List ℕ → ℕ → Reg
gpr_hi name enc = record {
  name = name;
  reg_class = gpr;
  size_bits = 8;
  encoding = enc;
  rex_required = false;
  high_byte = true;
}

abbrev pub rip : Reg
rip = record {
  name = codes "rip";
  reg_class = ip;
  size_bits = 0;
  encoding = 0;
  rex_required = false;
  high_byte = false;
}

unfoldable pub rows_64 : List Reg
rows_64 =
    gpr_row (codes "rax") 64 0
    ∷ gpr_row (codes "rcx") 64 1
    ∷ gpr_row (codes "rdx") 64 2
    ∷ gpr_row (codes "rbx") 64 3
    ∷ gpr_row (codes "rsp") 64 4
    ∷ gpr_row (codes "rbp") 64 5
    ∷ gpr_row (codes "rsi") 64 6
    ∷ gpr_row (codes "rdi") 64 7
    ∷ gpr_row (codes "r8") 64 8
    ∷ gpr_row (codes "r9") 64 9
    ∷ gpr_row (codes "r10") 64 10
    ∷ gpr_row (codes "r11") 64 11
    ∷ gpr_row (codes "r12") 64 12
    ∷ gpr_row (codes "r13") 64 13
    ∷ gpr_row (codes "r14") 64 14
    ∷ gpr_row (codes "r15") 64 15
    ∷ []

unfoldable pub rows_32 : List Reg
rows_32 =
    gpr_row (codes "eax") 32 0
    ∷ gpr_row (codes "ecx") 32 1
    ∷ gpr_row (codes "edx") 32 2
    ∷ gpr_row (codes "ebx") 32 3
    ∷ gpr_row (codes "esp") 32 4
    ∷ gpr_row (codes "ebp") 32 5
    ∷ gpr_row (codes "esi") 32 6
    ∷ gpr_row (codes "edi") 32 7
    ∷ gpr_row (codes "r8d") 32 8
    ∷ gpr_row (codes "r9d") 32 9
    ∷ gpr_row (codes "r10d") 32 10
    ∷ gpr_row (codes "r11d") 32 11
    ∷ gpr_row (codes "r12d") 32 12
    ∷ gpr_row (codes "r13d") 32 13
    ∷ gpr_row (codes "r14d") 32 14
    ∷ gpr_row (codes "r15d") 32 15
    ∷ []

unfoldable pub rows_16 : List Reg
rows_16 =
    gpr_row (codes "ax") 16 0
    ∷ gpr_row (codes "cx") 16 1
    ∷ gpr_row (codes "dx") 16 2
    ∷ gpr_row (codes "bx") 16 3
    ∷ gpr_row (codes "sp") 16 4
    ∷ gpr_row (codes "bp") 16 5
    ∷ gpr_row (codes "si") 16 6
    ∷ gpr_row (codes "di") 16 7
    ∷ gpr_row (codes "r8w") 16 8
    ∷ gpr_row (codes "r9w") 16 9
    ∷ gpr_row (codes "r10w") 16 10
    ∷ gpr_row (codes "r11w") 16 11
    ∷ gpr_row (codes "r12w") 16 12
    ∷ gpr_row (codes "r13w") 16 13
    ∷ gpr_row (codes "r14w") 16 14
    ∷ gpr_row (codes "r15w") 16 15
    ∷ []

unfoldable pub rows_8 : List Reg
rows_8 =
    gpr_row (codes "al") 8 0
    ∷ gpr_row (codes "cl") 8 1
    ∷ gpr_row (codes "dl") 8 2
    ∷ gpr_row (codes "bl") 8 3
    ∷ gpr_row (codes "r8b") 8 8
    ∷ gpr_row (codes "r9b") 8 9
    ∷ gpr_row (codes "r10b") 8 10
    ∷ gpr_row (codes "r11b") 8 11
    ∷ gpr_row (codes "r12b") 8 12
    ∷ gpr_row (codes "r13b") 8 13
    ∷ gpr_row (codes "r14b") 8 14
    ∷ gpr_row (codes "r15b") 8 15
    ∷ []

unfoldable pub rows_rex : List Reg
rows_rex =
    gpr_rex (codes "spl") 4
    ∷ gpr_rex (codes "bpl") 5
    ∷ gpr_rex (codes "sil") 6
    ∷ gpr_rex (codes "dil") 7
    ∷ []

unfoldable pub rows_high : List Reg
rows_high =
    gpr_hi (codes "ah") 4
    ∷ gpr_hi (codes "ch") 5
    ∷ gpr_hi (codes "dh") 6
    ∷ gpr_hi (codes "bh") 7
    ∷ []

unfoldable pub reg_table : List Reg
unfolding rows_64 rows_32 rows_16 rows_8 rows_rex rows_high
reg_table = rows_64 ++ (rows_32 ++ (rows_16 ++ (rows_8 ++ (rows_rex ++ (rows_high ++ (rip ∷ []))))))

-- The 3 bits that go into a ModR/M or SIB slot, and the bit that REX supplies.
abbrev pub low3 : Reg → ℕ
low3 r = low_bits r.encoding 3

abbrev pub ext : Reg → ℕ
ext r = low_bits (r.encoding >>> 3) 1
