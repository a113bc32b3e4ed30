-- ===== src/Encoder/Decode.antt =====
-- What the processor reads from ModR/M, SIB and REX (Intel SDM Vol 2, 2.1.5, Tables 2-2 and 2-3):
-- written from the format alone, to hold the encoder against.
use quicks_qas.Common.{
  ℕ, ◌+◌, ◌*◌, ◌/◌, ◌%◌, ◌^◌, Bool, true, false, ◌&&◌, Option, none, some, ◌==◌, if◌then◌else◌,
}
use quicks_qas.Common.Int.{ℤ, pos}
use quicks_qas.Common.Words.{sign_extend}

-- An effective address: the numbers of its registers, and the bytes of displacement that follow.
pub record EffectiveAddress : Type 0 where
  pub rip_relative : Bool
  pub base : Option ℕ
  pub index : Option ℕ
  pub scale : ℕ
  pub disp_len : ℕ

abbrev pub flag : Bool → ℕ
flag true = 1
flag false = 0

-- The displacement that a mod field announces.
abbrev pub mod_disp_len : ℕ → ℕ
mod_disp_len md = if md == 1 then 1 else if md == 2 then 4 else 0

abbrev pub decode_sib : ℕ → ℕ → Bool → Bool → EffectiveAddress
decode_sib md sib rex_x rex_b =
    let no_base = (sib % 8 == 5) && (md == 0) in
    let index = sib / 8 % 8 + 8 * flag rex_x in
    record {
      rip_relative = false;
      base = if no_base then none else some (sib % 8 + 8 * flag rex_b);
      index = if index == 4 then none else some index;
      scale = if index == 4 then 1 else 2 ^ (sib / 64);
      disp_len = if no_base then 4 else mod_disp_len md;
    }

-- r/m = 100 reads a SIB byte; r/m = 101 with mod = 00 is relative to the next instruction.
unfoldable pub decode_address : ℕ → ℕ → Bool → Bool → EffectiveAddress
decode_address modrm sib rex_x rex_b =
    let md = modrm / 64 in
    let rm = modrm % 8 in
    if rm == 4
    then decode_sib md sib rex_x rex_b
    else if (rm == 5) && (md == 0)
    then record { rip_relative = true; base = none; index = none; scale = 1; disp_len = 4 }
    else record {
      rip_relative = false;
      base = some (rm + 8 * flag rex_b);
      index = none;
      scale = 1;
      disp_len = mod_disp_len md;
    }

-- The displacement that a field of `n` bytes with the low bits of `u` adds.
unfoldable pub read_disp : ℕ → ℕ → ℤ
read_disp n u = if n == 0 then pos 0 else sign_extend (8 * n) (u % 256 ^ n)
