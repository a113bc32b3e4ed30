-- ===== src/Encoder/Roundtrip.antt =====
-- The address bytes name the operand: what the processor reads from the output of
-- `encode_rm_memory` is the base, index, scale and displacement that the source wrote.
use quicks_qas.Common.{
  ℕ, ◌+◌, ◌*◌, ◌/◌, ◌%◌, ◌^◌, ◌<◌, ◌≡◌, ◌≢◌, ◌⊎◌, inl, inr, Bool-cases, ◌∙◌, bit_or, refl, Bool,
  false, ◌&&◌, Option, none, some, ◌==◌, if◌then◌else◌, arith,
}
use quicks_qas.Common.Words.{u8}
use quicks_qas.Common.Table.{bit_or_fields, bit_or_pair}
use quicks_qas.Reg.Table.{Reg, low3}
use quicks_qas.Encoder.Address.{
  RmEncoding, ModDisp, extended, sib_byte, scale_to_bits, scale_or_one, address_bytes,
}
use quicks_qas.Encoder.Decode.{EffectiveAddress, flag, mod_disp_len, decode_address}

abbrev pub number : Option Reg → Option ℕ
number none = none
number (some r) = some r.encoding

-- A register number has four bits.
abbrev pub IsNumbered : Option Reg → Type 0
IsNumbered none = Unit
IsNumbered (some r) = r.encoding < 16

abbrev pub index3 : Option Reg → ℕ
index3 none = 4
index3 (some r) = r.encoding % 8

abbrev pub base3 : Option Reg → ℕ
base3 none = 5
base3 (some r) = r.encoding % 8

index3-lt : (o : Option Reg) → index3 o < 8
index3-lt none = omega arith
index3-lt (some r) = omega arith

base3-lt : (o : Option Reg) → base3 o < 8
base3-lt none = omega arith
base3-lt (some r) = omega arith

pub scale_bits-lt : (s : ℕ) → scale_to_bits s < 4
unfolding scale_to_bits
scale_bits-lt s = ground arith

sib_byte_lem :
    (sb : ℕ) (index base : Option Reg)
    → sb < 4
    → sib_byte sb index base ≡ sb * 64 + index3 index * 8 + base3 base
unfolding sib_byte
sib_byte_lem sb none none h = rw (bit_or_fields sb 4 5 h (omega arith) (omega arith)) (omega arith)
sib_byte_lem sb none (some b) h =
    rw (bit_or_fields sb 4 (b.encoding % 8) h (omega arith) (omega arith)) (omega arith)
sib_byte_lem sb (some x) none h =
    rw (bit_or_fields sb (x.encoding % 8) 5 h (omega arith) (omega arith)) (omega arith)
sib_byte_lem sb (some x) (some b) h =
    rw (bit_or_fields sb (x.encoding % 8) (b.encoding % 8) h (omega arith) (omega arith))
      (omega arith)

-- The scale that the SIB byte carries is the one that was asked for.
scale_lem : (s : ℕ) → (s ≡ 1) ⊎ (s ≡ 2) ⊎ (s ≡ 4) ⊎ (s ≡ 8) → 2 ^ scale_to_bits (scale_or_one s) ≡ s
unfolding scale_to_bits
scale_lem s h = ground arith

-- The two halves of a register number make it up again.
pub number_split : (r : Reg) → r.encoding < 16 → r.encoding % 8 + 8 * flag (extended r) ≡ r.encoding
number_split r h = ground arith

abbrev pub IsScale : ℕ → Type 0
IsScale s = (s ≡ 1) ⊎ (s ≡ 2) ⊎ (s ≡ 4) ⊎ (s ≡ 8)

-- An index register has a number other than that of rsp, which stands for "none", and a scale.
abbrev pub IsIndex : Option Reg → ℕ → Type 0
IsIndex none s = Unit
IsIndex (some r) s = (r.encoding < 16) × (r.encoding ≢ 4) × IsScale s

abbrev pub scale_of : Option Reg → ℕ → ℕ
scale_of none s = 1
scale_of (some r) s = s

-- The address that base, index and scale spell.
abbrev pub plain_address : Option Reg → Option Reg → ℕ → ℕ → EffectiveAddress
plain_address base index scale disp_len = record {
  rip_relative = false;
  base = number base;
  index = number index;
  scale = scale_of index scale;
  disp_len = disp_len;
}

-- mod and the displacement's length agree, and mod = 00 is not used where it means something else.
abbrev pub ModFits : Option Reg → ModDisp → Type 0
ModFits none md = (md.mod_bits ≡ 0) × (md.disp_len ≡ 4)
ModFits (some b) md =
    (md.mod_bits < 3)
    × (md.disp_len ≡ mod_disp_len md.mod_bits)
    × (b.encoding % 8 ≡ 5 → md.mod_bits ≢ 0)

pub record Reads (base index : Option Reg) (scale : ℕ) (rm : RmEncoding) : Type 0 where
  pub address :
      decode_address rm.modrm rm.sib rm.rex_x rm.rex_b ≡ plain_address base index scale rm.disp_len
  pub sib_follows : rm.has_sib ≡ (rm.modrm % 8 == 4)

-- A SIB byte read back field by field.
abbrev pub sib_address : ℕ → ℕ → ℕ → ℕ → Bool → Bool → EffectiveAddress
sib_address md sb i b x r =
    let no_base = (b == 5) && (md == 0) in
    let index = i + 8 * flag x in
    record {
      rip_relative = false;
      base = if no_base then none else some (b + 8 * flag r);
      index = if index == 4 then none else some index;
      scale = if index == 4 then 1 else 2 ^ sb;
      disp_len = if no_base then 4 else mod_disp_len md;
    }

decode_at_sib :
    (md sb i b : ℕ) (x r : Bool)
    → md < 4
    → sb < 4
    → i < 8
    → b < 8
    → decode_address (md * 64 + 4) (sb * 64 + i * 8 + b) x r ≡ sib_address md sb i b x r
unfolding decode_address
decode_at_sib md sb i b x r hm hs hi hb =
    let e1 : (md * 64 + 4) % 8 ≡ 4 = omega arith in
    let e2 : (md * 64 + 4) / 64 ≡ md = omega arith in
    let e3 : (sb * 64 + i * 8 + b) / 64 ≡ sb = omega arith in
    let e4 : (sb * 64 + i * 8 + b) / 8 % 8 ≡ i = omega arith in
    let e5 : (sb * 64 + i * 8 + b) % 8 ≡ b = omega arith in rw (e1, e2, e3, e4, e5)

modrm_sib : (md : ℕ) → md < 4 → u8 (bit_or (md * 64) 4) ≡ md * 64 + 4
modrm_sib md h = rw (bit_or_pair md 4 h (omega arith)) (omega arith)

modrm_base : (md b : ℕ) → md < 4 → b < 8 → u8 (bit_or (md * 64) b) ≡ md * 64 + b
modrm_base md b h hb = rw (bit_or_pair md b h hb) (omega arith)

-- The scale bits of the SIB byte.
abbrev pub bits_of : ℕ → ℕ
bits_of scale = scale_to_bits (scale_or_one scale)

-- A ModR/M and a SIB byte with the given fields read as `sib_address`.
pub reads_sib :
    (md sb : ℕ) (index base : Option Reg) (x r : Bool)
    → md < 4
    → sb < 4
    → decode_address (u8 (bit_or (md * 64) 4)) (sib_byte sb index base) x r
      ≡ sib_address md sb (index3 index) (base3 base) x r
reads_sib md sb index base x r hm hs =
    rw (modrm_sib md hm, sib_byte_lem sb index base hs)
      (decode_at_sib md sb (index3 index) (base3 base) x r hm hs (index3-lt index) (base3-lt base))

pub address_bytes-Reads :
    (base index : Option Reg) (scale : ℕ) (md : ModDisp)
    → IsNumbered base
    → IsIndex index scale
    → ModFits base md
    → Reads base index scale (address_bytes base index scale md)
unfolding address_bytes
address_bytes-Reads none none scale md hb hi hm = record {
  address = unfold decode_address in refl;
  sib_follows = refl;
}
address_bytes-Reads none (some x) scale md hb hi hm = record {
  address =
      reads_sib md.mod_bits (bits_of scale) (some x) none (extended x) false (omega arith)
        (scale_bits-lt (scale_or_one scale))
      ∙ ground (arith, number_split x, scale_lem scale);
  sib_follows = rw (modrm_sib md.mod_bits (omega arith)) (ground arith);
}
address_bytes-Reads (some b) none scale md hb hi hm = elim (Bool-cases (low3 b == 4)) [
  | inl e ↦ rw e (record {
    address =
        reads_sib md.mod_bits (bits_of scale) none (some b) false (extended b) (omega arith)
          (scale_bits-lt (scale_or_one scale))
        ∙ ground (arith, number_split b, scale_lem scale);
    sib_follows = rw (modrm_sib md.mod_bits (omega arith)) (ground arith);
  })
  | inr e ↦ rw e (record {
    address =
        rw (modrm_base md.mod_bits (low3 b) (omega arith) (omega arith))
          (unfold decode_address in ground (arith, number_split b));
    sib_follows = rw (modrm_base md.mod_bits (low3 b) (omega arith) (omega arith)) (ground arith);
  })
]
address_bytes-Reads (some b) (some x) scale md hb hi hm = record {
  address =
      reads_sib md.mod_bits (bits_of scale) (some x) (some b) (extended x) (extended b)
        (omega arith) (scale_bits-lt (scale_or_one scale))
      ∙ ground (arith, number_split b, number_split x, scale_lem scale);
  sib_follows = rw (modrm_sib md.mod_bits (omega arith)) (ground arith);
}
