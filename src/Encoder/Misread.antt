-- ===== src/Encoder/Misread.antt =====
-- Operands without a base register whose bytes mean another address than the source wrote
-- (`encode_rm_memory`, encoder/encoder.c): the conditions of `IsAddress` without a base are needed.
use quicks_qas.Common.{ℕ, ◌≡◌, ◌≢◌, refl, true, false, Option, none, some, arith}
use quicks_qas.Common.Int.{ℤ}
use quicks_qas.Common.Words.{fits_int32, to_uint64}
use quicks_qas.Reg.Table.{Reg}
use quicks_qas.Ast.{Mem}
use quicks_qas.Encoder.Address.{
  done, RmEncoding, ModDisp, mod_disp, choose_mod, address_bytes, with_disp, scale_or_one,
  encode_plain, encode_rm_memory, extended,
}
use quicks_qas.Encoder.Decode.{decode_address, read_disp}
use quicks_qas.Encoder.Roundtrip.{IsIndex, reads_sib, bits_of, scale_bits-lt, number_split}

-- The bytes for a symbol with an index and no base, and what they say.
symbol_index :
    (x : Reg) (scale : ℕ)
    → IsIndex (some x) scale
    → let rm = address_bytes none (some x) scale (mod_disp 2 4) in
      let ea = decode_address rm.modrm rm.sib rm.rex_x rm.rex_b in
      (ea.base ≡ some 5) × (ea.index ≡ some x.encoding)
unfolding address_bytes
symbol_index x scale h =
    rw
      (reads_sib 2 (bits_of scale) (some x) none (extended x) false (omega arith)
        (scale_bits-lt (scale_or_one scale)))
      (refl, ground (arith, number_split x h.0))

-- A literal displacement that no 32-bit field holds is not read back.
read_disp32_ne : (d : ℤ) → fits_int32 d ≡ false → read_disp 4 (to_uint64 d) ≢ d
unfolding read_disp to_uint64
read_disp32_ne d h = ground arith

-- A symbol with an index register and no base, `[table + rcx*8]`, is accepted, and its bytes
-- add register 5, rbp, as a base.
pub symbol_index_misread :
    (m : Mem) (imm_tail : ℕ) (x : Reg)
    → m.base ≡ none
    → m.index ≡ some x
    → IsIndex (some x) m.scale
    → m.disp_is_symbol ≡ true
    → (rm : RmEncoding) × (encode_rm_memory m imm_tail ≡ done rm)
      × ((decode_address rm.modrm rm.sib rm.rex_x rm.rex_b).base ≡ some 5)
      × ((decode_address rm.modrm rm.sib rm.rex_x rm.rex_b).index ≡ some x.encoding)
unfolding encode_rm_memory encode_plain choose_mod
symbol_index_misread m t x hb hi v hs =
    let found = symbol_index x m.scale v in
    (
      with_disp m (address_bytes none (some x) m.scale (mod_disp 2 4)),
      ground arith,
      ground (arith, found.0),
      ground (arith, found.1),
    )

absolute_len :
    (index : Option Reg) (scale : ℕ) (md : ModDisp)
    → (address_bytes none index scale md).disp_len ≡ 4
unfolding address_bytes
absolute_len none scale md = refl
absolute_len (some x) scale md = refl

with_disp_literal :
    (m : Mem) (rm : RmEncoding)
    → m.disp_is_symbol ≡ false
    → with_disp m rm ≡ record rm { disp = m.disp }
with_disp_literal m rm h = rw h

-- A literal displacement beyond 32 signed bits is accepted when there is no base register, and the
-- processor reads another number than the one written.
pub absolute_disp_misread :
    (m : Mem) (imm_tail : ℕ)
    → m.base ≡ none
    → m.disp_is_symbol ≡ false
    → fits_int32 m.disp ≡ false
    → (rm : RmEncoding) × (encode_rm_memory m imm_tail ≡ done rm)
      × (read_disp rm.disp_len (to_uint64 rm.disp) ≢ m.disp)
unfolding encode_rm_memory encode_plain choose_mod
absolute_disp_misread m t hb hs hf = (
  with_disp m (address_bytes none m.index m.scale (mod_disp 0 4)),
  ground arith,
  rw
      (
        with_disp_literal m (address_bytes none m.index m.scale (mod_disp 0 4)) hs,
        absolute_len m.index m.scale (mod_disp 0 4),
      )
      (read_disp32_ne m.disp hf),
)
