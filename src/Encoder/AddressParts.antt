-- ===== src/Encoder/AddressParts.antt =====
-- The parts of an encoded memory operand, for `encode_rip` and `encode_plain` of encoder/encoder.c: its
-- registers, the SIB byte and the displacement field.
use quicks_qas.Common.{
  ℕ, ◌+◌, ◌%◌, ◌≡◌, length, get_elem?, get_elem?-some-lt, inl, inr, Bool-cases, refl, Bool, true,
  false, Option, none, some, ◌==◌, if◌then◌else◌, arith,
}
use quicks_qas.Common.Int.{ℤ, pos, ◌+ℤ◌, ◌-ℤ◌, int_laws}
use quicks_qas.Common.Words.{fits_int8, fits_int32, to_uint64}
use mathlib.Core.Path.{subst}
use quicks_qas.Reg.Table.{Reg, rows_64}
use quicks_qas.Ast.{Mem}
use quicks_qas.Encoder.Address.{
  done, RmEncoding, ModDisp, mod_disp, pc32, abs32s, choose_mod, address_bytes, with_disp,
  encode_rip, encode_plain, encode_rm_memory, base_is_ip, is_some, >>=-eq-done, done-injective,
  zero_disp,
}
use quicks_qas.Encoder.Decode.{EffectiveAddress, decode_address, read_disp}
use quicks_qas.Encoder.Roundtrip.{
  IsNumbered, IsIndex, ModFits, plain_address, number, scale_of, Reads, address_bytes-Reads,
}

-- A displacement of one byte, of four bytes, or none, is read back as it was written.
read_disp8 : (d : ℤ) → fits_int8 d ≡ true → read_disp 1 (to_uint64 d) ≡ d
unfolding read_disp to_uint64
read_disp8 d h = ground arith

read_disp32 : (d : ℤ) → fits_int32 d ≡ true → read_disp 4 (to_uint64 d) ≡ d
unfolding read_disp to_uint64
read_disp32 d h = ground arith

read_disp_zero : (d : ℤ) → zero_disp d ≡ true → read_disp 0 (to_uint64 d) ≡ d
unfolding read_disp
read_disp_zero d h = ground arith

-- What a literal displacement becomes: it is read back, in full, from `disp_len` bytes.
abbrev DispFits : ModDisp → ℤ → Type 0
DispFits md d = read_disp md.disp_len (to_uint64 d) ≡ d

choose_mod-ModFits :
    (b : Reg) (symbol : Bool) (d : ℤ) {md : ModDisp}
    → choose_mod (some b) symbol d ≡ done md
    → ModFits (some b) md
unfolding choose_mod
choose_mod-ModFits b symbol d h = ground arith

choose_mod-DispFits :
    (b : Reg) (symbol : Bool) (d : ℤ) {md : ModDisp}
    → choose_mod (some b) symbol d ≡ done md
    → symbol ≡ false
    → DispFits md d
unfolding choose_mod
choose_mod-DispFits b symbol d h e = ground (arith, read_disp8 d, read_disp32 d, read_disp_zero d)

choose_mod_symbol :
    (base : Option Reg) (symbol : Bool) (d : ℤ) {md : ModDisp}
    → choose_mod base symbol d ≡ done md
    → symbol ≡ true
    → md ≡ mod_disp 2 4
unfolding choose_mod
choose_mod_symbol none symbol d h e = ground arith
choose_mod_symbol (some b) symbol d h e = ground arith

choose_mod_absolute :
    (symbol : Bool) (d : ℤ) {md : ModDisp}
    → choose_mod none symbol d ≡ done md
    → symbol ≡ false
    → md ≡ mod_disp 0 4
unfolding choose_mod
choose_mod_absolute symbol d h e = ground arith

-- The address that a memory operand spells, with `disp_len` bytes of displacement.
abbrev pub written_address : Mem → ℕ → EffectiveAddress
written_address m disp_len =
    if base_is_ip m.base
    then record {
      rip_relative = true;
      base = none;
      index = number m.index;
      scale = scale_of m.index m.scale;
      disp_len = disp_len;
    }
    else plain_address m.base m.index m.scale disp_len

-- The 64-bit general-purpose register of a number.
abbrev pub register : Option ℕ → Option Reg
register none = none
register (some n) = get_elem? rows_64 n

-- The register, if there is one, is a 64-bit row of the table, the one of its number.
abbrev pub Is64 : Option Reg → Type 0
Is64 o = register (number o) ≡ o

-- What the encoder relies on: 64-bit registers, or a lone rip as base, and, with no base register, a
-- displacement that fits and no symbol beside an index.
pub record IsAddress (m : Mem) : Type 0 where
  pub base_64 : base_is_ip m.base ≡ false → Is64 m.base
  pub index_64 : Is64 m.index
  pub index_valid : IsIndex m.index m.scale
  pub rip_alone : base_is_ip m.base ≡ true → is_some m.index ≡ false
  pub symbol_based : m.disp_is_symbol ≡ true → is_some m.base ≡ false → is_some m.index ≡ false
  pub absolute_fits : m.disp_is_symbol ≡ false → is_some m.base ≡ false → fits_int32 m.disp ≡ true

pub record DispParts (m : Mem) (imm_tail : ℕ) (rm : RmEncoding) : Type 0 where
  pub symbolic : rm.disp_symbol ≡ m.disp_is_symbol
  pub literal : m.disp_is_symbol ≡ false → read_disp rm.disp_len (to_uint64 rm.disp) ≡ m.disp
  pub width : m.disp_is_symbol ≡ true → rm.disp_len ≡ 4
  pub name : m.disp_is_symbol ≡ true → (rm.sym_off ≡ m.sym_off) × (rm.sym_len ≡ m.sym_len)
  pub relative :
      m.disp_is_symbol ≡ true
      → base_is_ip m.base ≡ true
      → (rm.disp_fixkind ≡ pc32) × (rm.disp_addend +ℤ pos (4 + imm_tail) ≡ m.disp)
  pub absolute :
      m.disp_is_symbol ≡ true
      → base_is_ip m.base ≡ false
      → (rm.disp_fixkind ≡ abs32s) × (rm.disp_addend ≡ m.disp)

pub record EncodesParts (m : Mem) (imm_tail : ℕ) (rm : RmEncoding) : Type 0 where
  pub address : decode_address rm.modrm rm.sib rm.rex_x rm.rex_b ≡ written_address m rm.disp_len
  pub sib_follows : rm.has_sib ≡ (rm.modrm % 8 == 4)
  pub disp_field : DispParts m imm_tail rm

sub_add : (d : ℤ) (n : ℕ) → (d -ℤ pos n) +ℤ pos n ≡ d
sub_add d n = omega int_laws

encode_rip-EncodesParts :
    (m : Mem) (t : ℕ) {rm : RmEncoding}
    → base_is_ip m.base ≡ true
    → is_some m.index ≡ false
    → encode_rip m t ≡ done rm
    → EncodesParts m t rm
unfolding encode_rip
encode_rip-EncodesParts m t e lone h = record {
  address = unfold decode_address in ground arith;
  sib_follows = ground arith;
  disp_field = record {
    symbolic = ground arith;
    literal = ground (arith, read_disp32 m.disp);
    width = ground arith;
    name = ground arith;
    relative = ground (arith, sub_add m.disp (4 + t));
    absolute = ground arith;
  };
}

disp_len-address_bytes :
    (b : Reg) (index : Option Reg) (scale : ℕ) (md : ModDisp)
    → (address_bytes (some b) index scale md).disp_len ≡ md.disp_len
unfolding address_bytes
disp_len-address_bytes b index scale md = ground arith

-- The address bytes and the length of the displacement, whichever registers there are.
record PlainParts (base index : Option Reg) (scale : ℕ) (symbol : Bool) (d : ℤ) (rm : RmEncoding)
    : Type 0 where
  reads : Reads base index scale rm
  literal_read : symbol ≡ false → read_disp rm.disp_len (to_uint64 d) ≡ d
  symbol_width : symbol ≡ true → rm.disp_len ≡ 4
  no_symbol_yet : rm.disp_symbol ≡ false

address_bytes-PlainParts :
    (base index : Option Reg) (scale : ℕ) (symbol : Bool) (d : ℤ) {md : ModDisp}
    → IsNumbered base
    → IsIndex index scale
    → (symbol ≡ true → is_some base ≡ false → is_some index ≡ false)
    → (symbol ≡ false → is_some base ≡ false → fits_int32 d ≡ true)
    → choose_mod base symbol d ≡ done md
    → PlainParts base index scale symbol d (address_bytes base index scale md)
address_bytes-PlainParts none none scale symbol d {md} hb hi hs hf c = record {
  reads =
      unfold address_bytes in address_bytes-Reads none none scale (mod_disp 0 4) tt tt (refl, refl);
  literal_read = λ e. unfold address_bytes in read_disp32 d (hf e refl);
  symbol_width = λ e. unfold address_bytes in refl;
  no_symbol_yet = unfold address_bytes in refl;
}
address_bytes-PlainParts none (some x) scale true d {md} hb hi hs hf c = cc (hs refl refl)
address_bytes-PlainParts none (some x) scale false d {md} hb hi hs hf c = record {
  reads =
      rw (choose_mod_absolute false d c refl)
        (address_bytes-Reads none (some x) scale (mod_disp 0 4) hb hi (refl, refl));
  literal_read = λ e. unfold address_bytes in read_disp32 d (hf e refl);
  symbol_width = λ e. unfold address_bytes in refl;
  no_symbol_yet = unfold address_bytes in refl;
}
address_bytes-PlainParts (some b) index scale symbol d {md} hb hi hs hf c = record {
  reads = address_bytes-Reads (some b) index scale md hb hi (choose_mod-ModFits b symbol d c);
  literal_read =
      λ e. rw (disp_len-address_bytes b index scale md) (choose_mod-DispFits b symbol d c e);
  symbol_width = λ e.
      ground
        (arith, disp_len-address_bytes b index scale md, choose_mod_symbol (some b) symbol d c e);
  no_symbol_yet = unfold address_bytes in ground arith;
}

with_disp-EncodesParts :
    (m : Mem) (t : ℕ) {rm : RmEncoding}
    → base_is_ip m.base ≡ false
    → PlainParts m.base m.index m.scale m.disp_is_symbol m.disp rm
    → EncodesParts m t (with_disp m rm)
with_disp-EncodesParts m t e p = record {
  address = ground (arith, p.reads.address);
  sib_follows = ground (arith, p.reads.sib_follows);
  disp_field = record {
    symbolic = ground arith;
    literal = ground arith;
    width = ground arith;
    name = ground arith;
    relative = ground arith;
    absolute = ground arith;
  };
}

all_64 : length rows_64 ≡ 16
unfolding rows_64
all_64 = refl

Is64-IsNumbered : (o : Option Reg) → Is64 o → IsNumbered o
Is64-IsNumbered none h = tt
Is64-IsNumbered (some r) h = omega (arith, all_64, get_elem?-some-lt rows_64 r.encoding h)

encode_plain-EncodesParts :
    (m : Mem) (t : ℕ) {rm : RmEncoding}
    → IsAddress m
    → base_is_ip m.base ≡ false
    → encode_plain m ≡ done rm
    → EncodesParts m t rm
unfolding encode_plain
encode_plain-EncodesParts m t v e h =
    let (md, c, is_rm) = >>=-eq-done (choose_mod m.base m.disp_is_symbol m.disp) _ h in
    let p =
      address_bytes-PlainParts m.base m.index m.scale m.disp_is_symbol m.disp
        (Is64-IsNumbered m.base (v.base_64 e)) v.index_valid v.symbol_based v.absolute_fits c in
    subst (λ x. EncodesParts m t x) (done-injective is_rm) (with_disp-EncodesParts m t e p)

pub encode_rm_memory-EncodesParts :
    (m : Mem) (imm_tail : ℕ) {rm : RmEncoding}
    → IsAddress m
    → encode_rm_memory m imm_tail ≡ done rm
    → EncodesParts m imm_tail rm
unfolding encode_rm_memory
encode_rm_memory-EncodesParts m t v h = elim (Bool-cases (base_is_ip m.base)) [
  | inl e ↦ encode_rip-EncodesParts m t e (v.rip_alone e) (rw e at h)
  | inr e ↦ encode_plain-EncodesParts m t v e (rw e at h)
]
