-- ===== src/Encoder/Address.antt =====
-- The ModR/M, SIB and displacement of an operand: `encode_rm_register` and `encode_rm_memory` of
-- encoder/encoder.c.
use quicks_qas.Common.{
  ◌≢◌, ◌≡◌, refl, ℕ, ◌+◌, bit_or, Bool, true, false, not, ◌&&◌, ◌||◌, Option, none, some, ◌==◌,
  if◌then◌else◌,
}
use quicks_qas.Common.Int.{ℤ, pos, negsuc, ◌-ℤ◌}
use quicks_qas.Common.Words.{u8, fits_int8, fits_int32, ◌<<<◌}
use quicks_qas.Reg.Table.{Reg, RegClass, ip, low3, ext}
use quicks_qas.Ast.{Mem}

-- `qas_fixup_kind` and `qas_fixup` of encoder.h.
pub data FixupKind : Type 0 where
  pc32 abs32s abs64 : FixupKind

pub record Fixup : Type 0 where
  pub offset : ℕ
  pub size : ℕ
  pub kind : FixupKind
  pub sym_off : ℕ
  pub sym_len : ℕ
  pub addend : ℤ

-- What a refusal reports; every refusal of the encoder has the status QAS_ERR_ENCODE.
pub data Refusal : Type 0 where
  no_encoding rip_disp_range disp_range high_byte_rex symbol_width imm_range too_long : Refusal

-- `fault` is the use of an operand as what it is not (a NULL register, say), where C is undefined.
pub data Result {ℓ} (A : Type ℓ) : Type ℓ where
  done : A → Result A
  refused : Refusal → Result A
  fault : Result A

infixl 5 ◌>>=◌
abbrev pub ◌>>=◌ {ℓ κ} : {A : Type ℓ} {B : Type κ} → Result A → (A → Result B) → Result B
done a >>= f = f a
refused r >>= f = refused r
fault >>= f = fault

-- `rm_encoding`.
pub record RmEncoding : Type 0 where
  pub modrm : ℕ
  pub has_sib : Bool
  pub sib : ℕ
  pub disp_len : ℕ
  pub disp : ℤ
  pub rex_x : Bool
  pub rex_b : Bool
  pub disp_symbol : Bool
  pub sym_off : ℕ
  pub sym_len : ℕ
  pub disp_fixkind : FixupKind
  pub disp_addend : ℤ

-- `memset(rm, 0, sizeof *rm)`.
abbrev pub zero_rm : RmEncoding
zero_rm = record {
  modrm = 0;
  has_sib = false;
  sib = 0;
  disp_len = 0;
  disp = pos 0;
  rex_x = false;
  rex_b = false;
  disp_symbol = false;
  sym_off = 0;
  sym_len = 0;
  disp_fixkind = pc32;
  disp_addend = pos 0;
}

unfoldable pub scale_to_bits : ℕ → ℕ
scale_to_bits scale =
    if scale == 2 then 1 else if scale == 4 then 2 else if scale == 8 then 3 else 0

-- `qas_reg_ext(r) != 0`.
abbrev pub extended : Reg → Bool
extended r = not (ext r == 0)

unfoldable pub encode_rm_register : Reg → RmEncoding
encode_rm_register r = record zero_rm { modrm = u8 (bit_or 0xC0 (low3 r)); rex_b = extended r }

abbrev pub zero_disp : ℤ → Bool
zero_disp (pos n) = n == 0
zero_disp (negsuc n) = false

abbrev pub is_some {ℓ} : {A : Type ℓ} → Option A → Bool
is_some none = false
is_some (some a) = true

abbrev pub class_is_ip : RegClass → Bool
class_is_ip ip = true
class_is_ip _ = false

-- RIP-relative: mod = 00, r/m = 101 and a 32-bit displacement.
unfoldable pub encode_rip : Mem → ℕ → Result RmEncoding
encode_rip m imm_tail =
    if m.disp_is_symbol
    then done (record zero_rm {
      modrm = 0x05;
      disp_len = 4;
      disp_symbol = true;
      sym_off = m.sym_off;
      sym_len = m.sym_len;
      disp_fixkind = pc32;
      disp_addend = m.disp -ℤ pos (4 + imm_tail);
    })
    else if not (fits_int32 m.disp)
    then refused rip_disp_range
    else done (record zero_rm { modrm = 0x05; disp_len = 4; disp = m.disp })

-- The mod field with the displacement's length.
abbrev pub ModDisp : Type 0
ModDisp = record { mod_bits : ℕ; disp_len : ℕ }

abbrev pub mod_disp : ℕ → ℕ → ModDisp
mod_disp m l = record { mod_bits = m; disp_len = l }

-- "Decide mod and displacement length", for a base that is not the instruction pointer.
unfoldable pub choose_mod : Option Reg → Bool → ℤ → Result ModDisp
choose_mod base symbol disp = if symbol then done (mod_disp 2 4) else elim base [
  | none ↦ done (mod_disp 0 4)
  | some b ↦
      if zero_disp disp && not (low3 b == 5)
      then done (mod_disp 0 0)
      else if fits_int8 disp
      then done (mod_disp 1 1)
      else if fits_int32 disp
      then done (mod_disp 2 4)
      else refused disp_range
]

-- The SIB byte, with 100 for no index and 101 for no base.
unfoldable pub sib_byte : ℕ → Option Reg → Option Reg → ℕ
sib_byte scale_bits index base = u8 (
    bit_or (bit_or (scale_bits <<< 6) (elim index [ none ↦ 4 | some r ↦ low3 r ] <<< 3))
      (elim base [ none ↦ 5 | some r ↦ low3 r ]))

abbrev pub option_extended : Option Reg → Bool
option_extended none = false
option_extended (some r) = extended r

-- `m->scale ? m->scale : 1`.
abbrev pub scale_or_one : ℕ → ℕ
scale_or_one scale = if scale == 0 then 1 else scale

-- The bytes once mod is chosen: absolute, through a SIB byte, or a plain base.
unfoldable pub address_bytes : Option Reg → Option Reg → ℕ → ModDisp → RmEncoding
unfolding sib_byte scale_to_bits
address_bytes none none scale md = record zero_rm {
  modrm = 0x04;
  has_sib = true;
  sib = u8 (bit_or (bit_or (0 <<< 6) (4 <<< 3)) 5);
  disp_len = 4;
}
address_bytes none (some x) scale md = record zero_rm {
  modrm = u8 (bit_or (md.mod_bits <<< 6) 0x04);
  has_sib = true;
  sib = sib_byte (scale_to_bits (scale_or_one scale)) (some x) none;
  rex_x = extended x;
  disp_len = 4;
}
address_bytes (some b) index scale md =
    if is_some index || low3 b == 4
    then record zero_rm {
      modrm = u8 (bit_or (md.mod_bits <<< 6) 0x04);
      has_sib = true;
      sib = sib_byte (scale_to_bits (scale_or_one scale)) index (some b);
      rex_x = option_extended index;
      rex_b = extended b;
      disp_len = md.disp_len;
    }
    else record zero_rm {
      modrm = u8 (bit_or (md.mod_bits <<< 6) (low3 b));
      rex_b = extended b;
      disp_len = md.disp_len;
    }

-- The displacement, or the fixup for it.
abbrev pub with_disp : Mem → RmEncoding → RmEncoding
with_disp m rm =
    if m.disp_is_symbol
    then record rm {
      disp_symbol = true;
      sym_off = m.sym_off;
      sym_len = m.sym_len;
      disp_fixkind = abs32s;
      disp_addend = m.disp;
    }
    else record rm { disp = m.disp }

-- `encode_rm_memory` past the RIP-relative form.
unfoldable pub encode_plain : Mem → Result RmEncoding
encode_plain m = do
  md ← choose_mod m.base m.disp_is_symbol m.disp
  done (with_disp m (address_bytes m.base m.index m.scale md))

abbrev pub base_is_ip : Option Reg → Bool
base_is_ip none = false
base_is_ip (some r) = class_is_ip r.reg_class

unfoldable pub encode_rm_memory : Mem → ℕ → Result RmEncoding
encode_rm_memory m imm_tail = if base_is_ip m.base then encode_rip m imm_tail else encode_plain m

-- Inversion of a bind that returns.
pub >>=-eq-done {ℓ κ} :
    {A : Type ℓ} {B : Type κ} (r : Result A) (f : A → Result B) {b : B}
    → (r >>= f) ≡ done b
    → (a : A) × (r ≡ done a) × (f a ≡ done b)
>>=-eq-done (done a) f h = (a, refl, h)
>>=-eq-done (refused e) f h = cc
>>=-eq-done fault f h = cc

pub done-injective {ℓ} : {A : Type ℓ} {a b : A} → done a ≡ done b → a ≡ b
done-injective h = cc

abbrev pub is_done {ℓ} : {A : Type ℓ} → Result A → Bool
is_done (done a) = true
is_done (refused e) = false
is_done fault = false

-- No fault, no overlong instruction, and `P` of what is returned.
abbrev pub Holds : {A : Type 0} → (A → Type 0) → Result A → Type 0
Holds P (done a) = P a
Holds P (refused r) = r ≢ too_long
Holds P fault = ⊥

pub Holds-bind :
    {A B : Type 0} (P : A → Type 0) (Q : B → Type 0) (r : Result A) (f : A → Result B)
    → Holds P r
    → ((a : A) → P a → Holds Q (f a))
    → Holds Q (r >>= f)
Holds-bind P Q (done a) f h k = k a h
Holds-bind P Q (refused r) f h k = h
Holds-bind P Q fault f h k = h

pub Holds-map :
    {A : Type 0} (P Q : A → Type 0) (r : Result A) → Holds P r → ((a : A) → P a → Q a) → Holds Q r
Holds-map P Q (done a) h k = k a h
Holds-map P Q (refused r) h k = h
Holds-map P Q fault h k = h
