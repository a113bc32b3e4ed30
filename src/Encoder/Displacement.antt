-- ===== src/Encoder/Displacement.antt =====
-- Refusal, displacement and fixup of a memory operand: the whole of `encode_rm_memory` against what
-- the processor reads.
use quicks_qas.Common.{
  ℕ, ◌+◌, ◌%◌, ◌≡◌, sym, inl, inr, Bool-cases, ◌∙◌, refl, Bool, true, false, not, ◌||◌, Option,
  none, some, ◌==◌, arith,
}
use quicks_qas.Common.Int.{ℤ, pos, ◌+ℤ◌}
use quicks_qas.Common.Words.{fits_int32, to_uint64}
use mathlib.Core.Path.{subst}
use quicks_qas.Reg.Table.{Reg}
use quicks_qas.Ast.{Mem}
use quicks_qas.Encoder.Address.{
  Result, done, refused, fault, RmEncoding, pc32, abs32s, choose_mod, encode_rip, encode_plain,
  encode_rm_memory, base_is_ip, is_some, is_done, ◌>>=◌,
}
use quicks_qas.Encoder.Decode.{EffectiveAddress, decode_address, read_disp}
use quicks_qas.Encoder.AddressParts.{
  register, IsAddress, written_address, DispParts, encode_rm_memory-EncodesParts,
}

-- By the psABI's S + A - P or S + A, what the processor adds is the symbol and the written addend.
abbrev pub Resolves : Bool → Mem → ℕ → RmEncoding → Type 0
Resolves true m imm_tail rm =
    (rm.disp_fixkind ≡ pc32) × (rm.disp_addend +ℤ pos (4 + imm_tail) ≡ m.disp)
Resolves false m imm_tail rm = (rm.disp_fixkind ≡ abs32s) × (rm.disp_addend ≡ m.disp)

-- The displacement field: a literal is read back whole; a symbol has a fixup of four bytes that names
-- it and resolves to it, relative to rip or absolute.
abbrev pub DispField : Bool → Mem → ℕ → RmEncoding → Type 0
DispField false m imm_tail rm = read_disp rm.disp_len (to_uint64 rm.disp) ≡ m.disp
DispField true m imm_tail rm =
    (rm.disp_len ≡ 4)
    × (rm.sym_off ≡ m.sym_off)
    × (rm.sym_len ≡ m.sym_len)
    × Resolves (base_is_ip m.base) m imm_tail rm

-- The registers that the processor reads: rip alone, or the base and the index that are written.
abbrev pub Names : Bool → Mem → EffectiveAddress → Type 0
Names true m ea = (ea.rip_relative ≡ true) × (m.index ≡ none)
Names false m ea =
    (ea.rip_relative ≡ false) × (register ea.base ≡ m.base) × (register ea.index ≡ m.index)

abbrev pub Encodes : Mem → ℕ → RmEncoding → Type 0
Encodes m imm_tail rm =
    (decode_address rm.modrm rm.sib rm.rex_x rm.rex_b ≡ written_address m rm.disp_len)
    × Names (base_is_ip m.base) m (decode_address rm.modrm rm.sib rm.rex_x rm.rex_b)
    × (rm.has_sib ≡ (rm.modrm % 8 == 4))
    × (rm.disp_symbol ≡ m.disp_is_symbol)
    × DispField m.disp_is_symbol m imm_tail rm

is_none {ℓ} : {A : Type ℓ} (o : Option A) → is_some o ≡ false → o ≡ none
is_none none h = refl
is_none (some a) h = cc

names :
    (m : Mem) (n : ℕ) (rip : Bool)
    → base_is_ip m.base ≡ rip
    → IsAddress m
    → Names rip m (written_address m n)
names m n true e v = (rw e refl, is_none m.index (v.rip_alone e))
names m n false e v = (rw e refl, rw e (v.base_64 e), rw e v.index_64)

resolves :
    (m : Mem) (t : ℕ) (rm : RmEncoding) (rip : Bool)
    → m.disp_is_symbol ≡ true
    → base_is_ip m.base ≡ rip
    → DispParts m t rm
    → Resolves rip m t rm
resolves m t rm true s e d = d.relative s e
resolves m t rm false s e d = d.absolute s e

disp_field :
    (m : Mem) (t : ℕ) (rm : RmEncoding) (symbol : Bool)
    → m.disp_is_symbol ≡ symbol
    → DispParts m t rm
    → DispField symbol m t rm
disp_field m t rm false e d = d.literal e
disp_field m t rm true e d =
    (d.width e, (d.name e).0, (d.name e).1, resolves m t rm (base_is_ip m.base) e refl d)

-- Whenever a memory operand of 64-bit registers is encoded, the processor reads back the base register,
-- the index register and the scale that it spells, or rip alone; a SIB byte follows exactly when r/m
-- announces one, and the displacement field holds the literal displacement, or a fixup whose resolved value
-- adds the symbol and the written addend. The base is a 64-bit general-purpose register, rip without an
-- index, or absent; the index is a 64-bit general-purpose register other than rsp, with a scale, or absent;
-- without a base register the displacement fits 32 bits and no symbol stands beside an index.
pub encode_rm_memory-Encodes :
    (m : Mem) (imm_tail : ℕ) {rm : RmEncoding}
    → IsAddress m
    → encode_rm_memory m imm_tail ≡ done rm
    → Encodes m imm_tail rm
encode_rm_memory-Encodes m t {rm = rm} v h =
    let p = encode_rm_memory-EncodesParts m t v h in
    (
      p.address,
      subst (λ ea. Names (base_is_ip m.base) m ea) (sym p.address)
          (names m rm.disp_len (base_is_ip m.base) refl v),
      p.sib_follows,
      p.disp_field.symbolic,
      disp_field m t rm m.disp_is_symbol refl p.disp_field,
    )

abbrev in_reach : Mem → Bool
in_reach m = m.disp_is_symbol || fits_int32 m.disp

choose_mod_accepts :
    (base : Option Reg) (symbol : Bool) (d : ℤ)
    → is_done (choose_mod base symbol d) ≡ (symbol || fits_int32 d || not (is_some base))
unfolding choose_mod
choose_mod_accepts none symbol d = ground arith
choose_mod_accepts (some b) symbol d = ground arith

is_done_bind {ℓ κ} :
    {A : Type ℓ} {B : Type κ} (r : Result A) (f : A → B)
    → is_done (r >>= λ a. done (f a)) ≡ is_done r
is_done_bind (done a) f = refl
is_done_bind (refused e) f = refl
is_done_bind fault f = refl

rip_has_base : (base : Option Reg) → base_is_ip base ≡ true → is_some base ≡ true
rip_has_base none h = cc
rip_has_base (some r) h = refl

-- A memory operand is accepted exactly when its displacement is a symbol or fits a signed 32-bit
-- field, or when it has no base register; then no displacement is refused.
pub encode_rm_memory_accepts :
    (m : Mem) (imm_tail : ℕ)
    → is_done (encode_rm_memory m imm_tail) ≡ (in_reach m || not (is_some m.base))
unfolding encode_rm_memory encode_plain
encode_rm_memory_accepts m t = elim (Bool-cases (base_is_ip m.base)) [
  | inl e ↦ rw e (unfold encode_rip in ground (arith, rip_has_base m.base e))
  | inr e ↦ rw e (
      is_done_bind (choose_mod m.base m.disp_is_symbol m.disp) _
      ∙ choose_mod_accepts m.base m.disp_is_symbol m.disp)
]
