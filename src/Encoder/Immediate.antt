-- ===== src/Encoder/Immediate.antt =====
-- Immediates of `qas_encode` (encoder/encoder.c): what the range check admits is what the field keeps.
use quicks_qas.Common.{
  ℕ, ◌+◌, ◌*◌, ◌%◌, ◌^◌, ◌≤◌, ◌<◌, ◌≡◌, ◌⊎◌, inl, inr, sym, ap, ◌∙◌, Bool, true, false, ◌&&◌, ◌||◌,
  leb, ◌==◌, ==_iff, arith, Bool-cases, ◌++◌, length,
}
use quicks_qas.Common.Int.{pos, negsuc, leb_ℤ}
use quicks_qas.Common.Words.{to_int64, sign_extend, fits_int8, fits_int32, le_bytes}
use quicks_qas.Ast.{Imm}
use quicks_qas.Encoder.Address.{done, done-injective}
use quicks_qas.Encoder.Emit.{put_le_lem}
use quicks_qas.Encoder.Forms.{
  ImmK, immk_none, immk_ib, immk_iw, immk_id, immk_iv, immk_iov, immk_rel8, immk_rel32,
}
use quicks_qas.Encoder.Engine.{Encoded, put_le, imm_width, imm_in_range, emit_imm_operand}

-- The field holds the value, as a two's complement number or as an unsigned one.
abbrev pub Keeps : ℕ → ℕ → Type 0
Keeps width v = (sign_extend (8 * width) (v % 256 ^ width) ≡ to_int64 v) ⊎ (v % 256 ^ width ≡ v)

-- `true` when the field is extended by its sign to 64 bits.
abbrev pub KeptAs : Bool → ℕ → ℕ → Type 0
KeptAs true width v = sign_extend (8 * width) (v % 256 ^ width) ≡ to_int64 v
KeptAs false width v = Keeps width v

keeps8 : (v : ℕ) → v < 2 ^ 64 → (fits_int8 (to_int64 v) || leb v 0xFF) ≡ true → Keeps 1 v
unfolding to_int64
keeps8 v l h = ground arith

keeps16 :
    (v : ℕ)
    → v < 2 ^ 64
    → ((leb_ℤ (negsuc 32767) (to_int64 v) && leb_ℤ (to_int64 v) (pos 32767)) || leb v 0xFFFF) ≡ true
    → Keeps 2 v
unfolding to_int64
keeps16 v l h = ground arith

keeps32 : (v : ℕ) → v < 2 ^ 64 → (fits_int32 (to_int64 v) || leb v 0xFFFFFFFF) ≡ true → Keeps 4 v
unfolding to_int64
keeps32 v l h = ground arith

pub extends8 : (v : ℕ) → v < 2 ^ 64 → fits_int8 (to_int64 v) ≡ true → KeptAs true 1 v
unfolding to_int64
extends8 v l h = ground arith

pub extends32 : (v : ℕ) → v < 2 ^ 64 → fits_int32 (to_int64 v) ≡ true → KeptAs true 4 v
unfolding to_int64
extends32 v l h = ground arith

pub in_range-Keeps :
    (k : ImmK) (size v : ℕ)
    → v < 2 ^ 64
    → 1 ≤ imm_width k size
    → imm_in_range k size (imm_width k size) v ≡ true
    → Keeps (imm_width k size) v
unfolding imm_in_range imm_width
in_range-Keeps immk_none size v l w h = absurd (omega arith)
in_range-Keeps immk_ib size v l w h = keeps8 v l h
in_range-Keeps immk_iw size v l w h = keeps16 v l h
in_range-Keeps immk_id size v l w h = keeps32 v l h
in_range-Keeps immk_iv size v l w h = elim (Bool-cases (size == 64)) [
  | inl e ↦ let s = (==_iff size 64).0 e in rw s (inl (extends32 v l (rw s at h)))
  | inr e ↦ elim (Bool-cases (size == 16)) [
    | inl f ↦ rw f (keeps16 v l (rw (e, f) at h))
    | inr f ↦ rw f (keeps32 v l (rw (e, f) at h))
  ]
]
in_range-Keeps immk_iov size v l w h = elim (Bool-cases (size == 16)) [
  | inl e ↦ rw e (keeps16 v l (rw e at h))
  | inr e ↦ elim (Bool-cases (size == 32)) [
    | inl f ↦ rw (e, f) (keeps32 v l (rw (e, f) at h))
    | inr f ↦ rw (e, f) (inr (omega arith))
  ]
]
in_range-Keeps immk_rel8 size v l w h = keeps8 v l h
in_range-Keeps immk_rel32 size v l w h = keeps32 v l h

-- Inversion of a literal that is emitted.
literal_emitted :
    (k : ImmK) (size width : ℕ) (i : Imm) (out r : Encoded)
    → i.is_symbol ≡ false
    → emit_imm_operand k size width i out ≡ done r
    → (imm_in_range k size width i.value ≡ true) × (put_le out i.value width ≡ done r)
unfolding emit_imm_operand
literal_emitted k size width i out r s h = (ground arith, ground arith)

-- A literal that is emitted has passed the range check, and its little-endian field is appended.
pub emitted_literal :
    (k : ImmK) (size : ℕ) (i : Imm) (out r : Encoded)
    → i.is_symbol ≡ false
    → length out.bytes + imm_width k size ≤ 15
    → emit_imm_operand k size (imm_width k size) i out ≡ done r
    → (imm_in_range k size (imm_width k size) i.value ≡ true)
      × (r.bytes ≡ out.bytes ++ le_bytes (imm_width k size) i.value)
emitted_literal k size i out r s room h =
    let found = literal_emitted k size (imm_width k size) i out r s h in
    (
      found.0,
      ap (λ (e : Encoded). e.bytes)
          (sym (done-injective (sym (put_le_lem (imm_width k size) out i.value room) ∙ found.1))),
    )
