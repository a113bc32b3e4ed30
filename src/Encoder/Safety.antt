-- ===== src/Encoder/Safety.antt =====
-- The switch on the encoding of a form (`qas_encode`, encoder/encoder.c): for a selected form it
-- finds every operand of the kind that it dereferences, and fields that 15 bytes hold.
use quicks_qas.Common.{
  ℕ, ◌≤◌, ◌≡◌, ◌⊎◌, inl, inr, refl, Bool, true, false, Option, none, some, List, arith, Bool-cases,
}
use quicks_qas.Common.Int.{ℤ}
use quicks_qas.Reg.Table.{Reg}
use quicks_qas.Ast.{Operand, OperandKind, reg, mem, Mem, no_operand, imm}
use quicks_qas.Encoder.Forms.{
  OpSpec, Enc, enc_zo, enc_o, enc_oi, enc_mr, enc_rm, enc_mi, enc_m, enc_m1, enc_mc, enc_d, enc_i,
}
use quicks_qas.Encoder.Select.{match_all}
use quicks_qas.Encoder.Address.{
  RmEncoding, ModDisp, Holds, Holds-bind, Holds-map, ◌>>=◌, choose_mod, address_bytes, encode_plain,
  encode_rip, with_disp, encode_rm_memory, encode_rm_register, base_is_ip,
}
use quicks_qas.Encoder.Engine.{Fields, operand_fields, opcode_reg, reg_field, rm_field, kind_at}
use quicks_qas.Encoder.Shape.{enc_shape, reg_spec, spec_at, is_oi, reg_at, rm_at}

abbrev Short : RmEncoding → Type 0
Short rm = rm.disp_len ≤ 4

choose_mod-le :
    (base : Option Reg) (s : Bool) (d : ℤ) → Holds (λ md. md.disp_len ≤ 4) (choose_mod base s d)
unfolding choose_mod
choose_mod-le none s d = ground arith
choose_mod-le (some b) s d = ground arith

with_disp-Short :
    (m : Mem) (base index : Option Reg) (scale : ℕ) (md : ModDisp)
    → md.disp_len ≤ 4
    → Short (with_disp m (address_bytes base index scale md))
unfolding address_bytes
with_disp-Short m none none scale md h = ground arith
with_disp-Short m none (some x) scale md h = ground arith
with_disp-Short m (some b) index scale md h = ground arith

encode_plain-Short : (m : Mem) → Holds Short (encode_plain m)
unfolding encode_plain
encode_plain-Short m =
    Holds-bind (λ md. md.disp_len ≤ 4) Short (choose_mod m.base m.disp_is_symbol m.disp) _
      (choose_mod-le m.base m.disp_is_symbol m.disp)
      (λ md h. with_disp-Short m m.base m.index m.scale md h)

encode_rip-Short : (m : Mem) (t : ℕ) → Holds Short (encode_rip m t)
unfolding encode_rip
encode_rip-Short m t = ground arith

encode_rm_memory-Short : (m : Mem) (t : ℕ) → Holds Short (encode_rm_memory m t)
unfolding encode_rm_memory
encode_rm_memory-Short m t = elim (Bool-cases (base_is_ip m.base)) [
  | inl e ↦ rw e (encode_rip-Short m t)
  | inr e ↦ rw e (encode_plain-Short m)
]

-- Fields whose bytes fit beside the immediate of the form.
abbrev pub FieldsFit : Enc → Fields → Type 0
FieldsFit enc p = Short p.rm × (is_oi enc ≡ true → p.have_modrm ≡ false)

rm_field-fits :
    (t : ℕ) (p : Fields) (k : OperandKind)
    → ((r : Reg) × (k ≡ reg r)) ⊎ ((m : Mem) × (k ≡ mem m))
    → Holds (λ q. Short q.rm) (rm_field t p k)
unfolding rm_field
rm_field-fits t p no_operand h = absurd (ground arith)
rm_field-fits t p (imm i) h = absurd (ground arith)
rm_field-fits t p (reg r) h = unfold encode_rm_register in omega arith
rm_field-fits t p (mem m) h =
    Holds-bind Short (λ q. Short q.rm) (encode_rm_memory m t) _ (encode_rm_memory-Short m t)
      (λ rm s. s)

rm_only_fits :
    (enc : Enc) (t : ℕ) (p : Fields) (k : OperandKind)
    → is_oi enc ≡ false
    → ((r : Reg) × (k ≡ reg r)) ⊎ ((m : Mem) × (k ≡ mem m))
    → Holds (FieldsFit enc) (rm_field t p k)
rm_only_fits enc t p k e h =
    Holds-map (λ q. Short q.rm) (FieldsFit enc) (rm_field t p k) (rm_field-fits t p k h)
      (λ q s. (s, λ oi. absurd (ground arith)))

opcode_reg-fits :
    (opcode : ℕ) (k : OperandKind)
    → (r : Reg) × (k ≡ reg r)
    → Holds (λ q. Short q.rm × (q.have_modrm ≡ false)) (opcode_reg opcode k)
unfolding opcode_reg
opcode_reg-fits opcode k (r, e) = rw e (omega arith, refl)

reg_then_rm_fits :
    (enc : Enc) (opcode t : ℕ) (k l : OperandKind)
    → is_oi enc ≡ false
    → (r : Reg) × (k ≡ reg r)
    → ((r : Reg) × (l ≡ reg r)) ⊎ ((m : Mem) × (l ≡ mem m))
    → Holds (FieldsFit enc) (reg_field opcode k >>= λ p. rm_field t p l)
unfolding reg_field
reg_then_rm_fits enc opcode t k l e (r, is_reg) h = rw is_reg (rm_only_fits enc t _ l e h)

module _ (ss : List OpSpec) (ops : List Operand) (size opcode digit t : ℕ)
    (fits : match_all ss ops size ≡ true) where
  opcode_reg_fits_at :
      (enc : Enc)
      → reg_spec (spec_at ss 0) ≡ true
      → Holds (FieldsFit enc) (opcode_reg opcode (kind_at ops 0))
  opcode_reg_fits_at enc h =
      Holds-map (λ q. Short q.rm × (q.have_modrm ≡ false)) (FieldsFit enc)
        (opcode_reg opcode (kind_at ops 0))
        (opcode_reg-fits opcode (kind_at ops 0) (reg_at ss ops size 0 fits h))
        (λ q s. (s.0, λ e. s.1))

  -- The engine never dereferences an operand of another kind, and its displacement has at most four
  -- bytes.
  pub operand_fields-fits :
      (enc : Enc)
      → enc_shape enc ss ≡ true
      → Holds (FieldsFit enc) (operand_fields enc opcode digit t ops)
  unfolding operand_fields
  operand_fields-fits enc_zo h = (omega arith, λ e. refl)
  operand_fields-fits enc_i h = (omega arith, λ e. refl)
  operand_fields-fits enc_d h = (omega arith, λ e. refl)
  operand_fields-fits enc_o h = opcode_reg_fits_at enc_o h
  operand_fields-fits enc_oi h = opcode_reg_fits_at enc_oi h
  operand_fields-fits enc_mr h =
      reg_then_rm_fits enc_mr opcode t _ _ refl (reg_at ss ops size 1 fits (ground arith))
        (rm_at ss ops size 0 fits (ground arith))
  operand_fields-fits enc_rm h =
      reg_then_rm_fits enc_rm opcode t _ _ refl (reg_at ss ops size 0 fits (ground arith))
        (rm_at ss ops size 1 fits (ground arith))
  operand_fields-fits enc_mi h = rm_only_fits enc_mi t _ _ refl (rm_at ss ops size 0 fits h)
  operand_fields-fits enc_m h = rm_only_fits enc_m t _ _ refl (rm_at ss ops size 0 fits h)
  operand_fields-fits enc_m1 h = rm_only_fits enc_m1 t _ _ refl (rm_at ss ops size 0 fits h)
  operand_fields-fits enc_mc h = rm_only_fits enc_mc t _ _ refl (rm_at ss ops size 0 fits h)
