-- ===== src/Encoder/Shape.antt =====
-- What every row of the instruction table promises to the engine: the operands that a row's
-- encoding dereferences are of the kind that its specifications admit, and its parts fit 15 bytes.
use quicks_qas.Common.{
  ℕ, zero, suc, ◌≡◌, ◌⊎◌, inl, inr, refl, Bool, true, false, not, ◌&&◌, ◌||◌, Option, none, some,
  List, [], ◌∷◌, ◌==◌, arith, Bool-cases,
}
use quicks_qas.Reg.Table.{Reg}
use quicks_qas.Reg.Lookup.{span_ieq}
use quicks_qas.Ast.{Operand, OperandKind, no_operand, reg, imm, mem, Mem}
use quicks_qas.Encoder.Forms.{
  InsnForm, OpSpec, ops_none, ops_r8, ops_rv, ops_rm8, ops_rmv, ops_r64, ops_rm64, ops_m, Enc,
  enc_zo, enc_o, enc_oi, enc_mr, enc_rm, enc_mi, enc_m, enc_m1, enc_mc, enc_d, enc_i, ImmK,
  immk_iov,
}
use quicks_qas.Encoder.Table.{insn_forms}
use quicks_qas.Encoder.Select.{
  match_spec, match_all, form_fits, first_fit, insn_select, select_in, matched, InsnMatch,
  compute_op_size,
}
use quicks_qas.Encoder.Engine.{kind_at}

abbrev pub spec_at : List OpSpec → ℕ → OpSpec
spec_at [] i = ops_none
spec_at (s ∷ ss) zero = s
spec_at (s ∷ ss) (suc i) = spec_at ss i

-- Specifications that only a register meets, and those that a register or memory meets.
abbrev pub reg_spec : OpSpec → Bool
reg_spec ops_r8 = true
reg_spec ops_rv = true
reg_spec ops_r64 = true
reg_spec _ = false

abbrev pub rm_spec : OpSpec → Bool
rm_spec ops_rm8 = true
rm_spec ops_rmv = true
rm_spec ops_rm64 = true
rm_spec ops_m = true
rm_spec _ = false

abbrev pub enc_shape : Enc → List OpSpec → Bool
enc_shape enc_zo ss = true
enc_shape enc_o ss = reg_spec (spec_at ss 0)
enc_shape enc_oi ss = reg_spec (spec_at ss 0)
enc_shape enc_mr ss = reg_spec (spec_at ss 1) && rm_spec (spec_at ss 0)
enc_shape enc_rm ss = reg_spec (spec_at ss 0) && rm_spec (spec_at ss 1)
enc_shape enc_mi ss = rm_spec (spec_at ss 0)
enc_shape enc_m ss = rm_spec (spec_at ss 0)
enc_shape enc_m1 ss = rm_spec (spec_at ss 0)
enc_shape enc_mc ss = rm_spec (spec_at ss 0)
enc_shape enc_d ss = true
enc_shape enc_i ss = true

abbrev pub is_oi : Enc → Bool
is_oi enc_oi = true
is_oi _ = false

abbrev pub is_iov : ImmK → Bool
is_iov immk_iov = true
is_iov _ = false

-- No mandatory prefix, and the full-width immediate only beside a register in the opcode.
unfoldable pub form_shape : InsnForm → Bool
form_shape f = enc_shape f.enc f.op && (f.mand_pfx == 0) && (not (is_iov f.imm) || is_oi f.enc)

unfoldable pub all_forms : (InsnForm → Bool) → List InsnForm → Bool
all_forms p [] = true
all_forms p (f ∷ fs) = p f && all_forms p fs

insn_forms_shape : all_forms form_shape insn_forms ≡ true
unfolding all_forms form_shape insn_forms
insn_forms_shape = refl

first_fit_lem :
    (mn : List ℕ) (ops : List Operand) (size : ℕ) (fs : List InsnForm) (p : InsnForm → Bool)
    {f : InsnForm}
    → all_forms p fs ≡ true
    → first_fit mn ops size fs ≡ some f
    → (form_fits mn ops size f ≡ true) × (p f ≡ true)
unfolding first_fit all_forms
first_fit_lem mn ops size [] p h e = cc
first_fit_lem mn ops size (g ∷ fs) p h e = elim (Bool-cases (form_fits mn ops size g)) [
  | inl fits ↦ let same = rw fits at e in ground (arith, same)
  | inr miss ↦ first_fit_lem mn ops size fs p (ground arith) (rw miss at e)
]

match_reg_spec :
    (s : OpSpec) (k : OperandKind) (size : ℕ)
    → reg_spec s ≡ true
    → match_spec s k size ≡ true
    → (r : Reg) × (k ≡ reg r)
unfolding match_spec
match_reg_spec s no_operand size a b = ground arith
match_reg_spec s (reg r) size a b = (r, refl)
match_reg_spec s (imm i) size a b = ground arith
match_reg_spec s (mem m) size a b = ground arith

match_rm_spec :
    (s : OpSpec) (k : OperandKind) (size : ℕ)
    → rm_spec s ≡ true
    → match_spec s k size ≡ true
    → ((r : Reg) × (k ≡ reg r)) ⊎ ((m : Mem) × (k ≡ mem m))
unfolding match_spec
match_rm_spec s no_operand size a b = absurd (ground arith)
match_rm_spec s (reg r) size a b = inl (r, refl)
match_rm_spec s (imm i) size a b = absurd (ground arith)
match_rm_spec s (mem m) size a b = inr (m, refl)

match_all_at :
    (ss : List OpSpec) (ops : List Operand) (size i : ℕ)
    → match_all ss ops size ≡ true
    → match_spec (spec_at ss i) (kind_at ops i) size ≡ true
unfolding match_all
match_all_at [] [] size i h = unfold match_spec in refl
match_all_at [] (op ∷ ops) size i h = cc
match_all_at (s ∷ ss) [] size i h = cc
match_all_at (s ∷ ss) (op ∷ ops) size zero h = ground arith
match_all_at (s ∷ ss) (op ∷ ops) size (suc i) h = match_all_at ss ops size i (ground arith)

-- Each operand that the engine dereferences as a register, or as a register or memory, is one.
pub reg_at :
    (ss : List OpSpec) (ops : List Operand) (size i : ℕ)
    → match_all ss ops size ≡ true
    → reg_spec (spec_at ss i) ≡ true
    → (r : Reg) × (kind_at ops i ≡ reg r)
reg_at ss ops size i h s =
    match_reg_spec (spec_at ss i) (kind_at ops i) size s (match_all_at ss ops size i h)

pub rm_at :
    (ss : List OpSpec) (ops : List Operand) (size i : ℕ)
    → match_all ss ops size ≡ true
    → rm_spec (spec_at ss i) ≡ true
    → ((r : Reg) × (kind_at ops i ≡ reg r)) ⊎ ((m : Mem) × (kind_at ops i ≡ mem m))
rm_at ss ops size i h s =
    match_rm_spec (spec_at ss i) (kind_at ops i) size s (match_all_at ss ops size i h)

matched_lem :
    (size : ℕ) (o : Option InsnForm) {m : InsnMatch}
    → matched size o ≡ some m
    → (m.op_size ≡ size) × (o ≡ some m.form)
matched_lem size none h = cc
matched_lem size (some f) h = (ground arith, ground arith)

pub select_in_lem :
    (fs : List InsnForm) (mn : List ℕ) (ops : List Operand) {m : InsnMatch}
    → select_in fs mn ops ≡ some m
    → (m.op_size ≡ compute_op_size ops) × (first_fit mn ops (compute_op_size ops) fs ≡ some m.form)
unfolding select_in
select_in_lem fs mn ops h = elim (Bool-cases (compute_op_size ops == 0xFF)) [
  | inl e ↦ absurd (ground arith)
  | inr e ↦
      matched_lem (compute_op_size ops) (first_fit mn ops (compute_op_size ops) fs) (rw e at h)
]

fits_match_all :
    (mn : List ℕ) (ops : List Operand) (size : ℕ) (f : InsnForm)
    → form_fits mn ops size f ≡ true
    → match_all f.op ops size ≡ true
unfolding form_fits
fits_match_all mn ops size f h = elim (Bool-cases (span_ieq mn f.mnemonic)) [
  | inl e ↦ rw e at h
  | inr e ↦ absurd (cc (rw e at h))
]

-- A selected form passes what every row passes, fits the operands, and has their size.
pub insn_select_row :
    (mn : List ℕ) (ops : List Operand) (p : InsnForm → Bool) {m : InsnMatch}
    → all_forms p insn_forms ≡ true
    → insn_select mn ops ≡ some m
    → (p m.form ≡ true)
      × (match_all m.form.op ops m.op_size ≡ true)
      × (m.op_size ≡ compute_op_size ops)
unfolding insn_select
insn_select_row mn ops p {m} all h =
    let found = select_in_lem insn_forms mn ops h in
    let fits = first_fit_lem mn ops (compute_op_size ops) insn_forms p all found.1 in
    (fits.1, rw found.0 (fits_match_all mn ops (compute_op_size ops) m.form fits.0), found.0)

-- A selected form has the shape of the table's rows and fits the operands.
pub insn_select_shape :
    (mn : List ℕ) (ops : List Operand) {m : InsnMatch}
    → insn_select mn ops ≡ some m
    → (form_shape m.form ≡ true) × (match_all m.form.op ops m.op_size ≡ true)
insn_select_shape mn ops h =
    let row = insn_select_row mn ops form_shape insn_forms_shape h in (row.0, row.1)
