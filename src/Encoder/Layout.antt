-- ===== src/Encoder/Layout.antt =====
-- The whole of `qas_encode` (encoder/encoder.c): the bytes are the fields of the instruction format
-- in their order, they are at most 15, and nothing is dereferenced that is not there.
use quicks_qas.Common.{
  ℕ, ◌+◌, ◌≤◌, ◌≡◌, inl, inr, refl, Bool, true, false, Option, none, some, List, [], ◌∷◌, ◌++◌,
  length, length-append, ◌==◌, if◌then◌else◌, arith, Bool-cases, Option-cases,
}
use mathlib.Core.List.{append-nil}
use quicks_qas.Common.Int.{pos, ◌-ℤ◌}
use quicks_qas.Common.Words.{le_bytes, length-le_bytes, to_int64, to_uint64}
use quicks_qas.Ast.{Operand, Imm}
use quicks_qas.Encoder.Forms.{InsnForm, ImmK, immk_iov}
use quicks_qas.Encoder.Select.{insn_select, InsnMatch}
use quicks_qas.Encoder.Address.{
  Result, done, refused, fault, pc32, abs32s, abs64, Fixup, Holds, Holds-map, ◌>>=◌,
}
use quicks_qas.Encoder.Engine.{
  Encoded, Fields, imm_width, imm_operand, is_rel, emit_imm, emit_imm_operand, emit_symbol_imm,
  operand_fields, emit_fields, checked_fields, encode_form, encode, form_pfx_66, form_rex_w,
  rex_conflict, push_fixup, rex_needed, rex_byte,
}
use quicks_qas.Encoder.Emit.{
  opt, length-opt, opcode_bytes, modrm_bytes, modrm_fixups, disp_bytes, extend, bytes_only,
  put_le_lem, emit_opcode_lem, emit_modrm_lem,
}
use quicks_qas.Encoder.Shape.{form_shape, is_iov, insn_select_shape}
use quicks_qas.Encoder.Safety.{FieldsFit, operand_fields-fits}

-- The immediate field: a symbol's bytes are zero, and its fixup names the field.
abbrev pub imm_bytes : ℕ → Option Imm → List ℕ
imm_bytes width none = []
imm_bytes width (some i) = le_bytes width (if i.is_symbol then 0 else i.value)

abbrev imm_fixup : ImmK → ℕ → Imm → ℕ → Fixup
imm_fixup k width i offset = record {
  offset = offset;
  size = width;
  kind = if is_rel k then pc32 else if width == 8 then abs64 else abs32s;
  sym_off = i.sym_off;
  sym_len = i.sym_len;
  addend = if is_rel k then to_int64 i.value -ℤ pos width else to_int64 i.value;
}

abbrev pub imm_fixups : ImmK → ℕ → Option Imm → ℕ → List Fixup
imm_fixups k width none offset = []
imm_fixups k width (some i) offset = if i.is_symbol then imm_fixup k width i offset ∷ [] else []

emit_imm_operand_lem :
    (k : ImmK) (size width : ℕ) (i : Imm) (out : Encoded)
    → length out.bytes + width ≤ 15
    → Holds
        (λ r.
          r
          ≡ extend out (imm_bytes width (some i)) (imm_fixups k width (some i) (length out.bytes)))
        (emit_imm_operand k size width i out)
unfolding emit_imm_operand emit_symbol_imm
emit_imm_operand_lem k size width i out h = ground (
  arith,
  append-nil out.fixups,
  put_le_lem width out i.value h,
  put_le_lem width (push_fixup out width i pc32 (to_int64 i.value -ℤ pos width)) 0 h,
  put_le_lem width (push_fixup out width i abs64 (to_int64 i.value)) 0 h,
  put_le_lem width (push_fixup out width i abs32s (to_int64 i.value)) 0 h,
)

emit_imm_lem :
    (k : ImmK) (size width : ℕ) (i : Option Imm) (out : Encoded)
    → length out.bytes + width ≤ 15
    → Holds
        (λ r. r ≡ extend out (imm_bytes width i) (imm_fixups k width i (length out.bytes)))
        (emit_imm k size width i out)
unfolding emit_imm
emit_imm_lem k size width none out h = simp append-nil
emit_imm_lem k size width (some i) out h = emit_imm_operand_lem k size width i out h

-- The bytes and fixups of a form, field by field (Intel SDM Vol 2, Figure 2-1).
abbrev pub front : InsnForm → ℕ → Fields → List ℕ
front f size p = opcode_bytes f (form_pfx_66 f size) (form_rex_w f size) p

abbrev pub form_imm : InsnForm → List Operand → Option Imm
form_imm f ops = imm_operand f.imm f.enc ops

abbrev pub layout : InsnForm → ℕ → List Operand → Fields → Encoded
layout f size ops p = record {
  bytes = (front f size p ++ modrm_bytes p) ++ imm_bytes (imm_width f.imm size) (form_imm f ops);
  fixups =
      modrm_fixups p (length (front f size p))
      ++ imm_fixups f.imm (imm_width f.imm size) (form_imm f ops)
          (length (front f size p ++ modrm_bytes p));
}

length-prefixes :
    (a b c : Bool) (x y z w : ℕ) → length (opt a x ++ (opt b y ++ (opt c z ++ w ∷ []))) ≤ 4
length-prefixes a b c x y z w = omega (
  arith,
  length-append (opt a x) (opt b y ++ (opt c z ++ w ∷ [])),
  length-append (opt b y) (opt c z ++ w ∷ []),
  length-append (opt c z) (w ∷ []),
  length-opt a x,
  length-opt b y,
  length-opt c z,
)

length-front : (f : InsnForm) (size : ℕ) (p : Fields) → length (front f size p) ≤ 4
length-front f size p =
    length-prefixes (form_pfx_66 f size) (rex_needed (form_rex_w f size) p) f.two_byte 0x66
      (rex_byte (form_rex_w f size) p) 0x0F p.opcode

imm_width-le : (k : ImmK) (size : ℕ) → is_iov k ≡ false → imm_width k size ≤ 4
unfolding imm_width
imm_width-le immk_iov size h = absurd (ground arith)
imm_width-le k size h = ground arith

imm_width-iov : (k : ImmK) (size : ℕ) → imm_width k size ≤ 8
unfolding imm_width
imm_width-iov immk_iov size = ground arith
imm_width-iov k size = ground arith

length-modrm_bytes : (p : Fields) → p.rm.disp_len ≤ 4 → length (modrm_bytes p) ≤ 6
length-modrm_bytes p h = ground (
  arith,
  length-append (opt p.rm.has_sib p.rm.sib) (disp_bytes p.rm),
  length-opt p.rm.has_sib p.rm.sib,
  length-le_bytes p.rm.disp_len (if p.rm.disp_symbol then 0 else to_uint64 p.rm.disp),
)

-- The parts of a form fit fifteen bytes.
parts_fit :
    (f : InsnForm) (size : ℕ) (p : Fields)
    → form_shape f ≡ true
    → FieldsFit f.enc p
    → length (front f size p) + length (modrm_bytes p) + imm_width f.imm size ≤ 15
unfolding form_shape
parts_fit f size p s h = ground (
  arith,
  length-front f size p,
  length-modrm_bytes p h.0,
  imm_width-le f.imm size,
  imm_width-iov f.imm size,
)

-- `r` is the layout of the form, and fits.
abbrev IsLayout : InsnForm → ℕ → List Operand → Fields → Encoded → Type 0
IsLayout f size ops p r = (r ≡ layout f size ops p) × (length r.bytes ≤ 15)

length-imm_bytes : (width : ℕ) (i : Option Imm) → length (imm_bytes width i) ≤ width
length-imm_bytes width none = omega arith
length-imm_bytes width (some i) =
    omega (arith, length-le_bytes width (if i.is_symbol then 0 else i.value))

layout_fits :
    (f : InsnForm) (size : ℕ) (ops : List Operand) (p : Fields) {r : Encoded}
    → r ≡ layout f size ops p
    → length (front f size p) + length (modrm_bytes p) + imm_width f.imm size ≤ 15
    → length r.bytes ≤ 15
layout_fits f size ops p e h = rw e (
    omega (
      arith,
      length-append (front f size p ++ modrm_bytes p)
          (imm_bytes (imm_width f.imm size) (form_imm f ops)),
      length-append (front f size p) (modrm_bytes p),
      length-imm_bytes (imm_width f.imm size) (form_imm f ops),
    ))

emit_fields_lem :
    (f : InsnForm) (size : ℕ) (ops : List Operand) (p : Fields)
    → form_shape f ≡ true
    → FieldsFit f.enc p
    → Holds (IsLayout f size ops p) (emit_fields f size ops p)
unfolding emit_fields
emit_fields_lem f size ops p s h =
    let mand : (f.mand_pfx == 0) ≡ true = unfold form_shape in ground arith in
    let room = parts_fit f size p s h in
    let start = bytes_only (front f size p) in
    let middle = extend start (modrm_bytes p) (modrm_fixups p (length (front f size p))) in
    let total = length-append (front f size p) (modrm_bytes p) in
    rw
      (
        emit_opcode_lem f (form_pfx_66 f size) (form_rex_w f size) p mand,
        emit_modrm_lem p start (omega arith),
      )
      (Holds-map _ (IsLayout f size ops p)
        (emit_imm f.imm size (imm_width f.imm size) (form_imm f ops) middle)
        (emit_imm_lem f.imm size (imm_width f.imm size) (form_imm f ops) middle (omega arith))
        (λ r e. (e, layout_fits f size ops p (e) (omega arith))))

-- A form of the table's shape is refused or laid out.
checked_fields_lem :
    (f : InsnForm) (size : ℕ) (ops : List Operand) (p : Fields)
    → form_shape f ≡ true
    → FieldsFit f.enc p
    → Holds
        (λ r. IsLayout f size ops p r × (rex_conflict (form_rex_w f size) p ≡ false))
        (checked_fields f size ops p)
unfolding checked_fields
checked_fields_lem f size ops p s h = elim (Bool-cases (rex_conflict (form_rex_w f size) p)) [
  | inl e ↦ rw e (ground arith)
  | inr e ↦ rw e (
      Holds-map (IsLayout f size ops p) _ (emit_fields f size ops p)
        (emit_fields_lem f size ops p s h) (λ r l. (l, refl)))
]

-- What an encoded instruction is: the form that was selected, the fields of its operands, their
-- layout, and its length.
pub record IsEncoding (mn : List ℕ) (ops : List Operand) (out : Encoded) : Type 0 where
  pub found : InsnMatch
  pub fields : Fields
  pub selected : insn_select mn ops ≡ some found
  pub operands_read :
      operand_fields found.form.enc found.form.opcode found.form.ext
        (imm_width found.form.imm found.op_size)
        ops
      ≡ done fields
  pub no_rex_conflict : rex_conflict (form_rex_w found.form found.op_size) fields ≡ false
  pub laid_out : out ≡ layout found.form found.op_size ops fields
  pub fits : length out.bytes ≤ 15

-- `Holds` with the equation of the first step kept.
Holds-bind_eq :
    {A B : Type 0} (P : A → Type 0) (Q : B → Type 0) (r : Result A) (f : A → Result B)
    → Holds P r
    → ((a : A) → r ≡ done a → P a → Holds Q (f a))
    → Holds Q (r >>= f)
Holds-bind_eq P Q (done a) f h k = k a refl h
Holds-bind_eq P Q (refused r) f h k = h
Holds-bind_eq P Q fault f h k = h

encode_match_lem :
    (mn : List ℕ) (ops : List Operand) (m : InsnMatch)
    → insn_select mn ops ≡ some m
    → Holds (IsEncoding mn ops) (encode_form m.form m.op_size ops)
unfolding encode_form
encode_match_lem mn ops m e =
    let shape = insn_select_shape mn ops e in
    let width = imm_width m.form.imm m.op_size in
    Holds-bind_eq (FieldsFit m.form.enc) (IsEncoding mn ops)
      (operand_fields m.form.enc m.form.opcode m.form.ext width ops)
      (checked_fields m.form m.op_size ops)
      (operand_fields-fits m.form.op ops m.op_size m.form.opcode m.form.ext width shape.1 m.form.enc
        (unfold form_shape in ground arith))
      (λ p read h.
        Holds-map _ (IsEncoding mn ops) (checked_fields m.form m.op_size ops p)
          (checked_fields_lem m.form m.op_size ops p shape.0 h)
          (λ r l. record {
            found = m;
            fields = p;
            selected = e;
            operands_read = read;
            no_rex_conflict = l.1;
            laid_out = l.0.0;
            fits = l.0.1;
          }))

-- For every mnemonic and operand list the encoder finds each operand it dereferences, never runs
-- into the 15-byte limit, and either refuses or returns exactly the prefixes, REX, escape, opcode,
-- ModR/M, SIB, displacement and immediate of the selected form, in this order, with a fixup at the
-- offset of each symbolic field.
pub encode-IsEncoding :
    (mn : List ℕ) (ops : List Operand) → Holds (IsEncoding mn ops) (encode mn ops)
unfolding encode
encode-IsEncoding mn ops = elim (Option-cases (insn_select mn ops)) [
  | inl e ↦ rw e (ground arith)
  | inr (m, e) ↦ rw e (encode_match_lem mn ops m e)
]
