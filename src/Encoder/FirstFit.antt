-- ===== src/Encoder/FirstFit.antt =====
-- `qas_insn_select` (encoder/internal/insn_table.c) takes the first row that fits.
use quicks_qas.Common.{
  ℕ, ◌≡◌, ◌≢◌, ◌⊎◌, ◌↔◌, inl, inr, refl, ap, Bool, true, false, List, [], ◌∷◌, ◌++◌, Option, none,
  some, ◌==◌, arith, Bool-cases, both_hold,
}
use quicks_qas.Ast.{Operand}
use quicks_qas.Reg.Lookup.{span_ieq, ascii_lower}
use quicks_qas.Reg.Names.{SpellsName, is_lower, span_ieq-SpellsName, span_ieq-spells}
use quicks_qas.Encoder.Forms.{InsnForm}
use quicks_qas.Encoder.Table.{insn_forms}
use quicks_qas.Encoder.Select.{
  InsnMatch, compute_op_size, form_fits, match_all, first_fit, matched, select_in, insn_select,
}
use quicks_qas.Encoder.Shape.{all_forms}
use quicks_qas.Encoder.OperandSize.{Conflict, SizeIs, AtMost64, compute_op_size-decides}
use quicks_qas.Encoder.Slots.{AllAdmits, AllSized, match_all_iff}

-- The mnemonic is the row's, letter case aside, and each operand is one that the row admits.
abbrev pub Fits : List ℕ → List Operand → ℕ → InsnForm → Type 0
Fits mn ops size f = SpellsName mn f.mnemonic × AllAdmits f.op ops size

-- None of the rows fits.
abbrev pub NoneFits : List ℕ → List Operand → ℕ → List InsnForm → Type 0
NoneFits mn ops size [] = Unit {0}
NoneFits mn ops size (f ∷ rows) = (Fits mn ops size f → ⊥) × NoneFits mn ops size rows

-- The answer of a search: no row fits, or this row fits and none before it does.
abbrev pub IsFirst : List ℕ → List Operand → ℕ → List InsnForm → Option InsnForm → Type 0
IsFirst mn ops size rows none = NoneFits mn ops size rows
IsFirst mn ops size rows (some f) =
    Fits mn ops size f
    × (before : List InsnForm) × (after : List InsnForm) × (rows ≡ before ++ (f ∷ after))
    × NoneFits mn ops size before

IsFirst-cons :
    (mn : List ℕ) (ops : List Operand) (size : ℕ) (x : InsnForm) (rows : List InsnForm)
    (o : Option InsnForm)
    → (Fits mn ops size x → ⊥)
    → IsFirst mn ops size rows o
    → IsFirst mn ops size (x ∷ rows) o
IsFirst-cons mn ops size x rows none e h = (e, h)
IsFirst-cons mn ops size x rows (some f) e h = (h.0, x ∷ h.1, h.2, ap (λ r. x ∷ r) h.3, (e, h.4))

lower_row : InsnForm → Bool
lower_row f = is_lower f.mnemonic

rows_lower : all_forms lower_row insn_forms ≡ true
unfolding lower_row all_forms is_lower insn_forms ascii_lower
rows_lower = refl

form_fits_iff :
    (mn : List ℕ) (ops : List Operand) (size : ℕ) (f : InsnForm)
    → lower_row f ≡ true
    → size ≢ 8
    → AllSized ops
    → (form_fits mn ops size f ≡ true) ↔ Fits mn ops size f
unfolding form_fits lower_row
form_fits_iff mn ops size f low wide sized =
    let slots = match_all_iff f.op ops size wide sized in
    (
      λ h.
          let both = both_hold (span_ieq mn f.mnemonic) (match_all f.op ops size) h in
          (span_ieq-SpellsName mn f.mnemonic both.0, slots.0 both.1),
      λ (a, b). ground (arith, span_ieq-spells mn f.mnemonic low a, slots.1 b),
    )

first_fit-IsFirst :
    (mn : List ℕ) (ops : List Operand) (size : ℕ) (rows : List InsnForm)
    → all_forms lower_row rows ≡ true
    → size ≢ 8
    → AllSized ops
    → IsFirst mn ops size rows (first_fit mn ops size rows)
unfolding first_fit all_forms
first_fit-IsFirst mn ops size [] low wide sized = tt
first_fit-IsFirst mn ops size (x ∷ rows) low wide sized =
    let lower = both_hold (lower_row x) (all_forms lower_row rows) low in
    let fits = form_fits_iff mn ops size x lower.0 wide sized in
    elim (Bool-cases (form_fits mn ops size x)) [
      | inl e ↦ rw e (fits.0 e, [], rows, refl, tt)
      | inr e ↦ rw e (
          IsFirst-cons mn ops size x rows (first_fit mn ops size rows) (λ h. cc (fits.1 h, e))
            (first_fit-IsFirst mn ops size rows lower.1 wide sized))
    ]

-- What the selection of an instruction means.
abbrev pub Selects : List ℕ → List Operand → Option InsnMatch → Type 0
Selects mn ops none =
    Conflict ops ⊎ ((size : ℕ) × SizeIs ops size × NoneFits mn ops size insn_forms)
Selects mn ops (some m) = SizeIs ops m.op_size × IsFirst mn ops m.op_size insn_forms (some m.form)

matched-Selects :
    (mn : List ℕ) (ops : List Operand) (size : ℕ) (o : Option InsnForm)
    → SizeIs ops size
    → IsFirst mn ops size insn_forms o
    → Selects mn ops (matched size o)
matched-Selects mn ops size none s h = inr (size, s, h)
matched-Selects mn ops size (some f) s h = (s, h)

SizeIs-ne : (ops : List Operand) (size : ℕ) → SizeIs ops size → size ≢ 8
SizeIs-ne ops size s = elim s.used [
  | inl z ↦ λ e. omega (arith, z, e)
  | inr (w, u) ↦ λ e. omega (arith, w, e)
]

-- For every mnemonic and operand list, `qas_insn_select` returns the first row of the table that fits, with
-- the one size of 16 bits or more that register and memory operands have, or 0 if none has such a size; or
-- it returns nothing, and then two of those sizes differ, or no row of the table fits. A row fits when its
-- name is the mnemonic, letter case aside, and each operand is one that the row's specification stands for.
-- No operand has more than 64 bits; its registers are general-purpose ones if they have a size, with a high
-- byte of 8 bits, and literals are below 2^64.
pub insn_select-Selects :
    (mn : List ℕ) (ops : List Operand)
    → AtMost64 ops
    → AllSized ops
    → Selects mn ops (insn_select mn ops)
unfolding insn_select select_in
insn_select-Selects mn ops small sized = elim (compute_op_size-decides ops small) [
  | inl (e, c) ↦ rw e (inl c)
  | inr (l, s) ↦
      let other : (compute_op_size ops == 0xFF) ≡ false = ground (arith, l) in
      rw other (
        matched-Selects mn ops (compute_op_size ops)
          (first_fit mn ops (compute_op_size ops) insn_forms) s
          (first_fit-IsFirst mn ops (compute_op_size ops) insn_forms rows_lower
            (SizeIs-ne ops (compute_op_size ops) s) sized))
]
