-- ===== src/Asm/Sound/Pass.antt =====
-- The second pass of asm/asm.c: whatever the statements are, it returns and leaves a sound state.
use quicks_qas.Common.{
  ℕ, suc, ◌+◌, ◌^◌, ◌≤◌, ◌<◌, ◌≡◌, refl, Bool, true, false, List, [], ◌∷◌, Option, none, some,
  length, get_elem?, codes, arith, if◌then◌else◌,
}
use quicks_qas.Status.{ok}
use quicks_qas.Ast.{Stmt}
use quicks_qas.Asm.Section.{sht_nobits, sht_progbits}
use quicks_qas.Asm.Unit.{unit_current, unit_here, emit_bytes}
use quicks_qas.Asm.SymTab.Ops.{Sym}
use quicks_qas.Asm.Assembly.{
  Assembly, Memory, Supply, past, span_of, Run, with_unit, with_syms, put_sym, report_error,
  add_fix, define_sym, define_label, label_sym,
}
use quicks_qas.Asm.Directive.Handlers.{is_nobits, data_ints, data_strings, data_zero, do_align}
use quicks_qas.Asm.Directive.Apply.{
  do_globl, do_set, do_section, shortcut, directive_named, apply_directive,
}
use quicks_qas.Asm.Sound.State.{
  Sound, Sound-le, Stays, Stays-le, then_run-Stays, either, report_error-Stays,
}
use quicks_qas.Asm.Sound.Names.{with_name-Stays, put_sym-Sound}
use quicks_qas.Asm.Sound.Emission.{emit_bytes-Same, with_unit-Same, add_fix-Stays}
use quicks_qas.Asm.Sound.Data.{void_run-Stays}
use quicks_qas.Common.Words.{u64}
use quicks_qas.Asm.Sound.Data.{void_run-Stays}
use quicks_qas.Ast.{StmtKind, label, directive, instruction}
use quicks_qas.Encoder.Address.{Fixup, Result, done, refused, fault, Holds}
use quicks_qas.Encoder.Engine.{Encoded, encode}
use quicks_qas.Encoder.Layout.{IsEncoding, encode-IsEncoding}
use quicks_qas.Asm.Driver.Layout.{
  fix_kind, add_fixups, refusal_span, refused_at, emit_encoded, emit_instruction, lay_out_stmt,
  lay_out,
}
use quicks_qas.Asm.Sound.Directives.{
  data_ints-Stays, data_strings-Stays, do_globl-Stays, do_set-Stays, data_zero-Stays,
  do_align-Stays, shortcut-Stays, do_section-Stays,
}

-- `Stays`, shut, so that a goal shows the run that it is about.
unfoldable Left : ℕ → Run → Type 0
Left c r = Stays c r

Left-if : (c : ℕ) (test : Bool) (x y : Run) → Left c x → Left c y → Left c (if test then x else y)
Left-if c true x y h k = h
Left-if c false x y h k = k

Left-le : {b c : ℕ} (r : Run) → b ≤ c → Stays b r → Left c r
unfolding Left
Left-le r l h = Stays-le r h l

module _ (st : Stmt) (a : Assembly) (b : ℕ) (h : Sound b a)
    (few : b + suc (length st.args) < 2 ^ 32) where
  abbrev bound : ℕ
  bound = b + suc (length st.args)

  at_loop : b + length st.args ≤ bound
  at_loop = omega arith

  at_one : b + 1 ≤ bound
  at_one = omega arith

  at_none : b ≤ bound
  at_none = omega arith

  short : (m : Memory) (lit : List ℕ) (type flags : ℕ) → Left bound (shortcut m st lit type flags a)
  short m lit type flags =
      Left-le (shortcut m st lit type flags a) at_one (shortcut-Stays st a b h few m lit type flags)

  ints : (m : Supply) (width : ℕ) → Left bound (data_ints m width st a)
  ints m width = Left-le (data_ints m width st a) at_loop (data_ints-Stays st a b h few m width)

  strings :
      (m : Supply) (src : List ℕ) (terminate : Bool)
      → Left bound (data_strings m src terminate st a)
  strings m src terminate =
      Left-le (data_strings m src terminate st a) at_loop
        (data_strings-Stays st a b h few m src terminate)

  directive_named-Left :
      (m : Supply) (src name : List ℕ) → Left bound (directive_named m src st name a)
  unfolding directive_named
  directive_named-Left m src name =
      Left-if bound _ _ _ (short (m 0) (codes ".text") sht_progbits 6) (
        Left-if bound _ _ _ (short (m 0) (codes ".data") sht_progbits 3) (
          Left-if bound _ _ _ (short (m 0) (codes ".rodata") sht_progbits 2) (
            Left-if bound _ _ _ (short (m 0) (codes ".bss") sht_nobits 3) (
              Left-if bound _ _ _
                (Left-le (do_section m src st a) at_one (do_section-Stays st a b h few m src))
                (Left-if bound _ _ _
                  (Left-le (do_globl m src st a) at_loop (do_globl-Stays st a b h few m src))
                  (Left-if bound _ _ _
                    (Left-le (do_set (m 0) src st a) at_one (do_set-Stays st a b h few (m 0) src))
                    (Left-if bound _ _ _ (ints m 1) (
                      Left-if bound _ _ _ (ints m 2) (
                        Left-if bound _ _ _ (ints m 4) (
                          Left-if bound _ _ _ (ints m 8) (
                            Left-if bound _ _ _ (strings m src false) (
                              Left-if bound _ _ _ (strings m src true) (
                                Left-if bound _ _ _
                                  (Left-le (data_zero (m 0) st a) at_none
                                    (data_zero-Stays st a b h few (m 0)))
                                  (Left-if bound _ _ _
                                    (Left-le (do_align (m 0) false st a) at_none
                                      (do_align-Stays st a b h few (m 0) false))
                                    (Left-if bound _ _ _
                                      (Left-le (do_align (m 0) true st a) at_none
                                        (do_align-Stays st a b h few (m 0) true))
                                      (Left-le (report_error (m 0) a st.name_off st.name_len)
                                        at_none
                                        (report_error-Stays (m 0) a st.name_off st.name_len b
                                          h)))))))))))))))))

  pub apply_directive-Stays : (m : Supply) (src : List ℕ) → Stays bound (apply_directive m src st a)
  unfolding apply_directive Left
  apply_directive-Stays m src = directive_named-Left m src (span_of src st.name_off st.name_len)

add_fixups-Stays :
    (m : Supply) (base : ℕ) (fixups : List Fixup) (a : Assembly) (b : ℕ)
    → Sound b a
    → Stays b (add_fixups m base fixups a)
unfolding add_fixups
add_fixups-Stays m base [] a b h = h
add_fixups-Stays m base (fx ∷ fixups) a b h =
    then_run-Stays b b
      (add_fix (m 0) a (fix_kind fx.kind) fx.sym_off fx.sym_len fx.addend (u64 (base + fx.offset)))
      (add_fixups (past 1 m) base fixups) (omega arith)
      (add_fix-Stays a b h (m 0) (fix_kind fx.kind) fx.sym_off fx.sym_len fx.addend
        (u64 (base + fx.offset)))
      (λ n s. add_fixups-Stays (past 1 m) base fixups n b s)

emit_encoded-Stays :
    (m : Supply) (st : Stmt) (r : Result Encoded) (mn : List ℕ) (a : Assembly) (b : ℕ)
    → Sound b a
    → Holds (IsEncoding mn st.operands) r
    → Stays b (emit_encoded m st r a)
emit_encoded-Stays m st (done enc) mn a b h e =
    then_run-Stays b b (with_unit a (emit_bytes (m 0).buffer a.unit enc.bytes))
      (add_fixups (past 1 m) (unit_here a.unit) enc.fixups) (omega arith)
      (with_unit-Same a b h (emit_bytes (m 0).buffer a.unit enc.bytes)
        (emit_bytes-Same (m 0).buffer a.unit enc.bytes))
      (λ n s. add_fixups-Stays (past 1 m) (unit_here a.unit) enc.fixups n b s)
emit_encoded-Stays m st (refused r) mn a b h e = told (refusal_span st r)
  where
    told : (o : Option (ℕ × ℕ)) → Stays b (refused_at (m 0) o a)
    told none = h
    told (some (off, len)) =
        void_run-Stays b (report_error (m 0) a off len) (report_error-Stays (m 0) a off len b h)
emit_encoded-Stays m st fault mn a b h e = e

emit_instruction-Stays :
    (m : Supply) (src : List ℕ) (st : Stmt) (a : Assembly) (b : ℕ)
    → Sound b a
    → Stays b (emit_instruction m src st a)
unfolding emit_instruction
emit_instruction-Stays m src st a b h =
    let mn = span_of src st.name_off st.name_len in
    either b (is_nobits (unit_current a.unit)) (report_error (m 0) a st.offset st.length)
      (emit_encoded m st (encode mn st.operands) a)
      (report_error-Stays (m 0) a st.offset st.length b h)
      (emit_encoded-Stays m st (encode mn st.operands) mn a b h (encode-IsEncoding mn st.operands))

define_sym-Stays :
    (m : Memory) (off len : ℕ) (a : Assembly) (i : ℕ) (s : Sym) (b : ℕ)
    → Sound b a
    → get_elem? a.syms.syms i ≡ some s
    → Stays b (define_sym m off len a i s)
unfolding define_sym
define_sym-Stays m off len a i s b h at =
    either b s.defined (report_error m a off len)
      (some (ok, with_syms a (put_sym a.syms i (label_sym a.unit.current (unit_here a.unit) s))))
      (report_error-Stays m a off len b h)
      (put_sym-Sound a i s (label_sym a.unit.current (unit_here a.unit) s) b h at refl
        (λ e. h.current))

define_label-Stays :
    (m : Memory) (src : List ℕ) (a : Assembly) (off len b : ℕ)
    → Sound b a
    → b + 1 < 2 ^ 32
    → Stays (b + 1) (define_label m src a off len)
unfolding define_label
define_label-Stays m src a off len b h few =
    with_name-Stays m src a off len b (b + 1) (define_sym m off len) h few (omega arith)
      (λ n i s k at. define_sym-Stays m off len n i s (b + 1) k at)

-- How many names and sections the statements can add at most.
unfoldable pub weight : List Stmt → ℕ
weight [] = 0
weight (st ∷ stmts) = suc (length st.args) + weight stmts

lay_out_stmt-Stays :
    (m : Supply) (src : List ℕ) (st : Stmt) (kind : StmtKind) (a : Assembly) (b : ℕ)
    → Sound b a
    → b + suc (length st.args) < 2 ^ 32
    → Stays (b + suc (length st.args)) (lay_out_stmt m src st kind a)
lay_out_stmt-Stays m src st label a b h few =
    Stays-le (define_label (m 0) src a st.name_off st.name_len)
      (define_label-Stays (m 0) src a st.name_off st.name_len b h (omega (arith, few)))
      (omega arith)
lay_out_stmt-Stays m src st directive a b h few = apply_directive-Stays st a b h few m src
lay_out_stmt-Stays m src st instruction a b h few =
    Stays-le (emit_instruction m src st a) (emit_instruction-Stays m src st a b h) (omega arith)

-- From a sound state, with room for the names and sections that the statements can add among 32-bit
-- indices, the second pass over any statements returns, with whatever status: no probe of the symbol table
-- runs on, no record, register or section that is not there is used. The state is sound again: the symbol
-- table is well-formed, the current section, the section of every label and that of every fixup are there,
-- and the diagnostics of each severity are counted.
pub lay_out-Stays :
    (m : ℕ → Supply) (src : List ℕ) (stmts : List Stmt) (a : Assembly) (b : ℕ)
    → Sound b a
    → b + weight stmts < 2 ^ 32
    → Stays (b + weight stmts) (lay_out m src stmts a)
unfolding lay_out weight
lay_out-Stays m src [] a b h few = Sound-le a h (omega arith)
lay_out-Stays m src (st ∷ stmts) a b h few =
    then_run-Stays (b + suc (length st.args)) (b + (suc (length st.args) + weight stmts))
      (lay_out_stmt (m 0) src st st.kind a) (lay_out (λ i. m (1 + i)) src stmts) (omega arith)
      (lay_out_stmt-Stays (m 0) src st st.kind a b h (omega arith))
      (λ n s.
        Stays-le (lay_out (λ i. m (1 + i)) src stmts n)
          (lay_out-Stays (λ i. m (1 + i)) src stmts n (b + suc (length st.args)) s (omega arith))
          (omega arith))
