-- ===== src/Asm/Driver/Layout.antt =====
-- The second pass of asm/asm.c: every statement in turn lays out labels, directives and instructions.
use quicks_qas.Common.{ℕ, ◌+◌, List, [], ◌∷◌, Option, none, some, if◌then◌else◌}
use quicks_qas.Common.Words.{u64}
use quicks_qas.Status.{ok}
use quicks_qas.Ast.{Stmt, StmtKind, label, directive, instruction, Operand, imm}
use quicks_qas.Encoder.Address.{
  FixupKind, pc32, abs32s, abs64, Fixup, Refusal, no_encoding, rip_disp_range, disp_range,
  high_byte_rex, symbol_width, imm_range, too_long, Result, done, refused, fault,
}
use quicks_qas.Encoder.Engine.{Encoded, encode}
use quicks_qas.Asm.Unit.{unit_current, unit_here, emit_bytes}
use quicks_qas.Asm.FixList.{FixKind, fix_pc32, fix_abs32s, fix_abs64}
use quicks_qas.Asm.Assembly.{
  Assembly, Memory, Supply, past, span_of, Run, then_run, with_unit, report_error, define_label,
  add_fix,
}
use quicks_qas.Asm.Directive.Handlers.{void_run, is_nobits}
use quicks_qas.Asm.Directive.Apply.{apply_directive}

unfoldable pub fix_kind : FixupKind → FixKind
fix_kind pc32 = fix_pc32
fix_kind abs32s = fix_abs32s
fix_kind abs64 = fix_abs64

-- The loop over the encoder's fixups; a round draws on one block of the supply.
unfoldable pub add_fixups : Supply → ℕ → List Fixup → Assembly → Run
add_fixups m base [] a = some (ok, a)
add_fixups m base (fx ∷ fixups) a =
    then_run
      (add_fix (m 0) a (fix_kind fx.kind) fx.sym_off fx.sym_len fx.addend (u64 (base + fx.offset)))
      (add_fixups (past 1 m) base fixups)

-- The span of the first immediate operand, for the diagnostics about it.
unfoldable pub imm_span : ℕ × ℕ → List Operand → ℕ × ℕ
imm_span whole [] = whole
imm_span whole (op ∷ ops) = elim op.kind [ imm i ↦ (op.offset, op.length) | _ ↦ imm_span whole ops ]

-- The span of the diagnostic that the encoder emits; it emits none where an instruction gets too long.
unfoldable pub refusal_span : Stmt → Refusal → Option (ℕ × ℕ)
refusal_span st symbol_width = some (imm_span (st.offset, st.length) st.operands)
refusal_span st imm_range = some (imm_span (st.offset, st.length) st.operands)
refusal_span st too_long = none
refusal_span st no_encoding = some (st.offset, st.length)
refusal_span st rip_disp_range = some (st.offset, st.length)
refusal_span st disp_range = some (st.offset, st.length)
refusal_span st high_byte_rex = some (st.offset, st.length)

-- QAS_ERR_ENCODE is recoverable: whatever becomes of the report, the pass goes on.
abbrev pub refused_at : Memory → Option (ℕ × ℕ) → Assembly → Run
refused_at m none a = some (ok, a)
refused_at m (some (off, len)) a = void_run (report_error m a off len)

abbrev pub emit_encoded : Supply → Stmt → Result Encoded → Assembly → Run
emit_encoded m st (done enc) a =
    then_run (with_unit a (emit_bytes (m 0).buffer a.unit enc.bytes))
      (add_fixups (past 1 m) (unit_here a.unit) enc.fixups)
emit_encoded m st (refused r) a = refused_at (m 0) (refusal_span st r) a
emit_encoded m st fault a = none

unfoldable pub emit_instruction : Supply → List ℕ → Stmt → Assembly → Run
emit_instruction m src st a =
    if is_nobits (unit_current a.unit)
    then report_error (m 0) a st.offset st.length
    else emit_encoded m st (encode (span_of src st.name_off st.name_len) st.operands) a

abbrev pub lay_out_stmt : Supply → List ℕ → Stmt → StmtKind → Assembly → Run
lay_out_stmt m src st label a = define_label (m 0) src a st.name_off st.name_len
lay_out_stmt m src st directive a = apply_directive m src st a
lay_out_stmt m src st instruction a = emit_instruction m src st a

-- The loop of pass 2; statement `i` draws on the supply `m i`.
unfoldable pub lay_out : (ℕ → Supply) → List ℕ → List Stmt → Assembly → Run
lay_out m src [] a = some (ok, a)
lay_out m src (st ∷ stmts) a =
    then_run (lay_out_stmt (m 0) src st st.kind a) (lay_out (λ i. m (1 + i)) src stmts)
