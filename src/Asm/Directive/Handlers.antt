-- ===== src/Asm/Directive/Handlers.antt =====
-- The handlers of asm/internal/directive.c. The operations on one argument draw on one block of the supply, and
-- the decoding of a string on a block for each byte.
use quicks_qas.Common.{
  ℕ, ◌+◌, Bool, false, not, ◌&&◌, List, [], ◌∷◌, Option, none, some, length, ◌==◌, if◌then◌else◌,
}
use quicks_qas.Common.Int.{pos}
use quicks_qas.Status.{ok}
use quicks_qas.Ast.{Stmt, DirArg, DirArgKind, int_arg, string_arg, symbol_arg}
use quicks_qas.Buf.Ops.{Buf, init}
use quicks_qas.Diag.Sink.{DiagSink}
use quicks_qas.Asm.Section.{Section, sht_nobits}
use quicks_qas.Asm.Unit.{unit_current, unit_here, unit_align, emit_bytes, emit_zeros}
use quicks_qas.Asm.FixList.{fix_abs64, fix_abs32}
use quicks_qas.Asm.Strdec.{Decoding, decode_string}
use quicks_qas.Asm.Assembly.{
  Assembly, Memory, Supply, past, Run, then_run, with_unit, report_error, add_fix,
}
use quicks_qas.Asm.Directive.Datum.{fits_width, datum_bytes, align_arg}

abbrev pub err_at_stmt : Memory → Stmt → Assembly → Run
err_at_stmt m st a = report_error m a st.offset st.length

unfoldable pub require_no_args : Memory → Stmt → Assembly → Run
require_no_args m st a = if length st.args == 0 then some (ok, a) else err_at_stmt m st a

-- `(void)` of a report, and the end of the handler.
abbrev pub void_run : Run → Run
void_run none = none
void_run (some (st, a)) = some (ok, a)

abbrev pub is_nobits : Option Section → Bool
is_nobits none = false
is_nobits (some s) = s.type == sht_nobits

-- `require_progbits` at the head of a handler.
unfoldable pub require_progbits : Memory → Stmt → Assembly → Run → Run
require_progbits m st a rest =
    if is_nobits (unit_current a.unit) then void_run (err_at_stmt m st a) else rest

-- A loop over the arguments; each takes its part of the supply.
unfoldable pub each_arg : (Supply → DirArg → Assembly → Run) → Supply → List DirArg → Assembly → Run
each_arg step m [] a = some (ok, a)
each_arg step m (arg ∷ args) a = then_run (step m arg a) (each_arg step (past (arg.len + 2) m) args)

unfoldable pub emit_int_datum : Memory → Assembly → ℕ → ℕ → Run
emit_int_datum m a v width = with_unit a (emit_bytes m.buffer a.unit (datum_bytes 0 width v))

unfoldable pub data_symbol : Memory → ℕ → DirArg → Assembly → Run
data_symbol m width arg a =
    if not (width == 4) && not (width == 8)
    then report_error m a arg.off arg.len
    else then_run
        (add_fix m a (if width == 8 then fix_abs64 else fix_abs32) arg.off arg.len (pos 0)
          (unit_here a.unit))
        (λ b. with_unit b (emit_zeros m.buffer b.unit width))

abbrev pub data_int : Memory → ℕ → DirArg → DirArgKind → Assembly → Run
data_int m width arg int_arg a =
    if fits_width arg.int_value width
    then emit_int_datum m a arg.int_value width
    else report_error m a arg.off arg.len
data_int m width arg symbol_arg a = data_symbol m width arg a
data_int m width arg string_arg a = report_error m a arg.off arg.len

unfoldable pub data_ints : Supply → ℕ → Stmt → Assembly → Run
data_ints m width st a = require_progbits (m 0) st a (
    if length st.args == 0
    then err_at_stmt (m 0) st a
    else each_arg (λ n arg. data_int (n 0) width arg arg.kind) (past 1 m) st.args a)

abbrev pub with_sink : Assembly → DiagSink → Assembly
with_sink a sink = record { unit = a.unit; syms = a.syms; fixes = a.fixes; diags = sink }

-- What follows a decoding that succeeds.
abbrev pub decoded_then : Assembly → Decoding → (Buf → Assembly → Run) → Run
decoded_then a none k = none
decoded_then a (some (ok, bytes, sink)) k = k bytes (with_sink a sink)
decoded_then a (some (st, bytes, sink)) k = some (st, with_sink a sink)

unfoldable pub emit_string : Supply → Bool → Buf → Assembly → Run
emit_string m terminate decoded a =
    then_run (with_unit a (emit_bytes (m 0).buffer a.unit decoded.bytes))
      (λ b. if terminate then with_unit b (emit_zeros (m 1).buffer b.unit 1) else some (ok, b))

abbrev pub data_string : Supply → List ℕ → Bool → DirArg → DirArgKind → Assembly → Run
data_string m src terminate arg string_arg a =
    decoded_then a (decode_string m src arg.off arg.len init a.diags)
      (emit_string (past arg.len m) terminate)
data_string m src terminate arg _ a = report_error (m 0) a arg.off arg.len

unfoldable pub data_strings : Supply → List ℕ → Bool → Stmt → Assembly → Run
data_strings m src terminate st a = require_progbits (m 0) st a (
    if length st.args == 0
    then err_at_stmt (m 0) st a
    else each_arg (λ n arg. data_string n src terminate arg arg.kind) (past 1 m) st.args a)

-- The value of a single integer argument.
abbrev pub single_int : List DirArg → Option ℕ
single_int [] = none
single_int (x ∷ y ∷ rest) = none
single_int (x ∷ []) = elim x.kind [ int_arg ↦ some x.int_value | _ ↦ none ]

unfoldable pub data_zero : Memory → Stmt → Assembly → Run
data_zero m st a = elim (single_int st.args) [
  | none ↦ err_at_stmt m st a
  | some count ↦ with_unit a (emit_zeros m.buffer a.unit count)
]

unfoldable pub align_by : Memory → Stmt → Option ℕ → Assembly → Run
align_by m st none a = err_at_stmt m st a
align_by m st (some alignment) a = with_unit a (unit_align m.buffer a.unit alignment)

unfoldable pub do_align : Memory → Bool → Stmt → Assembly → Run
do_align m power_of_two_arg st a = elim (single_int st.args) [
  | none ↦ err_at_stmt m st a
  | some arg ↦ align_by m st (align_arg power_of_two_arg arg) a
]
