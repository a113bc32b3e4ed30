-- ===== src/Asm/Sound/Data.antt =====
-- The parts of the data directives of asm/internal/directive.c leave a sound state.
use quicks_qas.Common.{
  ℕ, suc, ◌+◌, ◌^◌, ◌≤◌, ◌<◌, Bool, true, false, not, ◌&&◌, List, [], ◌∷◌, none, some, length, ◌==◌,
  arith, if◌then◌else◌,
}
use quicks_qas.Common.Int.{pos}
use quicks_qas.Status.{ok}
use quicks_qas.Ast.{Stmt, DirArg, DirArgKind, int_arg, string_arg, symbol_arg}
use quicks_qas.Buf.Ops.{Buf, init}
use quicks_qas.Asm.Unit.{unit_current, unit_here, emit_bytes, emit_zeros}
use quicks_qas.Asm.FixList.{fix_abs64, fix_abs32}
use quicks_qas.Asm.Strdec.{Decoding, decode_string}
use quicks_qas.Asm.Assembly.{Assembly, Memory, Supply, past, Run, with_unit, add_fix}
use quicks_qas.Asm.Directive.Datum.{fits_width, datum_bytes}
use quicks_qas.Asm.Directive.Handlers.{
  err_at_stmt, void_run, is_nobits, require_progbits, each_arg, emit_int_datum, data_symbol,
  data_int, with_sink, decoded_then, emit_string, data_string,
}
use quicks_qas.Asm.Sound.State.{
  Sound, Sound-le, Stays, Stays-le, then_run-Stays, either, report_error-Stays,
}
use quicks_qas.Asm.Sound.Emission.{emit_bytes-Same, emit_zeros-Same, with_unit-Same, add_fix-Stays}
use quicks_qas.Asm.Sound.Strings.{Decodes, decode_string-Decodes}

pub void_run-Stays : (b : ℕ) (r : Run) → Stays b r → Stays b (void_run r)
void_run-Stays b none h = h
void_run-Stays b (some (st, a)) h = h

pub each_arg-Stays :
    (step : Supply → DirArg → Assembly → Run)
    → ((m : Supply) (arg : DirArg) (a : Assembly) (b : ℕ)
        → Sound b a
        → b + 1 < 2 ^ 32
        → Stays (b + 1) (step m arg a))
    → (m : Supply) (args : List DirArg) (a : Assembly) (b : ℕ) → Sound b a
    → b + length args < 2 ^ 32
    → Stays (b + length args) (each_arg step m args a)
unfolding each_arg
each_arg-Stays step one m [] a b h few = Sound-le a h (omega arith)
each_arg-Stays step one m (arg ∷ args) a b h few =
    then_run-Stays (b + 1) (b + suc (length args)) (step m arg a)
      (each_arg step (past (arg.len + 2) m) args) (omega arith) (one m arg a b h (omega arith))
      (λ next s.
        Stays-le (each_arg step (past (arg.len + 2) m) args next)
          (each_arg-Stays step one (past (arg.len + 2) m) args next (b + 1) s (omega arith))
          (omega arith))

module _ (a : Assembly) (b : ℕ) (h : Sound b a) where
  emit_bytes-Stays :
      (m : Memory) (bytes : List ℕ) → Stays b (with_unit a (emit_bytes m.buffer a.unit bytes))
  emit_bytes-Stays m bytes =
      with_unit-Same a b h (emit_bytes m.buffer a.unit bytes)
        (emit_bytes-Same m.buffer a.unit bytes)

  pub emit_zeros-Stays : (m : Memory) (n : ℕ) → Stays b (with_unit a (emit_zeros m.buffer a.unit n))
  emit_zeros-Stays m n =
      with_unit-Same a b h (emit_zeros m.buffer a.unit n) (emit_zeros-Same m.buffer a.unit n)

  pub err-Stays : (m : Memory) (st : Stmt) → Stays b (err_at_stmt m st a)
  err-Stays m st = report_error-Stays m a st.offset st.length b h

  pub require_progbits-Stays :
      (c : ℕ) (m : Memory) (st : Stmt) (rest : Run)
      → b ≤ c
      → Stays c rest
      → Stays c (require_progbits m st a rest)
  unfolding require_progbits
  require_progbits-Stays c m st rest l k =
      either c (is_nobits (unit_current a.unit)) (void_run (err_at_stmt m st a)) rest
        (Stays-le (void_run (err_at_stmt m st a))
          (void_run-Stays b (err_at_stmt m st a) (err-Stays m st)) l)
        k

  data_symbol-Stays : (m : Memory) (width : ℕ) (arg : DirArg) → Stays b (data_symbol m width arg a)
  unfolding data_symbol
  data_symbol-Stays m width arg =
      let kind = if width == 8 then fix_abs64 else fix_abs32 in
      either b (not (width == 4) && not (width == 8)) _ _
        (report_error-Stays m a arg.off arg.len b h)
        (then_run-Stays b b (add_fix m a kind arg.off arg.len (pos 0) (unit_here a.unit))
          (λ n. with_unit n (emit_zeros m.buffer n.unit width)) (omega arith)
          (add_fix-Stays a b h m kind arg.off arg.len (pos 0) (unit_here a.unit))
          (λ n s.
            with_unit-Same n b s (emit_zeros m.buffer n.unit width)
              (emit_zeros-Same m.buffer n.unit width)))

  pub data_int-Stays :
      (m : Memory) (width : ℕ) (arg : DirArg) (kind : DirArgKind)
      → Stays b (data_int m width arg kind a)
  unfolding emit_int_datum
  data_int-Stays m width arg int_arg =
      either b (fits_width arg.int_value width) _ _
        (emit_bytes-Stays m (datum_bytes 0 width arg.int_value))
        (report_error-Stays m a arg.off arg.len b h)
  data_int-Stays m width arg symbol_arg = data_symbol-Stays m width arg
  data_int-Stays m width arg string_arg = report_error-Stays m a arg.off arg.len b h

  pub decoded_then-Stays :
      (c : ℕ) (d : Decoding) (k : Buf → Assembly → Run)
      → b ≤ c
      → Decodes d
      → ((bytes : Buf) (n : Assembly) → Sound b n → Stays c (k bytes n))
      → Stays c (decoded_then a d k)
  decoded_then-Stays c none k l d next = d
  decoded_then-Stays c (some (ok, bytes, sink)) k l d next = next bytes (with_sink a sink) (record {
    table = h.table;
    few_syms = h.few_syms;
    few_sections = h.few_sections;
    current = h.current;
    placed = h.placed;
    sited = h.sited;
    counts = d;
  })
  decoded_then-Stays c (some (st, bytes, sink)) k l d next =
      Sound-le (with_sink a sink)
        (record {
          table = h.table;
          few_syms = h.few_syms;
          few_sections = h.few_sections;
          current = h.current;
          placed = h.placed;
          sited = h.sited;
          counts = d;
        })
        l

emit_string-Stays :
    (m : Supply) (terminate : Bool) (decoded : Buf) (a : Assembly) (b : ℕ)
    → Sound b a
    → Stays b (emit_string m terminate decoded a)
unfolding emit_string
emit_string-Stays m terminate decoded a b h =
    then_run-Stays b b (with_unit a (emit_bytes (m 0).buffer a.unit decoded.bytes))
      (λ n. if terminate then with_unit n (emit_zeros (m 1).buffer n.unit 1) else some (ok, n))
      (omega arith) (emit_bytes-Stays a b h (m 0) decoded.bytes) (end terminate)
  where
    end :
        (t : Bool) (n : Assembly)
        → Sound b n
        → Stays b (if t then with_unit n (emit_zeros (m 1).buffer n.unit 1) else some (ok, n))
    end true n s = emit_zeros-Stays n b s (m 1) 1
    end false n s = s

pub data_string-Stays :
    (m : Supply) (src : List ℕ) (terminate : Bool) (arg : DirArg) (kind : DirArgKind) (a : Assembly)
    (b : ℕ)
    → Sound b a
    → Stays b (data_string m src terminate arg kind a)
data_string-Stays m src terminate arg string_arg a b h =
    decoded_then-Stays a b h b (decode_string m src arg.off arg.len init a.diags)
      (emit_string (past arg.len m) terminate) (omega arith)
      (decode_string-Decodes m src arg.off arg.len init a.diags h.counts)
      (λ bytes n s. emit_string-Stays (past arg.len m) terminate bytes n b s)
data_string-Stays m src terminate arg int_arg a b h = report_error-Stays (m 0) a arg.off arg.len b h
data_string-Stays m src terminate arg symbol_arg a b h =
    report_error-Stays (m 0) a arg.off arg.len b h
