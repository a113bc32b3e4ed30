-- ===== src/Asm/Sound/Directives.antt =====
-- Every directive of asm/internal/directive.c leaves a sound state.
use quicks_qas.Common.{
  ℕ, suc, ◌+◌, ◌^◌, ◌<◌, ◌≡◌, refl, Bool, ◌&&◌, List, [], ◌∷◌, Option, none, some, length,
  get_elem?, ◌==◌, arith, if◌then◌else◌,
}
use quicks_qas.Status.{ok}
use quicks_qas.Ast.{Stmt, DirArg, DirArgKind, int_arg, string_arg, symbol_arg}
use quicks_qas.Buf.Ops.{Buf, Outcome, init, append_u8}
use quicks_qas.Asm.Section.{sht_progbits}
use quicks_qas.Asm.Unit.{select_section, unit_align, emit_zeros}
use quicks_qas.Asm.SymTab.Ops.{Sym}
use quicks_qas.Asm.Strdec.{decode_string}
use quicks_qas.Asm.Assembly.{
  Assembly, Memory, Supply, past, Run, with_unit, with_syms, with_name, put_sym, report_error,
}
use quicks_qas.Asm.Directive.Datum.{c_string, align_arg, section_flags, shf_alloc}
use quicks_qas.Asm.Directive.Handlers.{
  err_at_stmt, require_no_args, each_arg, data_int, data_ints, data_string, data_strings,
  single_int, data_zero, align_by, do_align,
}
use quicks_qas.Asm.Directive.Apply.{
  globl_arg, do_globl, in_section, set_sym, set_args, do_set, select_named, absolute_sym, flags_arg,
  with_nul, decode_name, section_args, first_is_string, do_section, shortcut,
}
use quicks_qas.Asm.Sound.State.{
  Placed, Sound, Sound-le, Stays, Stays-le, then_run-Stays, either, report_error-Stays,
}
use quicks_qas.Asm.Sound.Names.{with_name-Stays, put_sym-Sound}
use quicks_qas.Asm.Sound.Emission.{unit_align-Same, with_unit-Same, select-Stays}
use quicks_qas.Asm.Sound.Strings.{decode_string-Decodes}
use quicks_qas.Asm.Sound.Data.{
  each_arg-Stays, err-Stays, require_progbits-Stays, data_int-Stays, decoded_then-Stays,
  emit_zeros-Stays, data_string-Stays,
}

module _ (st : Stmt) (a : Assembly) (b : ℕ) (h : Sound b a)
    (few : b + suc (length st.args) < 2 ^ 32) where
  -- A test of the arguments, then a loop over them.
  loop-Stays :
      (m : Supply) (step : Supply → DirArg → Assembly → Run)
      → ((n : Supply) (arg : DirArg) (x : Assembly) (c : ℕ)
          → Sound c x
          → c + 1 < 2 ^ 32
          → Stays (c + 1) (step n arg x))
      → Stays (b + length st.args) (
          if length st.args == 0
          then err_at_stmt (m 0) st a
          else each_arg step (past 1 m) st.args a)
  loop-Stays m step one =
      either (b + length st.args) (length st.args == 0) (err_at_stmt (m 0) st a)
        (each_arg step (past 1 m) st.args a)
        (Stays-le (err_at_stmt (m 0) st a) (err-Stays a b h (m 0) st) (omega arith))
        (each_arg-Stays step one (past 1 m) st.args a b h (omega (arith, few)))

  pub data_ints-Stays :
      (m : Supply) (width : ℕ) → Stays (b + length st.args) (data_ints m width st a)
  unfolding data_ints
  data_ints-Stays m width =
      require_progbits-Stays a b h (b + length st.args) (m 0) st _ (omega arith) (
        loop-Stays m (λ n arg. data_int (n 0) width arg arg.kind)
          (λ n arg x c s l.
            Stays-le (data_int (n 0) width arg arg.kind x)
              (data_int-Stays x c s (n 0) width arg arg.kind) (omega arith)))

  pub data_strings-Stays :
      (m : Supply) (src : List ℕ) (terminate : Bool)
      → Stays (b + length st.args) (data_strings m src terminate st a)
  unfolding data_strings
  data_strings-Stays m src terminate =
      require_progbits-Stays a b h (b + length st.args) (m 0) st _ (omega arith) (
        loop-Stays m (λ n arg. data_string n src terminate arg arg.kind)
          (λ n arg x c s l.
            Stays-le (data_string n src terminate arg arg.kind x)
              (data_string-Stays n src terminate arg arg.kind x c s) (omega arith)))

  globl_arg-Stays :
      (m : Memory) (src : List ℕ) (arg : DirArg) (kind : DirArgKind) (x : Assembly) (c : ℕ)
      → Sound c x
      → c + 1 < 2 ^ 32
      → Stays (c + 1) (globl_arg m src arg kind x)
  unfolding Placed
  globl_arg-Stays m src arg symbol_arg x c s l =
      with_name-Stays m src x arg.off arg.len c (c + 1) _ s l (omega arith)
        (λ n i r k at. put_sym-Sound n i r _ (c + 1) k at refl (k.placed i r at))
  globl_arg-Stays m src arg int_arg x c s l =
      Stays-le (report_error m x arg.off arg.len) (report_error-Stays m x arg.off arg.len c s)
        (omega arith)
  globl_arg-Stays m src arg string_arg x c s l =
      Stays-le (report_error m x arg.off arg.len) (report_error-Stays m x arg.off arg.len c s)
        (omega arith)

  pub do_globl-Stays :
      (m : Supply) (src : List ℕ) → Stays (b + length st.args) (do_globl m src st a)
  unfolding do_globl
  do_globl-Stays m src =
      loop-Stays m (λ n arg. globl_arg (n 0) src arg arg.kind)
        (λ n arg x c s l. globl_arg-Stays (n 0) src arg arg.kind x c s l)

  pub do_set-Stays : (m : Memory) (src : List ℕ) → Stays (b + 1) (do_set m src st a)
  unfolding do_set set_sym
  do_set-Stays m src = named (set_args st.args)
    where
      absolute :
          (name : DirArg) (value : ℕ) (n : Assembly) (i : ℕ) (s : Sym)
          → Sound (b + 1) n
          → get_elem? n.syms.syms i ≡ some s
          → Stays (b + 1) (set_sym m name value n i s)
      absolute name value n i s k at =
          either (b + 1) (s.defined && in_section s.where_defined)
            (report_error m n name.off name.len)
            (some (ok, with_syms n (put_sym n.syms i (absolute_sym value s))))
            (report_error-Stays m n name.off name.len (b + 1) k)
            (put_sym-Sound n i s (absolute_sym value s) (b + 1) k at refl (λ e. absurd (cc)))

      named :
          (o : Option (DirArg × ℕ))
          → Stays (b + 1) (elim o [
            | none ↦ err_at_stmt m st a
            | some (name, value) ↦ with_name m src a name.off name.len (set_sym m name value)
          ])
      named none = Stays-le (err_at_stmt m st a) (err-Stays a b h m st) (omega arith)
      named (some (name, value)) =
          with_name-Stays m src a name.off name.len b (b + 1) (set_sym m name value) h
            (omega (arith, few)) (omega arith) (absolute name value)

  pub data_zero-Stays : (m : Memory) → Stays b (data_zero m st a)
  unfolding data_zero
  data_zero-Stays m = counted (single_int st.args)
    where
      counted :
          (o : Option ℕ)
          → Stays b (elim o [
            | none ↦ err_at_stmt m st a
            | some count ↦ with_unit a (emit_zeros m.buffer a.unit count)
          ])
      counted none = err-Stays a b h m st
      counted (some count) = emit_zeros-Stays a b h m count

  align_by-Stays : (m : Memory) (o : Option ℕ) → Stays b (align_by m st o a)
  unfolding align_by
  align_by-Stays m none = err-Stays a b h m st
  align_by-Stays m (some alignment) =
      with_unit-Same a b h (unit_align m.buffer a.unit alignment)
        (unit_align-Same m.buffer a.unit alignment)

  pub do_align-Stays :
      (m : Memory) (power_of_two_arg : Bool) → Stays b (do_align m power_of_two_arg st a)
  unfolding do_align
  do_align-Stays m power_of_two_arg = by_arg (single_int st.args)
    where
      by_arg :
          (o : Option ℕ)
          → Stays b (elim o [
            | none ↦ err_at_stmt m st a
            | some arg ↦ align_by m st (align_arg power_of_two_arg arg) a
          ])
      by_arg none = err-Stays a b h m st
      by_arg (some arg) = align_by-Stays m (align_arg power_of_two_arg arg)

  pub shortcut-Stays :
      (m : Memory) (name : List ℕ) (type flags : ℕ)
      → Stays (b + 1) (shortcut m st name type flags a)
  unfolding shortcut require_no_args
  shortcut-Stays m name type flags =
      then_run-Stays b (b + 1) (require_no_args m st a)
        (λ n. with_unit n (select_section m.section_slot m.section_name n.unit name type flags 1))
        (omega arith)
        (either b (length st.args == 0) (some (ok, a)) (err_at_stmt m st a) h
          (err-Stays a b h m st))
        (λ n s. select-Stays n b s m name type flags 1 (omega (arith, few)))

  -- The name of a section, then a step that leaves one section more at most.
  decode_name-Stays :
      (m : Supply) (src : List ℕ) (arg : DirArg) (k : Buf → Assembly → Run)
      → ((name : Buf) (n : Assembly) → Sound b n → Stays (b + 1) (k name n))
      → Stays (b + 1) (decode_name m src arg a k)
  unfolding decode_name
  decode_name-Stays m src arg k next =
      decoded_then-Stays a b h (b + 1) (decode_string m src arg.off arg.len init a.diags)
        (λ name. with_nul k (append_u8 (m arg.len).buffer name 0)) (omega arith)
        (decode_string-Decodes m src arg.off arg.len init a.diags h.counts)
        (λ name n s. ended n s (append_u8 (m arg.len).buffer name 0))
    where
      ended : (n : Assembly) → Sound b n → (o : Outcome) → Stays (b + 1) (with_nul k o n)
      ended n s (ok, name) = next name n s
      ended n s (st, name) = Sound-le n s (omega arith)

  select_named-Stays :
      (m : Memory) (name : List ℕ) (flags : ℕ) (n : Assembly)
      → Sound b n
      → Stays (b + 1) (select_named m name flags n)
  unfolding select_named
  select_named-Stays m name flags n s =
      select-Stays n b s m (c_string name) sht_progbits flags 1 (omega (arith, few))

  flags_arg-Stays :
      (m : Supply) (src : List ℕ) (arg : DirArg) (kind : DirArgKind) (k : ℕ → Assembly → Run)
      (n : Assembly)
      → Sound b n
      → ((flags : ℕ) (x : Assembly) → Sound b x → Stays (b + 1) (k flags x))
      → Stays (b + 1) (flags_arg m src st arg kind k n)
  flags_arg-Stays m src arg string_arg k n s next =
      decoded_then-Stays n b s (b + 1) (decode_string m src arg.off arg.len init n.diags)
        (λ flags. k (section_flags 0 flags.bytes)) (omega arith)
        (decode_string-Decodes m src arg.off arg.len init n.diags s.counts)
        (λ flags x y. next (section_flags 0 flags.bytes) x y)
  flags_arg-Stays m src arg int_arg k n s next =
      Stays-le (err_at_stmt (m 0) st n) (err-Stays n b s (m 0) st) (omega arith)
  flags_arg-Stays m src arg symbol_arg k n s next =
      Stays-le (err_at_stmt (m 0) st n) (err-Stays n b s (m 0) st) (omega arith)

  section_args-Stays :
      (m : Supply) (src : List ℕ) (args : List DirArg)
      → Stays (b + 1) (section_args m src st args a)
  section_args-Stays m src (x ∷ []) =
      decode_name-Stays m src x (λ name. select_named (m 0) name.bytes shf_alloc)
        (λ name n s. select_named-Stays (m 0) name.bytes shf_alloc n s)
  section_args-Stays m src (x ∷ y ∷ []) =
      decode_name-Stays m src x
        (λ name. flags_arg (past (x.len + 1) m) src st y y.kind (select_named (m 0) name.bytes))
        (λ name n s.
          flags_arg-Stays (past (x.len + 1) m) src y y.kind (select_named (m 0) name.bytes) n s
            (select_named-Stays (m 0) name.bytes))
  section_args-Stays m src _ =
      Stays-le (err_at_stmt (m 0) st a) (err-Stays a b h (m 0) st) (omega arith)

  pub do_section-Stays : (m : Supply) (src : List ℕ) → Stays (b + 1) (do_section m src st a)
  unfolding do_section
  do_section-Stays m src =
      either (b + 1) (first_is_string st.args) (section_args m src st st.args a)
        (err_at_stmt (m 0) st a) (section_args-Stays m src st.args)
        (Stays-le (err_at_stmt (m 0) st a) (err-Stays a b h (m 0) st) (omega arith))
