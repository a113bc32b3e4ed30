-- ===== src/Asm/Directive/Apply.antt =====
-- The directives on symbols and sections of asm/internal/directive.c, and `qas_asm_apply_directive`, which finds
-- the handler by the name.
use quicks_qas.Common.{
  ℕ, ◌+◌, Bool, true, false, ◌||◌, ◌&&◌, ◌==◌, List, [], ◌∷◌, Option, none, some, length, codes,
  if◌then◌else◌,
}
use quicks_qas.Status.{ok}
use quicks_qas.Ast.{Stmt, DirArg, DirArgKind, int_arg, string_arg, symbol_arg}
use quicks_qas.Buf.Ops.{Buf, Outcome, init, append_u8}
use quicks_qas.Asm.Section.{same_name, sht_nobits, sht_progbits}
use quicks_qas.Asm.Unit.{select_section}
use quicks_qas.Asm.SymTab.Ops.{Sym, SymWhere, sym_undef, sym_section, sym_abs}
use quicks_qas.Asm.Strdec.{decode_string}
use quicks_qas.Asm.Assembly.{
  Assembly, Memory, Supply, past, span_of, Run, then_run, with_unit, with_syms, with_name, put_sym,
  report_error,
}
use quicks_qas.Asm.Directive.Datum.{section_flags, c_string, shf_write, shf_alloc, shf_execinstr}
use quicks_qas.Asm.Directive.Handlers.{
  err_at_stmt, require_no_args, each_arg, data_ints, decoded_then, data_strings, data_zero,
  do_align,
}

abbrev pub global_sym : Sym → Sym
global_sym s = record {
  name = s.name;
  defined = s.defined;
  where_defined = s.where_defined;
  section = s.section;
  value = s.value;
  is_global = true;
  referenced = s.referenced;
  emitted = s.emitted;
  elf_handle = s.elf_handle;
}

abbrev pub globl_arg : Memory → List ℕ → DirArg → DirArgKind → Assembly → Run
globl_arg m src arg symbol_arg a =
    with_name m src a arg.off arg.len
      (λ b index s. some (ok, with_syms b (put_sym b.syms index (global_sym s))))
globl_arg m src arg _ a = report_error m a arg.off arg.len

unfoldable pub do_globl : Supply → List ℕ → Stmt → Assembly → Run
do_globl m src st a =
    if length st.args == 0
    then err_at_stmt (m 0) st a
    else each_arg (λ n arg. globl_arg (n 0) src arg arg.kind) (past 1 m) st.args a

abbrev pub absolute_sym : ℕ → Sym → Sym
absolute_sym value s = record {
  name = s.name;
  defined = true;
  where_defined = sym_abs;
  section = s.section;
  value = value;
  is_global = s.is_global;
  referenced = s.referenced;
  emitted = s.emitted;
  elf_handle = s.elf_handle;
}

abbrev pub in_section : SymWhere → Bool
in_section sym_section = true
in_section sym_abs = false
in_section sym_undef = false

unfoldable pub set_sym : Memory → DirArg → ℕ → Assembly → ℕ → Sym → Run
set_sym m name value a index s =
    if s.defined && in_section s.where_defined
    then report_error m a name.off name.len
    else some (ok, with_syms a (put_sym a.syms index (absolute_sym value s)))

-- The two arguments of `.set`, if they are a name and a value.
abbrev pub set_args : List DirArg → Option (DirArg × ℕ)
set_args [] = none
set_args (x ∷ []) = none
set_args (x ∷ y ∷ []) = elim x.kind [
  | symbol_arg ↦ elim y.kind [ int_arg ↦ some (x, y.int_value) | _ ↦ none ]
  | _ ↦ none
]
set_args (x ∷ y ∷ z ∷ rest) = none

unfoldable pub do_set : Memory → List ℕ → Stmt → Assembly → Run
do_set m src st a = elim (set_args st.args) [
  | none ↦ err_at_stmt m st a
  | some (name, value) ↦ with_name m src a name.off name.len (set_sym m name value)
]

-- The last step of `do_section`, with the bytes of the name.
unfoldable pub select_named : Memory → List ℕ → ℕ → Assembly → Run
select_named m name flags a =
    with_unit a
      (select_section m.section_slot m.section_name a.unit (c_string name) sht_progbits flags 1)

-- The flags of `do_section`, past the name.
abbrev pub flags_arg :
    Supply → List ℕ → Stmt → DirArg → DirArgKind → (ℕ → Assembly → Run) → Assembly → Run
flags_arg m src st arg string_arg k a =
    decoded_then a (decode_string m src arg.off arg.len init a.diags)
      (λ flags. k (section_flags 0 flags.bytes))
flags_arg m src st arg _ k a = err_at_stmt (m 0) st a

abbrev pub with_nul : (Buf → Assembly → Run) → Outcome → Assembly → Run
with_nul k (ok, name) a = k name a
with_nul k (st, name) a = some (st, a)

-- The name of `do_section`: decoded, and ended by a NUL.
unfoldable pub decode_name : Supply → List ℕ → DirArg → Assembly → (Buf → Assembly → Run) → Run
decode_name m src arg a k =
    decoded_then a (decode_string m src arg.off arg.len init a.diags)
      (λ name. with_nul k (append_u8 (m arg.len).buffer name 0))

abbrev pub section_args : Supply → List ℕ → Stmt → List DirArg → Assembly → Run
section_args m src st (x ∷ []) a =
    decode_name m src x a (λ name. select_named (m 0) name.bytes shf_alloc)
section_args m src st (x ∷ y ∷ []) a =
    decode_name m src x a
      (λ name. flags_arg (past (x.len + 1) m) src st y y.kind (select_named (m 0) name.bytes))
section_args m src st _ a = err_at_stmt (m 0) st a

abbrev pub first_is_string : List DirArg → Bool
first_is_string [] = false
first_is_string (x ∷ args) = elim x.kind [ string_arg ↦ true | _ ↦ false ]

unfoldable pub do_section : Supply → List ℕ → Stmt → Assembly → Run
do_section m src st a =
    if first_is_string st.args then section_args m src st st.args a else err_at_stmt (m 0) st a

-- The shortcuts for the usual sections. A report does not stop the switch.
unfoldable pub shortcut : Memory → Stmt → List ℕ → ℕ → ℕ → Assembly → Run
shortcut m st name type flags a =
    then_run (require_no_args m st a)
      (λ b. with_unit b (select_section m.section_slot m.section_name b.unit name type flags 1))

-- The dispatch on the name.
unfoldable pub directive_named : Supply → List ℕ → Stmt → List ℕ → Assembly → Run
directive_named m src st name a =
    if same_name name (codes ".text")
    then shortcut (m 0) st (codes ".text") sht_progbits (shf_alloc + shf_execinstr) a
    else if same_name name (codes ".data")
    then shortcut (m 0) st (codes ".data") sht_progbits (shf_alloc + shf_write) a
    else if same_name name (codes ".rodata")
    then shortcut (m 0) st (codes ".rodata") sht_progbits shf_alloc a
    else if same_name name (codes ".bss")
    then shortcut (m 0) st (codes ".bss") sht_nobits (shf_alloc + shf_write) a
    else if same_name name (codes ".section")
    then do_section m src st a
    else if same_name name (codes ".globl") || same_name name (codes ".global")
    then do_globl m src st a
    else if same_name name (codes ".set") || same_name name (codes ".equ")
    then do_set (m 0) src st a
    else if same_name name (codes ".byte")
    then data_ints m 1 st a
    else if same_name name (codes ".word")
        || same_name name (codes ".short")
        || same_name name (codes ".value")
    then data_ints m 2 st a
    else if same_name name (codes ".long") || same_name name (codes ".int")
    then data_ints m 4 st a
    else if same_name name (codes ".quad")
    then data_ints m 8 st a
    else if same_name name (codes ".ascii")
    then data_strings m src false st a
    else if same_name name (codes ".asciz") || same_name name (codes ".string")
    then data_strings m src true st a
    else if same_name name (codes ".zero")
        || same_name name (codes ".skip")
        || same_name name (codes ".space")
    then data_zero (m 0) st a
    else if same_name name (codes ".align") || same_name name (codes ".balign")
    then do_align (m 0) false st a
    else if same_name name (codes ".p2align")
    then do_align (m 0) true st a
    else report_error (m 0) a st.name_off st.name_len

unfoldable pub apply_directive : Supply → List ℕ → Stmt → Assembly → Run
apply_directive m src st a = directive_named m src st (span_of src st.name_off st.name_len) a
