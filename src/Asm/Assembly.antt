-- ===== src/Asm/Assembly.antt =====
-- The state of one assembly run (`qas_asm_unit`, asm/internal/unit.c) with the sink that it borrows, and the
-- operations on labels and fixups. `none` stands for a run that does not return: a probe without end, or the
-- use of a NULL pointer.
use quicks_qas.Common.{ℕ, ◌+◌, Bool, true, List, Option, none, some, set, take, drop, if◌then◌else◌}
use quicks_qas.Common.Int.{ℤ}
use quicks_qas.Status.{Status, ok}
use quicks_qas.Diag.Sink.{DiagSink, Printing, Reported, error, diag_emit}
use quicks_qas.Asm.Section.{section_set_init}
use quicks_qas.Asm.Unit.{AsmUnit, unit_here, unit_init}
use quicks_qas.Asm.SymTab.Ops.{
  Sym, SymTab, sym_section, Grants, Interning, symtab_at, symtab_intern, symtab_init,
}
use quicks_qas.Asm.FixList.{FixKind, FixList, fix_list_init, fix_list_push}

-- `unit` holds the sections and the index of the current one.
pub record Assembly : Type 0 where
  pub unit : AsmUnit
  pub syms : SymTab
  pub fixes : FixList
  pub diags : DiagSink

-- What the allocator and the formatter give to one operation.
pub record Memory : Type 0 where
  pub table : Grants
  pub buffer : ℕ → Bool
  pub fix_slot : Bool
  pub section_slot : Bool
  pub section_name : Bool
  pub print : Printing

-- What they give to the operations of a run, in their order.
abbrev pub Supply : Type 0
Supply = ℕ → Memory

abbrev pub past : ℕ → Supply → Supply
past n m k = m (n + k)

abbrev pub Run : Type 0
Run = Option (Status × Assembly)

-- What follows `if (st != QAS_OK) return st;`.
abbrev pub then_run : Run → (Assembly → Run) → Run
then_run none k = none
then_run (some (ok, a)) k = k a
then_run (some (st, a)) k = some (st, a)

abbrev pub with_unit : Assembly → Status × AsmUnit → Run
with_unit a (st, unit) =
    some (st, record { unit = unit; syms = a.syms; fixes = a.fixes; diags = a.diags })

abbrev pub with_syms : Assembly → SymTab → Assembly
with_syms a syms = record { unit = a.unit; syms = syms; fixes = a.fixes; diags = a.diags }

abbrev pub with_fixes : Assembly → Status × FixList → Run
with_fixes a (st, fixes) =
    some (st, record { unit = a.unit; syms = a.syms; fixes = fixes; diags = a.diags })

abbrev pub with_diags : Assembly → Reported → Run
with_diags a (st, diags) =
    some (st, record { unit = a.unit; syms = a.syms; fixes = a.fixes; diags = diags })

-- `qas_diag_emit` of an error at a span.
unfoldable pub report_error : Memory → Assembly → ℕ → ℕ → Run
report_error m a off len = with_diags a (diag_emit m.print a.diags error off len)

-- The bytes at `src->data + off`.
abbrev pub span_of : List ℕ → ℕ → ℕ → List ℕ
span_of src off len = take len (drop off src)

-- The write through the pointer that `qas_asm_symtab_at` gives.
abbrev pub put_sym : SymTab → ℕ → Sym → SymTab
put_sym t index s = record { syms = set t.syms index s; capacity = t.capacity; buckets = t.buckets }

-- What follows a call of `qas_asm_symtab_intern` that succeeds: the record behind the index.
abbrev pub on_sym : (Assembly → ℕ → Sym → Run) → Assembly → ℕ → Option Sym → Run
on_sym k a index none = none
on_sym k a index (some s) = k a index s

abbrev pub interned_then : Assembly → Interning → (Assembly → ℕ → Sym → Run) → Run
interned_then a none k = none
interned_then a (some (ok, syms, index)) k =
    on_sym k (with_syms a syms) index (symtab_at syms index)
interned_then a (some (st, syms, index)) k = some (st, with_syms a syms)

-- The start of every use of a name: `qas_asm_symtab_intern`, then `qas_asm_symtab_at`.
unfoldable pub with_name : Memory → List ℕ → Assembly → ℕ → ℕ → (Assembly → ℕ → Sym → Run) → Run
with_name m src a off len k = interned_then a (symtab_intern m.table a.syms (span_of src off len)) k

abbrev pub label_sym : ℕ → ℕ → Sym → Sym
label_sym section value s = record {
  name = s.name;
  defined = true;
  where_defined = sym_section;
  section = section;
  value = value;
  is_global = s.is_global;
  referenced = s.referenced;
  emitted = s.emitted;
  elf_handle = s.elf_handle;
}

unfoldable pub define_sym : Memory → ℕ → ℕ → Assembly → ℕ → Sym → Run
define_sym m off len a index s =
    if s.defined
    then report_error m a off len
    else some
        (ok, with_syms a (put_sym a.syms index (label_sym a.unit.current (unit_here a.unit) s)))

unfoldable pub define_label : Memory → List ℕ → Assembly → ℕ → ℕ → Run
define_label m src a off len = with_name m src a off len (define_sym m off len)

unfoldable pub add_fix : Memory → Assembly → FixKind → ℕ → ℕ → ℤ → ℕ → Run
add_fix m a kind off len addend field_offset = with_fixes a (
    fix_list_push m.fix_slot a.fixes (record {
      out_section = a.unit.current;
      offset = field_offset;
      kind = kind;
      sym_off = off;
      sym_len = len;
      addend = addend;
    }))

-- The unit before its first section.
abbrev pub empty_assembly : DiagSink → Assembly
empty_assembly sink = record {
  unit = record { sections = section_set_init; current = 0 };
  syms = symtab_init;
  fixes = fix_list_init;
  diags = sink;
}

-- `qas_asm_unit_init`; a failure disposes of the unit.
unfoldable pub assembly_init : Bool → Bool → DiagSink → Run
assembly_init grown copied sink = with_unit (empty_assembly sink) (unit_init grown copied)
