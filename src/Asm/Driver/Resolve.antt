-- ===== src/Asm/Driver/Resolve.antt =====
-- The third pass of asm/asm.c: fixups that are resolved in place, and those that become relocations.
use quicks_qas.Common.{
  ℕ, set, Bool, true, false, not, ◌&&◌, ◌||◌, List, [], ◌∷◌, ◌++◌, Option, none, some, length, ◌==◌,
  if◌then◌else◌,
}
use quicks_qas.Common.Int.{ℤ, ◌+ℤ◌, ◌-ℤ◌}
use quicks_qas.Common.Words.{u32, to_int64, to_uint64, fits_int32}
use quicks_qas.Status.{Status, ok, out_of_memory}
use quicks_qas.Buf.Ops.{Outcome, patch_u32le}
use quicks_qas.Asm.Section.{Section, section_set_at}
use quicks_qas.Asm.Unit.{with_data}
use quicks_qas.Asm.SymTab.Ops.{Sym, Interning, symtab_at, symtab_intern}
use quicks_qas.Asm.FixList.{FixKind, Fix, fix_pc32, fix_abs32s, fix_abs32, fix_abs64}
use quicks_qas.Asm.Assembly.{
  Assembly, Memory, Supply, past, span_of, Run, with_unit, with_syms, put_sym, report_error,
}
use quicks_qas.Asm.Directive.Apply.{in_section}

-- `reloc_rec`: a relocation to emit, with its symbol by index.
pub record RelocRec : Type 0 where
  pub out_section : ℕ
  pub offset : ℕ
  pub sym_index : ℕ
  pub type : ℕ
  pub addend : ℤ

-- The R_X86_64_ numbers.
unfoldable pub reloc_type_of : FixKind → ℕ
reloc_type_of fix_pc32 = 2
reloc_type_of fix_abs32s = 11
reloc_type_of fix_abs32 = 10
reloc_type_of fix_abs64 = 1

-- The relocations of a failed pass are freed.
abbrev pub Resolution : Type 0
Resolution = Option (Status × Assembly × List RelocRec)

abbrev pub keep_recs : List RelocRec → Run → Resolution
keep_recs recs none = none
keep_recs recs (some (ok, a)) = some (ok, a, recs)
keep_recs recs (some (st, a)) = some (st, a, [])

abbrev pub is_pc32 : FixKind → Bool
is_pc32 fix_pc32 = true
is_pc32 fix_abs32s = false
is_pc32 fix_abs32 = false
is_pc32 fix_abs64 = false

-- A reference whose distance is known: to a local symbol of the section that it stands in.
unfoldable pub local_pc32 : Fix → Sym → Bool
local_pc32 fx s =
    is_pc32 fx.kind
    && s.defined
    && in_section s.where_defined
    && (s.section == fx.out_section)
    && not s.is_global

-- S + A - P; a `value` beyond 64 bits would overflow in C.
unfoldable pub pc_value : Fix → Sym → ℤ
pc_value fx s = (to_int64 s.value +ℤ fx.addend) -ℤ to_int64 fx.offset

abbrev pub put_section : Assembly → ℕ → Section → Outcome → Run
put_section a index s (st, contents) = with_unit a (
  st,
  record {
    sections = record {
      items = set a.unit.sections.items index (with_data s contents);
      capacity = a.unit.sections.capacity;
    };
    current = a.unit.current;
  },
)

abbrev pub patch_site : Assembly → Fix → ℤ → Option Section → Run
patch_site a fx value none = none
patch_site a fx value (some s) =
    put_section a fx.out_section s (patch_u32le s.contents fx.offset (u32 (to_uint64 value)))

unfoldable pub patch_local : Memory → Assembly → Fix → ℤ → Run
patch_local m a fx value =
    if fits_int32 value
    then patch_site a fx value (section_set_at a.unit.sections fx.out_section)
    else report_error m a fx.sym_off fx.sym_len

abbrev pub referenced_sym : Sym → Sym
referenced_sym s = record {
  name = s.name;
  defined = s.defined;
  where_defined = s.where_defined;
  section = s.section;
  value = s.value;
  is_global = s.is_global;
  referenced = true;
  emitted = s.emitted;
  elf_handle = s.elf_handle;
}

unfoldable pub reloc_of : Fix → ℕ → RelocRec
reloc_of fx index = record {
  out_section = fx.out_section;
  offset = fx.offset;
  sym_index = index;
  type = reloc_type_of fx.kind;
  addend = fx.addend;
}

unfoldable pub resolve_sym : Memory → Fix → List RelocRec → Assembly → ℕ → Sym → Resolution
resolve_sym m fx recs a index s =
    if local_pc32 fx s
    then keep_recs recs (patch_local m a fx (pc_value fx s))
    else some (
      ok,
      with_syms a (put_sym a.syms index (referenced_sym s)),
      recs ++ (reloc_of fx index ∷ []),
    )

abbrev pub resolve_at : Memory → Fix → List RelocRec → Assembly → ℕ → Option Sym → Resolution
resolve_at m fx recs a index none = none
resolve_at m fx recs a index (some s) = resolve_sym m fx recs a index s

abbrev pub resolve_interned : Memory → Fix → List RelocRec → Assembly → Interning → Resolution
resolve_interned m fx recs a none = none
resolve_interned m fx recs a (some (ok, syms, index)) =
    resolve_at m fx recs (with_syms a syms) index (symtab_at syms index)
resolve_interned m fx recs a (some (st, syms, index)) = some (st, with_syms a syms, [])

-- One round of the loop of `resolve_fixups`.
unfoldable pub resolve_one : Memory → List ℕ → Fix → Assembly → List RelocRec → Resolution
resolve_one m src fx a recs =
    resolve_interned m fx recs a (symtab_intern m.table a.syms (span_of src fx.sym_off fx.sym_len))

abbrev pub then_resolve : Resolution → (Assembly → List RelocRec → Resolution) → Resolution
then_resolve none k = none
then_resolve (some (ok, a, recs)) k = k a recs
then_resolve (some (st, a, recs)) k = some (st, a, recs)

unfoldable pub resolve_all : Supply → List ℕ → List Fix → Assembly → List RelocRec → Resolution
resolve_all m src [] a recs = some (ok, a, recs)
resolve_all m src (fx ∷ fixes) a recs =
    then_resolve (resolve_one (m 0) src fx a recs) (resolve_all (past 1 m) src fixes)

-- `given` says whether malloc provides the array of the records, one for each fixup.
unfoldable pub resolve_fixups : Bool → Supply → List ℕ → Assembly → Resolution
resolve_fixups given m src a =
    if length a.fixes.items == 0 || given
    then resolve_all m src a.fixes.items a []
    else some (out_of_memory, a, [])
