-- ===== src/Asm/Sound/State.antt =====
-- The invariant of an assembly run (asm/internal/unit.h): a well-formed symbol table, indices of sections that
-- are there, diagnostics that are counted.
use quicks_qas.Common.{
  ℕ, ◌≤◌, ◌<◌, ◌≡◌, refl, Bool, true, false, ◌&&◌, List, none, some, length, get_elem?, arith,
  if◌then◌else◌,
}
use quicks_qas.Status.{Status, ok}
use quicks_qas.Diag.Sink.{error, diag_emit, DiagSink}
use quicks_qas.Diag.Counts.{Counts, diag_emit-Emitted, Emitted-Counts}
use quicks_qas.Asm.Unit.{AsmUnit}
use quicks_qas.Asm.SymTab.Ops.{Sym}
use quicks_qas.Asm.SymTab.Room.{IsTable}
use quicks_qas.Asm.FixList.{Fix}
use quicks_qas.Asm.SymTab.Intern.{symtab_init-IsTable}
use quicks_qas.Asm.Section.{section_set_add, add_item}
use quicks_qas.Asm.Unit.{unit_init}
use quicks_qas.Asm.Assembly.{
  assembly_init, Assembly, Memory, Run, then_run, with_diags, report_error,
}
use quicks_qas.Asm.Directive.Apply.{in_section}

abbrev pub section_count : AsmUnit → ℕ
section_count u = length u.sections.items

-- The symbols that are labels stand in one of `n` sections.
unfoldable pub Placed : ℕ → List Sym → Type 0
Placed n syms =
    (i : ℕ) (s : Sym)
    → get_elem? syms i ≡ some s
    → in_section s.where_defined ≡ true
    → s.section < n

unfoldable pub Sited : ℕ → List Fix → Type 0
Sited n fixes = (i : ℕ) (f : Fix) → get_elem? fixes i ≡ some f → f.out_section < n

-- `b` bounds the numbers of symbols and sections.
pub record Sound (b : ℕ) (a : Assembly) : Type 0 where
  pub table : IsTable a.syms
  pub few_syms : length a.syms.syms ≤ b
  pub few_sections : section_count a.unit ≤ b
  pub current : a.unit.current < section_count a.unit
  pub placed : Placed (section_count a.unit) a.syms.syms
  pub sited : Sited (section_count a.unit) a.fixes.items
  pub counts : Counts a.diags

-- A run returns, and leaves a sound state.
abbrev pub Stays : ℕ → Run → Type 0
Stays b none = ⊥
Stays b (some (st, a)) = Sound b a

pub Sound-le : (a : Assembly) {b c : ℕ} → Sound b a → b ≤ c → Sound c a
Sound-le a h l = record {
  table = h.table;
  few_syms = omega (arith, h.few_syms, l);
  few_sections = omega (arith, h.few_sections, l);
  current = h.current;
  placed = h.placed;
  sited = h.sited;
  counts = h.counts;
}

pub Stays-le : (r : Run) {b c : ℕ} → Stays b r → b ≤ c → Stays c r
Stays-le none h l = h
Stays-le (some (st, a)) h l = Sound-le a h l

pub then_run-Stays :
    (b c : ℕ) (r : Run) (k : Assembly → Run)
    → b ≤ c
    → Stays b r
    → ((a : Assembly) → Sound b a → Stays c (k a))
    → Stays c (then_run r k)
then_run-Stays b c none k l h next = h
then_run-Stays b c (some (ok, a)) k l h next = next a h
then_run-Stays b c (some (st, a)) k l h next = Sound-le a h l

pub either :
    (b : ℕ) (test : Bool) (x y : Run) → Stays b x → Stays b y → Stays b (if test then x else y)
either b true x y h k = h
either b false x y h k = k

pub report_error-Stays :
    (m : Memory) (a : Assembly) (off len b : ℕ) → Sound b a → Stays b (report_error m a off len)
unfolding report_error
report_error-Stays m a off len b h =
    let r = diag_emit m.print a.diags error off len in
    kept r.0 r.1 (
      Emitted-Counts m.print a.diags error off len r
        (diag_emit-Emitted m.print a.diags error off len h.counts))
  where
    kept : (st : Status) (sink : DiagSink) → Counts sink → Stays b (with_diags a (st, sink))
    kept st sink counts = record {
      table = h.table;
      few_syms = h.few_syms;
      few_sections = h.few_sections;
      current = h.current;
      placed = h.placed;
      sited = h.sited;
      counts = counts;
    }

-- What the initialization of a unit leaves.
abbrev pub Started : Bool → Run → Type 0
Started given none = ⊥
Started given (some (ok, a)) = Sound 1 a
Started given (some (st, a)) = given ≡ false

pub assembly_init-Started :
    (grown copied : Bool) (sink : DiagSink)
    → Counts sink
    → Started (grown && copied) (assembly_init grown copied sink)
unfolding assembly_init unit_init section_set_add add_item Placed Sited
assembly_init-Started true true sink h = record {
  table = symtab_init-IsTable;
  few_syms = omega arith;
  few_sections = omega arith;
  current = omega arith;
  placed = λ i s at. absurd (cc);
  sited = λ i f at. absurd (cc);
  counts = h;
}
assembly_init-Started true false sink h = refl
assembly_init-Started false copied sink h = refl
