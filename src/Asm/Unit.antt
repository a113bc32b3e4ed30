-- ===== src/Asm/Unit.antt =====
-- The sections of an assembly unit and the emission into the current one (asm/internal/unit.c).
use quicks_qas.Common.{
  ℕ, ◌+◌, ◌-◌, ◌%◌, Bool, List, Option, none, some, set, codes, leb, ltb, ◌==◌, if◌then◌else◌,
}
use quicks_qas.Common.Words.{u64}
use quicks_qas.Status.{Status, ok, invalid_argument}
use quicks_qas.Buf.Ops.{Buf, Outcome, append, append_zeros}
use quicks_qas.Asm.Section.{
  Section, SectionSet, Added, sht_nobits, sht_progbits, section_set_init, section_set_find,
  section_set_add, section_set_at, section_size,
}

-- The part of `qas_asm_unit` that emission reads and writes.
pub record AsmUnit : Type 0 where
  pub sections : SectionSet
  pub current : ℕ

abbrev pub Step : Type 0
Step = Status × AsmUnit

abbrev pub entered : AsmUnit → Added → Step
entered u (ok, sections, index) = (ok, record { sections = sections; current = index })
entered u (st, sections, index) = (st, record { sections = sections; current = u.current })

-- The first section of a unit: `.text`, allocated and executable.
unfoldable pub unit_init : Bool → Bool → Step
unit_init grown copied =
    entered (record { sections = section_set_init; current = 0 })
      (section_set_add grown copied section_set_init (codes ".text") sht_progbits 6 1)

unfoldable pub unit_current : AsmUnit → Option Section
unit_current u = section_set_at u.sections u.current

abbrev pub select_found : Bool → Bool → AsmUnit → List ℕ → ℕ → ℕ → ℕ → Option ℕ → Step
select_found grown copied u name type flags addralign (some index) =
    (ok, record { sections = u.sections; current = index })
select_found grown copied u name type flags addralign none =
    entered u (section_set_add grown copied u.sections name type flags addralign)

unfoldable pub select_section : Bool → Bool → AsmUnit → List ℕ → ℕ → ℕ → ℕ → Step
select_section grown copied u name type flags addralign =
    select_found grown copied u name type flags addralign (section_set_find u.sections name)

abbrev pub size_of : Option Section → ℕ
size_of none = 0
size_of (some s) = section_size s

unfoldable pub unit_here : AsmUnit → ℕ
unit_here u = size_of (unit_current u)

-- The write through the pointer to the current section.
abbrev pub put_current : AsmUnit → Section → AsmUnit
put_current u s = record {
  sections = record { items = set u.sections.items u.current s; capacity = u.sections.capacity };
  current = u.current;
}

abbrev pub with_data : Section → Buf → Section
with_data s bs = record {
  name = s.name;
  type = s.type;
  flags = s.flags;
  addralign = s.addralign;
  contents = bs;
  bss_size = s.bss_size;
}

abbrev pub with_bss : Section → ℕ → Section
with_bss s n = record {
  name = s.name;
  type = s.type;
  flags = s.flags;
  addralign = s.addralign;
  contents = s.contents;
  bss_size = n;
}

abbrev pub with_align : Section → ℕ → Section
with_align s n = record {
  name = s.name;
  type = s.type;
  flags = s.flags;
  addralign = n;
  contents = s.contents;
  bss_size = s.bss_size;
}

abbrev pub stored : AsmUnit → Section → Outcome → Step
stored u s (st, bs) = (st, put_current u (with_data s bs))

abbrev pub on_current : AsmUnit → (Section → Step) → Option Section → Step
on_current u k none = (invalid_argument, u)
on_current u k (some s) = k s

abbrev pub emit_bytes_to : (ℕ → Bool) → AsmUnit → List ℕ → Section → Step
emit_bytes_to grant u bytes s =
    if s.type == sht_nobits
    then (invalid_argument, u)
    else stored u s (append grant s.contents bytes)

unfoldable pub emit_bytes : (ℕ → Bool) → AsmUnit → List ℕ → Step
emit_bytes grant u bytes = on_current u (emit_bytes_to grant u bytes) (unit_current u)

abbrev pub emit_zeros_to : (ℕ → Bool) → AsmUnit → ℕ → Section → Step
emit_zeros_to grant u count s =
    if s.type == sht_nobits
    then (ok, put_current u (with_bss s (u64 (s.bss_size + count))))
    else stored u s (append_zeros grant s.contents count)

unfoldable pub emit_zeros : (ℕ → Bool) → AsmUnit → ℕ → Step
emit_zeros grant u count = on_current u (emit_zeros_to grant u count) (unit_current u)

-- The end of `qas_asm_unit_align`, on the section behind the same pointer.
abbrev pub raise_to : AsmUnit → ℕ → Section → Step
raise_to u alignment s =
    if ltb s.addralign alignment then (ok, put_current u (with_align s alignment)) else (ok, u)

abbrev pub raise_align : ℕ → Step → Step
raise_align alignment (ok, u) = on_current u (raise_to u alignment) (unit_current u)
raise_align alignment (st, u) = (st, u)

abbrev pub align_to : (ℕ → Bool) → AsmUnit → ℕ → Section → Step
align_to grant u alignment s =
    let rem = section_size s % alignment in
    raise_align alignment (if rem == 0 then (ok, u) else emit_zeros grant u (alignment - rem))

unfoldable pub unit_align : (ℕ → Bool) → AsmUnit → ℕ → Step
unit_align grant u alignment =
    if leb alignment 1 then (ok, u) else on_current u (align_to grant u alignment) (unit_current u)
