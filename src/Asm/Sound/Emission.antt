-- ===== src/Asm/Sound/Emission.antt =====
-- What the operations of asm/internal/unit.c leave alone: emission keeps the sections and the current one, a
-- selection adds one section at most.
use quicks_qas.Common.{
  ℕ, suc, ◌+◌, ◌*◌, ◌-◌, ◌%◌, ◌^◌, ◌≤◌, ◌<◌, ◌≡◌, ◌⊎◌, inl, inr, refl, sym, ap, ◌∙◌, Bool, true,
  false, List, [], ◌∷◌, ◌++◌, Option, none, some, length, length-append, length-set, get_elem?, leb,
  ltb, ◌==◌, arith, if◌then◌else◌, Bool-cases, Option-cases,
}
use mathlib.Core.Path.{subst}
use quicks_qas.Common.Words.{u32}
use quicks_qas.Common.Int.{ℤ}
use quicks_qas.Status.{Status, ok, out_of_memory}
use quicks_qas.Buf.Ops.{append, append_zeros}
use quicks_qas.Asm.Section.{
  Section, same_name, find_from, section_set_find, section_set_add, new_section, add_item,
  section_size, sht_nobits,
}
use quicks_qas.Asm.Unit.{
  AsmUnit, Step, entered, unit_current, select_found, select_section, put_current, with_data,
  stored, on_current, emit_bytes, emit_bytes_to, emit_zeros, emit_zeros_to, raise_align, raise_to,
  align_to, unit_align,
}
use quicks_qas.Asm.FixList.{FixKind, Fix, FixList, fix_list_push}
use quicks_qas.Asm.Assembly.{Assembly, Memory, with_unit, with_fixes, add_fix}
use quicks_qas.Asm.Sound.Names.{get_elem?-append_one}
use quicks_qas.Asm.Sound.State.{Sound, Stays, Placed, Sited, section_count}

-- The sections are as many, and the current one is the same.
abbrev pub SameShape : AsmUnit → AsmUnit → Type 0
SameShape u v = (section_count v ≡ section_count u) × (v.current ≡ u.current)

SameShape-put : (u : AsmUnit) (s : Section) → SameShape u (put_current u s)
SameShape-put u s = (length-set u.sections.items u.current s, refl)

on_current-Same :
    (u : AsmUnit) (k : Section → Step) (o : Option Section)
    → ((s : Section) → SameShape u (k s).1)
    → SameShape u (on_current u k o).1
on_current-Same u k none h = (refl, refl)
on_current-Same u k (some s) h = h s

step_if :
    (u : AsmUnit) (test : Bool) (x y : Step)
    → SameShape u x.1
    → SameShape u y.1
    → SameShape u (if test then x else y).1
step_if u true x y h k = h
step_if u false x y h k = k

pub emit_bytes-Same :
    (grant : ℕ → Bool) (u : AsmUnit) (bytes : List ℕ) → SameShape u (emit_bytes grant u bytes).1
unfolding emit_bytes
emit_bytes-Same grant u bytes =
    on_current-Same u (emit_bytes_to grant u bytes) (unit_current u) (λ s.
      step_if u (s.type == sht_nobits) _ (stored u s (append grant s.contents bytes)) (refl, refl)
        (SameShape-put u (with_data s (append grant s.contents bytes).1)))

pub emit_zeros-Same :
    (grant : ℕ → Bool) (u : AsmUnit) (count : ℕ) → SameShape u (emit_zeros grant u count).1
unfolding emit_zeros
emit_zeros-Same grant u count =
    on_current-Same u (emit_zeros_to grant u count) (unit_current u) (λ s.
      step_if u (s.type == sht_nobits) _ (stored u s (append_zeros grant s.contents count))
        (SameShape-put u _) (SameShape-put u (with_data s (append_zeros grant s.contents count).1)))

raise_align-Same :
    (u : AsmUnit) (alignment : ℕ) (r : Step)
    → SameShape u r.1
    → SameShape u (raise_align alignment r).1
raise_align-Same u alignment (ok, v) (n, c) =
    let (m, d) =
      on_current-Same v (raise_to v alignment) (unit_current v)
        (λ s. step_if v (ltb s.addralign alignment) _ _ (SameShape-put v _) (refl, refl)) in
    (m ∙ n, d ∙ c)
raise_align-Same u alignment (st, v) h = h

pub unit_align-Same :
    (grant : ℕ → Bool) (u : AsmUnit) (alignment : ℕ) → SameShape u (unit_align grant u alignment).1
unfolding unit_align
unit_align-Same grant u alignment =
    step_if u (leb alignment 1) _ _ (refl, refl)
      (on_current-Same u (align_to grant u alignment) (unit_current u) (λ s.
        raise_align-Same u alignment _ (
          step_if u (section_size s % alignment == 0) (ok, u)
            (emit_zeros grant u (alignment - section_size s % alignment)) (refl, refl)
            (emit_zeros-Same grant u (alignment - section_size s % alignment)))))

-- A selection: one section more at most, and the current one is there.
pub record Selects (u v : AsmUnit) : Type 0 where
  pub more : section_count u ≤ section_count v
  pub one : section_count v ≤ section_count u + 1
  pub current : v.current < section_count v

find_from-lt :
    (i : ℕ) (items : List Section) (name : List ℕ) (j : ℕ)
    → i + length items < 2 ^ 32
    → find_from i items name ≡ some j
    → j < i + length items
unfolding find_from
find_from-lt i [] name j h e = absurd (cc)
find_from-lt i (s ∷ rest) name j h e = elim (Bool-cases (same_name s.name name)) [
  | inl same ↦
      let here : some (u32 i) ≡ some j = sym (rw (same, find_from) refl) ∙ e in
      omega (arith, at_once i j h here)
  | inr other ↦
      let later : find_from (suc i) rest name ≡ some j = sym (rw (other, find_from) refl) ∙ e in
      omega (arith, find_from-lt (suc i) rest name j (omega (arith, h)) later)
]
  where
    at_once : (i j : ℕ) → i + suc (length rest) < 2 ^ 32 → some (u32 i) ≡ some j → j ≡ i
    at_once i j h e = let same : u32 i ≡ j = cc in omega (arith, same, h)

Selects-refl : (u : AsmUnit) → u.current < section_count u → Selects u u
Selects-refl u c = record { more = omega arith; one = omega arith; current = c }

add_item-Selects :
    (copied : Bool) (u : AsmUnit) (capacity : ℕ) (s : Section)
    → u.current < section_count u
    → section_count u + 1 < 2 ^ 32
    → Selects u
        (entered u (add_item copied (record { items = u.sections.items; capacity = capacity }) s)).1
unfolding add_item
add_item-Selects true u capacity s c h =
    let count = length-append u.sections.items (s ∷ []) in
    record {
      more = omega (arith, count);
      one = omega (arith, count);
      current = omega (arith, count, h);
    }
add_item-Selects false u capacity s c h = record {
  more = omega arith;
  one = omega arith;
  current = c;
}

section_set_add-Selects :
    (grown copied : Bool) (u : AsmUnit) (name : List ℕ) (type flags addralign : ℕ)
    → u.current < section_count u
    → section_count u + 1 < 2 ^ 32
    → Selects u (entered u (section_set_add grown copied u.sections name type flags addralign)).1
unfolding section_set_add
section_set_add-Selects grown copied u name type flags addralign c h =
    branch grown (leb u.sections.capacity (length u.sections.items))
  where
    branch :
        (g full : Bool)
        → Selects u
            (entered u (
              if full
              then (if g
                  then add_item copied
                      (record {
                        items = u.sections.items;
                        capacity = if u.sections.capacity == 0 then 8 else u.sections.capacity * 2;
                      })
                      (new_section name type flags addralign)
                  else (out_of_memory, u.sections, 0))
              else add_item copied u.sections (new_section name type flags addralign))).1
    branch g false =
        add_item-Selects copied u u.sections.capacity (new_section name type flags addralign) c h
    branch true true =
        add_item-Selects copied u (if u.sections.capacity == 0 then 8 else u.sections.capacity * 2)
          (new_section name type flags addralign) c h
    branch false true = Selects-refl u c

pub select_section-Selects :
    (grown copied : Bool) (u : AsmUnit) (name : List ℕ) (type flags addralign : ℕ)
    → u.current < section_count u
    → section_count u + 1 < 2 ^ 32
    → Selects u (select_section grown copied u name type flags addralign).1
unfolding select_section section_set_find
select_section-Selects grown copied u name type flags addralign c h =
    elim (Option-cases (find_from 0 u.sections.items name)) [
      | inl e ↦
          subst (λ o. Selects u (select_found grown copied u name type flags addralign o).1) (sym e)
            (section_set_add-Selects grown copied u name type flags addralign c h)
      | inr (j, e) ↦
          subst (λ o. Selects u (select_found grown copied u name type flags addralign o).1) (sym e)
            (record {
              more = omega arith;
              one = omega arith;
              current = omega (arith, find_from-lt 0 u.sections.items name j (omega (arith, h)) e);
            })
    ]

Sited-append :
    (fixes : List Fix) (f : Fix) (n : ℕ)
    → Sited n fixes
    → f.out_section < n
    → Sited n (fixes ++ (f ∷ []))
unfolding Sited
Sited-append fixes f n h l i g at = by_place (get_elem?-append_one fixes f g i at)
  where
    by_place : (get_elem? fixes i ≡ some g) ⊎ (g ≡ f) → g.out_section < n
    by_place (inl old) = h i g old
    by_place (inr new) = omega (arith, l, ap (λ (x : Fix). x.out_section) new)

-- Sound states stay sound under these steps.
module _ (a : Assembly) (b : ℕ) (h : Sound b a) where
  pub with_unit-Same : (r : Step) → SameShape a.unit r.1 → Stays b (with_unit a r)
  with_unit-Same (st, v) (n, c) = record {
    table = h.table;
    few_syms = h.few_syms;
    few_sections = omega (arith, n, h.few_sections);
    current = omega (arith, n, c, h.current);
    placed = subst (λ k. Placed k a.syms.syms) (sym n) h.placed;
    sited = subst (λ k. Sited k a.fixes.items) (sym n) h.sited;
    counts = h.counts;
  }

  pub with_unit-Selects : (r : Step) → Selects a.unit r.1 → Stays (b + 1) (with_unit a r)
  unfolding Placed Sited
  with_unit-Selects (st, v) s = record {
    table = h.table;
    few_syms = omega (arith, h.few_syms);
    few_sections = omega (arith, s.one, h.few_sections);
    current = s.current;
    placed = λ i x at label. omega (arith, s.more, h.placed i x at label);
    sited = λ i f at. omega (arith, s.more, h.sited i f at);
    counts = h.counts;
  }

  pub select-Stays :
      (m : Memory) (name : List ℕ) (type flags addralign : ℕ)
      → b + 1 < 2 ^ 32
      → Stays (b + 1) (
          with_unit a
            (select_section m.section_slot m.section_name a.unit name type flags addralign))
  select-Stays m name type flags addralign few =
      with_unit-Selects
        (select_section m.section_slot m.section_name a.unit name type flags addralign)
        (select_section-Selects m.section_slot m.section_name a.unit name type flags addralign
          h.current (omega (arith, few, h.few_sections)))

  pub add_fix-Stays :
      (m : Memory) (kind : FixKind) (off len : ℕ) (addend : ℤ) (field_offset : ℕ)
      → Stays b (add_fix m a kind off len addend field_offset)
  unfolding add_fix fix_list_push
  add_fix-Stays m kind off len addend field_offset =
      branch m.fix_slot (leb a.fixes.capacity (length a.fixes.items))
    where
      fix : Fix
      fix = record {
        out_section = a.unit.current;
        offset = field_offset;
        kind = kind;
        sym_off = off;
        sym_len = len;
        addend = addend;
      }

      with_list :
          (st : Status) (fixes : FixList)
          → Sited (section_count a.unit) fixes.items
          → Stays b (with_fixes a (st, fixes))
      with_list st fixes sited = record {
        table = h.table;
        few_syms = h.few_syms;
        few_sections = h.few_sections;
        current = h.current;
        placed = h.placed;
        sited = sited;
        counts = h.counts;
      }

      one_more : Sited (section_count a.unit) (a.fixes.items ++ (fix ∷ []))
      one_more = Sited-append a.fixes.items fix (section_count a.unit) h.sited h.current

      branch :
          (g full : Bool)
          → Stays b (
              with_fixes a (
                if full
                then (if g
                    then (
                      ok,
                      record {
                        items = a.fixes.items ++ (fix ∷ []);
                        capacity = if a.fixes.capacity == 0 then 16 else a.fixes.capacity * 2;
                      },
                    )
                    else (out_of_memory, a.fixes))
                else (
                  ok,
                  record { items = a.fixes.items ++ (fix ∷ []); capacity = a.fixes.capacity },
                )))
      branch g false = with_list ok _ one_more
      branch true true = with_list ok _ one_more
      branch false true = with_list out_of_memory a.fixes h.sited
