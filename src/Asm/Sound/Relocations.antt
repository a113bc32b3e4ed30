-- ===== src/Asm/Sound/Relocations.antt =====
-- One relocation or patch of the third pass of asm/asm.c: relocations refer to what is there.
use quicks_qas.Common.{
  ℕ, zero, suc, ◌+◌, ◌≤◌, ◌<◌, ◌≡◌, ◌⊎◌, inl, inr, refl, sym, ◌∙◌, Bool, true, false, List, [], ◌∷◌,
  ◌++◌, none, some, length, length-append, length-set, get_elem?, get_elem?-set_self,
  get_elem?-set_ne, set, ◌==◌, arith, if◌then◌else◌, Bool-cases,
}
use mathlib.Core.Path.{subst}
use quicks_qas.Common.Int.{ℤ}
use quicks_qas.Common.Words.{u32, to_uint64, fits_int32}
use quicks_qas.Status.{ok}
use quicks_qas.Buf.Ops.{Outcome, patch_u32le}
use quicks_qas.Asm.Section.{Section, section_set_at}
use quicks_qas.Asm.Unit.{with_data}
use quicks_qas.Asm.SymTab.Ops.{Sym}
use quicks_qas.Asm.FixList.{Fix}
use quicks_qas.Asm.Assembly.{Assembly, Memory, Run, with_syms, put_sym, report_error}
use quicks_qas.Asm.Driver.Resolve.{
  RelocRec, Resolution, keep_recs, local_pc32, pc_value, put_section, patch_site, patch_local,
  referenced_sym, reloc_of, resolve_sym,
}
use quicks_qas.Asm.Sound.State.{Sound, Sound-le, Placed, Sited, section_count, report_error-Stays}
use quicks_qas.Asm.Sound.Names.{get_elem?-inside, get_elem?-append_one, put_sym-Sound}

-- A relocation whose section is one of `n` and whose symbol is there, marked as referenced.
pub record Refers (n : ℕ) (syms : List Sym) (r : RelocRec) : Type 0 where
  pub section : r.out_section < n
  pub target : Sym
  pub there : get_elem? syms r.sym_index ≡ some target
  pub referenced : target.referenced ≡ true

unfoldable pub AllRefer : ℕ → List Sym → List RelocRec → Type 0
AllRefer n syms recs = (i : ℕ) (r : RelocRec) → get_elem? recs i ≡ some r → Refers n syms r

-- `b` bounds the symbols, `n` counts the sections, and the array of the records holds `k`.
pub record Linked (b n k : ℕ) (a : Assembly) (recs : List RelocRec) : Type 0 where
  pub sound : Sound b a
  pub count : section_count a.unit ≡ n
  pub all_refer : AllRefer n a.syms.syms recs
  pub few_recs : length recs ≤ k

abbrev pub Links : ℕ → ℕ → ℕ → Resolution → Type 0
Links b n k none = ⊥
Links b n k (some (st, a, recs)) = Linked b n k a recs

pub Linked-le :
    {b n k c j : ℕ} (a : Assembly) (recs : List RelocRec)
    → Linked b n k a recs
    → b ≤ c
    → k ≤ j
    → Linked c n j a recs
Linked-le a recs h l m = record {
  sound = Sound-le a h.sound l;
  count = h.count;
  all_refer = h.all_refer;
  few_recs = omega (arith, h.few_recs, m);
}

pub AllRefer-nil : (n : ℕ) (syms : List Sym) → AllRefer n syms []
unfolding AllRefer
AllRefer-nil n syms i r at = absurd (cc)

-- Records that stay at their index, and stay referenced.
pub AllRefer-grow :
    (n : ℕ) (syms after : List Sym) (recs : List RelocRec)
    → ((i : ℕ) (s : Sym) → get_elem? syms i ≡ some s → get_elem? after i ≡ some s)
    → AllRefer n syms recs
    → AllRefer n after recs
unfolding AllRefer
AllRefer-grow n syms after recs kept h i r at =
    let old = h i r at in
    record {
      section = old.section;
      target = old.target;
      there = kept r.sym_index old.target old.there;
      referenced = old.referenced;
    }

-- A run that leaves symbols and the number of sections alone.
abbrev Frames : ℕ → Assembly → Run → Type 0
Frames b a none = ⊥
Frames b a (some (st, n)) =
    Sound b n × (n.syms.syms ≡ a.syms.syms) × (section_count n.unit ≡ section_count a.unit)

report_error-Frames :
    (m : Memory) (a : Assembly) (off len b : ℕ) → Sound b a → Frames b a (report_error m a off len)
unfolding report_error
report_error-Frames m a off len b h = (report_error-Stays m a off len b h, refl, refl)

put_section-Frames :
    (a : Assembly) (index b : ℕ) (s : Section) (o : Outcome)
    → Sound b a
    → Frames b a (put_section a index s o)
put_section-Frames a index b s (st, contents) h =
    let count = length-set a.unit.sections.items index (with_data s contents) in
    (
      record {
        table = h.table;
        few_syms = h.few_syms;
        few_sections = omega (arith, count, h.few_sections);
        current = omega (arith, count, h.current);
        placed = subst (λ k. Placed k a.syms.syms) (sym count) h.placed;
        sited = subst (λ k. Sited k a.fixes.items) (sym count) h.sited;
        counts = h.counts;
      },
      refl,
      count,
    )

patch_local-Frames :
    (m : Memory) (a : Assembly) (fx : Fix) (value : ℤ) (b : ℕ)
    → Sound b a
    → fx.out_section < section_count a.unit
    → Frames b a (patch_local m a fx value)
unfolding patch_local section_set_at
patch_local-Frames m a fx value b h l =
    let (s, at) = get_elem?-inside a.unit.sections.items fx.out_section l in
    branch s at (fits_int32 value)
  where
    branch :
        (s : Section)
        → get_elem? a.unit.sections.items fx.out_section ≡ some s
        → (fits : Bool)
        → Frames b a (
            if fits
            then patch_site a fx value (get_elem? a.unit.sections.items fx.out_section)
            else report_error m a fx.sym_off fx.sym_len)
    branch s at false = report_error-Frames m a fx.sym_off fx.sym_len b h
    branch s at true =
        subst (λ o. Frames b a (patch_site a fx value o)) (sym at)
          (put_section-Frames a fx.out_section b s
            (patch_u32le s.contents fx.offset (u32 (to_uint64 value))) h)

keep_recs-Links :
    (b n k : ℕ) (a : Assembly) (recs : List RelocRec) (r : Run)
    → Linked b n k a recs
    → Frames b a r
    → Links b n k (keep_recs recs r)
keep_recs-Links b n k a recs none h f = f
keep_recs-Links b n k a recs (some (ok, x)) h (s, syms, count) = record {
  sound = s;
  count = count ∙ h.count;
  all_refer = subst (λ t. AllRefer n t recs) (sym syms) h.all_refer;
  few_recs = h.few_recs;
}
keep_recs-Links b n k a recs (some (st, x)) h (s, syms, count) = record {
  sound = s;
  count = count ∙ h.count;
  all_refer = AllRefer-nil n x.syms.syms;
  few_recs = omega arith;
}

-- A relocation is recorded, and its symbol marked.
module _ (n : ℕ) (syms : List Sym) (index : ℕ) (s : Sym) (at : get_elem? syms index ≡ some s)
    (fx : Fix) (recs : List RelocRec) where
  marked : List Sym
  marked = set syms index (referenced_sym s)

  index-inside : index < length syms
  index-inside = inside syms index at
    where
      inside : (xs : List Sym) (i : ℕ) → get_elem? xs i ≡ some s → i < length xs
      inside [] i e = absurd (cc)
      inside (x ∷ xs) zero e = omega arith
      inside (x ∷ xs) (suc i) e = omega (arith, inside xs i e)

  there : get_elem? marked index ≡ some (referenced_sym s)
  unfolding marked
  there = get_elem?-set_self syms index (referenced_sym s) index-inside

  marked-Refers : (r : RelocRec) → Refers n syms r → Refers n marked r
  unfolding marked
  marked-Refers r old = elim (Bool-cases (index == r.sym_index)) [
    | inl e ↦
        let same : index ≡ r.sym_index = ground (arith, e) in
        record {
          section = old.section;
          target = referenced_sym s;
          there = subst (λ i. get_elem? marked i ≡ some (referenced_sym s)) same there;
          referenced = refl;
        }
    | inr e ↦ record {
      section = old.section;
      target = old.target;
      there = get_elem?-set_ne syms (referenced_sym s) (λ q. ground (arith, e, q)) ∙ old.there;
      referenced = old.referenced;
    }
  ]

  marked-AllRefer :
      AllRefer n syms recs
      → fx.out_section < n
      → AllRefer n marked (recs ++ (reloc_of fx index ∷ []))
  unfolding AllRefer reloc_of
  marked-AllRefer h l i r found = by_place (get_elem?-append_one recs (reloc_of fx index) r i found)
    where
      by_place : (get_elem? recs i ≡ some r) ⊎ (r ≡ reloc_of fx index) → Refers n marked r
      by_place (inl old) = marked-Refers r (h i r old)
      by_place (inr new) =
          subst (Refers n marked) (sym new)
            (record { section = l; target = referenced_sym s; there = there; referenced = refl })

pub resolve_sym-Links :
    (b n k : ℕ) (m : Memory) (fx : Fix) (recs : List RelocRec) (a : Assembly) (index : ℕ) (s : Sym)
    → Linked b n k a recs
    → fx.out_section < n
    → get_elem? a.syms.syms index ≡ some s
    → Links b n (k + 1) (resolve_sym m fx recs a index s)
unfolding resolve_sym Placed
resolve_sym-Links b n k m fx recs a index s h l at = branch (local_pc32 fx s)
  where
    branch :
        (here : Bool)
        → Links b n (k + 1) (
            if here
            then keep_recs recs (patch_local m a fx (pc_value fx s))
            else some (
              ok,
              with_syms a (put_sym a.syms index (referenced_sym s)),
              recs ++ (reloc_of fx index ∷ []),
            ))
    branch true =
        keep_recs-Links b n (k + 1) a recs (patch_local m a fx (pc_value fx s))
          (Linked-le a recs h (omega arith) (omega arith))
          (patch_local-Frames m a fx (pc_value fx s) b h.sound (omega (arith, l, h.count)))
    branch false = record {
      sound =
          put_sym-Sound a index s (referenced_sym s) b h.sound at refl (h.sound.placed index s at);
      count = h.count;
      all_refer = unfold marked in marked-AllRefer n a.syms.syms index s at fx recs h.all_refer l;
      few_recs = omega (arith, length-append recs (reloc_of fx index ∷ []), h.few_recs);
    }
