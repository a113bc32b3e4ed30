-- ===== src/Asm/Sound/Resolution.antt =====
-- The third pass of asm/asm.c (`resolve_fixups`) as a whole.
use quicks_qas.Common.{
  ℕ, suc, ◌+◌, ◌^◌, ◌≤◌, ◌<◌, ◌≡◌, refl, sym, ap, Bool, true, false, ◌||◌, List, [], ◌∷◌, none,
  some, length, ◌==◌, arith, if◌then◌else◌,
}
use mathlib.Core.Path.{subst}
use quicks_qas.Status.{ok, out_of_memory}
use quicks_qas.Asm.SymTab.Ops.{SymTab, Interning, symtab_at, symtab_intern}
use quicks_qas.Asm.SymTab.Room.{IsTable}
use quicks_qas.Asm.SymTab.Append.{all_given}
use quicks_qas.Asm.SymTab.Intern.{Refines, symtab_intern-Refines}
use quicks_qas.Asm.FixList.{Fix}
use quicks_qas.Asm.Assembly.{Assembly, Memory, Supply, past, span_of, with_syms}
use quicks_qas.Asm.Driver.Resolve.{
  RelocRec, Resolution, resolve_at, resolve_interned, resolve_one, then_resolve, resolve_all,
  resolve_fixups,
}
use quicks_qas.Asm.Sound.State.{Sound, Placed, Sited, section_count}
use quicks_qas.Asm.Sound.Names.{get_elem?-inside, Named, intern_ref-Named, Named-Sound}
use quicks_qas.Asm.Sound.Relocations.{
  Linked, Links, Linked-le, AllRefer-nil, AllRefer-grow, resolve_sym-Links,
}

module _ (b n k : ℕ) (m : Memory) (fx : Fix) (recs : List RelocRec) (a : Assembly)
    (h : Linked b n k a recs) (l : fx.out_section < n) where
  resolve_at-Links :
      (t : SymTab) (index : ℕ)
      → IsTable t
      → Named a.syms.syms t.syms index
      → Links (b + 1) n (k + 1) (resolve_at m fx recs (with_syms a t) index (symtab_at t index))
  unfolding symtab_at
  resolve_at-Links t index it named =
      let (s, at) = get_elem?-inside t.syms index named.inside in
      let next : Linked (b + 1) n k (with_syms a t) recs = record {
        sound = Named-Sound a t index b h.sound it named;
        count = h.count;
        all_refer = AllRefer-grow n a.syms.syms t.syms recs named.kept h.all_refer;
        few_recs = h.few_recs;
      } in
      subst (λ o. Links (b + 1) n (k + 1) (resolve_at m fx recs (with_syms a t) index o)) (sym at)
        (resolve_sym-Links (b + 1) n k m fx recs (with_syms a t) index s next l at)

  resolve_interned-Links :
      (given : Bool) (name : List ℕ) (out : Interning)
      → Refines given a.syms.syms name out
      → Links (b + 1) n (k + 1) (resolve_interned m fx recs a out)
  resolve_interned-Links given name none r = r
  resolve_interned-Links given name (some (ok, t, index)) (it, same) =
      resolve_at-Links t index it
        (subst (λ p. Named a.syms.syms p.0 p.1) (sym same) (intern_ref-Named a.syms.syms name))
  resolve_interned-Links given name (some (out_of_memory, t, index)) (it, same, refused) =
      let size : length t.syms ≡ length a.syms.syms = ap length same in
      record {
        sound = record {
          table = it;
          few_syms = omega (arith, size, h.sound.few_syms);
          few_sections = omega (arith, h.sound.few_sections);
          current = h.sound.current;
          placed = subst (Placed (section_count a.unit)) (sym same) h.sound.placed;
          sited = h.sound.sited;
          counts = h.sound.counts;
        };
        count = h.count;
        all_refer = AllRefer-nil n t.syms;
        few_recs = omega arith;
      }
  resolve_interned-Links given name (some (st, t, index)) r = elim r [ ]

  resolve_one-Links :
      (src : List ℕ) → b + 1 < 2 ^ 32 → Links (b + 1) n (k + 1) (resolve_one m src fx a recs)
  unfolding resolve_one
  resolve_one-Links src few =
      let name = span_of src fx.sym_off fx.sym_len in
      resolve_interned-Links (all_given m.table) name (symtab_intern m.table a.syms name) (
        symtab_intern-Refines m.table a.syms name h.sound.table
          (omega (arith, h.sound.few_syms, few)))

then_resolve-Links :
    (b n k c j : ℕ) (r : Resolution) (f : Assembly → List RelocRec → Resolution)
    → b ≤ c
    → k ≤ j
    → Links b n k r
    → ((x : Assembly) (recs : List RelocRec) → Linked b n k x recs → Links c n j (f x recs))
    → Links c n j (then_resolve r f)
then_resolve-Links b n k c j none f l i h next = h
then_resolve-Links b n k c j (some (ok, x, recs)) f l i h next = next x recs h
then_resolve-Links b n k c j (some (st, x, recs)) f l i h next = Linked-le x recs h l i

resolve_all-Links :
    (m : Supply) (src : List ℕ) (fixes : List Fix) (a : Assembly) (recs : List RelocRec) (b n k : ℕ)
    → Linked b n k a recs
    → Sited n fixes
    → b + length fixes < 2 ^ 32
    → Links (b + length fixes) n (k + length fixes) (resolve_all m src fixes a recs)
unfolding resolve_all Sited
resolve_all-Links m src [] a recs b n k h sited few = Linked-le a recs h (omega arith) (omega arith)
resolve_all-Links m src (fx ∷ fixes) a recs b n k h sited few =
    then_resolve-Links (b + 1) n (k + 1) (b + suc (length fixes)) (k + suc (length fixes))
      (resolve_one (m 0) src fx a recs) (resolve_all (past 1 m) src fixes) (omega arith)
      (omega arith) (resolve_one-Links b n k (m 0) fx recs a h (sited 0 fx refl) src (omega arith))
      (λ x more linked.
        subst (λ c. Links c n (k + suc (length fixes)) (resolve_all (past 1 m) src fixes x more))
          (omega arith)
          (subst (λ j. Links (b + 1 + length fixes) n j (resolve_all (past 1 m) src fixes x more))
            (omega arith)
            (resolve_all-Links (past 1 m) src fixes x more (b + 1) n (k + 1) linked
              (λ i f at. sited (suc i) f at) (omega arith))))

-- From a sound state, with room for a name for each fixup among the 32-bit indices, the third pass returns:
-- no symbol record or section that is not there is used. It leaves a sound state, and the relocations that
-- it records are at most as many as the fixups, which is the size of their array; each stands in a section
-- that is there and refers to a symbol that is there and marked as referenced.
pub resolve_fixups-Links :
    (given : Bool) (m : Supply) (src : List ℕ) (a : Assembly) (b : ℕ)
    → Sound b a
    → b + length a.fixes.items < 2 ^ 32
    → Links
        (b + length a.fixes.items)
        (section_count a.unit)
        (length a.fixes.items)
        (resolve_fixups given m src a)
unfolding resolve_fixups
resolve_fixups-Links given m src a b h few = branch (length a.fixes.items == 0 || given)
  where
    start : Linked b (section_count a.unit) 0 a []
    start = record {
      sound = h;
      count = refl;
      all_refer = AllRefer-nil (section_count a.unit) a.syms.syms;
      few_recs = omega arith;
    }

    branch :
        (go : Bool)
        → Links
            (b + length a.fixes.items)
            (section_count a.unit)
            (length a.fixes.items)
            (if go then resolve_all m src a.fixes.items a [] else some (out_of_memory, a, []))
    branch true =
        subst
          (λ j.
            Links (b + length a.fixes.items) (section_count a.unit) j
              (resolve_all m src a.fixes.items a []))
          (omega arith)
          (resolve_all-Links m src a.fixes.items a [] b (section_count a.unit) 0 start h.sited few)
    branch false = Linked-le a [] start (omega arith) (omega arith)
