-- ===== src/Asm/SymTab/Intern.antt =====
-- Interning a name (`qas_asm_symtab_intern`, asm/internal/symtab.c) against its contract: a list of
-- records with distinct names, in the order of their first use.
use quicks_qas.Common.{
  ℕ, suc, ◌+◌, ◌-◌, ◌%◌, ◌^◌, ◌<◌, ◌≡◌, ◌≢◌, inl, inr, refl, sym, ap, ◌∙◌, Bool, false, List, [],
  ◌∷◌, ◌++◌, Option, none, some, length, length-append, length-set, get_or, set, arith,
}
use mathlib.Core.Path.{subst}
use quicks_qas.Common.Words.{u32}
use quicks_qas.Status.{Status, ok, out_of_memory}
use quicks_qas.Asm.SymTab.Ops.{
  Sym, SymTab, name_at, fnv1a, Growth, new_sym, Grants, append_record, probe, Interning, publish,
  after_probe, intern_in, after_growth, ensure_room, symtab_intern, symtab_init,
}
use quicks_qas.Asm.SymTab.Buckets.{home_slot-mod, Walk}
use quicks_qas.Asm.SymTab.Probing.{probe-misses, probe-finds}
use quicks_qas.Asm.SymTab.Index.{Reach, Indexed}
use quicks_qas.Asm.SymTab.Rehash.{vacancy}
use quicks_qas.Asm.SymTab.Names.{
  index_of, with_index, intern_ref, Searched, found, absent, index_of-Searched, Distinct-append,
}
use quicks_qas.Asm.SymTab.Room.{IsTable, Ready, Prepared, ready, refused, ensure_room-Prepared}
use quicks_qas.Asm.SymTab.Append.{
  all_given, Appended, added, denied, append_record-Appended, fresh-Indexed,
}

-- The result of a call is the contract's, or the records are as before and an allocation failed.
abbrev pub Refines : Bool → List Sym → List ℕ → Interning → Type 0
Refines given syms name none = ⊥
Refines given syms name (some (ok, t, index)) = IsTable t × ((t.syms, index) ≡ intern_ref syms name)
Refines given syms name (some (out_of_memory, t, index)) =
    IsTable t × (t.syms ≡ syms) × (given ≡ false)
Refines given syms name (some (st, t, index)) = ⊥

Ready-IsTable : (t : SymTab) → Ready t → IsTable t
Ready-IsTable t r = record {
  indexed = inr (r.indexed, omega (arith, r.room));
  distinct = r.distinct;
  small = r.small;
}

-- The records that buckets in use refer to.
bucket-record :
    (t : SymTab)
    → Ready t
    → (q : ℕ) → get_or t.buckets q 0 ≢ 0
    → get_or t.buckets q 0 - 1 < length t.syms
bucket-record t r q full = ground (arith, r.indexed.bounded q, full)

module _ (g : Grants) (t : SymTab) (name : List ℕ) (r : Ready t)
    (h : length t.syms + 1 < 2 ^ 32) where
  start :
      intern_in g t name
      ≡ after_probe g t name (probe (length t.buckets) t name (fnv1a name % length t.buckets))
  unfolding intern_in
  start =
      ap (λ slot. after_probe g t name (probe (length t.buckets) t name slot))
        (home_slot-mod t.buckets name r.indexed.pow)

  -- The name has a record already.
  known-Refines :
      (i : ℕ)
      → i < length t.syms
      → name_at t.syms i ≡ name
      → index_of t.syms name ≡ some i
      → Refines (all_given g) t.syms name (intern_in g t name)
  unfolding intern_ref
  known-Refines i l named e =
      let way : Reach t.buckets (fnv1a name) i =
        subst (λ n. Reach t.buckets (fnv1a n) i) named (r.indexed.reached i l) in
      let only =
        λ (q : ℕ) (full : get_or t.buckets q 0 ≢ 0)
            (same : name_at t.syms (get_or t.buckets q 0 - 1) ≡ name).
          r.distinct (get_or t.buckets q 0 - 1) i (bucket-record t r q full) l (same ∙ sym named) in
      let hit =
        probe-finds t name (length t.buckets) way.steps (fnv1a name) i r.indexed.pow way.inside
          way.there way.full_before named only in
      subst (Refines (all_given g) t.syms name) (sym (start ∙ ap (after_probe g t name) hit))
        (Ready-IsTable t r, ap (with_index t.syms name) (sym e))

  fresh-IsTable :
      (capacity : ℕ) (w : Walk t.buckets (fnv1a name))
      → ((i : ℕ) → i < length t.syms → name_at t.syms i ≢ name)
      → IsTable (record {
        syms = t.syms ++ (new_sym name ∷ []);
        capacity = capacity;
        buckets =
            set t.buckets ((fnv1a name + w.steps) % length t.buckets) (u32 (length t.syms + 1));
      })
  unfolding new_sym
  fresh-IsTable capacity w none_of =
      let slot : ℕ = (fnv1a name + w.steps) % length t.buckets in
      let size = length-set t.buckets slot (u32 (length t.syms + 1)) in
      let count : length (t.syms ++ (new_sym name ∷ [])) ≡ suc (length t.syms) =
        length-append t.syms (new_sym name ∷ []) ∙ omega arith in
      let ix = fresh-Indexed t.buckets t.syms (new_sym name) name r.indexed h refl w in
      record {
        indexed = inr (
          subst
              (Indexed (set t.buckets slot (u32 (length t.syms + 1)))
                (t.syms ++ (new_sym name ∷ [])))
              (sym count) ix,
          omega (arith, count, size, r.room),
        );
        distinct = Distinct-append t.syms (new_sym name) r.distinct none_of;
        small = omega (arith, count, size, r.small);
      }

  -- The name is new.
  new-Refines :
      ((i : ℕ) → i < length t.syms → name_at t.syms i ≢ name)
      → index_of t.syms name ≡ none
      → Refines (all_given g) t.syms name (intern_in g t name)
  unfolding intern_ref
  new-Refines none_of e =
      let w : Walk t.buckets (fnv1a name) =
        vacancy t.buckets t.syms (length t.syms) (fnv1a name) r.indexed (omega (arith, r.room)) in
      let slot : ℕ = (fnv1a name + w.steps) % length t.buckets in
      let other = λ (q : ℕ) (full : get_or t.buckets q 0 ≢ 0).
        none_of (get_or t.buckets q 0 - 1) (bucket-record t r q full) in
      let miss =
        probe-misses t name (length t.buckets) w.steps (fnv1a name) r.indexed.pow w.inside
          w.empty_there w.full_before other in
      subst (Refines (all_given g) t.syms name) (sym (start ∙ ap (after_probe g t name) miss))
        (published w (append_record g t name) (append_record-Appended g t name))
    where
      published :
          (w : Walk t.buckets (fnv1a name)) (out : Status × SymTab)
          → Appended (all_given g) t name out
          → Refines
              (all_given g)
              t.syms
              name
              (some (publish ((fnv1a name + w.steps) % length t.buckets) (length t.syms) out))
      published w out (added capacity) = (
        fresh-IsTable capacity w none_of,
        ap (λ n. (t.syms ++ (new_sym name ∷ []), n)) (omega (arith, h))
            ∙ ap (with_index t.syms name) (sym e),
      )
      published w out (denied capacity no_memory) = (
        record { indexed = (Ready-IsTable t r).indexed; distinct = r.distinct; small = r.small },
        refl,
        no_memory,
      )

  intern_in-Refines : Refines (all_given g) t.syms name (intern_in g t name)
  intern_in-Refines = by_search (index_of t.syms name) refl (index_of-Searched t.syms name)
    where
      by_search :
          (o : Option ℕ)
          → index_of t.syms name ≡ o
          → Searched t.syms name o
          → Refines (all_given g) t.syms name (intern_in g t name)
      by_search o e (found i l named) = known-Refines i l named e
      by_search o e (absent none_of) = new-Refines none_of e

-- On a well-formed table with fewer than 2^32 - 1 records, every probe of a call ends and the table stays
-- well-formed. The call succeeds with the records and the index that the list reference gives, the name's
-- old record or a new last one, or it reports out of memory with the records as before, which it does only
-- where an allocation is refused.
pub symtab_intern-Refines :
    (g : Grants) (t : SymTab) (name : List ℕ)
    → IsTable t
    → length t.syms + 1 < 2 ^ 32
    → Refines (all_given g) t.syms name (symtab_intern g t name)
unfolding symtab_intern
symtab_intern-Refines g t name it h =
    from_growth (ensure_room g.cleared t) (ensure_room-Prepared g.cleared t it h)
  where
    from_growth :
        (out : Growth)
        → Prepared g.cleared t out
        → Refines (all_given g) t.syms name (after_growth g name out)
    from_growth out (ready {after} same r) =
        subst (λ syms. Refines (all_given g) syms name (intern_in g after name)) same
          (intern_in-Refines g after name r (omega (arith, ap length same, h)))
    from_growth out (refused no_memory) = (it, refl, ground (arith, no_memory))

-- The invariant holds of the empty table.
pub symtab_init-IsTable : IsTable symtab_init
symtab_init-IsTable = record {
  indexed = inl (refl, refl);
  distinct = λ i j l. absurd (omega (arith, l));
  small = omega arith;
}
