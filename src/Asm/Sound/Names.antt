-- ===== src/Asm/Sound/Names.antt =====
-- Names in a sound assembly run: interning one, and changing its record (asm/internal/unit.c,
-- asm/internal/directive.c).
use quicks_qas.Common.{
  ℕ, zero, suc, ◌+◌, ◌^◌, ◌≤◌, ◌<◌, ◌≡◌, ◌⊎◌, inl, inr, refl, sym, ap, ◌∙◌, Bool, true, false, List,
  [], ◌∷◌, ◌++◌, Option, none, some, length, length-append, length-set, get_elem?, set, arith,
}
use mathlib.Core.Path.{subst}
use quicks_qas.Status.{ok, out_of_memory}
use quicks_qas.Asm.SymTab.Ops.{
  Sym, SymTab, name_at, fnv1a, new_sym, Interning, symtab_at, symtab_intern,
}
use quicks_qas.Asm.SymTab.Index.{Reach}
use quicks_qas.Asm.SymTab.Names.{
  index_of, with_index, intern_ref, Searched, found, absent, index_of-Searched,
}
use quicks_qas.Asm.SymTab.Room.{IsTable}
use quicks_qas.Asm.SymTab.Append.{all_given}
use quicks_qas.Asm.SymTab.Intern.{Refines, symtab_intern-Refines}
use quicks_qas.Asm.Assembly.{
  Assembly, Memory, Run, with_syms, put_sym, on_sym, interned_then, with_name, span_of,
}
use quicks_qas.Asm.Directive.Apply.{in_section}
use quicks_qas.Asm.Sound.State.{Sound, Stays, Placed, section_count}

pub get_elem?-inside :
    {A : Type 0} (xs : List A) (i : ℕ) → i < length xs → (a : A) × (get_elem? xs i ≡ some a)
get_elem?-inside [] i h = absurd (omega arith)
get_elem?-inside (x ∷ xs) zero h = (x, refl)
get_elem?-inside (x ∷ xs) (suc i) h = get_elem?-inside xs i (omega arith)

pub get_elem?-append_one :
    {A : Type 0} (xs : List A) (x y : A) (i : ℕ)
    → get_elem? (xs ++ (x ∷ [])) i ≡ some y
    → (get_elem? xs i ≡ some y) ⊎ (y ≡ x)
get_elem?-append_one [] x y zero e = inr (cc)
get_elem?-append_one [] x y (suc i) e = inl e
get_elem?-append_one (z ∷ xs) x y zero e = inl e
get_elem?-append_one (z ∷ xs) x y (suc i) e = get_elem?-append_one xs x y i e

get_elem?-set_one :
    {A : Type 0} (xs : List A) (i j : ℕ) (x y : A)
    → get_elem? (set xs i x) j ≡ some y
    → (get_elem? xs j ≡ some y) ⊎ (y ≡ x)
get_elem?-set_one [] i j x y e = inl e
get_elem?-set_one (z ∷ xs) zero zero x y e = inr (cc)
get_elem?-set_one (z ∷ xs) zero (suc j) x y e = inl e
get_elem?-set_one (z ∷ xs) (suc i) zero x y e = inl e
get_elem?-set_one (z ∷ xs) (suc i) (suc j) x y e = get_elem?-set_one xs i j x y e

name_at-set :
    (syms : List Sym) (i j : ℕ) (s r : Sym)
    → get_elem? syms i ≡ some s
    → r.name ≡ s.name
    → name_at (set syms i r) j ≡ name_at syms j
name_at-set [] i j s r e same = refl
name_at-set (x ∷ syms) zero zero s r e same =
    let at : x ≡ s = cc in same ∙ sym (ap (λ (y : Sym). y.name) at)
name_at-set (x ∷ syms) zero (suc j) s r e same = refl
name_at-set (x ∷ syms) (suc i) zero s r e same = refl
name_at-set (x ∷ syms) (suc i) (suc j) s r e same = name_at-set syms i j s r e same

-- A record may change, but for its name.
put_sym-IsTable :
    (t : SymTab) (i : ℕ) (s r : Sym)
    → get_elem? t.syms i ≡ some s
    → r.name ≡ s.name
    → IsTable t
    → IsTable (put_sym t i r)
put_sym-IsTable t i s r e same it = record {
  indexed = elim it.indexed [
    | inl (nb, ns) ↦ absurd (nothing t.syms ns e)
    | inr (ix, room) ↦ inr (
      record {
        pow = ix.pow;
        bounded = λ q. omega (arith, ix.bounded q, size);
        reached = λ j l.
            subst (λ n. Reach t.buckets (fnv1a n) j) (sym (name_at-set t.syms i j s r e same))
              (ix.reached j (omega (arith, l, size)));
        used = ix.used ∙ sym size;
      },
      omega (arith, size, room),
    )
  ];
  distinct = λ j k lj lk names.
      it.distinct j k (omega (arith, lj, size)) (omega (arith, lk, size))
        (sym (name_at-set t.syms i j s r e same) ∙ names ∙ name_at-set t.syms i k s r e same);
  small = omega (arith, size, it.small);
}
  where
    size : length (set t.syms i r) ≡ length t.syms
    size = length-set t.syms i r

    nothing : (syms : List Sym) → syms ≡ [] → get_elem? syms i ≡ some s → ⊥
    nothing [] n g = cc
    nothing (x ∷ syms) n g = cc

get_elem?-append_left :
    {A : Type 0} (xs ys : List A) (i : ℕ) (x : A)
    → get_elem? xs i ≡ some x
    → get_elem? (xs ++ ys) i ≡ some x
get_elem?-append_left [] ys i x e = absurd (cc)
get_elem?-append_left (z ∷ xs) ys zero x e = e
get_elem?-append_left (z ∷ xs) ys (suc i) x e = get_elem?-append_left xs ys i x e

-- What a name's interning makes of the records: the index is inside, and a record is an old one or new.
pub record Named (syms after : List Sym) (index : ℕ) : Type 0 where
  pub inside : index < length after
  pub grown : length after ≤ length syms + 1
  pub kept : (i : ℕ) (s : Sym) → get_elem? syms i ≡ some s → get_elem? after i ≡ some s
  pub origin :
      (i : ℕ) (s : Sym)
      → get_elem? after i ≡ some s
      → (get_elem? syms i ≡ some s) ⊎ (in_section s.where_defined ≡ false)

pub intern_ref-Named :
    (syms : List Sym) (name : List ℕ) → Named syms (intern_ref syms name).0 (intern_ref syms name).1
unfolding intern_ref new_sym
intern_ref-Named syms name = by_search (index_of syms name) (index_of-Searched syms name)
  where
    by_search :
        (o : Option ℕ)
        → Searched syms name o
        → Named syms (with_index syms name o).0 (with_index syms name o).1
    by_search o (found i l e) = record {
      inside = l;
      grown = omega arith;
      kept = λ j s at. at;
      origin = λ j s at. inl at;
    }
    by_search o (absent none_of) = record {
      inside = omega (arith, length-append syms (new_sym name ∷ []));
      grown = omega (arith, length-append syms (new_sym name ∷ []));
      kept = λ j s at. get_elem?-append_left syms (new_sym name ∷ []) j s at;
      origin = λ j s at. from_end j s (get_elem?-append_one syms (new_sym name) s j at);
    }
      where
        from_end :
            (j : ℕ) (s : Sym)
            → (get_elem? syms j ≡ some s) ⊎ (s ≡ new_sym name)
            → (get_elem? syms j ≡ some s) ⊎ (in_section s.where_defined ≡ false)
        from_end j s (inl old) = inl old
        from_end j s (inr new) = inr (ap (λ (r : Sym). in_section r.where_defined) new)

-- The state after a name is interned.
pub Named-Sound :
    (a : Assembly) (t : SymTab) (index b : ℕ)
    → Sound b a
    → IsTable t
    → Named a.syms.syms t.syms index
    → Sound (b + 1) (with_syms a t)
unfolding Placed
Named-Sound a t index b h it named = record {
  table = it;
  few_syms = omega (arith, named.grown, h.few_syms);
  few_sections = omega (arith, h.few_sections);
  current = h.current;
  placed = λ i s at label. placed_at i s (named.origin i s at) label;
  sited = h.sited;
  counts = h.counts;
}
  where
    placed_at :
        (i : ℕ) (s : Sym)
        → (get_elem? a.syms.syms i ≡ some s) ⊎ (in_section s.where_defined ≡ false)
        → in_section s.where_defined ≡ true
        → s.section < section_count a.unit
    placed_at i s (inl old) label = h.placed i s old label
    placed_at i s (inr unplaced) label = absurd (cc)

module _ (a : Assembly) (b c : ℕ) (k : Assembly → ℕ → Sym → Run) (h : Sound b a) (le : b + 1 ≤ c)
    (next : (n : Assembly) (i : ℕ) (s : Sym)
      → Sound (b + 1) n
      → get_elem? n.syms.syms i ≡ some s
      → Stays c (k n i s)) where
  on_sym-Stays :
      (t : SymTab) (index : ℕ)
      → IsTable t
      → Named a.syms.syms t.syms index
      → Stays c (on_sym k (with_syms a t) index (symtab_at t index))
  unfolding symtab_at
  on_sym-Stays t index it named =
      let (s, at) = get_elem?-inside t.syms index named.inside in
      subst (λ o. Stays c (on_sym k (with_syms a t) index o)) (sym at)
        (next (with_syms a t) index s (Named-Sound a t index b h it named) at)

  interned_then-Stays :
      (given : Bool) (name : List ℕ) (out : Interning)
      → Refines given a.syms.syms name out
      → Stays c (interned_then a out k)
  interned_then-Stays given name none r = r
  interned_then-Stays given name (some (ok, t, index)) (it, same) =
      on_sym-Stays t index it
        (subst (λ p. Named a.syms.syms p.0 p.1) (sym same) (intern_ref-Named a.syms.syms name))
  interned_then-Stays given name (some (out_of_memory, t, index)) (it, same, refused) =
      let count : length t.syms ≡ length a.syms.syms = ap length same in
      record {
        table = it;
        few_syms = omega (arith, count, h.few_syms, le);
        few_sections = omega (arith, h.few_sections, le);
        current = h.current;
        placed = subst (Placed (section_count a.unit)) (sym same) h.placed;
        sited = h.sited;
        counts = h.counts;
      }
  interned_then-Stays given name (some (st, t, index)) r = elim r [ ]

-- Any use of a name: what follows gets a sound state and a record that is there.
pub with_name-Stays :
    (m : Memory) (src : List ℕ) (a : Assembly) (off len b c : ℕ) (k : Assembly → ℕ → Sym → Run)
    → Sound b a
    → b + 1 < 2 ^ 32
    → b + 1 ≤ c
    → ((n : Assembly) (i : ℕ) (s : Sym)
        → Sound (b + 1) n
        → get_elem? n.syms.syms i ≡ some s
        → Stays c (k n i s))
    → Stays c (with_name m src a off len k)
unfolding with_name
with_name-Stays m src a off len b c k h few le next =
    interned_then-Stays a b c k h le next (all_given m.table) (span_of src off len)
      (symtab_intern m.table a.syms (span_of src off len))
      (symtab_intern-Refines m.table a.syms (span_of src off len) h.table
        (omega (arith, h.few_syms, few)))

-- A record changed in place, in a section that is there.
pub put_sym-Sound :
    (a : Assembly) (i : ℕ) (s r : Sym) (b : ℕ)
    → Sound b a
    → get_elem? a.syms.syms i ≡ some s
    → r.name ≡ s.name
    → (in_section r.where_defined ≡ true → r.section < section_count a.unit)
    → Sound b (with_syms a (put_sym a.syms i r))
unfolding Placed
put_sym-Sound a i s r b h at same inside = record {
  table = put_sym-IsTable a.syms i s r at same h.table;
  few_syms = omega (arith, length-set a.syms.syms i r, h.few_syms);
  few_sections = h.few_sections;
  current = h.current;
  placed = λ j x there. placed_at j x (get_elem?-set_one a.syms.syms i j r x there);
  sited = h.sited;
  counts = h.counts;
}
  where
    placed_at :
        (j : ℕ) (x : Sym)
        → (get_elem? a.syms.syms j ≡ some x) ⊎ (x ≡ r)
        → in_section x.where_defined ≡ true
        → x.section < section_count a.unit
    placed_at j x (inl old) label = h.placed j x old label
    placed_at j x (inr new) label =
        let l = inside (ap (λ (y : Sym). in_section y.where_defined) (sym new) ∙ label) in
        subst (λ (y : Sym). y.section < section_count a.unit) (sym new) l
