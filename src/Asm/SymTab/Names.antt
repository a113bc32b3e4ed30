-- ===== src/Asm/SymTab/Names.antt =====
-- The names in the symbol table of asm/internal/symtab.c: a plain search for one, the contract of
-- `qas_asm_symtab_intern`, and names that stay distinct.
use quicks_qas.Common.{
  ℕ, zero, suc, ◌<◌, ◌≡◌, ◌≢◌, inl, inr, refl, sym, ap, ◌∙◌, List, [], ◌∷◌, ◌++◌, Option, none,
  some, length, length-append, ◌==◌, if◌then◌else◌, arith, Bool-cases,
}
use mathlib.Core.Option as Library_option
use quicks_qas.Asm.Section.{same_name}
use quicks_qas.Asm.SymTab.Ops.{Sym, name_at, new_sym}
use quicks_qas.Asm.SymTab.Probing.{same_name-true, same_name_refl}

-- The index of the record of a name, in a plain search from the front.
unfoldable pub index_of : List Sym → List ℕ → Option ℕ
index_of [] name = none
index_of (s ∷ syms) name =
    let later = Library_option.map suc (index_of syms name) in
    if same_name s.name name then some 0 else later

-- The contract: records and index after a call.
abbrev pub with_index : List Sym → List ℕ → Option ℕ → List Sym × ℕ
with_index syms name (some i) = (syms, i)
with_index syms name none = (syms ++ (new_sym name ∷ []), length syms)

unfoldable pub intern_ref : List Sym → List ℕ → List Sym × ℕ
intern_ref syms name = with_index syms name (index_of syms name)

-- What the search answers: a record of this name, or that there is none.
pub data Searched (syms : List Sym) (name : List ℕ) : Option ℕ → Type 0 where
  found : (i : ℕ) → i < length syms → name_at syms i ≡ name → Searched syms name (some i)
  absent : ((i : ℕ) → i < length syms → name_at syms i ≢ name) → Searched syms name none

Searched-later :
    {s : Sym} {syms : List Sym} {name : List ℕ} {o : Option ℕ}
    → s.name ≢ name
    → Searched syms name o
    → Searched (s ∷ syms) name (Library_option.map suc o)
Searched-later other (found i l e) = found (suc i) (omega arith) e
Searched-later {s} {syms} {name} other (absent none_of) = absent at
  where
    at : (i : ℕ) → i < length (s ∷ syms) → name_at (s ∷ syms) i ≢ name
    at zero l = other
    at (suc i) l = none_of i (omega arith)

pub index_of-Searched : (syms : List Sym) (name : List ℕ) → Searched syms name (index_of syms name)
unfolding index_of
index_of-Searched [] name = absent (λ i l. absurd (omega (arith, l)))
index_of-Searched (s ∷ syms) name = elim (Bool-cases (same_name s.name name)) [
  | inl e ↦ rw (e, index_of) (found 0 (omega arith) (same_name-true s.name name e))
  | inr e ↦
      let other : s.name ≢ name =
        λ same. ground (arith, e, same_name_refl name, ap (λ n. same_name n name) same) in
      rw (e, index_of) (Searched-later other (index_of-Searched syms name))
]

pub name_at-append_left :
    (syms more : List Sym) (i : ℕ) → i < length syms → name_at (syms ++ more) i ≡ name_at syms i
name_at-append_left [] more i h = absurd (omega arith)
name_at-append_left (s ∷ syms) more zero h = refl
name_at-append_left (s ∷ syms) more (suc i) h = name_at-append_left syms more i (omega arith)

pub name_at-append_last :
    (syms : List Sym) (s : Sym) → name_at (syms ++ (s ∷ [])) (length syms) ≡ s.name
name_at-append_last [] s = refl
name_at-append_last (r ∷ syms) s = name_at-append_last syms s

abbrev pub Distinct : List Sym → Type 0
Distinct syms =
    (i j : ℕ) → i < length syms → j < length syms → name_at syms i ≡ name_at syms j → i ≡ j

-- A record of a longer list is an old one or the last one.
data Stands (syms : List Sym) (s : Sym) (k : ℕ) : Type 0 where
  old : k < length syms → name_at (syms ++ (s ∷ [])) k ≡ name_at syms k → Stands syms s k
  last : k ≡ length syms → name_at (syms ++ (s ∷ [])) k ≡ s.name → Stands syms s k

Stands-at : (syms : List Sym) (s : Sym) (k : ℕ) → k < length (syms ++ (s ∷ [])) → Stands syms s k
Stands-at syms s k l = elim (Bool-cases (k == length syms)) [
  | inl e ↦
      let at_end : k ≡ length syms = ground (arith, e) in
      last at_end (ap (name_at (syms ++ (s ∷ []))) at_end ∙ name_at-append_last syms s)
  | inr e ↦
      let before : k < length syms = ground (arith, l, e, length-append syms (s ∷ [])) in
      old before (name_at-append_left syms (s ∷ []) k before)
]

-- Names stay distinct when one is added that no record has.
pub Distinct-append :
    (syms : List Sym) (s : Sym)
    → Distinct syms
    → ((i : ℕ) → i < length syms → name_at syms i ≢ s.name)
    → Distinct (syms ++ (s ∷ []))
Distinct-append syms s d new i j li lj same = both (Stands-at syms s i li) (Stands-at syms s j lj)
  where
    both : Stands syms s i → Stands syms s j → i ≡ j
    both (old l e) (old m f) = d i j l m (sym e ∙ same ∙ f)
    both (old l e) (last m f) = absurd (new i l (sym e ∙ same ∙ f))
    both (last l e) (old m f) = absurd (new j m (sym f ∙ sym same ∙ e))
    both (last l e) (last m f) = omega arith
