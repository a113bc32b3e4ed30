-- ===== src/Reg/Names.antt =====
-- `qas_reg_lookup` (reg/reg.c) finds exactly the rows of the table, by name, letter case aside.
use quicks_qas.Common.{
  ℕ, zero, suc, ◌+◌, ◌≤◌, ◌≡◌, ◌⊎◌, refl, sym, ap, ◌∙◌, Bool, true, ◌&&◌, ◌==◌, List, [], ◌∷◌, map,
  Option, none, some, get_elem?, arith, Bool-cases, inl, inr,
}
use mathlib.Core.Path.{ap₂, subst}
use quicks_qas.Reg.Table.{Reg, reg_table, rows_64, rows_32, rows_16, rows_8, rows_rex, rows_high}
use quicks_qas.Reg.Lookup.{ascii_lower, span_ieq, lookup_in, reg_lookup}

-- A byte spells a lower-case character: it is that character, or its capital letter.
abbrev pub Spells : ℕ → ℕ → Type 0
Spells c n = (c ≡ n) ⊎ ((b'A' ≤ c) × (c ≤ b'Z') × (n ≡ c + 32))

-- Byte by byte.
abbrev pub SpellsName : List ℕ → List ℕ → Type 0
SpellsName [] [] = Unit {0}
SpellsName [] (n ∷ name) = ⊥
SpellsName (c ∷ span) [] = ⊥
SpellsName (c ∷ span) (n ∷ name) = Spells c n × SpellsName span name

-- A name in lower case.
abbrev lowered : List ℕ → List ℕ
lowered name = map ascii_lower name

lower_twice : (c : ℕ) → ascii_lower (ascii_lower c) ≡ ascii_lower c
unfolding ascii_lower
lower_twice c = ground arith

span_ieq-lowered : (span name : List ℕ) → span_ieq (lowered span) name ≡ span_ieq span name
unfolding span_ieq
span_ieq-lowered [] [] = refl
span_ieq-lowered [] (n ∷ name) = refl
span_ieq-lowered (s ∷ span) [] = refl
span_ieq-lowered (s ∷ span) (n ∷ name) = rw (lower_twice s, span_ieq-lowered span name) refl

lookup_in-lowered :
    (rows : List Reg) (name : List ℕ) → lookup_in rows (lowered name) ≡ lookup_in rows name
unfolding lookup_in
lookup_in-lowered [] name = refl
lookup_in-lowered (r ∷ rows) name =
    rw (span_ieq-lowered name r.name, lookup_in-lowered rows name) refl

reg_lookup-lowered : (name : List ℕ) → reg_lookup (lowered name) ≡ reg_lookup name
unfolding reg_lookup
reg_lookup-lowered [] = refl
reg_lookup-lowered (c ∷ name) = lookup_in-lowered reg_table (c ∷ name)

same_spelling : (span name : List ℕ) → span_ieq span name ≡ true → lowered span ≡ name
unfolding span_ieq
same_spelling [] [] h = refl
same_spelling [] (n ∷ name) h = ground arith
same_spelling (s ∷ span) [] h = ground arith
same_spelling (s ∷ span) (n ∷ name) h =
    ap₂ ◌∷◌ (ground (arith, h)) (same_spelling span name (ground (arith, h)))

abbrev or_zero : List ℕ → ℕ
or_zero [] = 0
or_zero (n ∷ ns) = n

abbrev later : List ℕ → List ℕ
later [] = []
later (n ∷ ns) = ns

abbrev first_or : List ℕ → List (List ℕ) → List ℕ
first_or d [] = d
first_or d (x ∷ xs) = x

abbrev others : List (List ℕ) → List (List ℕ)
others [] = []
others (x ∷ xs) = xs

some-injective : {r s : Reg} → some r ≡ some s → r ≡ s
some-injective e = cc

abbrev head_or : Option Reg → List (Option Reg) → Option Reg
head_or d [] = d
head_or d (o ∷ os) = o

abbrev tail : List (Option Reg) → List (Option Reg)
tail [] = []
tail (o ∷ os) = os

at_row :
    (f : Reg → Option Reg) (rows : List Reg) (i : ℕ) (r : Reg)
    → map f rows ≡ map some rows
    → get_elem? rows i ≡ some r
    → f r ≡ some r
at_row f [] i r h e = cc
at_row f (x ∷ rows) zero r h e = subst (λ y. f y ≡ some y) (some-injective e) (ap (head_or none) h)
at_row f (x ∷ rows) (suc i) r h e = at_row f rows i r (ap tail h) e

lookup_name : Reg → Option Reg
lookup_name r = reg_lookup r.name

all_found : map lookup_name reg_table ≡ map some reg_table
unfolding lookup_name reg_table rows_64 rows_32 rows_16 rows_8 rows_rex rows_high reg_lookup
    lookup_in span_ieq ascii_lower
all_found = refl

abbrev lowered_name : Reg → List ℕ
lowered_name r = lowered r.name

-- No name of the table has a capital letter.
all_lowered : map lowered_name reg_table ≡ map (λ (r : Reg). r.name) reg_table
unfolding reg_table rows_64 rows_32 rows_16 rows_8 rows_rex rows_high ascii_lower
all_lowered = refl

same_at :
    (f g : Reg → List ℕ) (rows : List Reg) (i : ℕ) (r : Reg)
    → map f rows ≡ map g rows
    → get_elem? rows i ≡ some r
    → f r ≡ g r
same_at f g [] i r h e = cc
same_at f g (x ∷ rows) zero r h e = subst (λ y. f y ≡ g y) (some-injective e) (ap (first_or []) h)
same_at f g (x ∷ rows) (suc i) r h e = same_at f g rows i r (ap others h) e

lower_spelled : (c n : ℕ) → Spells c n → ascii_lower n ≡ n → ascii_lower c ≡ n
unfolding ascii_lower
lower_spelled c n (inl e) h = rw e h
lower_spelled c n (inr (lo, hi, e)) h = ground arith

lowered_spelled :
    (span name : List ℕ) → SpellsName span name → lowered name ≡ name → lowered span ≡ name
lowered_spelled [] [] h e = refl
lowered_spelled [] (n ∷ name) h e = absurd h
lowered_spelled (c ∷ span) [] h e = absurd h
lowered_spelled (c ∷ span) (n ∷ name) (here, there) e =
    ap₂ ◌∷◌ (lower_spelled c n here (ap (or_zero) e)) (lowered_spelled span name there (ap later e))

-- A text without capital letters.
unfoldable pub is_lower : List ℕ → Bool
is_lower [] = true
is_lower (c ∷ cs) = (ascii_lower c == c) && is_lower cs

lowered-is_lower : (name : List ℕ) → is_lower name ≡ true → lowered name ≡ name
unfolding is_lower
lowered-is_lower [] h = refl
lowered-is_lower (c ∷ cs) h = ap₂ ◌∷◌ (ground (arith, h)) (lowered-is_lower cs (ground (arith, h)))

span_ieq_self : (span : List ℕ) → span_ieq span (lowered span) ≡ true
unfolding span_ieq
span_ieq_self [] = refl
span_ieq_self (c ∷ span) = ground (arith, span_ieq_self span)

-- `span_ieq` holds where the bytes spell a name in lower case.
pub span_ieq-spells :
    (span name : List ℕ) → is_lower name ≡ true → SpellsName span name → span_ieq span name ≡ true
span_ieq-spells span name low h =
    subst (λ n. span_ieq span n ≡ true) (lowered_spelled span name h (lowered-is_lower name low))
      (span_ieq_self span)

spelled_lower : (c : ℕ) → Spells c (ascii_lower c)
unfolding ascii_lower
spelled_lower c = ground arith

spells-lowered : (span : List ℕ) → SpellsName span (lowered span)
spells-lowered [] = tt
spells-lowered (c ∷ span) = (spelled_lower c, spells-lowered span)

-- For every row of the register table and every byte string that spells its name, letter by letter in
-- lower case or as the capital letter, `qas_reg_lookup` finds that row.
pub reg_lookup_finds :
    (name : List ℕ) (i : ℕ) (r : Reg)
    → get_elem? reg_table i ≡ some r
    → SpellsName name r.name
    → reg_lookup name ≡ some r
reg_lookup_finds name i r at spells =
    let e =
      lowered_spelled name r.name spells
        (same_at lowered_name (λ q. q.name) reg_table i r all_lowered at) in
    sym (reg_lookup-lowered name)
    ∙ ap reg_lookup e
    ∙ (unfold lookup_name in at_row lookup_name reg_table i r all_found at)

-- A row that a search returns stands in the table, and the text searched for spells its name.
abbrev pub Listed : List Reg → List ℕ → Option Reg → Type 0
Listed rows name none = Unit {0}
Listed rows name (some r) = SpellsName name r.name × (i : ℕ) × (get_elem? rows i ≡ some r)

Listed-cons :
    (x : Reg) (rows : List Reg) (name : List ℕ) (o : Option Reg)
    → Listed rows name o
    → Listed (x ∷ rows) name o
Listed-cons x rows name none h = tt
Listed-cons x rows name (some r) h = (h.0, suc h.1, h.2)

pub span_ieq-SpellsName : (span name : List ℕ) → span_ieq span name ≡ true → SpellsName span name
span_ieq-SpellsName span name h =
    subst (SpellsName span) (same_spelling span name h) (spells-lowered span)

lookup_in-Listed : (rows : List Reg) (name : List ℕ) → Listed rows name (lookup_in rows name)
unfolding lookup_in
lookup_in-Listed [] name = tt
lookup_in-Listed (x ∷ rows) name = elim (Bool-cases (span_ieq name x.name)) [
  | inl q ↦ rw q (span_ieq-SpellsName name x.name q, 0, refl)
  | inr q ↦ rw q (Listed-cons x rows name (lookup_in rows name) (lookup_in-Listed rows name))
]

-- For every name, `qas_reg_lookup` finds nothing, or a row of the table whose name the given
-- bytes spell, letter by letter in lower case or as the capital letter.
pub reg_lookup-Listed : (name : List ℕ) → Listed reg_table name (reg_lookup name)
unfolding reg_lookup
reg_lookup-Listed [] = tt
reg_lookup-Listed (c ∷ name) = lookup_in-Listed reg_table (c ∷ name)
