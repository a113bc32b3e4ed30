-- ===== src/Reg/Lookup.antt =====
-- `qas_reg_lookup` (reg/reg.c): the first row whose name a byte span spells, letter case aside.
use quicks_qas.Common.{
  ℕ, ◌+◌, ◌-◌, Bool, true, false, ◌&&◌, List, [], ◌∷◌, Option, none, some, leb, ◌==◌, if◌then◌else◌,
}
use quicks_qas.Reg.Table.{Reg, reg_table}

unfoldable pub ascii_lower : ℕ → ℕ
ascii_lower c = if leb b'A' c && leb c b'Z' then c - b'A' + b'a' else c

-- The end of `name` is the end of its list: the table's names hold no NUL.
unfoldable pub span_ieq : List ℕ → List ℕ → Bool
unfolding ascii_lower
span_ieq [] [] = true
span_ieq [] (n ∷ name) = false
span_ieq (s ∷ span) [] = false
span_ieq (s ∷ span) (n ∷ name) = (ascii_lower s == n) && span_ieq span name

unfoldable pub lookup_in : List Reg → List ℕ → Option Reg
unfolding span_ieq
lookup_in [] name = none
lookup_in (r ∷ rows) name = if span_ieq name r.name then some r else lookup_in rows name

-- `none` is the return value false; an empty span is a miss.
unfoldable pub reg_lookup : List ℕ → Option Reg
unfolding lookup_in reg_table
reg_lookup [] = none
reg_lookup (c ∷ name) = lookup_in reg_table (c ∷ name)
