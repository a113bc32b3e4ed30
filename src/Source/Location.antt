-- ===== src/Source/Location.antt =====
-- The positions of source/source.c, against a walk from the first byte.
use quicks_qas.Common.{
  ℕ, zero, suc, ◌+◌, ◌-◌, ◌≤◌, ◌≡◌, inl, inr, refl, sym, ap, ◌∙◌, true, List, [], ◌∷◌, some, length,
  get_or, leb, ◌==◌, if◌then◌else◌, arith, Bool-cases,
}
use quicks_qas.Common.Words.{u32}
use quicks_qas.Source.Index.{
  Position, position_at, clamped, located, count_newlines, fill_starts, build_line_starts,
  from_memory, source_location,
}
use quicks_qas.Source.Search.{count_le, Increasing, upper_bound_lem}

-- A reader's view: a newline starts the next line, any other byte takes one column.
abbrev pub walk : ℕ → List ℕ → ℕ → ℕ → Position
walk zero cs l col = record { line = l; column = col }
walk (suc n) [] l col = record { line = l; column = col }
walk (suc n) (c ∷ cs) l col = if c == b'\n' then walk n cs (l + 1) 1 else walk n cs l (col + 1)

-- A position as the source's 32-bit fields hold it.
abbrev pub narrowed : Position → Position
narrowed p = record { line = u32 p.line; column = u32 p.column }

abbrev pub starts_from : ℕ → List ℕ → List ℕ
starts_from i [] = []
starts_from i (c ∷ cs) =
    if c == b'\n' then (i + 1) ∷ starts_from (i + 1) cs else starts_from (i + 1) cs

no_starts : (i : ℕ) (cs : List ℕ) → count_newlines cs ≡ 0 → starts_from i cs ≡ []
unfolding count_newlines
no_starts i [] e = refl
no_starts i (c ∷ cs) e = ground (arith, no_starts (i + 1) cs)

-- The bound of the second loop never stops it before the last line start.
fill_starts_lem :
    (i next count : ℕ) (cs : List ℕ)
    → next + count_newlines cs ≡ count
    → fill_starts i next count cs ≡ starts_from i cs
unfolding count_newlines fill_starts
fill_starts_lem i next count [] e = refl
fill_starts_lem i next count (c ∷ cs) e = ground (
  arith,
  fill_starts_lem (i + 1) (next + 1) count cs,
  fill_starts_lem (i + 1) next count cs,
  no_starts (i + 1) cs,
)

starts_from-Increasing : (i : ℕ) (cs : List ℕ) (lo : ℕ) → lo ≤ i → Increasing lo (starts_from i cs)
starts_from-Increasing i [] lo h = tt
starts_from-Increasing i (c ∷ cs) lo h = elim (Bool-cases (c == b'\n')) [
  | inl e ↦ rw e (omega arith, starts_from-Increasing (i + 1) cs (i + 1) (omega arith))
  | inr e ↦ rw e (starts_from-Increasing (i + 1) cs lo (omega arith))
]

none_before : (i : ℕ) (cs : List ℕ) (o : ℕ) → o ≤ i → count_le (starts_from i cs) o ≡ 0
none_before i [] o h = refl
none_before i (c ∷ cs) o h = ground (arith, none_before (i + 1) cs o)

abbrev pub position : ℕ → ℕ → Position
position l c = record { line = l; column = c }

-- What the search gives for offset `o` when `k` of the starts behind the first do not exceed it.
abbrev found_at : ℕ → ℕ → List ℕ → ℕ → Position
found_at l o starts k = record { line = l + k; column = o - get_or starts k 0 + 1 }

found_at-eq :
    (l l' o o' : ℕ) (xs ys : List ℕ) (k k' : ℕ)
    → l + k ≡ l' + k'
    → o - get_or xs k 0 ≡ o' - get_or ys k' 0
    → found_at l o xs k ≡ found_at l' o' ys k'
found_at-eq l l' o o' xs ys k k' e f i = record { line = e i; column = f i + 1 }

pub positions : {l l' c c' : ℕ} → l ≡ l' → c ≡ c' → position l c ≡ position l' c'
positions e f i = position (e i) (f i)

le→leb : (a b : ℕ) → a ≤ b → leb a b ≡ true
le→leb a b h = ground arith

walk_lem :
    (n : ℕ) (cs : List ℕ) (i s l col o : ℕ)
    → s + col ≡ i + 1
    → 1 ≤ col
    → i + n ≡ o
    → n ≤ length cs
    → walk n cs l col ≡ found_at l o (s ∷ starts_from i cs) (count_le (starts_from i cs) o)
walk_lem zero cs i s l col o e g f h =
    rw (none_before i cs o (omega arith)) (positions (omega arith) (omega arith))
walk_lem (suc n) [] i s l col o e g f h = absurd (omega arith)
walk_lem (suc n) (c ∷ cs) i s l col o e g f h = elim (Bool-cases (c == b'\n')) [
  | inl q ↦
      rw (q, le→leb (i + 1) o (omega arith))
        (walk_lem n cs (i + 1) (i + 1) (l + 1) 1 o (omega arith) (omega arith) (omega arith)
            (omega arith)
          ∙ found_at-eq (l + 1) l o o ((i + 1) ∷ starts_from (i + 1) cs)
              (s ∷ (i + 1) ∷ starts_from (i + 1) cs) (count_le (starts_from (i + 1) cs) o)
              (suc (count_le (starts_from (i + 1) cs) o)) (omega arith) refl)
  | inr q ↦ rw q (
      walk_lem n cs (i + 1) s l (col + 1) o (omega arith) (omega arith) (omega arith) (omega arith))
]

search_lem :
    (bytes starts : List ℕ) (offset : ℕ)
    → Increasing 0 starts
    → source_location (record { bytes = bytes; line_starts = starts }) offset
      ≡ some (
          position_at starts
            (clamped offset (length bytes))
            (count_le starts (clamped offset (length bytes))))
unfolding source_location
search_lem bytes starts offset h = ap (located starts (clamped offset (length bytes))) (
    upper_bound_lem starts (clamped offset (length bytes)) (suc (length starts)) 0 (length starts) h
      (omega arith) (omega arith) (omega arith) (λ j l. absurd (omega arith))
      (λ j l m. absurd (omega arith)))

build_line_starts_lem : (bytes : List ℕ) → build_line_starts bytes ≡ 0 ∷ starts_from 0 bytes
unfolding build_line_starts
build_line_starts_lem bytes =
    ap (λ s. 0 ∷ s) (fill_starts_lem 0 1 (count_newlines bytes + 1) bytes (omega arith))

clamped_le : (o n : ℕ) → clamped o n ≤ n
clamped_le o n = ground arith

suc-one_add : (k : ℕ) → suc k ≡ 1 + k
suc-one_add k = omega arith

suc-sub_one : (k : ℕ) → suc k - 1 ≡ k
suc-sub_one k = omega arith

from_the_first :
    (xs : List ℕ) (o : ℕ)
    → position_at (0 ∷ xs) o (count_le (0 ∷ xs) o)
      ≡ narrowed (found_at 1 o (0 ∷ xs) (count_le xs o))
from_the_first xs o = rw (le→leb 0 o (omega arith)) (
    positions (ap u32 (suc-one_add (count_le xs o)))
      (ap (λ k. u32 (o - get_or (0 ∷ xs) k 0 + 1)) (suc-sub_one (count_le xs o))))

-- For every text and every offset, the location is found, and it is the position that a reader
-- reaches who walks from line 1, column 1 over the bytes before the offset (over all of them when the
-- offset lies behind the end), each number modulo 2^32.
pub source_location-walk :
    (bytes : List ℕ) (offset : ℕ)
    → source_location (from_memory bytes) offset
      ≡ some (narrowed (walk (clamped offset (length bytes)) bytes 1 1))
unfolding from_memory
source_location-walk bytes offset =
    let at = clamped offset (length bytes) in
    ap (λ s. source_location (record { bytes = bytes; line_starts = s }) offset)
      (build_line_starts_lem bytes)
    ∙ search_lem bytes (0 ∷ starts_from 0 bytes) offset
        (omega arith, starts_from-Increasing 0 bytes 0 (omega arith))
    ∙ ap some (from_the_first (starts_from 0 bytes) at)
    ∙ ap some (
        ap narrowed (
          sym (
            walk_lem at bytes 0 0 1 1 at refl (omega arith) (omega arith)
              (clamped_le offset (length bytes)))))
