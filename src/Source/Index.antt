-- ===== src/Source/Index.antt =====
-- The line index and the locations of source/source.c.
use quicks_qas.Common.{
  ℕ, zero, suc, ◌+◌, ◌-◌, ◌/◌, ◌||◌, List, [], ◌∷◌, Option, none, some, length, get_or, leb, ltb,
  ◌==◌, if◌then◌else◌,
}
use quicks_qas.Common.Words.{u32}

-- `qas_source` without its display name; `size` and `line_count` are lengths.
pub record Source : Type 0 where
  pub bytes : List ℕ
  pub line_starts : List ℕ

unfoldable pub count_newlines : List ℕ → ℕ
count_newlines [] = 0
count_newlines (c ∷ cs) = (if c == b'\n' then 1 else 0) + count_newlines cs

-- The second loop of `build_line_starts`, at byte `i`, with `next` of `count` entries filled.
unfoldable pub fill_starts : ℕ → ℕ → ℕ → List ℕ → List ℕ
fill_starts i next count [] = []
fill_starts i next count (c ∷ cs) =
    let found = (i + 1) ∷ fill_starts (i + 1) (next + 1) count cs in
    let other = fill_starts (i + 1) next count cs in
    if ltb next count then (if c == b'\n' then found else other) else []

unfoldable pub build_line_starts : List ℕ → List ℕ
unfolding fill_starts count_newlines
build_line_starts bytes = 0 ∷ fill_starts 0 1 (count_newlines bytes + 1) bytes

-- `qas_source_from_memory`; the NUL behind the bytes is never read as one of them.
unfoldable pub from_memory : List ℕ → Source
unfolding build_line_starts
from_memory bytes = record { bytes = bytes; line_starts = build_line_starts bytes }

-- The loop of `qas_source_location`, with fuel.
unfoldable pub upper_bound : ℕ → List ℕ → ℕ → ℕ → ℕ → Option ℕ
upper_bound zero starts offset lo hi = none
upper_bound (suc fuel) starts offset lo hi =
    let mid = lo + (hi - lo) / 2 in
    let above = upper_bound fuel starts offset (mid + 1) hi in
    let below = upper_bound fuel starts offset lo mid in
    if ltb lo hi then (if leb (get_or starts mid 0) offset then above else below) else some lo

pub record Position : Type 0 where
  pub line : ℕ
  pub column : ℕ

abbrev pub position_at : List ℕ → ℕ → ℕ → Position
position_at starts offset lo = record {
  line = u32 lo;
  column = u32 (offset - get_or starts (lo - 1) 0 + 1);
}

abbrev pub clamped : ℕ → ℕ → ℕ
clamped offset size = if ltb size offset then size else offset

abbrev pub located : List ℕ → ℕ → Option ℕ → Option Position
located starts offset none = none
located starts offset (some lo) = some (position_at starts offset lo)

-- `qas_source_location`; a round of the search halves what is left, so the count is fuel enough.
unfoldable pub source_location : Source → ℕ → Option Position
unfolding upper_bound
source_location src offset =
    let at = clamped offset (length src.bytes) in
    located src.line_starts at
      (upper_bound (suc (length src.line_starts)) src.line_starts at 0 (length src.line_starts))

-- The trimming loop of `qas_source_line_text`, from the end of the line.
unfoldable pub trim_length : List ℕ → ℕ → ℕ → ℕ
trim_length bytes start zero = 0
trim_length bytes start (suc n) =
    let c = get_or bytes (start + n) 0 in
    let rest = trim_length bytes start n in if c == b'\n' || c == b'\r' then rest else suc n

pub record Span : Type 0 where
  pub start : ℕ
  pub len : ℕ

unfoldable pub line_text : Source → ℕ → Option Span
unfolding trim_length
line_text src line =
    let start = get_or src.line_starts (line - 1) 0 in
    let end =
      if ltb line (length src.line_starts)
      then get_or src.line_starts line 0
      else length src.bytes in
    if ltb line 1 || ltb (length src.line_starts) line
    then none
    else some (record { start = start; len = trim_length src.bytes start (end - start) })
