-- ===== src/Diag/Sink.antt =====
-- The diagnostics sink of diag/diag.c. A message is what vsnprintf makes of the format, `none` where it fails
-- or malloc gives no block for it.
use quicks_qas.Common.{
  ℕ, ◌+◌, ◌-◌, ◌*◌, Bool, List, [], ◌∷◌, ◌++◌, Option, none, some, length, replicate, codes, leb,
  ltb, ◌==◌, if◌then◌else◌,
}
use quicks_qas.Status.{Status, ok, out_of_memory}

pub data Severity : Type 0 where
  note warning error : Severity

pub record Diag : Type 0 where
  pub severity : Severity
  pub offset : ℕ
  pub length : ℕ
  pub message : List ℕ

-- `severity_counts`, by severity.
pub record Tally : Type 0 where
  pub notes : ℕ
  pub warnings : ℕ
  pub errors : ℕ

-- `count` is the length of `items`.
pub record DiagSink : Type 0 where
  pub items : List Diag
  pub capacity : ℕ
  pub severity_counts : Tally

abbrev pub diag_sink_init : DiagSink
diag_sink_init = record {
  items = [];
  capacity = 0;
  severity_counts = record { notes = 0; warnings = 0; errors = 0 };
}

-- What realloc and the formatter give to one call.
pub record Printing : Type 0 where
  pub grown : Bool
  pub text : Option (List ℕ)

abbrev pub Reported : Type 0
Reported = Status × DiagSink

unfoldable pub sink_reserve_one : Bool → DiagSink → Reported
sink_reserve_one grown sink =
    if ltb (length sink.items) sink.capacity
    then (ok, sink)
    else if grown
    then (
      ok,
      record {
        items = sink.items;
        capacity = if sink.capacity == 0 then 8 else sink.capacity * 2;
        severity_counts = sink.severity_counts;
      },
    )
    else (out_of_memory, sink)

abbrev pub counted : Severity → Tally → Tally
counted note c = record { notes = c.notes + 1; warnings = c.warnings; errors = c.errors }
counted warning c = record { notes = c.notes; warnings = c.warnings + 1; errors = c.errors }
counted error c = record { notes = c.notes; warnings = c.warnings; errors = c.errors + 1 }

abbrev pub store_diag : Option (List ℕ) → Severity → ℕ → ℕ → Reported → Reported
store_diag (some text) severity offset length (ok, sink) = (
  ok,
  record {
    items =
        sink.items
        ++ (record { severity = severity; offset = offset; length = length; message = text } ∷ []);
    capacity = sink.capacity;
    severity_counts = counted severity sink.severity_counts;
  },
)
store_diag none severity offset length (ok, sink) = (out_of_memory, sink)
store_diag text severity offset length (st, sink) = (st, sink)

unfoldable pub diag_emit : Printing → DiagSink → Severity → ℕ → ℕ → Reported
diag_emit p sink severity offset length =
    store_diag p.text severity offset length (sink_reserve_one p.grown sink)

unfoldable pub diag_count : DiagSink → ℕ
diag_count sink = length sink.items

unfoldable pub severity_count : DiagSink → Severity → ℕ
severity_count sink note = sink.severity_counts.notes
severity_count sink warning = sink.severity_counts.warnings
severity_count sink error = sink.severity_counts.errors

unfoldable pub severity_str : Severity → List ℕ
severity_str note = codes "note"
severity_str warning = codes "warning"
severity_str error = codes "error"

-- The first loop of `print_caret`: blanks up to the caret, tabs kept.
unfoldable pub caret_indent : ℕ → List ℕ → List ℕ
caret_indent ℕ.zero text = []
caret_indent (ℕ.suc n) [] = []
caret_indent (ℕ.suc n) (c ∷ text) = (if c == 9 then 9 else 32) ∷ caret_indent n text

-- How many `~` follow the caret at `caret_col` in a line of `line_length` bytes.
unfoldable pub caret_tail : ℕ → ℕ → ℕ → ℕ
caret_tail line_length caret_col span_length =
    let remaining = if ltb 1 span_length then span_length - 1 else 0 in
    let available = if ltb (caret_col + 1) line_length then line_length - (caret_col + 1) else 0 in
    if ltb available remaining then available else remaining

-- The line that `print_caret` writes.
unfoldable pub print_caret : List ℕ → ℕ → ℕ → List ℕ
print_caret line_text column span_length =
    let caret_col = if leb 1 column then column - 1 else 0 in
    replicate 4 32
    ++ (caret_indent caret_col line_text
        ++ (94
            ∷ (replicate (caret_tail (length line_text) caret_col span_length) 126 ++ (10 ∷ []))))
