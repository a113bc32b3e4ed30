-- ===== src/Diag/Counts.antt =====
-- The counters of the diagnostics sink (diag/diag.c) count its diagnostics.
use quicks_qas.Common.{
  ℕ, true, false, ◌+◌, ◌*◌, ◌≡◌, refl, Bool, List, [], ◌∷◌, ◌++◌, Option, none, some, length, ltb,
  ◌==◌, if◌then◌else◌, arith,
}
use quicks_qas.Status.{ok, out_of_memory}
use quicks_qas.Diag.Sink.{
  Severity, note, warning, error, Diag, DiagSink, Printing, Reported, sink_reserve_one, counted,
  store_diag, diag_emit, severity_count,
}

unfoldable pub same_severity : Severity → Severity → ℕ
same_severity note note = 1
same_severity warning warning = 1
same_severity error error = 1
same_severity _ _ = 0

-- How many diagnostics of a severity there are.
unfoldable pub count_of : Severity → List Diag → ℕ
count_of s [] = 0
count_of s (d ∷ items) = same_severity s d.severity + count_of s items

-- Every counter is right.
unfoldable pub Counts : DiagSink → Type 0
Counts sink = (s : Severity) → severity_count sink s ≡ count_of s sink.items

-- What an emission leaves: on success one diagnostic more, at the end; otherwise the diagnostics as before.
abbrev pub Emitted : Printing → DiagSink → Severity → ℕ → ℕ → Reported → Type 0
Emitted p sink severity offset length (ok, after) =
    (text : List ℕ) × (p.text ≡ some text)
    × (after.items
        ≡ sink.items
          ++ (record { severity = severity; offset = offset; length = length; message = text }
              ∷ []))
    × Counts after
Emitted p sink severity offset length (out_of_memory, after) =
    (after.items ≡ sink.items) × Counts after
Emitted p sink severity offset length (st, after) = ⊥

count_of-append :
    (s : Severity) (xs ys : List Diag) → count_of s (xs ++ ys) ≡ count_of s xs + count_of s ys
unfolding count_of
count_of-append s [] ys = omega arith
count_of-append s (x ∷ xs) ys = omega (arith, count_of-append s xs ys)

-- The array alone may grow.
data Reserved (sink : DiagSink) : Reported → Type 0 where
  room :
      (capacity : ℕ)
      → Reserved sink (
        ok,
        record { items = sink.items; capacity = capacity; severity_counts = sink.severity_counts },
      )
  full : Reserved sink (out_of_memory, sink)

sink_reserve_one-Reserved :
    (grown : Bool) (sink : DiagSink) → Reserved sink (sink_reserve_one grown sink)
unfolding sink_reserve_one
sink_reserve_one-Reserved grown sink = branch grown (ltb (length sink.items) sink.capacity)
  where
    branch :
        (g b : Bool)
        → Reserved sink (
            if b
            then (ok, sink)
            else if g
            then (
              ok,
              record {
                items = sink.items;
                capacity = if sink.capacity == 0 then 8 else sink.capacity * 2;
                severity_counts = sink.severity_counts;
              },
            )
            else (out_of_memory, sink))
    branch g true = room sink.capacity
    branch true false = room (if sink.capacity == 0 then 8 else sink.capacity * 2)
    branch false false = full

-- A counter after one more diagnostic.
counted_lem :
    (severity s : Severity) (sink : DiagSink) (items : List Diag) (capacity : ℕ)
    → severity_count
        (record {
          items = items;
          capacity = capacity;
          severity_counts = counted severity sink.severity_counts;
        })
        s
      ≡ severity_count sink s + same_severity s severity
unfolding severity_count same_severity
counted_lem note note sink items capacity = refl
counted_lem note warning sink items capacity = omega arith
counted_lem note error sink items capacity = omega arith
counted_lem warning note sink items capacity = omega arith
counted_lem warning warning sink items capacity = refl
counted_lem warning error sink items capacity = omega arith
counted_lem error note sink items capacity = omega arith
counted_lem error warning sink items capacity = omega arith
counted_lem error error sink items capacity = refl

count_of_one : (s : Severity) (d : Diag) → count_of s (d ∷ []) ≡ same_severity s d.severity
unfolding count_of
count_of_one s d = omega arith

-- From counters that are right, an emission either succeeds with the diagnostic, its message formatted, as the last
-- one, or reports out of memory with the diagnostics as before; the counters are right again.
pub diag_emit-Emitted :
    (p : Printing) (sink : DiagSink) (severity : Severity) (offset len : ℕ)
    → Counts sink
    → Emitted p sink severity offset len (diag_emit p sink severity offset len)
unfolding diag_emit Counts severity_count
diag_emit-Emitted p sink severity offset len h =
    stored p.text (sink_reserve_one p.grown sink) (sink_reserve_one-Reserved p.grown sink)
  where
    after_one :
        (s : Severity) (text : List ℕ) (capacity : ℕ)
        → severity_count
            (record {
              items =
                  sink.items
                  ++ (record { severity = severity; offset = offset; length = len; message = text }
                      ∷ []);
              capacity = capacity;
              severity_counts = counted severity sink.severity_counts;
            })
            s
          ≡ count_of s (
              sink.items
              ++ (record { severity = severity; offset = offset; length = len; message = text }
                  ∷ []))
    after_one s text capacity =
        let d : Diag = record {
          severity = severity;
          offset = offset;
          length = len;
          message = text;
        } in
        omega (
          arith,
          counted_lem severity s sink (sink.items ++ (d ∷ [])) capacity,
          count_of-append s sink.items (d ∷ []),
          count_of_one s d,
          h s,
        )

    stored :
        (t : Option (List ℕ)) (r : Reported)
        → Reserved sink r
        → Emitted
            (record { grown = p.grown; text = t })
            sink
            severity
            offset
            len
            (store_diag t severity offset len r)
    stored (some text) r (room capacity) = (text, refl, refl, λ s. after_one s text capacity)
    stored none r (room capacity) = (refl, h)
    stored (some text) r full = (refl, h)
    stored none r full = (refl, h)

pub Emitted-Counts :
    (p : Printing) (sink : DiagSink) (severity : Severity) (offset len : ℕ) (r : Reported)
    → Emitted p sink severity offset len r
    → Counts r.1
Emitted-Counts p sink severity offset len (ok, after) (text, e, items, counts) = counts
Emitted-Counts p sink severity offset len (out_of_memory, after) (items, counts) = counts
Emitted-Counts p sink severity offset len (st, after) h = elim h [ ]
