-- ===== src/Asm/Sound/Strings.antt =====
-- The decoding of a string literal (asm/internal/strdec.c) ends, whatever the bytes are.
use quicks_qas.Common.{
  ℕ, zero, suc, ◌+◌, ◌-◌, ◌*◌, ◌≤◌, inl, inr, Bool, true, false, not, ◌||◌, List, [], ◌∷◌, Option,
  none, some, length, length-take, take, drop, ltb, ◌==◌, arith, if◌then◌else◌, Bool-cases,
  Option-cases, bit_or, get_or,
}
use quicks_qas.Common.Words.{u32, ◌<<<◌}
use quicks_qas.Status.{ok, invalid_argument}
use quicks_qas.Buf.Ops.{Buf, Outcome}
use quicks_qas.Diag.Sink.{DiagSink, Printing, error, diag_emit}
use quicks_qas.Diag.Counts.{Counts, diag_emit-Emitted, Emitted-Counts}
use quicks_qas.Asm.Strdec.{
  hex_value, Scanned, hex_digits, hex_escape, is_octal, octal_digits, simple_escape, escape,
  scan_char, void_report, put_value, Decoding, go_on, decode_from, decode_string,
}
use quicks_qas.Asm.Assembly.{Supply, past, span_of}

-- A decoding returns, and the diagnostics are counted.
abbrev pub Decodes : Decoding → Type 0
Decodes none = ⊥
Decodes (some (st, out, sink)) = Counts sink

hex_digits-le : (v : ℕ) (rest : List ℕ) → length (hex_digits v rest).1 ≤ length rest
unfolding hex_digits
hex_digits-le v [] = omega arith
hex_digits-le v (c ∷ rest) = elim (Option-cases (hex_value c)) [
  | inl e ↦ rw (e, hex_digits) (omega arith)
  | inr (h, e) ↦ rw (e, hex_digits) (omega (arith, hex_digits-le (bit_or (u32 (v <<< 4)) h) rest))
]

octal_digits-le : (n v : ℕ) (rest : List ℕ) → length (octal_digits n v rest).1 ≤ length rest
unfolding octal_digits
octal_digits-le zero v rest = omega arith
octal_digits-le (suc n) v [] = omega arith
octal_digits-le (suc n) v (c ∷ rest) =
    let more = octal_digits-le n (v * 8 + (c - 48)) rest in
    elim (Bool-cases (is_octal c)) [
      | inl e ↦ rw (e, octal_digits) (omega (arith, more))
      | inr e ↦ rw (e, octal_digits) (omega arith)
    ]

Shorter : List ℕ → Scanned → Type 0
Shorter rest x = length x.rest ≤ length rest

scanned_if :
    (rest : List ℕ) (test : Bool) (x y : Scanned)
    → Shorter rest x
    → Shorter rest y
    → Shorter rest (if test then x else y)
scanned_if rest true x y h k = h
scanned_if rest false x y h k = k

hex_escape-Shorter : (stop : ℕ) (rest : List ℕ) → Shorter rest (hex_escape stop rest)
unfolding hex_escape Shorter
hex_escape-Shorter stop [] = omega arith
hex_escape-Shorter stop (c ∷ rest) = elim (Option-cases (hex_value c)) [
  | inl e ↦ rw (e, hex_escape) (omega arith)
  | inr (h, e) ↦ rw (e, hex_escape) (hex_digits-le 0 (c ∷ rest))
]

escape-Shorter : (stop : ℕ) (rest : List ℕ) → Shorter rest (escape stop rest)
unfolding escape Shorter
escape-Shorter stop [] = omega arith
escape-Shorter stop (e ∷ rest) = elim (Option-cases (simple_escape e)) [
  | inr (v, h) ↦ rw (h, escape) (omega arith)
  | inl h ↦
      rw (h, escape)
        (scanned_if (e ∷ rest) (e == b'x' || e == b'X') _ _
          (omega (arith, hex_escape-Shorter stop rest))
          (scanned_if (e ∷ rest) (is_octal e) _ _ (octal_digits-le 3 0 (e ∷ rest)) (omega arith)))
]

scan_char-Shorter : (stop c : ℕ) (rest : List ℕ) → Shorter rest (scan_char stop c rest)
unfolding scan_char Shorter
scan_char-Shorter stop c rest =
    scanned_if rest (c == 92) (escape stop rest) _ (escape-Shorter stop rest) (omega arith)

void_report-Counts :
    (p : Printing) (sink : DiagSink) (o : Option (ℕ × ℕ))
    → Counts sink
    → Counts (void_report p sink o)
void_report-Counts p sink none h = h
void_report-Counts p sink (some (offset, len)) h =
    Emitted-Counts p sink error offset len (diag_emit p sink error offset len)
      (diag_emit-Emitted p sink error offset len h)

go_on-Decodes :
    (k : Buf → DiagSink → Decoding) (r : Outcome) (sink : DiagSink)
    → Counts sink
    → ((out : Buf) → Decodes (k out sink))
    → Decodes (go_on k r sink)
go_on-Decodes k (ok, out) sink h next = next out
go_on-Decodes k (st, out) sink h next = h

pub decode_from-Decodes :
    (fuel : ℕ) (m : Supply) (stop : ℕ) (rest : List ℕ) (out : Buf) (sink : DiagSink)
    → length rest ≤ fuel
    → Counts sink
    → Decodes (decode_from fuel m stop rest out sink)
unfolding decode_from Shorter
decode_from-Decodes zero m stop [] out sink l h = h
decode_from-Decodes (suc fuel) m stop [] out sink l h = h
decode_from-Decodes zero m stop (c ∷ rest) out sink l h = absurd (omega arith)
decode_from-Decodes (suc fuel) m stop (c ∷ rest) out sink l h =
    let x : Scanned = scan_char stop c rest in
    let told = void_report-Counts (m 0).print sink x.report h in
    let shorter = scan_char-Shorter stop c rest in
    go_on-Decodes (decode_from fuel (past 1 m) stop x.rest) (put_value (m 0).buffer out x.value)
      (void_report (m 0).print sink x.report) told
      (λ next.
        decode_from-Decodes fuel (past 1 m) stop x.rest next (void_report (m 0).print sink x.report)
          (omega (arith, shorter, l)) told)

pub decode_string-Decodes :
    (m : Supply) (src : List ℕ) (off len : ℕ) (out : Buf) (sink : DiagSink)
    → Counts sink
    → Decodes (decode_string m src off len out sink)
unfolding decode_string
decode_string-Decodes m src off len out sink h =
    branch (ltb len 2 || not (get_or s 0 0 == 34) || not (get_or s (len - 1) 0 == 34))
  where
    s : List ℕ
    s = span_of src off len

    short : length (take (len - 2) (drop 1 s)) ≤ len
    short = omega (arith, length-take (len - 2) (drop 1 s))

    branch :
        (bad : Bool)
        → Decodes (
            if bad
            then some (invalid_argument, out, sink)
            else decode_from len m (off + len - 1) (take (len - 2) (drop 1 s)) out sink)
    branch true = h
    branch false =
        decode_from-Decodes len m (off + len - 1) (take (len - 2) (drop 1 s)) out sink short h
