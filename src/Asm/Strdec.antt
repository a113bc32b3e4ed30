-- ===== src/Asm/Strdec.antt =====
-- The decoding of string literals (asm/internal/strdec.c). The scanner keeps the bytes from its place to the
-- closing quote, without it; `none` stands for a read past them.
use quicks_qas.Common.{
  ℕ, zero, suc, ◌+◌, ◌-◌, ◌*◌, Bool, not, ◌&&◌, ◌||◌, List, [], ◌∷◌, Option, none, some, length,
  leb, ltb, ◌==◌, if◌then◌else◌, drop, take, get_or,
}
use quicks_qas.Common.Words.{u8, u32, low_bits, ◌<<<◌}
use quicks_qas.Common.{bit_or}
use quicks_qas.Status.{Status, ok, invalid_argument}
use quicks_qas.Buf.Ops.{Buf, Outcome, append_u8}
use quicks_qas.Diag.Sink.{DiagSink, Printing, error, diag_emit}
use quicks_qas.Asm.Assembly.{Supply, past, span_of}

unfoldable pub hex_value : ℕ → Option ℕ
hex_value c =
    if leb 48 c && leb c 57
    then some (c - 48)
    else if leb 97 c && leb c 102
    then some (10 + (c - 97))
    else if leb 65 c && leb c 70
    then some (10 + (c - 65))
    else none

-- What one round of the loop makes of the bytes: the byte to append, a diagnostic's span, and the rest.
pub record Scanned : Type 0 where
  pub value : Option ℕ
  pub report : Option (ℕ × ℕ)
  pub rest : List ℕ

-- The digits of a `\x` escape.
unfoldable pub hex_digits : ℕ → List ℕ → ℕ × List ℕ
hex_digits v [] = (v, [])
hex_digits v (c ∷ rest) = elim (hex_value c) [
  | none ↦ (v, c ∷ rest)
  | some h ↦ hex_digits (bit_or (u32 (v <<< 4)) h) rest
]

abbrev pub low_byte_of : ℕ × List ℕ → Scanned
low_byte_of (v, rest) = record { value = some (u8 (low_bits v 8)); report = none; rest = rest }

-- Past the `x`, with `stop` the place of the closing quote.
unfoldable pub hex_escape : ℕ → List ℕ → Scanned
hex_escape stop [] = record { value = none; report = some (stop, 1); rest = [] }
hex_escape stop (c ∷ rest) = elim (hex_value c) [
  | none ↦ record { value = none; report = some (stop - length (c ∷ rest), 1); rest = c ∷ rest }
  | some h ↦ low_byte_of (hex_digits 0 (c ∷ rest))
]

abbrev pub is_octal : ℕ → Bool
is_octal c = leb 48 c && leb c 55

-- At most `digits` more octal digits.
unfoldable pub octal_digits : ℕ → ℕ → List ℕ → ℕ × List ℕ
octal_digits zero v rest = (v, rest)
octal_digits (suc digits) v [] = (v, [])
octal_digits (suc digits) v (c ∷ rest) =
    let more = octal_digits digits (v * 8 + (c - 48)) rest in
    if is_octal c then more else (v, c ∷ rest)

-- The escapes of one letter or sign.
unfoldable pub simple_escape : ℕ → Option ℕ
simple_escape e =
    if e == b'n'
    then some 10
    else if e == b't'
    then some 9
    else if e == b'r'
    then some 13
    else if e == b'f'
    then some 12
    else if e == b'b'
    then some 8
    else if e == b'a'
    then some 7
    else if e == b'v'
    then some 11
    else if e == b'e'
    then some 27
    else if e == 92
    then some 92
    else if e == 34
    then some 34
    else if e == 39
    then some 39
    else none

-- The `switch`, past the backslash; at the end the byte read is the closing quote.
unfoldable pub escape : ℕ → List ℕ → Scanned
escape stop [] = record { value = some 34; report = none; rest = [] }
escape stop (e ∷ rest) = elim (simple_escape e) [
  | some v ↦ record { value = some v; report = none; rest = rest }
  | none ↦
      if e == b'x' || e == b'X'
      then hex_escape stop rest
      else if is_octal e
      then low_byte_of (octal_digits 3 0 (e ∷ rest))
      else record { value = some e; report = some (stop - length (e ∷ rest) - 1, 2); rest = rest }
]

unfoldable pub scan_char : ℕ → ℕ → List ℕ → Scanned
scan_char stop c rest =
    if c == 92 then escape stop rest else record { value = some c; report = none; rest = rest }

-- `(void)qas_diag_emit(…)`.
abbrev pub void_report : Printing → DiagSink → Option (ℕ × ℕ) → DiagSink
void_report p sink none = sink
void_report p sink (some (offset, len)) = (diag_emit p sink error offset len).1

abbrev pub put_value : (ℕ → Bool) → Buf → Option ℕ → Outcome
put_value grant out none = (ok, out)
put_value grant out (some v) = append_u8 grant out v

abbrev pub Decoding : Type 0
Decoding = Option (Status × Buf × DiagSink)

abbrev pub go_on : (Buf → DiagSink → Decoding) → Outcome → DiagSink → Decoding
go_on k (ok, out) sink = k out sink
go_on k (st, out) sink = some (st, out, sink)

-- The loop of `qas_asm_decode_string`; every round takes a byte at least.
unfoldable pub decode_from : ℕ → Supply → ℕ → List ℕ → Buf → DiagSink → Decoding
decode_from fuel m stop [] out sink = some (ok, out, sink)
decode_from zero m stop (c ∷ rest) out sink = none
decode_from (suc fuel) m stop (c ∷ rest) out sink =
    let x = scan_char stop c rest in
    go_on (decode_from fuel (past 1 m) stop x.rest) (put_value (m 0).buffer out x.value)
      (void_report (m 0).print sink x.report)

unfoldable pub decode_string : Supply → List ℕ → ℕ → ℕ → Buf → DiagSink → Decoding
decode_string m src off len out sink =
    let s = span_of src off len in
    if ltb len 2 || not (get_or s 0 0 == 34) || not (get_or s (len - 1) 0 == 34)
    then some (invalid_argument, out, sink)
    else decode_from len m (off + len - 1) (take (len - 2) (drop 1 s)) out sink
