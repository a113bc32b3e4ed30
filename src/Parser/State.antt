-- ===== src/Parser/State.antt =====
-- The state of the parser (parser/parser.c) and its steps over the tokens.
use quicks_qas.Common.{
  ℕ, suc, ◌+◌, ◌-◌, ◌^◌, Bool, true, false, ◌||◌, List, Option, none, some, codes, ltb, ◌==◌,
  if◌then◌else◌,
}
use quicks_qas.Common.Words.{u64}
use quicks_qas.Status.{Status, ok}
use quicks_qas.Diag.Sink.{DiagSink, Printing, Reported, error, diag_emit}
use quicks_qas.Lexer.Cursor.{Token, TokenKind, Lexer, lexer_init}
use quicks_qas.Lexer.Scan.{Scanned, Report, lexer_next}
use quicks_qas.Reg.Lookup.{span_ieq}
use quicks_qas.Asm.Assembly.{span_of}

-- `prints` are the answers of the allocator and the formatter to the diagnostics to come.
pub record Parser : Type 0 where
  pub lexer : Lexer
  pub cur : Token
  pub next : Token
  pub last_end : ℕ
  pub had_error : Bool
  pub fatal : Status
  pub diags : DiagSink
  pub prints : ℕ → Printing

abbrev pub kind_code : TokenKind → ℕ
kind_code TokenKind.eof = 0
kind_code TokenKind.newline = 1
kind_code TokenKind.identifier = 2
kind_code TokenKind.directive = 3
kind_code TokenKind.integer = 4
kind_code TokenKind.string = 5
kind_code TokenKind.comma = 6
kind_code TokenKind.lbracket = 7
kind_code TokenKind.rbracket = 8
kind_code TokenKind.plus = 9
kind_code TokenKind.minus = 10
kind_code TokenKind.star = 11
kind_code TokenKind.colon = 12
kind_code TokenKind.error = 13

abbrev pub is_kind : Parser → TokenKind → Bool
is_kind p k = kind_code p.cur.kind == kind_code k

unfoldable pub at_stmt_end : Parser → Bool
at_stmt_end p = is_kind p TokenKind.newline || is_kind p TokenKind.eof

-- The bytes of a token.
abbrev pub lexeme : List ℕ → Token → List ℕ
lexeme src t = span_of src t.offset t.len

-- `tok_ieq` compares as `span_ieq` of reg/reg.c does.
abbrev pub tok_ieq : List ℕ → Token → List ℕ → Bool
tok_ieq src t kw = span_ieq (lexeme src t) kw

unfoldable pub size_keyword_bits : List ℕ → Token → ℕ
size_keyword_bits src t =
    if tok_ieq src t (codes "byte")
    then 8
    else if tok_ieq src t (codes "word")
    then 16
    else if tok_ieq src t (codes "dword")
    then 32
    else if tok_ieq src t (codes "qword")
    then 64
    else 0

abbrev pub worse : Status → Status → Status
worse old ok = old
worse old st = st

-- A diagnostic, whose failure is fatal.
abbrev pub reported : Parser → Reported → Parser
reported p (st, sink) = record {
  lexer = p.lexer;
  cur = p.cur;
  next = p.next;
  last_end = p.last_end;
  had_error = p.had_error;
  fatal = worse p.fatal st;
  diags = sink;
  prints = λ i. p.prints (suc i);
}

abbrev pub told : Parser → Option Report → Parser
told p none = p
told p (some r) = reported p (diag_emit (p.prints 0) p.diags error r.offset r.len)

abbrev pub moved : Parser → Scanned → Parser
moved p s = record {
  lexer = s.lexer;
  cur = p.next;
  next = s.token;
  last_end = p.cur.offset + p.cur.len;
  had_error = p.had_error;
  fatal = p.fatal;
  diags = p.diags;
  prints = p.prints;
}

unfoldable pub advance : Parser → Parser
advance p = let s = lexer_next p.lexer in told (moved p s) s.report

abbrev pub failed : Parser → Parser
failed p = record {
  lexer = p.lexer;
  cur = p.cur;
  next = p.next;
  last_end = p.last_end;
  had_error = true;
  fatal = p.fatal;
  diags = p.diags;
  prints = p.prints;
}

unfoldable pub error_here : Parser → Parser
error_here p =
    reported (failed p)
      (diag_emit (p.prints 0) p.diags error p.cur.offset (if ltb 0 p.cur.len then p.cur.len else 1))

-- What a parsing function leaves: the parser, and a value where it returns true.
abbrev pub Parsed : Type 0 → Type 0
Parsed A = Parser × Option A

abbrev pub and_then : {A B : Type 0} → Parsed A → (Parser → A → Parsed B) → Parsed B
and_then (p, none) k = (p, none)
and_then (p, some a) k = k p a

abbrev pub refuse : {A : Type 0} → Parser → Parsed A
refuse p = (error_here p, none)

-- Past the sign of `parse_signed_int`; a literal out of range is reported and taken clamped.
unfoldable pub parse_magnitude : Bool → Parser → Parsed ℕ
parse_magnitude negative p =
    let v = p.cur.int_value in
    let q = if p.cur.int_overflow then error_here p else p in
    if is_kind p TokenKind.integer
    then (advance q, some (if negative then u64 (2 ^ 64 - v) else v))
    else refuse p

unfoldable pub parse_signed_int : Parser → Parsed ℕ
parse_signed_int p =
    if is_kind p TokenKind.minus
    then parse_magnitude true (advance p)
    else if is_kind p TokenKind.plus
    then parse_magnitude false (advance p)
    else parse_magnitude false p

-- The token of no kind that stands before the first.
abbrev pub no_token : Token
no_token = record {
  kind = TokenKind.eof;
  offset = 0;
  len = 0;
  line = 0;
  column = 0;
  int_value = 0;
  int_overflow = false;
}

-- The parser before its two tokens are loaded.
abbrev pub unprimed : List ℕ → DiagSink → (ℕ → Printing) → Parser
unprimed src sink prints = record {
  lexer = lexer_init src;
  cur = no_token;
  next = no_token;
  last_end = 0;
  had_error = false;
  fatal = ok;
  diags = sink;
  prints = prints;
}

-- The first failure stands.
abbrev pub first_bad : Status → Status → Status
first_bad ok st = st
first_bad old st = old

abbrev pub primed : Parser → Status → Parser
primed p before = record {
  lexer = p.lexer;
  cur = p.cur;
  next = p.next;
  last_end = 0;
  had_error = p.had_error;
  fatal = first_bad before p.fatal;
  diags = p.diags;
  prints = p.prints;
}

-- `qas_parser_init`: the loading of `cur` and `next` is that of `advance`, but for `last_end` and the
-- failure that counts.
unfoldable pub parser_init : List ℕ → DiagSink → (ℕ → Printing) → Parser
parser_init src sink prints =
    let one = advance (unprimed src sink prints) in primed (advance one) one.fatal
