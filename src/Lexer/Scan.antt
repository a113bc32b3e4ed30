-- ===== src/Lexer/Scan.antt =====
-- The lexers of each kind of token in lexer/lexer.c, and `qas_lexer_next`.
use quicks_qas.Common.{
  ℕ, zero, suc, ◌+◌, ◌-◌, ◌*◌, ◌/◌, Bool, true, false, not, ◌&&◌, ◌||◌, Option, none, some, length,
  ltb, ◌==◌, if◌then◌else◌,
}
use quicks_qas.Common.Words.{u64_max}
use quicks_qas.Lexer.Cursor.{
  TokenKind, Token, Lexer, is_digit, is_ident_start, is_ident_cont, digit_value, lexer_peek,
  lexer_peek2, at_end, lexer_advance, advance_while, token_set,
}

pub data Message : Type 0 where
  malformed_number : Message
  out_of_range : Message
  unterminated : Message
  unterminated_escape : Message
  unexpected_dot : Message
  unexpected_byte : ℕ → Message

-- An error diagnostic, for `qas_diag_emit`.
pub record Report : Type 0 where
  pub offset : ℕ
  pub len : ℕ
  pub message : Message

-- What `qas_lexer_next` leaves: the lexer, the token, and the diagnostic that it emits, whose status is
-- the one that it returns (QAS_OK without one).
pub record Scanned : Type 0 where
  pub lexer : Lexer
  pub token : Token
  pub report : Option Report

-- Where a token starts: the cursor before its first byte.
pub record Mark : Type 0 where
  pub start : ℕ
  pub line : ℕ
  pub col : ℕ

abbrev pub mark : Lexer → Mark
mark lx = record { start = lx.pos; line = lx.line; col = lx.column }

unfoldable pub with_error : Lexer → Lexer
with_error lx = record {
  rest = lx.rest;
  pos = lx.pos;
  line = lx.line;
  column = lx.column;
  had_error = true;
}

-- The length that `lexer_error` reports.
abbrev pub report_length : ℕ → ℕ
report_length len = if ltb 0 len then len else 1

unfoldable pub lexer_error : Lexer → Mark → ℕ → Message → Scanned
lexer_error lx m len message = record {
  lexer = with_error lx;
  token = token_set TokenKind.error m.start len m.line m.col;
  report = some (record { offset = m.start; len = report_length len; message = message });
}

-- A token of this kind from the mark to the cursor.
unfoldable pub token_to : Lexer → Mark → TokenKind → Scanned
token_to lx m kind = record {
  lexer = lx;
  token = token_set kind m.start (lx.pos - m.start) m.line m.col;
  report = none;
}

abbrev pub continues_identifier : Lexer → Bool
continues_identifier lx = is_ident_cont (lexer_peek lx)

-- `while (is_ident_cont(lexer_peek(lx))) lexer_advance(lx);`
unfoldable pub skip_identifier : Lexer → Lexer
skip_identifier lx = advance_while continues_identifier (length lx.rest) lx

unfoldable pub lex_identifier : Lexer → Scanned
lex_identifier lx = token_to (skip_identifier lx) (mark lx) TokenKind.identifier

unfoldable pub lex_directive : Lexer → Scanned
lex_directive lx = token_to (skip_identifier (lexer_advance lx)) (mark lx) TokenKind.directive

-- The base that a prefix selects.
unfoldable pub prefix_base : Lexer → Option ℕ
prefix_base lx =
    let n = lexer_peek2 lx in
    if lexer_peek lx == b'0'
    then (if n == b'x' || n == b'X'
        then some 16
        else if n == b'b' || n == b'B'
        then some 2
        else if n == b'o' || n == b'O'
        then some 8
        else none)
    else none

pub record Digits : Type 0 where
  pub lexer : Lexer
  pub value : ℕ
  pub overflow : Bool
  pub digit_count : ℕ

abbrev pub take_digit : ℕ → Digits → ℕ → Digits
take_digit base d dv =
    if ltb ((u64_max - dv) / base) d.value
    then record {
      lexer = lexer_advance d.lexer;
      value = d.value;
      overflow = true;
      digit_count = d.digit_count + 1;
    }
    else record {
      lexer = lexer_advance d.lexer;
      value = d.value * base + dv;
      overflow = d.overflow;
      digit_count = d.digit_count + 1;
    }

-- The loop over the digits; the unread bytes are fuel enough.
unfoldable pub lex_digits : ℕ → ℕ → Digits → Digits
lex_digits base zero d = d
lex_digits base (suc fuel) d = elim (digit_value (lexer_peek d.lexer) base) [
  | none ↦ d
  | some dv ↦ lex_digits base fuel (take_digit base d dv)
]

unfoldable pub integer_token : Mark → Digits → Scanned
integer_token m d =
    let len = d.lexer.pos - m.start in
    let token : Token = record {
      kind = TokenKind.integer;
      offset = m.start;
      len = len;
      line = m.line;
      column = m.col;
      int_value = if d.overflow then u64_max else d.value;
      int_overflow = d.overflow;
    } in
    if d.overflow
    then record {
      lexer = with_error d.lexer;
      token = token;
      report = some (record { offset = m.start; len = len; message = Message.out_of_range });
    }
    else record { lexer = d.lexer; token = token; report = none }

unfoldable pub finish_number : Mark → Bool → Digits → Scanned
finish_number m has_prefix d =
    if (has_prefix && d.digit_count == 0) || is_ident_cont (lexer_peek d.lexer)
    then (let lx = skip_identifier d.lexer in
        lexer_error lx m (lx.pos - m.start) Message.malformed_number)
    else integer_token m d

abbrev pub no_digits : Lexer → Digits
no_digits lx = record { lexer = lx; value = 0; overflow = false; digit_count = 0 }

unfoldable pub number_from : Mark → Lexer → Option ℕ → Scanned
number_from m lx none = finish_number m false (lex_digits 10 (length lx.rest) (no_digits lx))
number_from m lx (some base) =
    let digits = lexer_advance (lexer_advance lx) in
    finish_number m true (lex_digits base (length digits.rest) (no_digits digits))

unfoldable pub lex_number : Lexer → Scanned
lex_number lx = number_from (mark lx) lx (prefix_base lx)

unfoldable pub at_line_end : Lexer → Bool
at_line_end lx = at_end lx || lexer_peek lx == b'\n'

-- The loop behind the opening quote. A round takes a byte, so the unread bytes are fuel enough, and the
-- fuel ends only where no byte is left.
unfoldable pub string_rest : Mark → ℕ → Lexer → Scanned
string_rest m zero lx = lexer_error lx m (lx.pos - m.start) Message.unterminated
string_rest m (suc fuel) lx =
    let escaped = lexer_advance lx in
    let behind = string_rest m fuel (lexer_advance escaped) in
    let more = string_rest m fuel escaped in
    if at_line_end lx
    then lexer_error lx m (lx.pos - m.start) Message.unterminated
    else if lexer_peek lx == b'"'
    then token_to escaped m TokenKind.string
    else if lexer_peek lx == b'\\'
    then (if at_line_end escaped
        then lexer_error escaped m (escaped.pos - m.start) Message.unterminated_escape
        else behind)
    else more

unfoldable pub lex_string : Lexer → Scanned
lex_string lx = string_rest (mark lx) (length (lexer_advance lx).rest) (lexer_advance lx)

abbrev pub in_comment : Lexer → Bool
in_comment lx = not (at_line_end lx)

unfoldable pub is_blank : ℕ → Bool
is_blank c = c == b' ' || c == b'\t' || c == b'\r'

-- The loop over whitespace and comments; a round takes a byte.
unfoldable pub skip_blanks : ℕ → Lexer → Lexer
skip_blanks zero lx = lx
skip_blanks (suc fuel) lx =
    let blank = skip_blanks fuel (lexer_advance lx) in
    let comment = skip_blanks fuel (advance_while in_comment (length lx.rest) lx) in
    if is_blank (lexer_peek lx) then blank else if lexer_peek lx == b';' then comment else lx

unfoldable pub punctuation : ℕ → Option TokenKind
punctuation c =
    if c == b'\n'
    then some TokenKind.newline
    else if c == b','
    then some TokenKind.comma
    else if c == b'['
    then some TokenKind.lbracket
    else if c == b']'
    then some TokenKind.rbracket
    else if c == b'+'
    then some TokenKind.plus
    else if c == b'-'
    then some TokenKind.minus
    else if c == b'*'
    then some TokenKind.star
    else if c == b':'
    then some TokenKind.colon
    else none

-- The cases of the switch behind the punctuation.
unfoldable pub lex_other : Lexer → Scanned
lex_other lx =
    let c = lexer_peek lx in
    if c == b'"'
    then lex_string lx
    else if c == b'.'
    then (if is_ident_start (lexer_peek2 lx)
        then lex_directive lx
        else lexer_error (lexer_advance lx) (mark lx) 1 Message.unexpected_dot)
    else if is_digit c
    then lex_number lx
    else if is_ident_start c
    then lex_identifier lx
    else lexer_error (lexer_advance lx) (mark lx) 1 (Message.unexpected_byte c)

unfoldable pub lex_token : Lexer → Option TokenKind → Scanned
lex_token lx (some kind) = record {
  lexer = lexer_advance lx;
  token = token_set kind lx.pos 1 lx.line lx.column;
  report = none;
}
lex_token lx none = lex_other lx

unfoldable pub lex_first : Lexer → Scanned
lex_first lx =
    if at_end lx
    then record {
      lexer = lx;
      token = token_set TokenKind.eof lx.pos 0 lx.line lx.column;
      report = none;
    }
    else lex_token lx (punctuation (lexer_peek lx))

-- `qas_lexer_next`.
unfoldable pub lexer_next : Lexer → Scanned
lexer_next lx = lex_first (skip_blanks (length lx.rest) lx)
