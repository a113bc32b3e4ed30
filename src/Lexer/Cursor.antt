-- ===== src/Lexer/Cursor.antt =====
-- token/token.h, and the character classes and cursor of lexer/lexer.c.
use quicks_qas.Common.{
  ℕ, zero, suc, ◌+◌, ◌-◌, Bool, true, false, ◌&&◌, ◌||◌, List, [], ◌∷◌, Option, none, some, leb,
  ltb, ◌==◌, if◌then◌else◌,
}
use quicks_qas.Common.Words.{u32}

pub data TokenKind : Type 0 where
  eof : TokenKind
  newline : TokenKind
  identifier : TokenKind
  directive : TokenKind
  integer : TokenKind
  string : TokenKind
  comma : TokenKind
  lbracket : TokenKind
  rbracket : TokenKind
  plus : TokenKind
  minus : TokenKind
  star : TokenKind
  colon : TokenKind
  error : TokenKind

pub record Token : Type 0 where
  pub kind : TokenKind
  pub offset : ℕ
  pub len : ℕ
  pub line : ℕ
  pub column : ℕ
  pub int_value : ℕ
  pub int_overflow : Bool

-- `qas_lexer`, with the bytes from `pos` on in place of the source that holds them.
pub record Lexer : Type 0 where
  pub rest : List ℕ
  pub pos : ℕ
  pub line : ℕ
  pub column : ℕ
  pub had_error : Bool

-- `qas_lexer_init`, on a source with these bytes.
abbrev pub lexer_init : List ℕ → Lexer
lexer_init bytes = record { rest = bytes; pos = 0; line = 1; column = 1; had_error = false }

unfoldable pub is_digit : ℕ → Bool
is_digit c = leb b'0' c && leb c b'9'

unfoldable pub is_alpha : ℕ → Bool
is_alpha c = (leb b'a' c && leb c b'z') || (leb b'A' c && leb c b'Z')

unfoldable pub is_ident_start : ℕ → Bool
is_ident_start c = is_alpha c || c == b'_'

unfoldable pub is_ident_cont : ℕ → Bool
is_ident_cont c = is_ident_start c || is_digit c

abbrev pub below_base : ℕ → ℕ → Option ℕ
below_base v base = if ltb v base then some v else none

-- `digit_value`, with `none` for -1.
unfoldable pub digit_value : ℕ → ℕ → Option ℕ
digit_value c base =
    if leb b'0' c && leb c b'9'
    then below_base (c - b'0') base
    else if leb b'a' c && leb c b'z'
    then below_base (10 + (c - b'a')) base
    else if leb b'A' c && leb c b'Z'
    then below_base (10 + (c - b'A')) base
    else none

abbrev pub first_byte : List ℕ → ℕ
first_byte [] = 0
first_byte (c ∷ cs) = c

abbrev pub second_byte : List ℕ → ℕ
second_byte [] = 0
second_byte (c ∷ cs) = first_byte cs

abbrev pub is_empty : List ℕ → Bool
is_empty [] = true
is_empty (c ∷ cs) = false

unfoldable pub lexer_peek : Lexer → ℕ
lexer_peek lx = first_byte lx.rest

unfoldable pub lexer_peek2 : Lexer → ℕ
lexer_peek2 lx = second_byte lx.rest

-- The test `pos >= size`.
unfoldable pub at_end : Lexer → Bool
at_end lx = is_empty lx.rest

abbrev pub step_over : List ℕ → Lexer → Lexer
step_over [] lx = lx
step_over (c ∷ cs) lx =
    if c == b'\n'
    then record {
      rest = cs;
      pos = lx.pos + 1;
      line = u32 (lx.line + 1);
      column = 1;
      had_error = lx.had_error;
    }
    else record {
      rest = cs;
      pos = lx.pos + 1;
      line = lx.line;
      column = u32 (lx.column + 1);
      had_error = lx.had_error;
    }

-- `lexer_advance`; no caller uses the byte that it returns.
unfoldable pub lexer_advance : Lexer → Lexer
lexer_advance lx = step_over lx.rest lx

-- `while (go(lx)) lexer_advance(lx);` for a condition that ends at the end of input: a round takes a byte,
-- so the unread bytes are fuel enough.
unfoldable pub advance_while : (Lexer → Bool) → ℕ → Lexer → Lexer
advance_while go zero lx = lx
advance_while go (suc fuel) lx =
    let more = advance_while go fuel (lexer_advance lx) in if go lx then more else lx

unfoldable pub token_set : TokenKind → ℕ → ℕ → ℕ → ℕ → Token
token_set kind offset len line column = record {
  kind = kind;
  offset = offset;
  len = len;
  line = line;
  column = column;
  int_value = 0;
  int_overflow = false;
}
