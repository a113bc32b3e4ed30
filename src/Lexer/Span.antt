-- ===== src/Lexer/Span.antt =====
-- What each token of lexer/lexer.c covers, and that `qas_lexer_next` makes progress.
use quicks_qas.Common.{
  ℕ, zero, suc, ◌+◌, ◌-◌, ◌≤◌, ◌≡◌, inl, inr, refl, Bool, true, false, ◌&&◌, ◌||◌, List, [], ◌∷◌,
  Option, none, some, length, ◌==◌, arith, Bool-cases, Option-cases,
}
use quicks_qas.Lexer.Cursor.{
  TokenKind, Lexer, is_empty, is_digit, is_ident_start, is_ident_cont, digit_value, lexer_peek,
  at_end, lexer_advance, advance_while, token_set,
}
use quicks_qas.Lexer.Scan.{
  Message, Scanned, Mark, mark, with_error, lexer_error, token_to, continues_identifier,
  skip_identifier, lex_identifier, lex_directive, Digits, take_digit, lex_digits, integer_token,
  finish_number, no_digits, number_from, at_line_end, string_rest,
}
use quicks_qas.Lexer.Place.{
  IsAt, Ahead, lexer_advance-IsAt, pos-lexer_advance, advance-Ahead, advance_while-Ahead,
}

-- The token starts at the mark, with the mark's line and column, is not empty, and ends at the cursor,
-- which is inside the bytes with the counters of its place.
abbrev pub Covers : List ℕ → Mark → Scanned → Type 0
Covers bytes m s =
    IsAt bytes s.lexer
    × (s.token.offset ≡ m.start)
    × (s.token.line ≡ m.line)
    × (s.token.column ≡ m.col)
    × (m.start + s.token.len ≡ s.lexer.pos)
    × (1 ≤ s.token.len)

token_to-Covers :
    (bytes : List ℕ) (m : Mark) (lx : Lexer) (kind : TokenKind)
    → Ahead bytes (suc m.start) lx
    → Covers bytes m (token_to lx m kind)
unfolding token_to token_set
token_to-Covers bytes m lx kind h = (h.0, refl, refl, refl, omega (arith, h.1), omega (arith, h.1))

pub lexer_error-Covers :
    (bytes : List ℕ) (m : Mark) (lx : Lexer) (len : ℕ) (message : Message)
    → Ahead bytes (suc m.start) lx
    → m.start + len ≡ lx.pos
    → Covers bytes m (lexer_error lx m len message)
unfolding lexer_error token_set with_error
lexer_error-Covers bytes m lx len message h e = (h.0, refl, refl, refl, e, omega (arith, h.1))

error_to-Covers :
    (bytes : List ℕ) (m : Mark) (lx : Lexer) (message : Message)
    → Ahead bytes (suc m.start) lx
    → Covers bytes m (lexer_error lx m (lx.pos - m.start) message)
error_to-Covers bytes m lx message h =
    lexer_error-Covers bytes m lx (lx.pos - m.start) message h (omega (arith, h.1))

integer_token_at :
    (bytes : List ℕ) (m : Mark) (lx : Lexer) (value : ℕ) (overflow : Bool) (count : ℕ)
    → Ahead bytes (suc m.start) lx
    → Covers bytes m (
        integer_token m
          (record { lexer = lx; value = value; overflow = overflow; digit_count = count }))
unfolding integer_token with_error
integer_token_at bytes m lx value true count h =
    (h.0, refl, refl, refl, omega (arith, h.1), omega (arith, h.1))
integer_token_at bytes m lx value false count h =
    (h.0, refl, refl, refl, omega (arith, h.1), omega (arith, h.1))

integer_token-Covers :
    (bytes : List ℕ) (m : Mark) (d : Digits)
    → Ahead bytes (suc m.start) d.lexer
    → Covers bytes m (integer_token m d)
unfolding integer_token with_error
integer_token-Covers bytes m d h =
    integer_token_at bytes m d.lexer d.value d.overflow d.digit_count h

skip_identifier-Ahead :
    (bytes : List ℕ) (start : ℕ) (lx : Lexer)
    → Ahead bytes start lx
    → Ahead bytes start (skip_identifier lx)
unfolding skip_identifier
skip_identifier-Ahead bytes start lx h =
    advance_while-Ahead continues_identifier (length lx.rest) bytes start lx h

finish_number-Covers :
    (bytes : List ℕ) (m : Mark) (has_prefix : Bool) (d : Digits)
    → Ahead bytes (suc m.start) d.lexer
    → Covers bytes m (finish_number m has_prefix d)
unfolding finish_number
finish_number-Covers bytes m has_prefix d h =
    elim (Bool-cases ((has_prefix && d.digit_count == 0) || is_ident_cont (lexer_peek d.lexer))) [
      | inl q ↦ rw q (
          error_to-Covers bytes m (skip_identifier d.lexer) Message.malformed_number
            (skip_identifier-Ahead bytes (suc m.start) d.lexer h))
      | inr q ↦ rw q (integer_token-Covers bytes m d h)
    ]

lexer-take_digit :
    (base : ℕ) (d : Digits) (dv : ℕ) → (take_digit base d dv).lexer ≡ lexer_advance d.lexer
lexer-take_digit base d dv = ground arith

lex_digits-Ahead :
    (bytes : List ℕ) (start base fuel : ℕ) (d : Digits)
    → Ahead bytes start d.lexer
    → Ahead bytes start (lex_digits base fuel d).lexer
unfolding lex_digits
lex_digits-Ahead bytes start base zero d h = h
lex_digits-Ahead bytes start base (suc fuel) d h =
    elim (Option-cases (digit_value (lexer_peek d.lexer) base)) [
      | inl e ↦ rw (e, lex_digits) h
      | inr w ↦
          rw (w.1, lex_digits)
            (lex_digits-Ahead bytes start base fuel (take_digit base d w.0)
              (rw (lexer-take_digit base d w.0) (advance-Ahead bytes start d.lexer h)))
    ]

advance_while_first :
    (go : Lexer → Bool) (xs bytes : List ℕ) (start : ℕ) (lx : Lexer)
    → is_empty xs ≡ false
    → go lx ≡ true
    → Ahead bytes start (lexer_advance lx)
    → Ahead bytes start (advance_while go (length xs) lx)
unfolding advance_while
advance_while_first go [] bytes start lx e q h = ground arith
advance_while_first go (x ∷ xs) bytes start lx e q h =
    rw q (advance_while-Ahead go (length xs) bytes start (lexer_advance lx) h)

-- Behind its first byte a token has begun.
pub begun :
    (bytes : List ℕ) (lx : Lexer)
    → IsAt bytes lx
    → at_end lx ≡ false
    → Ahead bytes (suc lx.pos) (lexer_advance lx)
begun bytes lx h e = (lexer_advance-IsAt bytes lx h, omega (arith, pos-lexer_advance lx e))

pub lex_identifier-Covers :
    (bytes : List ℕ) (lx : Lexer)
    → IsAt bytes lx
    → at_end lx ≡ false
    → is_ident_start (lexer_peek lx) ≡ true
    → Covers bytes (mark lx) (lex_identifier lx)
unfolding lex_identifier skip_identifier at_end is_ident_cont
lex_identifier-Covers bytes lx h e q =
    token_to-Covers bytes (mark lx) (skip_identifier lx) TokenKind.identifier (
      advance_while_first continues_identifier lx.rest bytes (suc lx.pos) lx e (rw q refl)
        (begun bytes lx h e))

pub lex_directive-Covers :
    (bytes : List ℕ) (lx : Lexer)
    → IsAt bytes lx
    → at_end lx ≡ false
    → Covers bytes (mark lx) (lex_directive lx)
unfolding lex_directive
lex_directive-Covers bytes lx h e =
    token_to-Covers bytes (mark lx) (skip_identifier (lexer_advance lx)) TokenKind.directive
      (skip_identifier-Ahead bytes (suc lx.pos) (lexer_advance lx) (begun bytes lx h e))

digit_value-decimal : (c : ℕ) → is_digit c ≡ true → digit_value c 10 ≡ some (c - b'0')
unfolding is_digit digit_value
digit_value-decimal c h = ground arith

digit_first :
    (xs bytes : List ℕ) (start : ℕ) (lx : Lexer)
    → is_empty xs ≡ false
    → is_digit (lexer_peek lx) ≡ true
    → Ahead bytes start (lexer_advance lx)
    → Ahead bytes start (lex_digits 10 (length xs) (no_digits lx)).lexer
unfolding lex_digits
digit_first [] bytes start lx e q h = ground arith
digit_first (x ∷ xs) bytes start lx e q h =
    rw (digit_value-decimal (lexer_peek lx) q, lex_digits)
      (lex_digits-Ahead bytes start 10 (length xs)
        (take_digit 10 (no_digits lx) (lexer_peek lx - b'0'))
        (rw (lexer-take_digit 10 (no_digits lx) (lexer_peek lx - b'0')) h))

pub number_from-Covers :
    (bytes : List ℕ) (lx : Lexer) (base : Option ℕ)
    → IsAt bytes lx
    → at_end lx ≡ false
    → is_digit (lexer_peek lx) ≡ true
    → Covers bytes (mark lx) (number_from (mark lx) lx base)
unfolding number_from at_end
number_from-Covers bytes lx none h e q =
    finish_number-Covers bytes (mark lx) false (lex_digits 10 (length lx.rest) (no_digits lx))
      (digit_first lx.rest bytes (suc lx.pos) lx e q (begun bytes lx h e))
number_from-Covers bytes lx (some base) h e q =
    let at = lexer_advance (lexer_advance lx) in
    finish_number-Covers bytes (mark lx) true (lex_digits base (length at.rest) (no_digits at)) (
      lex_digits-Ahead bytes (suc lx.pos) base (length at.rest) (no_digits at)
        (advance-Ahead bytes (suc lx.pos) (lexer_advance lx) (begun bytes lx h e)))

pub string_rest-Covers :
    (bytes : List ℕ) (m : Mark) (fuel : ℕ) (lx : Lexer)
    → Ahead bytes (suc m.start) lx
    → Covers bytes m (string_rest m fuel lx)
unfolding string_rest
string_rest-Covers bytes m zero lx h = error_to-Covers bytes m lx Message.unterminated h
string_rest-Covers bytes m (suc fuel) lx h =
    let escaped = lexer_advance lx in
    let ahead = advance-Ahead bytes (suc m.start) lx h in
    elim (Bool-cases (at_line_end lx)) [
      | inl a ↦ rw a (error_to-Covers bytes m lx Message.unterminated h)
      | inr a ↦ elim (Bool-cases (lexer_peek lx == b'"')) [
        | inl b ↦ rw (a, b) (token_to-Covers bytes m escaped TokenKind.string ahead)
        | inr b ↦ elim (Bool-cases (lexer_peek lx == b'\\')) [
          | inr c ↦ rw (a, b, c) (string_rest-Covers bytes m fuel escaped ahead)
          | inl c ↦ elim (Bool-cases (at_line_end escaped)) [
            | inl d ↦
                rw (a, b, c, d) (error_to-Covers bytes m escaped Message.unterminated_escape ahead)
            | inr d ↦
                rw (a, b, c, d)
                  (string_rest-Covers bytes m fuel (lexer_advance escaped)
                    (advance-Ahead bytes (suc m.start) escaped ahead))
          ]
        ]
      ]
    ]
