-- ===== src/Lexer/Next.antt =====
-- `qas_lexer_next` of lexer/lexer.c as a whole: where its tokens lie, and that the tokens of a source end.
use quicks_qas.Common.{
  ℕ, zero, suc, ◌+◌, ◌-◌, ◌≤◌, ◌<◌, ◌≡◌, ◌⊎◌, inl, inr, refl, sym, ap, ◌∙◌, Bool, true, false, List,
  [], ◌∷◌, Option, none, some, length, length-drop, ◌==◌, if◌then◌else◌, arith, Bool-cases,
}
use quicks_qas.Source.Index.{clamped, from_memory, source_location}
use quicks_qas.Source.Location.{walk, narrowed, positions, source_location-walk}
use quicks_qas.Lexer.Cursor.{
  TokenKind, Lexer, is_empty, is_digit, is_ident_start, lexer_peek, lexer_peek2, at_end,
  lexer_advance, advance_while, token_set, lexer_init,
}
use quicks_qas.Lexer.Scan.{
  Message, Scanned, mark, lexer_error, lex_number, lex_string, in_comment, is_blank, skip_blanks,
  punctuation, lex_other, lex_token, lex_first, lexer_next, prefix_base,
}
use quicks_qas.Lexer.Place.{
  here, IsAt, Ahead, lexer_advance-IsAt, pos-lexer_advance, advance-Ahead, advance_while-Ahead,
}
use quicks_qas.Lexer.Span.{
  Covers, lex_identifier-Covers, lex_directive-Covers, number_from-Covers, string_rest-Covers,
  lexer_error-Covers, begun,
}

-- A byte that starts no token.
skipped-Covers :
    (bytes : List ℕ) (lx : Lexer) (message : Message)
    → IsAt bytes lx
    → at_end lx ≡ false
    → Covers bytes (mark lx) (lexer_error (lexer_advance lx) (mark lx) 1 message)
skipped-Covers bytes lx message h e =
    lexer_error-Covers bytes (mark lx) (lexer_advance lx) 1 message (begun bytes lx h e)
      (omega (arith, pos-lexer_advance lx e))

lex_other-Covers :
    (bytes : List ℕ) (lx : Lexer)
    → IsAt bytes lx
    → at_end lx ≡ false
    → Covers bytes (mark lx) (lex_other lx)
unfolding lex_other lex_number lex_string
lex_other-Covers bytes lx h e =
    let c = lexer_peek lx in
    elim (Bool-cases (c == b'"')) [
      | inl q ↦ rw q (
          string_rest-Covers bytes (mark lx) (length (lexer_advance lx).rest) (lexer_advance lx)
            (begun bytes lx h e))
      | inr q ↦ elim (Bool-cases (c == b'.')) [
        | inl r ↦ elim (Bool-cases (is_ident_start (lexer_peek2 lx))) [
          | inl s ↦ rw (q, r, s) (lex_directive-Covers bytes lx h e)
          | inr s ↦ rw (q, r, s) (skipped-Covers bytes lx Message.unexpected_dot h e)
        ]
        | inr r ↦ elim (Bool-cases (is_digit c)) [
          | inl s ↦ rw (q, r, s) (number_from-Covers bytes lx (prefix_base lx) h e s)
          | inr s ↦ elim (Bool-cases (is_ident_start c)) [
            | inl u ↦ rw (q, r, s, u) (lex_identifier-Covers bytes lx h e u)
            | inr u ↦ rw (q, r, s, u) (skipped-Covers bytes lx (Message.unexpected_byte c) h e)
          ]
        ]
      ]
    ]

lex_token-Covers :
    (bytes : List ℕ) (lx : Lexer) (kind : Option TokenKind)
    → IsAt bytes lx
    → at_end lx ≡ false
    → Covers bytes (mark lx) (lex_token lx kind)
unfolding lex_token token_set
lex_token-Covers bytes lx (some kind) h e = (
  lexer_advance-IsAt bytes lx h,
  refl,
  refl,
  refl,
  omega (arith, pos-lexer_advance lx e),
  omega arith,
)
lex_token-Covers bytes lx none h e = lex_other-Covers bytes lx h e

skip_blanks-Ahead :
    (fuel : ℕ) (bytes : List ℕ) (start : ℕ) (lx : Lexer)
    → Ahead bytes start lx
    → Ahead bytes start (skip_blanks fuel lx)
unfolding skip_blanks
skip_blanks-Ahead zero bytes start lx h = h
skip_blanks-Ahead (suc fuel) bytes start lx h = elim (Bool-cases (is_blank (lexer_peek lx))) [
  | inl q ↦
      rw q (skip_blanks-Ahead fuel bytes start (lexer_advance lx) (advance-Ahead bytes start lx h))
  | inr q ↦ elim (Bool-cases (lexer_peek lx == b';')) [
    | inl r ↦
        rw (q, r)
          (skip_blanks-Ahead fuel bytes start (advance_while in_comment (length lx.rest) lx)
            (advance_while-Ahead in_comment (length lx.rest) bytes start lx h))
    | inr r ↦ rw (q, r) h
  ]
]

is_empty-length : (xs : List ℕ) → is_empty xs ≡ true → length xs ≡ 0
is_empty-length [] h = refl
is_empty-length (x ∷ xs) h = ground arith

pos-at_end :
    (bytes : List ℕ) (lx : Lexer) → IsAt bytes lx → at_end lx ≡ true → lx.pos ≡ length bytes
unfolding at_end
pos-at_end bytes lx h e =
    omega (arith, h.1, is_empty-length lx.rest e, ap length h.0, length-drop lx.pos bytes)

-- A cursor's counters are what the source says of its offset.
clamped_lem : (o n : ℕ) → o ≤ n → clamped o n ≡ o
clamped_lem o n h = ground arith

location-IsAt :
    (bytes : List ℕ) (lx : Lexer)
    → IsAt bytes lx
    → source_location (from_memory bytes) lx.pos ≡ some (here lx)
location-IsAt bytes lx h =
    source_location-walk bytes lx.pos
    ∙ ap (λ k. some (narrowed (walk k bytes 1 1))) (clamped_lem lx.pos (length bytes) h.1)
    ∙ ap some (sym h.2)

-- What a call from a cursor at `start` leaves.
abbrev pub Placed : List ℕ → ℕ → Scanned → Type 0
Placed bytes start s =
    IsAt bytes s.lexer
    × (start ≤ s.token.offset)
    × (s.token.offset + s.token.len ≡ s.lexer.pos)
    × (source_location (from_memory bytes) s.token.offset
        ≡ some (record { line = s.token.line; column = s.token.column }))
    × (((s.token.kind ≡ TokenKind.eof) × (s.token.len ≡ 0) × (s.lexer.pos ≡ length bytes))
        ⊎ (1 ≤ s.token.len))

covered-Placed :
    (bytes : List ℕ) (start : ℕ) (lx : Lexer) (s : Scanned)
    → Ahead bytes start lx
    → Covers bytes (mark lx) s
    → Placed bytes start s
covered-Placed bytes start lx s h c = (
  c.0,
  omega (arith, c.1, h.1),
  omega (arith, c.1, c.4),
  ap (source_location (from_memory bytes)) c.1
      ∙ location-IsAt bytes lx h.0
      ∙ ap some (sym (positions c.2 c.3)),
  inr c.5,
)

lex_first-Placed :
    (bytes : List ℕ) (start : ℕ) (lx : Lexer)
    → Ahead bytes start lx
    → Placed bytes start (lex_first lx)
unfolding lex_first token_set
lex_first-Placed bytes start lx h = elim (Bool-cases (at_end lx)) [
  | inl q ↦ rw q (
    h.0,
    h.1,
    omega arith,
    location-IsAt bytes lx h.0,
    inl (refl, refl, pos-at_end bytes lx h.0 q),
  )
  | inr q ↦ rw q (
      covered-Placed bytes start lx (lex_token lx (punctuation (lexer_peek lx))) h
        (lex_token-Covers bytes lx (punctuation (lexer_peek lx)) h.0 q))
]

-- For every cursor that stands in the bytes with the counters of its place, a call of `qas_lexer_next`
-- leaves such a cursor; its token lies behind the old cursor and ends at the new one; the token's line
-- and column are the ones that `qas_source_location` computes for its offset; and the token is EOF,
-- empty, with nothing left, or it takes at least one byte.
pub lexer_next-Placed :
    (bytes : List ℕ) (lx : Lexer) → IsAt bytes lx → Placed bytes lx.pos (lexer_next lx)
unfolding lexer_next
lexer_next-Placed bytes lx h =
    lex_first-Placed bytes lx.pos (skip_blanks (length lx.rest) lx)
      (skip_blanks-Ahead (length lx.rest) bytes lx.pos lx (h, omega arith))

abbrev pub is_eof : TokenKind → Bool
is_eof TokenKind.eof = true
is_eof _ = false

-- Whether one of the next calls gives EOF.
abbrev pub ends_within : ℕ → Lexer → Bool
ends_within zero lx = false
ends_within (suc calls) lx =
    let s = lexer_next lx in
    let more = ends_within calls s.lexer in if is_eof s.token.kind then true else more

ends_within_lem :
    (calls : ℕ) (bytes : List ℕ) (lx : Lexer)
    → IsAt bytes lx
    → length bytes - lx.pos < calls
    → ends_within calls lx ≡ true
ends_within_lem zero bytes lx h f = absurd (omega arith)
ends_within_lem (suc calls) bytes lx h f =
    let s = lexer_next lx in
    let p = lexer_next-Placed bytes lx h in
    elim (Bool-cases (is_eof s.token.kind)) [
      | inl q ↦ rw q refl
      | inr q ↦ elim p.4 [
        | inl e ↦ rw e.0 refl
        | inr l ↦ rw q (ends_within_lem calls bytes s.lexer p.0 (omega (arith, p.0.1, p.1, p.2)))
      ]
    ]

-- From the start of any source, whatever its bytes, one of the first size + 1 calls of
-- `qas_lexer_next` gives the EOF token.
pub lexer_init-ends_within :
    (bytes : List ℕ) → ends_within (suc (length bytes)) (lexer_init bytes) ≡ true
lexer_init-ends_within bytes =
    ends_within_lem (suc (length bytes)) bytes (lexer_init bytes) (refl, omega arith, refl)
      (omega arith)
