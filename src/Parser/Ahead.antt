-- ===== src/Parser/Ahead.antt =====
-- The tokens ahead of the parser (parser/parser.c) get fewer with each step.
use quicks_qas.Common.{
  ℕ, suc, ◌+◌, ◌-◌, ◌≤◌, ◌≡◌, inl, inr, refl, ap, false, List, Option, none, some, length, arith,
  if◌then◌else◌, Bool-cases,
}
use quicks_qas.Diag.Sink.{DiagSink, Printing}
use quicks_qas.Lexer.Cursor.{Token, Lexer}
use quicks_qas.Lexer.Scan.{Report, lexer_next}
use quicks_qas.Lexer.Next.{lexer_next-Placed, is_eof}
use quicks_qas.Lexer.Place.{IsAt}
use quicks_qas.Parser.State.{unprimed, parser_init, Parser, advance, moved, told, error_here}

abbrev pub token_weight : Token → ℕ
token_weight t = if is_eof t.kind then 0 else 1

-- The tokens held and the bytes unread.
unfoldable pub ahead : List ℕ → Parser → ℕ
ahead src p = token_weight p.cur + token_weight p.next + (length src - p.lexer.pos)

-- `q` holds the place of the lexer, with no more ahead than `n`.
pub record Within (src : List ℕ) (n : ℕ) (q : Parser) : Type 0 where
  pub place : IsAt src q.lexer
  pub few : ahead src q ≤ n

token_weight-le : (t : Token) → token_weight t ≤ 1
token_weight-le t = elim (Bool-cases (is_eof t.kind)) [
  | inl e ↦ rw e (omega arith)
  | inr e ↦ rw e (omega arith)
]

-- The token that comes in is EOF, or paid for by bytes.
token_weight-paid :
    (src : List ℕ) (lx : Lexer)
    → IsAt src lx
    → token_weight (lexer_next lx).token + (length src - (lexer_next lx).lexer.pos)
      ≤ length src - lx.pos
token_weight-paid src lx h =
    let s = lexer_next lx in
    let p = lexer_next-Placed src lx h in
    elim p.4 [
      | inl e ↦
          let light : token_weight s.token ≡ 0 = ap (λ k. if is_eof k then 0 else 1) e.0 in
          omega (arith, light, e.2)
      | inr l ↦ omega (arith, token_weight-le s.token, l, p.1, p.2, p.0.1)
    ]

ahead-told : (src : List ℕ) (p : Parser) (o : Option Report) → ahead src (told p o) ≡ ahead src p
unfolding ahead
ahead-told src p none = refl
ahead-told src p (some r) = refl

told-IsAt :
    (src : List ℕ) (p : Parser) (o : Option Report) → IsAt src p.lexer → IsAt src (told p o).lexer
told-IsAt src p none h = h
told-IsAt src p (some r) h = h

ahead-advance :
    (src : List ℕ) (p : Parser)
    → IsAt src p.lexer
    → ahead src (advance p) + token_weight p.cur ≤ ahead src p
unfolding advance ahead
ahead-advance src p h =
    let s = lexer_next p.lexer in
    let same = ahead-told src (moved p s) s.report in
    omega (arith, token_weight-paid src p.lexer h, same)

pub advance-Within : (src : List ℕ) (n : ℕ) (p : Parser) → Within src n p → Within src n (advance p)
unfolding advance
advance-Within src n p w =
    let s = lexer_next p.lexer in
    record {
      place = told-IsAt src (moved p s) s.report (lexer_next-Placed src p.lexer w.place).0;
      few = omega (arith, ahead-advance src p w.place, w.few);
    }

-- Past a token that is not EOF there is less ahead.
pub advance-Less :
    (src : List ℕ) (n : ℕ) (p : Parser)
    → is_eof p.cur.kind ≡ false
    → Within src (suc n) p
    → Within src n (advance p)
advance-Less src n p e w =
    let heavy : token_weight p.cur ≡ 1 = ap (λ b. if b then 0 else 1) e in
    record {
      place = (advance-Within src (suc n) p w).place;
      few = omega (arith, ahead-advance src p w.place, w.few, heavy);
    }

pub error_here-Within :
    (src : List ℕ) (n : ℕ) (p : Parser) → Within src n p → Within src n (error_here p)
unfolding error_here ahead
error_here-Within src n p w = record { place = w.place; few = w.few }

pub Within-le : {src : List ℕ} {n m : ℕ} (p : Parser) → Within src n p → n ≤ m → Within src m p
Within-le p w l = record { place = w.place; few = omega (arith, w.few, l) }

pub bounded : (src : List ℕ) (p : Parser) → ahead src p ≤ 2 + length src
unfolding ahead
bounded src p = omega (arith, token_weight-le p.cur, token_weight-le p.next)

advance-IsAt : (src : List ℕ) (p : Parser) → IsAt src p.lexer → IsAt src (advance p).lexer
unfolding advance
advance-IsAt src p h =
    let s = lexer_next p.lexer in
    told-IsAt src (moved p s) s.report (lexer_next-Placed src p.lexer h).0

pub parser_init-IsAt :
    (src : List ℕ) (sink : DiagSink) (prints : ℕ → Printing)
    → IsAt src (parser_init src sink prints).lexer
unfolding parser_init
parser_init-IsAt src sink prints =
    let p = unprimed src sink prints in
    advance-IsAt src (advance p) (advance-IsAt src p (refl, omega arith, refl))
