-- ===== src/Lexer/Place.antt =====
-- The cursor of lexer/lexer.c stands where its counters say: the invariant, and how the loops keep it.
use quicks_qas.Common.{
  ℕ, zero, suc, ◌+◌, ◌≤◌, ◌≡◌, inl, inr, refl, sym, ap, ◌∙◌, Bool, false, List, [], ◌∷◌, length,
  drop, ◌==◌, if◌then◌else◌, arith, Bool-cases,
}
use quicks_qas.Common.Words.{u32}
use quicks_qas.Source.Index.{Position}
use quicks_qas.Source.Location.{walk, narrowed, position, positions}
use quicks_qas.Lexer.Cursor.{
  Lexer, is_empty, first_byte, at_end, step_over, lexer_advance, advance_while,
}

-- The position that the counters hold.
abbrev pub here : Lexer → Position
here lx = record { line = lx.line; column = lx.column }

-- The cursor is inside the bytes, with the rest of them before it and the counters of its place.
abbrev pub IsAt : List ℕ → Lexer → Type 0
IsAt bytes lx =
    (lx.rest ≡ drop lx.pos bytes)
    × (lx.pos ≤ length bytes)
    × (here lx ≡ narrowed (walk lx.pos bytes 1 1))

abbrev pub Ahead : List ℕ → ℕ → Lexer → Type 0
Ahead bytes start lx = IsAt bytes lx × (start ≤ lx.pos)

abbrev after_byte : ℕ → Position → Position
after_byte c p =
    if c == b'\n'
    then record { line = p.line + 1; column = 1 }
    else record { line = p.line; column = p.column + 1 }

abbrev later : List ℕ → List ℕ
later [] = []
later (c ∷ cs) = cs

walk-suc :
    (n : ℕ) (cs : List ℕ) (c : ℕ) (rest : List ℕ) (l col : ℕ)
    → c ∷ rest ≡ drop n cs
    → walk (suc n) cs l col ≡ after_byte c (walk n cs l col)
walk-suc zero [] c rest l col e = absurd (omega (arith, ap length e))
walk-suc zero (d ∷ cs) c rest l col e =
    ap (λ x. if x == b'\n' then record { line = l + 1; column = 1 } else position l (col + 1))
      (sym (ap first_byte e))
walk-suc (suc n) [] c rest l col e = absurd (omega (arith, ap length e))
walk-suc (suc n) (d ∷ cs) c rest l col e = elim (Bool-cases (d == b'\n')) [
  | inl q ↦ rw q (walk-suc n cs c rest (l + 1) 1 e)
  | inr q ↦ rw q (walk-suc n cs c rest l (col + 1) e)
]

drop-suc :
    (n : ℕ) (cs : List ℕ) (c : ℕ) (rest : List ℕ)
    → c ∷ rest ≡ drop n cs
    → (rest ≡ drop (suc n) cs) × (suc n ≤ length cs)
drop-suc zero [] c rest e = absurd (omega (arith, ap length e))
drop-suc zero (d ∷ cs) c rest e = (ap later e, omega arith)
drop-suc (suc n) [] c rest e = absurd (omega (arith, ap length e))
drop-suc (suc n) (d ∷ cs) c rest e =
    let more = drop-suc n cs c rest e in (more.0, omega (arith, more.1))

u32-suc : (a b : ℕ) → a ≡ u32 b → u32 (a + 1) ≡ u32 (b + 1)
u32-suc a b h = omega arith

here-step_over :
    (c : ℕ) (cs : List ℕ) (lx : Lexer) (w : Position)
    → here lx ≡ narrowed w
    → here (step_over (c ∷ cs) lx) ≡ narrowed (after_byte c w)
here-step_over c cs lx w h = elim (Bool-cases (c == b'\n')) [
  | inl q ↦ rw q (positions (u32-suc lx.line w.line (ap (λ p. p.line) h)) refl)
  | inr q ↦
      rw q (positions (ap (λ p. p.line) h) (u32-suc lx.column w.column (ap (λ p. p.column) h)))
]

rest-step_over : (c : ℕ) (cs : List ℕ) (lx : Lexer) → (step_over (c ∷ cs) lx).rest ≡ cs
rest-step_over c cs lx = ground arith

pos-step_over : (c : ℕ) (cs : List ℕ) (lx : Lexer) → (step_over (c ∷ cs) lx).pos ≡ suc lx.pos
pos-step_over c cs lx = ground arith

step_over-IsAt :
    (xs bytes : List ℕ) (lx : Lexer) → lx.rest ≡ xs → IsAt bytes lx → IsAt bytes (step_over xs lx)
step_over-IsAt [] bytes lx e h = h
step_over-IsAt (c ∷ cs) bytes lx e h =
    let inside = sym e ∙ h.0 in
    let next = drop-suc lx.pos bytes c cs inside in
    let at = pos-step_over c cs lx in
    (
      rest-step_over c cs lx ∙ next.0 ∙ ap (λ k. drop k bytes) (sym at),
      omega (arith, at, next.1),
      here-step_over c cs lx (walk lx.pos bytes 1 1) h.2
          ∙ ap narrowed (sym (walk-suc lx.pos bytes c cs 1 1 inside))
          ∙ ap (λ k. narrowed (walk k bytes 1 1)) (sym at),
    )

pub lexer_advance-IsAt :
    (bytes : List ℕ) (lx : Lexer) → IsAt bytes lx → IsAt bytes (lexer_advance lx)
unfolding lexer_advance
lexer_advance-IsAt bytes lx h = step_over-IsAt lx.rest bytes lx refl h

pos-step : (xs : List ℕ) (lx : Lexer) → is_empty xs ≡ false → (step_over xs lx).pos ≡ suc lx.pos
pos-step [] lx h = ground arith
pos-step (c ∷ cs) lx h = pos-step_over c cs lx

pub pos-lexer_advance : (lx : Lexer) → at_end lx ≡ false → (lexer_advance lx).pos ≡ suc lx.pos
unfolding lexer_advance at_end
pos-lexer_advance lx h = pos-step lx.rest lx h

pos-step_le : (xs : List ℕ) (lx : Lexer) → lx.pos ≤ (step_over xs lx).pos
pos-step_le [] lx = omega arith
pos-step_le (c ∷ cs) lx = omega (arith, pos-step_over c cs lx)

pub lexer_advance_le : (lx : Lexer) → lx.pos ≤ (lexer_advance lx).pos
unfolding lexer_advance
lexer_advance_le lx = pos-step_le lx.rest lx

pub advance-Ahead :
    (bytes : List ℕ) (start : ℕ) (lx : Lexer)
    → Ahead bytes start lx
    → Ahead bytes start (lexer_advance lx)
advance-Ahead bytes start lx h =
    (lexer_advance-IsAt bytes lx h.0, omega (arith, h.1, lexer_advance_le lx))

pub advance_while-Ahead :
    (go : Lexer → Bool) (fuel : ℕ) (bytes : List ℕ) (start : ℕ) (lx : Lexer)
    → Ahead bytes start lx
    → Ahead bytes start (advance_while go fuel lx)
unfolding advance_while
advance_while-Ahead go zero bytes start lx h = h
advance_while-Ahead go (suc fuel) bytes start lx h = elim (Bool-cases (go lx)) [
  | inl q ↦
      rw q (
        advance_while-Ahead go fuel bytes start (lexer_advance lx) (advance-Ahead bytes start lx h))
  | inr q ↦ rw q h
]
