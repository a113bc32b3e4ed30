-- ===== src/Lexer/Value.antt =====
-- The values of numeric literals in lexer/lexer.c, against positional notation.
use quicks_qas.Common.{
  ℕ, zero, suc, ◌+◌, ◌-◌, ◌*◌, ◌/◌, ◌≤◌, ◌<◌, ◌≡◌, ◌⊎◌, inl, inr, refl, sym, ap, ◌∙◌, min, Bool,
  true, false, ◌&&◌, ◌||◌, List, [], ◌∷◌, Option, none, some, length, ltb, ◌==◌, if◌then◌else◌,
  arith, tests, Bool-cases, Option-cases,
}
use quicks_qas.Common.Words.{u64_max}
use quicks_qas.Lexer.Cursor.{
  TokenKind, Lexer, first_byte, second_byte, is_ident_cont, digit_value, lexer_peek, lexer_peek2,
  step_over, lexer_advance, token_set,
}
use quicks_qas.Lexer.Digits.{worth, IsBase, digit_value-eq-worth}
use quicks_qas.Lexer.Scan.{
  Scanned, Mark, mark, lexer_error, prefix_base, Digits, take_digit, lex_digits, integer_token,
  finish_number, no_digits, number_from, lex_number,
}

-- Positional notation: the digits at the front of the text, behind the value `v`, each worth its place
-- among the digits of the base.
abbrev pub numeral : ℕ → ℕ → List ℕ → ℕ
numeral base v [] = v
numeral base v (c ∷ cs) = elim (worth c base) [
  | none ↦ v
  | some dv ↦ numeral base (v * base + dv) cs
]

-- What a literal at the front of the text means: 0x, 0b and 0o select a base, all else is decimal.
abbrev pub literal_value : List ℕ → ℕ
literal_value [] = 0
literal_value (z ∷ []) = numeral 10 0 (z ∷ [])
literal_value (z ∷ n ∷ cs) =
    if z == b'0' && (n == b'x' || n == b'X')
    then numeral 16 0 cs
    else if z == b'0' && (n == b'b' || n == b'B')
    then numeral 2 0 cs
    else if z == b'0' && (n == b'o' || n == b'O')
    then numeral 8 0 cs
    else numeral 10 0 (z ∷ n ∷ cs)

digit_value_lt : (c base dv : ℕ) → digit_value c base ≡ some dv → dv < base
unfolding digit_value
digit_value_lt c base dv h = ground arith

-- The division form of the overflow test.
overflow_test :
    (base v dv : ℕ)
    → IsBase base
    → dv < base
    → ltb ((u64_max - dv) / base) v ≡ ltb u64_max (v * base + dv)
overflow_test base v dv (inl e) l = rw e (ground arith)
overflow_test base v dv (inr (inl e)) l = rw e (ground arith)
overflow_test base v dv (inr (inr (inl e))) l = rw e (ground arith)
overflow_test base v dv (inr (inr (inr e))) l = rw e (ground arith)

grows : (base v dv : ℕ) → IsBase base → v ≤ v * base + dv
grows base v dv (inl e) = rw e (omega arith)
grows base v dv (inr (inl e)) = rw e (omega arith)
grows base v dv (inr (inr (inl e))) = rw e (omega arith)
grows base v dv (inr (inr (inr e))) = rw e (omega arith)

numeral_le : (base v : ℕ) (cs : List ℕ) → IsBase base → v ≤ numeral base v cs
numeral_le base v [] b = omega arith
numeral_le base v (c ∷ cs) b = elim (Option-cases (worth c base)) [
  | inl e ↦ rw (e, numeral) (omega arith)
  | inr w ↦
      rw (w.1, numeral) (omega (arith, grows base v w.0 b, numeral_le base (v * base + w.0) cs b))
]

peek_lem : (lx : Lexer) (xs : List ℕ) → lx.rest ≡ xs → lexer_peek lx ≡ first_byte xs
unfolding lexer_peek
peek_lem lx xs e = ap first_byte e

abbrev later : List ℕ → List ℕ
later [] = []
later (c ∷ cs) = cs

rest-step : (xs : List ℕ) (lx : Lexer) → lx.rest ≡ xs → (step_over xs lx).rest ≡ later xs
rest-step [] lx e = e
rest-step (c ∷ cs) lx e = ground arith

rest-lexer_advance : (lx : Lexer) → (lexer_advance lx).rest ≡ later lx.rest
unfolding lexer_advance
rest-lexer_advance lx = rest-step lx.rest lx refl

abbrev digits : Lexer → ℕ → Bool → ℕ → Digits
digits lx v o n = record { lexer = lx; value = v; overflow = o; digit_count = n }

take_digit-fits :
    (base : ℕ) (lx : Lexer) (v : ℕ) (o : Bool) (n dv : ℕ)
    → ltb ((u64_max - dv) / base) v ≡ false
    → take_digit base (digits lx v o n) dv ≡ digits (lexer_advance lx) (v * base + dv) o (n + 1)
take_digit-fits base lx v o n dv h = rw h refl

take_digit-exceeds :
    (base : ℕ) (lx : Lexer) (v : ℕ) (o : Bool) (n dv : ℕ)
    → ltb ((u64_max - dv) / base) v ≡ true
    → take_digit base (digits lx v o n) dv ≡ digits (lexer_advance lx) v true (n + 1)
take_digit-exceeds base lx v o n dv h = rw h refl

overflow_stays :
    (base fuel : ℕ) (lx : Lexer) (v n : ℕ)
    → (lex_digits base fuel (digits lx v true n)).overflow ≡ true
unfolding lex_digits
overflow_stays base zero lx v n = refl
overflow_stays base (suc fuel) lx v n = elim (Option-cases (digit_value (lexer_peek lx) base)) [
  | inl e ↦ rw (e, lex_digits) refl
  | inr w ↦ elim (Bool-cases (ltb ((u64_max - w.0) / base) v)) [
    | inl q ↦
        rw (w.1, lex_digits, take_digit-exceeds base lx v true n w.0 q)
          (overflow_stays base fuel (lexer_advance lx) v (n + 1))
    | inr q ↦
        rw (w.1, lex_digits, take_digit-fits base lx v true n w.0 q)
          (overflow_stays base fuel (lexer_advance lx) (v * base + w.0) (n + 1))
  ]
]

-- The loop's result stands for the number `v`: exactly, or as an overflow with the largest value.
abbrev Stands : Digits → ℕ → Type 0
Stands d v =
    (d.overflow ≡ ltb u64_max v) × ((if d.overflow then u64_max else d.value) ≡ min v u64_max)

fits-Stands : (lx : Lexer) (v n : ℕ) → v ≤ u64_max → Stands (digits lx v false n) v
fits-Stands lx v n h = (ground arith, omega arith)

exceeds-Stands : (d : Digits) (v : ℕ) → d.overflow ≡ true → u64_max < v → Stands d v
exceeds-Stands d v e h = (ground arith, ground arith)

no_digit : (base : ℕ) → digit_value 0 base ≡ none
unfolding digit_value
no_digit base = ground arith

lex_digits-Stands :
    (base fuel : ℕ) (xs : List ℕ) (lx : Lexer) (v n : ℕ)
    → IsBase base
    → lx.rest ≡ xs
    → length xs ≤ fuel
    → v ≤ u64_max
    → Stands (lex_digits base fuel (digits lx v false n)) (numeral base v xs)
unfolding lex_digits
lex_digits-Stands base zero [] lx v n b e l h = fits-Stands lx v n h
lex_digits-Stands base zero (c ∷ cs) lx v n b e l h = absurd (omega arith)
lex_digits-Stands base (suc fuel) [] lx v n b e l h =
    rw (peek_lem lx [] e, no_digit base, lex_digits) (fits-Stands lx v n h)
lex_digits-Stands base (suc fuel) (c ∷ cs) lx v n b e l h =
    let same = digit_value-eq-worth c base b in
    elim (Option-cases (digit_value c base)) [
      | inl q ↦
          rw
            (
              ap (λ k. digit_value k base) (peek_lem lx (c ∷ cs) e) ∙ q,
              sym same ∙ q,
              lex_digits,
              numeral,
            )
            (fits-Stands lx v n h)
      | inr w ↦
          let here = ap (λ k. digit_value k base) (peek_lem lx (c ∷ cs) e) ∙ w.1 in
          let dv = w.0 in
          let weighs = sym same ∙ w.1 in
          let test = overflow_test base v dv b (digit_value_lt c base dv w.1) in
          elim (Bool-cases (ltb ((u64_max - dv) / base) v)) [
            | inl q ↦
                rw (here, weighs, lex_digits, numeral, take_digit-exceeds base lx v false n dv q)
                  (exceeds-Stands (lex_digits base fuel (digits (lexer_advance lx) v true (n + 1)))
                    (numeral base (v * base + dv) cs)
                    (overflow_stays base fuel (lexer_advance lx) v (n + 1))
                    (omega (arith, tests, sym test ∙ q, numeral_le base (v * base + dv) cs b)))
            | inr q ↦
                rw (here, weighs, lex_digits, numeral, take_digit-fits base lx v false n dv q)
                  (lex_digits-Stands base fuel cs (lexer_advance lx) (v * base + dv) (n + 1) b
                    (rest-lexer_advance lx ∙ ap later e) (omega arith)
                    (ground (arith, sym test ∙ q)))
          ]
    ]

-- The token of a literal that is not malformed has the literal's value: the integer's value when it
-- fits in 64 bits, else the largest 64-bit value and the overflow mark.
abbrev pub Valued : Scanned → ℕ → Type 0
Valued s v =
    (s.token.kind ≡ TokenKind.error)
    ⊎ ((s.token.kind ≡ TokenKind.integer)
        × (s.token.int_overflow ≡ ltb u64_max v)
        × (s.token.int_value ≡ min v u64_max))

integer_token_at :
    (m : Mark) (lx : Lexer) (value : ℕ) (o : Bool) (n v : ℕ)
    → Stands (digits lx value o n) v
    → Valued (integer_token m (digits lx value o n)) v
unfolding integer_token
integer_token_at m lx value true n v h = inr (refl, h.0, h.1)
integer_token_at m lx value false n v h = inr (refl, h.0, h.1)

finish_number-Valued :
    (m : Mark) (has_prefix : Bool) (d : Digits) (v : ℕ)
    → Stands d v
    → Valued (finish_number m has_prefix d) v
unfolding finish_number lexer_error token_set
finish_number-Valued m has_prefix d v h =
    elim (Bool-cases ((has_prefix && d.digit_count == 0) || is_ident_cont (lexer_peek d.lexer))) [
      | inl q ↦ rw q (inl refl)
      | inr q ↦ rw q (integer_token_at m d.lexer d.value d.overflow d.digit_count v h)
    ]

run_of :
    (base : ℕ) (lx : Lexer)
    → IsBase base
    → Stands (lex_digits base (length lx.rest) (no_digits lx)) (numeral base 0 lx.rest)
run_of base lx b =
    lex_digits-Stands base (length lx.rest) lx.rest lx 0 0 b refl (omega arith) (omega arith)

-- How a prefix and what the literal means go together.
abbrev Prefixed : List ℕ → Option ℕ → Type 0
Prefixed xs none = literal_value xs ≡ numeral 10 0 xs
Prefixed xs (some base) = IsBase base × (literal_value xs ≡ numeral base 0 (later (later xs)))

abbrev prefix_of : ℕ → ℕ → Option ℕ
prefix_of z n =
    if z == b'0'
    then (if n == b'x' || n == b'X'
        then some 16
        else if n == b'b' || n == b'B'
        then some 2
        else if n == b'o' || n == b'O'
        then some 8
        else none)
    else none

prefix_of-Prefixed : (z n : ℕ) (cs : List ℕ) → Prefixed (z ∷ n ∷ cs) (prefix_of z n)
prefix_of-Prefixed z n cs = elim (Bool-cases (z == b'0')) [
  | inr q ↦ rw q (rw q refl)
  | inl q ↦ elim (Bool-cases (n == b'x' || n == b'X')) [
    | inl r ↦ rw (q, r) (inr (inr (inr refl)), rw (q, r) refl)
    | inr r ↦ elim (Bool-cases (n == b'b' || n == b'B')) [
      | inl s ↦ rw (q, r, s) (inl refl, rw (q, r, s) refl)
      | inr s ↦ elim (Bool-cases (n == b'o' || n == b'O')) [
        | inl u ↦ rw (q, r, s, u) (inr (inl refl), rw (q, r, s, u) refl)
        | inr u ↦ rw (q, r, s, u) (rw (q, r, s, u) refl)
      ]
    ]
  ]
]

front-Prefixed : (xs : List ℕ) → Prefixed xs (prefix_of (first_byte xs) (second_byte xs))
front-Prefixed [] = refl
front-Prefixed (z ∷ []) = elim (Bool-cases (z == b'0')) [ inr q ↦ rw q refl | inl q ↦ rw q refl ]
front-Prefixed (z ∷ n ∷ cs) = prefix_of-Prefixed z n cs

prefix_base-Prefixed : (lx : Lexer) → Prefixed lx.rest (prefix_base lx)
unfolding prefix_base lexer_peek lexer_peek2
prefix_base-Prefixed lx = front-Prefixed lx.rest

number_from-Valued :
    (m : Mark) (lx : Lexer) (base : Option ℕ)
    → Prefixed lx.rest base
    → Valued (number_from m lx base) (literal_value lx.rest)
unfolding number_from
number_from-Valued m lx none h = rw h (
    finish_number-Valued m false (lex_digits 10 (length lx.rest) (no_digits lx))
      (numeral 10 0 lx.rest) (run_of 10 lx (inr (inr (inl refl)))))
number_from-Valued m lx (some base) h =
    let at = lexer_advance (lexer_advance lx) in
    let rest = rest-lexer_advance (lexer_advance lx) ∙ ap later (rest-lexer_advance lx) in
    rw (h.1, sym rest)
      (finish_number-Valued m true (lex_digits base (length at.rest) (no_digits at))
        (numeral base 0 at.rest) (run_of base at h.0))

-- For every cursor, `lexer_lex_number` gives an error token, or an integer token that means what the
-- literal in front of the cursor says in positional notation: the value and no overflow up to 2^64 - 1,
-- else the overflow mark and 2^64 - 1.
pub lex_number-Valued : (lx : Lexer) → Valued (lex_number lx) (literal_value lx.rest)
unfolding lex_number
lex_number-Valued lx = number_from-Valued (mark lx) lx (prefix_base lx) (prefix_base-Prefixed lx)
