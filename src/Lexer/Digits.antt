-- ===== src/Lexer/Digits.antt =====
-- The digits of the numeric literals that lexer/lexer.c reads, as characters in order of their worth.
use quicks_qas.Common.{
  ℕ, zero, suc, ◌≤◌, ◌<◌, ◌≡◌, sym, ◌∙◌, ◌⊎◌, inl, inr, refl, Bool, true, false, List, [], ◌∷◌,
  Option, none, some, take, codes, leb, ◌==◌, if◌then◌else◌, arith, Bool-cases,
}
use quicks_qas.Common.Table.{up_to, up_to-at}
use quicks_qas.Lexer.Cursor.{digit_value}

abbrev pub next_place : Option ℕ → Option ℕ
next_place none = none
next_place (some i) = some (suc i)

-- The index of a character in a text.
abbrev pub position : ℕ → List ℕ → Option ℕ
position c [] = none
position c (x ∷ xs) = if c == x then some 0 else next_place (position c xs)

abbrev pub either : Option ℕ → Option ℕ → Option ℕ
either none o = o
either (some i) o = some i

-- What a character is worth as a digit: its place among the first `base` digits, in either case.
abbrev pub worth : ℕ → ℕ → Option ℕ
worth c base =
    either (position c (take base (codes "0123456789abcdef")))
      (position c (take base (codes "0123456789ABCDEF")))

abbrev pub IsBase : ℕ → Type 0
IsBase base = (base ≡ 2) ⊎ (base ≡ 8) ⊎ (base ≡ 10) ⊎ (base ≡ 16)

abbrev same : Option ℕ → Option ℕ → Bool
same none none = true
same none (some j) = false
same (some i) none = false
same (some i) (some j) = i == j

same_lem : (o p : Option ℕ) → same o p ≡ true → o ≡ p
same_lem none none h = refl
same_lem none (some j) h = cc
same_lem (some i) none h = cc
same_lem (some i) (some j) h = ground (arith, h)

agrees : ℕ → ℕ → Bool
agrees base c = same (digit_value c base) (worth c base)

agree2 : up_to (agrees 2) 102 ≡ true
unfolding agrees digit_value up_to
agree2 = refl

agree8 : up_to (agrees 8) 102 ≡ true
unfolding agrees digit_value up_to
agree8 = refl

agree10 : up_to (agrees 10) 102 ≡ true
unfolding agrees digit_value up_to
agree10 = refl

agree16 : up_to (agrees 16) 102 ≡ true
unfolding agrees digit_value up_to
agree16 = refl

agree : (base : ℕ) → IsBase base → up_to (agrees base) 102 ≡ true
agree base (inl e) = rw e agree2
agree base (inr (inl e)) = rw e agree8
agree base (inr (inr (inl e))) = rw e agree10
agree base (inr (inr (inr e))) = rw e agree16

-- Past the letter f there is no digit.
beyond : (c base : ℕ) → IsBase base → 103 ≤ c → digit_value c base ≡ none
unfolding digit_value
beyond c base b l = ground arith

abbrev AllBelow : ℕ → List ℕ → Type 0
AllBelow c [] = Unit {0}
AllBelow c (x ∷ xs) = (x < c) × AllBelow c xs

position_beyond : (c : ℕ) (xs : List ℕ) → AllBelow c xs → position c xs ≡ none
position_beyond c [] h = refl
position_beyond c (x ∷ xs) (l, h) = ground (arith, position_beyond c xs h)

AllBelow-take : (c n : ℕ) (xs : List ℕ) → AllBelow c xs → AllBelow c (take n xs)
AllBelow-take c zero xs h = tt
AllBelow-take c (suc n) [] h = tt
AllBelow-take c (suc n) (x ∷ xs) (l, h) = (l, AllBelow-take c n xs h)

not_among : (c n : ℕ) (xs : List ℕ) → AllBelow c xs → position c (take n xs) ≡ none
not_among c n xs h = position_beyond c (take n xs) (AllBelow-take c n xs h)

worth_beyond : (c base : ℕ) → 103 ≤ c → worth c base ≡ none
worth_beyond c base l =
    rw
      (
        not_among c base (codes "0123456789abcdef") (omega arith),
        not_among c base (codes "0123456789ABCDEF") (omega arith),
      )
      refl

-- `digit_value` gives each character its worth.
pub digit_value-eq-worth : (c base : ℕ) → IsBase base → digit_value c base ≡ worth c base
digit_value-eq-worth c base b = elim (Bool-cases (leb c 102)) [
  | inl l ↦
      same_lem (digit_value c base) (worth c base)
        (unfold agrees in up_to-at (agrees base) 102 c (ground (arith, l)) (agree base b))
  | inr g ↦ beyond c base b (ground (arith, g)) ∙ sym (worth_beyond c base (ground (arith, g)))
]
