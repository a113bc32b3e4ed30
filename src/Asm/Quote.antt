-- ===== src/Asm/Quote.antt =====
-- A printer of string literals, which is no code of the repository, and the decoder of asm/internal/strdec.c as
-- its inverse.
use quicks_qas.Common.{
  ℕ, ◌+◌, ◌*◌, ◌/◌, ◌%◌, ◌<◌, ◌≡◌, inl, inr, refl, ap, ◌∙◌, true, ◌&&◌, ◌||◌, List, [], ◌∷◌, ◌++◌,
  none, some, leb, ◌==◌, arith, if◌then◌else◌, Bool-cases,
}
use quicks_qas.Asm.Strdec.{octal_digits, simple_escape, escape, scan_char, low_byte_of}

-- A quote or a backslash behind a backslash, printable ASCII as it is, any other byte in octal.
unfoldable pub quote_byte : ℕ → List ℕ
quote_byte c =
    if c == 34 || c == 92
    then 92 ∷ c ∷ []
    else if leb 32 c && leb c 126
    then c ∷ []
    else 92 ∷ (48 + c / 64) ∷ (48 + c / 8 % 8) ∷ (48 + c % 8) ∷ []

unfoldable pub quote : List ℕ → List ℕ
quote [] = []
quote (c ∷ cs) = quote_byte c ++ quote cs

unfoldable pub AllBytes : List ℕ → Type 0
AllBytes [] = Unit {0}
AllBytes (c ∷ cs) = (c < 256) × AllBytes cs

-- One round of the decoder on a list that starts with a printed byte.
pub record Reads (stop c : ℕ) (bytes rest : List ℕ) : Type 0 where
  pub head : ℕ
  pub tail : List ℕ
  pub starts : bytes ≡ head ∷ tail
  pub scanned : scan_char stop head tail ≡ record { value = some c; report = none; rest = rest }

octal_escape :
    (a b d : ℕ) (rest : List ℕ)
    → a < 8
    → b < 8
    → d < 8
    → low_byte_of (octal_digits 3 0 ((48 + a) ∷ (48 + b) ∷ (48 + d) ∷ rest))
      ≡ record { value = some ((a * 64 + b * 8 + d) % 256); report = none; rest = rest }
unfolding octal_digits
octal_escape a b d rest ha hb hd = ground (arith, ha, hb, hd)

no_simple : (a : ℕ) → a < 8 → simple_escape (48 + a) ≡ none
unfolding simple_escape
no_simple a h = ground (arith, h)

escaped_sign :
    (stop c : ℕ) (rest : List ℕ)
    → (c == 34 || c == 92) ≡ true
    → escape stop (c ∷ rest) ≡ record { value = some c; report = none; rest = rest }
unfolding escape simple_escape
escaped_sign stop c rest e = ground (arith, e)

escape_octal :
    (stop a : ℕ) (more : List ℕ)
    → a < 8
    → escape stop ((48 + a) ∷ more) ≡ low_byte_of (octal_digits 3 0 ((48 + a) ∷ more))
unfolding escape
escape_octal stop a more h = rw (no_simple a h, escape) (ground (arith, h))

pub quote_byte-Reads :
    (stop c : ℕ) (rest : List ℕ) → c < 256 → Reads stop c (quote_byte c ++ rest) rest
unfolding quote_byte scan_char
quote_byte-Reads stop c rest h = elim (Bool-cases (c == 34 || c == 92)) [
  | inl e ↦ record {
    head = 92;
    tail = c ∷ rest;
    starts = rw (e, quote_byte) refl;
    scanned = escaped_sign stop c rest e;
  }
  | inr e ↦ elim (Bool-cases (leb 32 c && leb c 126)) [
    | inl f ↦ record {
      head = c;
      tail = rest;
      starts = rw (e, quote_byte) (rw f refl);
      scanned = ground (arith, e);
    }
    | inr f ↦ record {
      head = 92;
      tail = (48 + c / 64) ∷ (48 + c / 8 % 8) ∷ (48 + c % 8) ∷ rest;
      starts = rw (e, quote_byte) (rw f refl);
      scanned =
          escape_octal stop (c / 64) ((48 + c / 8 % 8) ∷ (48 + c % 8) ∷ rest) (omega arith)
          ∙ octal_escape (c / 64) (c / 8 % 8) (c % 8) rest (omega arith) (omega arith) (omega arith)
          ∙ ap (λ v. record { value = some v; report = none; rest = rest }) (omega (arith, h));
    }
  ]
]
