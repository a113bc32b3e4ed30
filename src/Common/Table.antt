-- ===== src/Common/Table.antt =====
-- The `|` of shifted bit fields is their sum: a finite fact, evaluated for each value of the fields.
use Prim.Native.Nat.{ℕ, zero, suc, ◌+◌, ◌*◌, ◌≤◌, ◌<◌, bit_or}
use mathlib.Core.Path.{◌≡◌, refl}
use mathlib.Core.Bool.{Bool, true, ◌&&◌}
use native.Mathlib.Omega.{arith}
use quicks_qas.Common.Tests.{◌==◌, ==_iff}

-- A test at 0, 1, …, `top`.
unfoldable pub up_to : (ℕ → Bool) → ℕ → Bool
up_to test zero = test zero
up_to test (suc top) = test (suc top) && up_to test top

pub up_to-at : (test : ℕ → Bool) (top at : ℕ) → at ≤ top → up_to test top ≡ true → test at ≡ true
unfolding up_to
up_to-at test zero zero h e = e
up_to-at test zero (suc at) h e = absurd (omega arith)
up_to-at test (suc top) at h e = ground (arith, up_to-at test top at)

abbrev pair_test : ℕ → ℕ → Bool
pair_test a c = bit_or (a * 64) c == a * 64 + c

abbrev triple_test : ℕ → ℕ → ℕ → Bool
triple_test a b c = bit_or (bit_or (a * 64) (b * 8)) c == a * 64 + b * 8 + c

abbrev octal : (ℕ → Bool) → Bool
octal test = up_to test 7

pairs : up_to (λ a. octal (pair_test a)) 3 ≡ true
unfolding up_to
pairs = refl

triples : up_to (λ a. octal (λ b. octal (triple_test a b))) 3 ≡ true
unfolding up_to
triples = refl

-- Two fields: mod and r/m.
pub bit_or_pair : (a c : ℕ) → a < 4 → c < 8 → bit_or (a * 64) c ≡ a * 64 + c
bit_or_pair a c ha hc =
    let row = up_to-at (λ x. octal (pair_test x)) 3 a (omega arith) pairs in
    (==_iff (bit_or (a * 64) c) (a * 64 + c)).0 (up_to-at (pair_test a) 7 c (omega arith) row)

-- Three fields: mod, reg and r/m of a ModR/M byte, or the fields of a SIB byte.
pub bit_or_fields :
    (a b c : ℕ) → a < 4 → b < 8 → c < 8 → bit_or (bit_or (a * 64) (b * 8)) c ≡ a * 64 + b * 8 + c
bit_or_fields a b c ha hb hc =
    let plane = up_to-at (λ x. octal (λ y. octal (triple_test x y))) 3 a (omega arith) triples in
    let row = up_to-at (λ y. octal (triple_test a y)) 7 b (omega arith) plane in
    (==_iff (bit_or (bit_or (a * 64) (b * 8)) c) (a * 64 + b * 8 + c)).0
      (up_to-at (triple_test a b) 7 c (omega arith) row)
