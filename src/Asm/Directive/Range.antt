-- ===== src/Asm/Directive/Range.antt =====
-- The range test and the alignment test of asm/internal/directive.c, against what a datum's bytes stand for and
-- against powers of two.
use quicks_qas.Common.{
  ℕ, zero, suc, ◌-◌, ◌*◌, ◌/◌, ◌%◌, ◌^◌, ◌≤◌, ◌<◌, ◌≡◌, ◌⊎◌, inl, inr, refl, sym, ap, ◌∙◌, bit_and,
  min, Bool, true, false, none, some, length, leb, ltb, ◌==◌, arith, Bool-cases,
}
use mathlib.Core.Path.{subst}
use Prim.Native.Nat.{digits, bit_and-bitwise}
use native.Mathlib.Nat.{pow-suc, pow-le-pow_right, mod_self}
use quicks_qas.Common.Mask.{two_pow-pos, bit_and-mask}
use quicks_qas.Common.Words.{le_value, sign_extend, to_int64}
use quicks_qas.Asm.Directive.Datum.{fits_width, datum_bytes, align_arg}

-- The widths of the data directives.
abbrev pub IsWidth : ℕ → Type 0
IsWidth w = (w ≡ 1) ⊎ (w ≡ 2) ⊎ (w ≡ 4) ⊎ (w ≡ 8)

-- The bytes of a datum, read without a sign or with one, are the value.
abbrev pub Kept : ℕ → ℕ → Type 0
Kept v w =
    (le_value (datum_bytes 0 w v) ≡ v)
    ⊎ (sign_extend (w * 8) (le_value (datum_bytes 0 w v)) ≡ to_int64 v)

abbrev pub Ranged : ℕ → ℕ → Type 0
Ranged v w =
    (length (datum_bytes 0 w v) ≡ w)
    × (((fits_width v w ≡ true) × Kept v w) ⊎ ((fits_width v w ≡ false) × (Kept v w → ⊥)))

Ranged-byte : (v : ℕ) → v < 2 ^ 64 → Ranged v 1
unfolding fits_width datum_bytes to_int64
Ranged-byte v h = elim (Bool-cases (leb v 255)) [
  | inl low ↦ (refl, inl (ground (arith, low), inl (ground (arith, low))))
  | inr high ↦ elim (Bool-cases (leb (2 ^ 64 - 128) v)) [
    | inl top ↦ (refl, inl (ground (arith, high, top), inr (ground (arith, high, top))))
    | inr between ↦ (
      refl,
      inr (
        ground (arith, h, high, between),
        λ kept. elim kept [
          | inl e ↦ ground (arith, high, e)
          | inr e ↦ ground (arith, h, high, between, e)
        ],
      ),
    )
  ]
]

Ranged-word : (v : ℕ) → v < 2 ^ 64 → Ranged v 2
unfolding fits_width datum_bytes to_int64
Ranged-word v h = elim (Bool-cases (leb v 65535)) [
  | inl low ↦ (refl, inl (ground (arith, low), inl (ground (arith, low))))
  | inr high ↦ elim (Bool-cases (leb (2 ^ 64 - 32768) v)) [
    | inl top ↦ (refl, inl (ground (arith, high, top), inr (ground (arith, high, top))))
    | inr between ↦ (
      refl,
      inr (
        ground (arith, h, high, between),
        λ kept. elim kept [
          | inl e ↦ ground (arith, high, e)
          | inr e ↦ ground (arith, h, high, between, e)
        ],
      ),
    )
  ]
]

Ranged-long : (v : ℕ) → v < 2 ^ 64 → Ranged v 4
unfolding fits_width datum_bytes to_int64
Ranged-long v h = elim (Bool-cases (leb v 4294967295)) [
  | inl low ↦ (refl, inl (ground (arith, low), inl (ground (arith, low))))
  | inr high ↦ elim (Bool-cases (leb (2 ^ 64 - 2147483648) v)) [
    | inl top ↦ (refl, inl (ground (arith, high, top), inr (ground (arith, high, top))))
    | inr between ↦ (
      refl,
      inr (
        ground (arith, h, high, between),
        λ kept. elim kept [
          | inl e ↦ ground (arith, high, e)
          | inr e ↦ ground (arith, h, high, between, e)
        ],
      ),
    )
  ]
]

Ranged-quad : (v : ℕ) → v < 2 ^ 64 → Ranged v 8
unfolding fits_width datum_bytes
Ranged-quad v h = (refl, inl (refl, inl (omega arith)))

-- For each width of a data directive and each 64-bit value: the datum has that many bytes, and the value is
-- accepted exactly when they stand for it, read as an unsigned or as a signed number.
pub fits_width-Ranged : (v w : ℕ) → v < 2 ^ 64 → IsWidth w → Ranged v w
fits_width-Ranged v w h (inl e) = subst (Ranged v) (sym e) (Ranged-byte v h)
fits_width-Ranged v w h (inr (inl e)) = subst (Ranged v) (sym e) (Ranged-word v h)
fits_width-Ranged v w h (inr (inr (inl e))) = subst (Ranged v) (sym e) (Ranged-long v h)
fits_width-Ranged v w h (inr (inr (inr e))) = subst (Ranged v) (sym e) (Ranged-quad v h)

digits_self : (fuel n : ℕ) → n ≤ fuel → digits (λ b. zero) min fuel n n ≡ n
digits_self zero zero h = refl
digits_self zero (suc n) h = absurd (omega arith)
digits_self (suc fuel) zero h = refl
digits_self (suc fuel) (suc n) h = omega (arith, digits_self fuel (suc n / 2) (omega arith))

digits_power :
    (fuel n : ℕ)
    → 1 ≤ n
    → n ≤ fuel
    → digits (λ b. zero) min fuel n (n - 1) ≡ 0
    → (k : ℕ) × (n ≡ 2 ^ k)
digits_power zero n l h e = absurd (omega arith)
digits_power (suc fuel) zero l h e = absurd (omega arith)
digits_power (suc fuel) (suc n) l h e =
    let m : ℕ = suc n / 2 in
    let rest : digits (λ b. zero) min fuel m ((suc n - 1) / 2) ≡ 0 = omega (arith, e) in
    elim (Bool-cases (n % 2 == 0)) [
      | inl odd ↦
          let same : (suc n - 1) / 2 ≡ m = ground (arith, odd) in
          let none_left : m ≡ 0 =
            sym (digits_self fuel m (omega (arith, h)))
            ∙ ap (digits (λ b. zero) min fuel m) (sym same)
            ∙ rest in
          (0, omega (arith, none_left))
      | inr even ↦
          let is_even : suc n ≡ m * 2 = ground (arith, even) in
          let before : (suc n - 1) / 2 ≡ m - 1 = omega (arith, is_even) in
          let (k, at) =
            digits_power fuel m (omega (arith, is_even)) (omega (arith, h))
              (ap (digits (λ b. zero) min fuel m) (sym before) ∙ rest) in
          (suc k, omega (arith, is_even, at, pow-suc 2 k))
    ]

-- `n & (n - 1)` is 0 for a power of two and for no other positive number.
mask_power : (n : ℕ) → 1 ≤ n → bit_and n (n - 1) ≡ 0 → (k : ℕ) × (n ≡ 2 ^ k)
mask_power n l e = digits_power n n l (omega arith) (sym (bit_and-bitwise n (n - 1)) ∙ e)

power_mask : (k : ℕ) → bit_and (2 ^ k) (2 ^ k - 1) ≡ 0
power_mask k = bit_and-mask (2 ^ k) k ∙ mod_self (2 ^ k)

power-lt : (k : ℕ) → k < 64 → 2 ^ k < 2 ^ 64
power-lt k h =
    let step = pow-le-pow_right {n = 2} (omega arith) {i = suc k} {j = 64} (omega arith) in
    omega (arith, step, pow-suc 2 k, two_pow-pos k)

-- The alignment is a power of two: the argument itself, or two to its power.
abbrev pub Alignment : Bool → ℕ → ℕ → Type 0
Alignment true arg alignment = (arg < 64) × (alignment ≡ 2 ^ arg)
Alignment false arg alignment = (alignment ≡ arg) × (k : ℕ) × (arg ≡ 2 ^ k)

-- An alignment directive takes exactly the arguments that name a power of two below 2^64: .p2align an
-- exponent below 64, .align and .balign a power of two itself. For any other argument it reports.
pub align_arg-Alignment :
    (power_of_two_arg : Bool) (arg : ℕ)
    → ((alignment : ℕ) × (align_arg power_of_two_arg arg ≡ some alignment)
        × Alignment power_of_two_arg arg alignment)
      ⊎ ((align_arg power_of_two_arg arg ≡ none)
          × ((alignment : ℕ) → Alignment power_of_two_arg arg alignment → ⊥))
unfolding align_arg
align_arg-Alignment true arg = elim (Bool-cases (ltb 63 arg)) [
  | inl e ↦ inr (ground (arith, e), λ alignment at. absurd (ground (arith, e, at.0)))
  | inr e ↦
      let small : arg < 64 = ground (arith, e) in
      let exact : 1 * 2 ^ arg ≡ 2 ^ arg = omega arith in
      let word : (1 * 2 ^ arg) % 2 ^ 64 ≡ 2 ^ arg =
        ap (λ (x : ℕ). x % 2 ^ 64) exact ∙ omega (arith, power-lt arg small) in
      inl (2 ^ arg, rw (e, align_arg) (ap some word), (small, refl))
]
align_arg-Alignment false arg = elim (Bool-cases (arg == 0)) [
  | inl z ↦ inr (rw (z, align_arg) refl, λ alignment at. no_power arg (ground (arith, z)) at.1 at.2)
  | inr positive ↦ elim (Bool-cases (bit_and arg (arg - 1) == 0)) [
    | inl e ↦
        let clear : bit_and arg (arg - 1) ≡ 0 = ground (arith, e) in
        let (k, at) = mask_power arg (ground (arith, positive)) clear in
        inl (arg, rw (positive, align_arg) (rw e refl), (refl, k, at))
    | inr e ↦ inr (rw (positive, align_arg) (rw e refl), λ alignment at. unmasked arg e at.1 at.2)
  ]
]
  where
    no_power : (n : ℕ) → n ≡ 0 → (k : ℕ) → n ≡ 2 ^ k → ⊥
    no_power n z k e = absurd (omega (arith, z, e, two_pow-pos k))

    unmasked : (n : ℕ) → (bit_and n (n - 1) == 0) ≡ false → (k : ℕ) → n ≡ 2 ^ k → ⊥
    unmasked n f k e =
        let clear : bit_and n (n - 1) ≡ 0 = ap (λ x. bit_and x (x - 1)) e ∙ power_mask k in
        ground (arith, f, clear)
