-- ===== src/Common/Mask.antt =====
-- `x & (2^k - 1)` is the remainder modulo 2^k, for every k.
use Prim.Native.Nat.{
  ℕ, zero, suc, ◌+◌, ◌-◌, ◌*◌, ◌/◌, ◌%◌, ◌^◌, ◌≤◌, min, digits, bit_and, bit_and-bitwise,
}
use mathlib.Core.Path.{◌≡◌, refl, ap, ◌∙◌}
use native.Mathlib.Nat.{pow-suc, mod-lt, mod-add-div, mod-eq_of_lt, add-mul-mod_self_left}
use native.Mathlib.Omega.{arith}

pub two_pow-pos : (k : ℕ) → 1 ≤ 2 ^ k
two_pow-pos zero = omega arith
two_pow-pos (suc k) = omega (arith, pow-suc 2 k, two_pow-pos k)

-- A number by its lowest binary digit: the others, modulo `m`, and that digit make up the remainder
-- modulo `m * 2`.
mod_twice : (x m : ℕ) → 1 ≤ m → x % (m * 2) ≡ (x / 2 % m) * 2 + x % 2
mod_twice x m h =
    let low = mod-lt (x / 2) h in
    ap (λ y. y % (m * 2)) (split x m)
    ∙ add-mul-mod_self_left (x / 2 % m * 2 + x % 2) (m * 2) (x / 2 / m)
    ∙ mod-eq_of_lt (omega (arith, low))
  where
    assoc : (x m : ℕ) → m * 2 * (x / 2 / m) ≡ m * (x / 2 / m) * 2
    assoc x m = grind arith

    split : (x m : ℕ) → x ≡ x / 2 % m * 2 + x % 2 + m * 2 * (x / 2 / m)
    split x m = omega (arith, mod-add-div (x / 2) m, assoc x m)

zero_mod : (m : ℕ) → 0 % m ≡ 0
zero_mod zero = refl
zero_mod (suc m) = omega arith

mod_pow : (x k : ℕ) → x % 2 ^ suc k ≡ x % (2 ^ k * 2)
mod_pow x k = ap (λ m. x % m) (pow-suc 2 k)

mask_digits : (n k a : ℕ) → a ≤ n → digits (λ b. zero) min n a (2 ^ k - 1) ≡ a % 2 ^ k
mask_digits zero k zero h = omega (arith, zero_mod (2 ^ k))
mask_digits zero k (suc a) h = absurd (omega arith)
mask_digits (suc n) k zero h = omega (arith, zero_mod (2 ^ k))
mask_digits (suc n) zero (suc a) h = omega (arith, mask_digits n zero (suc a / 2) (omega arith))
mask_digits (suc n) (suc k) (suc a) h =
    let here = two_pow-pos k in
    let half : (2 ^ suc k - 1) / 2 ≡ 2 ^ k - 1 = omega (arith, pow-suc 2 k, here) in
    let rest = mask_digits n k (suc a / 2) (omega arith) in
    ap (λ b. digits (λ c. zero) min n (suc a / 2) b * 2 + min (suc a % 2) ((2 ^ suc k - 1) % 2))
      half
    ∙ omega (arith, rest, here, pow-suc 2 k, mod_twice (suc a) (2 ^ k) here, mod_pow (suc a) k)

pub bit_and-mask : (x k : ℕ) → bit_and x (2 ^ k - 1) ≡ x % 2 ^ k
bit_and-mask x k = bit_and-bitwise x (2 ^ k - 1) ∙ mask_digits x k x (omega arith)
