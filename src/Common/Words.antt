-- ===== src/Common/Words.antt =====
-- Machine words as native numbers below a power of two, and the casts to and from `int64_t`.
use Prim.Native.Nat.{ℕ, suc, ◌+◌, ◌-◌, ◌*◌, ◌/◌, ◌%◌, ◌^◌, ◌<◌}
use mathlib.Core.Path.{◌≡◌, refl, ap}
use quicks_qas.Common.Lists.{length}
use mathlib.Core.Bool.{Bool, ◌&&◌}
use mathlib.Core.List.{List, [], ◌∷◌}
use native.Mathlib.Nat.{pow-suc}
use native.Mathlib.Omega.{arith}
use quicks_qas.Common.Int.{ℤ, pos, negsuc, leb_ℤ}
use quicks_qas.Common.Tests.{ltb, if◌then◌else◌}

abbrev pub u8 : ℕ → ℕ
u8 n = n % 2 ^ 8

abbrev pub u16 : ℕ → ℕ
u16 n = n % 2 ^ 16

abbrev pub u32 : ℕ → ℕ
u32 n = n % 2 ^ 32

abbrev pub u64 : ℕ → ℕ
u64 n = n % 2 ^ 64

-- The largest `size_t` and `uint64_t`.
abbrev pub u64_max : ℕ
u64_max = 2 ^ 64 - 1

-- x << k before the cast that cuts it off, x >> k, and x & (2 ^ k - 1).
infixl 75 ◌<<<◌ ◌>>>◌
abbrev pub ◌<<<◌ : ℕ → ℕ → ℕ
x <<< k = x * 2 ^ k

abbrev pub ◌>>>◌ : ℕ → ℕ → ℕ
x >>> k = x / 2 ^ k

abbrev pub low_bits : ℕ → ℕ → ℕ
low_bits x k = x % 2 ^ k

-- (int64_t)v of a uint64_t, in two's complement.
unfoldable pub to_int64 : ℕ → ℤ
to_int64 v = if ltb v (2 ^ 63) then pos v else negsuc (2 ^ 64 - v - 1)

-- (uint64_t)s of an int64_t; the bits of a wider value are cut off.
unfoldable pub to_uint64 : ℤ → ℕ
to_uint64 (pos n) = n % 2 ^ 64
to_uint64 (negsuc n) = 2 ^ 64 - 1 - n % 2 ^ 64

-- INT32_MIN <= s && s <= INT32_MAX, and the like for 8 bits.
abbrev pub fits_int8 : ℤ → Bool
fits_int8 s = leb_ℤ (negsuc 127) s && leb_ℤ s (pos 127)

abbrev pub fits_int32 : ℤ → Bool
fits_int32 s = leb_ℤ (negsuc (2 ^ 31 - 1)) s && leb_ℤ s (pos (2 ^ 31 - 1))

-- Little-endian bytes of a value, by arithmetic: the meaning of the writers' output.
abbrev pub le_bytes : ℕ → ℕ → List ℕ
le_bytes ℕ.zero v = []
le_bytes (suc n) v = v % 256 ∷ le_bytes n (v / 256)

-- The number that little-endian bytes stand for.
abbrev pub le_value : List ℕ → ℕ
le_value [] = 0
le_value (b ∷ bs) = b + 256 * le_value bs

-- A field of `bits` bits read as a signed number.
abbrev pub sign_extend : ℕ → ℕ → ℤ
sign_extend bits v = if ltb v (2 ^ (bits - 1)) then pos v else negsuc (2 ^ bits - v - 1)

pub length-le_bytes : (n v : ℕ) → length (le_bytes n v) ≡ n
length-le_bytes ℕ.zero v = refl
length-le_bytes (suc n) v = ap suc (length-le_bytes n (v / 256))

pub le_value-le_bytes : (n v : ℕ) → v < 256 ^ n → le_value (le_bytes n v) ≡ v
le_value-le_bytes ℕ.zero v h = omega arith
le_value-le_bytes (suc n) v h =
    omega (arith, pow-suc 256 n, le_value-le_bytes n (v / 256) (omega (arith, pow-suc 256 n)))

pub to_int64-to_uint64 : (v : ℕ) → v < 2 ^ 64 → to_uint64 (to_int64 v) ≡ v
unfolding to_int64 to_uint64
to_int64-to_uint64 v h = ground arith

-- (uint8_t)(v & 0xFF) cuts nothing more off than the mask.
pub low_byte_lem : (v : ℕ) → u8 (low_bits v 8) ≡ v % 256
low_byte_lem v = omega arith
