-- ===== src/Asm/Directive/Datum.antt =====
-- The pure parts of asm/internal/directive.c: the range test and the bytes of a datum, the alignment argument
-- and the flags of a section.
use quicks_qas.Common.{
  ℕ, zero, suc, ◌+◌, ◌-◌, ◌*◌, bit_and, bit_or, Bool, true, not, ◌&&◌, ◌||◌, List, [], ◌∷◌, Option,
  none, some, leb, ltb, ◌==◌, if◌then◌else◌,
}
use quicks_qas.Common.Int.{pos, negsuc, leb_ℤ}
use quicks_qas.Common.Words.{u8, u64, to_int64, low_bits, ◌<<<◌, ◌>>>◌}

abbrev pub shf_write : ℕ
shf_write = 1

abbrev pub shf_alloc : ℕ
shf_alloc = 2

abbrev pub shf_execinstr : ℕ
shf_execinstr = 4

unfoldable pub fits_width : ℕ → ℕ → Bool
fits_width v width =
    let bits = width * 8 in
    let umax = u64 (1 <<< bits) - 1 in
    let s = to_int64 v in
    let smin = negsuc (u64 (1 <<< (bits - 1)) - 1) in
    if leb 8 width then true else if leb v umax then true else leb_ℤ smin s && not (leb_ℤ (pos 0) s)

-- The loop of `emit_int_datum`, from byte `i` on.
unfoldable pub datum_bytes : ℕ → ℕ → ℕ → List ℕ
datum_bytes i zero v = []
datum_bytes i (suc n) v = u8 (low_bits (v >>> (8 * i)) 8) ∷ datum_bytes (i + 1) n v

-- The alignment that `do_align` takes from its argument, or a diagnostic.
unfoldable pub align_arg : Bool → ℕ → Option ℕ
align_arg power_of_two_arg arg =
    if power_of_two_arg
    then (if ltb 63 arg then none else some (u64 (1 <<< arg)))
    else if arg == 0 || not (bit_and arg (arg - 1) == 0)
    then none
    else some arg

-- The loop of `do_section` over the flag letters.
unfoldable pub section_flags : ℕ → List ℕ → ℕ
section_flags flags [] = flags
section_flags flags (c ∷ cs) =
    section_flags
      (if c == b'a'
        then bit_or flags shf_alloc
        else if c == b'w'
        then bit_or flags shf_write
        else if c == b'x'
        then bit_or flags shf_execinstr
        else flags)
      cs

-- The C string that starts at the first byte.
unfoldable pub c_string : List ℕ → List ℕ
c_string [] = []
c_string (c ∷ cs) = if c == 0 then [] else c ∷ c_string cs
