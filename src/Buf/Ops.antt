-- ===== src/Buf/Ops.antt =====
-- The operations of buf/buf.c on a non-NULL buffer. `bytes` are the `len` valid bytes of `data`; the
-- argument `grant` says whether realloc provides a block of a size, each operation asking once.
use quicks_qas.Common.{
  ℕ, zero, suc, ◌+◌, ◌-◌, ◌*◌, Bool, ◌||◌, List, [], ◌∷◌, ◌++◌, length, set, replicate, leb, ltb,
  ◌==◌, if◌then◌else◌,
}
use quicks_qas.Common.Int.{ℤ}
use quicks_qas.Common.Words.{u8, u64, low_bits, to_uint64, ◌>>>◌}
use quicks_qas.Status.{Status, ok, out_of_memory, invalid_argument, value_overflow}

pub record Buf : Type 0 where
  pub bytes : List ℕ
  pub cap : ℕ

abbrev pub init : Buf
init = record { bytes = []; cap = 0 }

-- The doubling loop of `qas_buf_reserve`; 64 rounds are enough (Growth).
unfoldable pub grow : ℕ → ℕ → ℕ → ℕ
grow zero new_cap needed = new_cap
grow (suc fuel) new_cap needed =
    let doubled = u64 (new_cap * 2) in
    let rest = grow fuel doubled needed in
    if ltb new_cap needed then (if ltb doubled new_cap then needed else rest) else new_cap

abbrev pub Outcome : Type 0
Outcome = Status × Buf

unfoldable pub realloc_to : (ℕ → Bool) → Buf → ℕ → Outcome
realloc_to grant b new_cap =
    if grant new_cap then (ok, record b { cap = new_cap }) else (out_of_memory, b)

unfoldable pub reserve : (ℕ → Bool) → Buf → ℕ → Outcome
reserve grant b additional =
    let len = length b.bytes in
    let needed = u64 (len + additional) in
    if leb additional (b.cap - len)
    then (ok, b)
    else if ltb needed len
    then (value_overflow, b)
    else realloc_to grant b (grow 64 (if b.cap == 0 then 64 else b.cap) needed)

-- What follows `if (st != QAS_OK) return st;`.
abbrev pub on_ok : Outcome → (Buf → Outcome) → Outcome
on_ok (ok, b) k = k b
on_ok (st, b) k = (st, b)

abbrev pub write : Buf → List ℕ → Outcome
write b bs = (ok, record b { bytes = b.bytes ++ bs })

unfoldable pub append : (ℕ → Bool) → Buf → List ℕ → Outcome
append grant b [] = (ok, b)
append grant b (x ∷ bs) = on_ok (reserve grant b (length (x ∷ bs))) (λ r. write r (x ∷ bs))

unfoldable pub append_u8 : (ℕ → Bool) → Buf → ℕ → Outcome
append_u8 grant b value = on_ok (reserve grant b 1) (λ r. write r (value ∷ []))

unfoldable pub append_zeros : (ℕ → Bool) → Buf → ℕ → Outcome
append_zeros grant b count =
    if count == 0 then (ok, b) else on_ok (reserve grant b count) (λ r. write r (replicate count 0))

-- The loop of `append_le`, past the reservation.
unfoldable pub write_le : ℕ → ℕ → Buf → Buf
write_le zero value b = b
write_le (suc n) value b =
    write_le n (value >>> 8) (record b { bytes = b.bytes ++ (u8 (low_bits value 8)) ∷ [] })

unfoldable pub append_le : (ℕ → Bool) → Buf → ℕ → ℕ → Outcome
append_le grant b value n = on_ok (reserve grant b n) (λ r. (ok, write_le n value r))

abbrev pub append_u16le : (ℕ → Bool) → Buf → ℕ → Outcome
append_u16le grant b value = append_le grant b value 2

abbrev pub append_u32le : (ℕ → Bool) → Buf → ℕ → Outcome
append_u32le grant b value = append_le grant b value 4

abbrev pub append_u64le : (ℕ → Bool) → Buf → ℕ → Outcome
append_u64le grant b value = append_le grant b value 8

abbrev pub append_i64le : (ℕ → Bool) → Buf → ℤ → Outcome
append_i64le grant b value = append_le grant b (to_uint64 value) 8

-- The loop of `qas_buf_patch_u32le` over the bytes from `offset` on.
unfoldable pub patch_bytes : ℕ → List ℕ → ℕ → ℕ → List ℕ
patch_bytes zero bs offset value = bs
patch_bytes (suc n) bs offset value =
    patch_bytes n (set bs offset (u8 (low_bits value 8))) (offset + 1) (value >>> 8)

unfoldable pub patch_u32le : Buf → ℕ → ℕ → Outcome
patch_u32le b offset value =
    if ltb (u64 (offset + 4)) offset || ltb (length b.bytes) (u64 (offset + 4))
    then (invalid_argument, b)
    else (ok, record b { bytes = patch_bytes 4 b.bytes offset value })

-- The bytes handed out, and the buffer left behind.
unfoldable pub take : Buf → List ℕ × Buf
take b = (b.bytes, init)
