-- ===== src/Buf/Patch.antt =====
-- `qas_buf_patch_u32le` (buf/buf.c): the four bytes written read back as the value, all others stay.
use quicks_qas.Common.{
  ℕ, zero, suc, ◌+◌, ◌/◌, ◌^◌, ◌≤◌, ◌<◌, ◌≡◌, ◌⊎◌, inl, inr, ◌∙◌, refl, ap, List, [], ◌∷◌, ◌++◌,
  length, length-set, set, take, drop, get_elem?, get_elem?-set_ne, leb, arith, Bool-cases,
}
use mathlib.Core.Path.{ap₂}
use native.Mathlib.Numerals.{add-one}
use quicks_qas.Common.Words.{u8, low_bits, le_bytes, le_value, le_value-le_bytes, low_byte_lem}
use quicks_qas.Status.{ok, invalid_argument}
use quicks_qas.Buf.Ops.{Buf, patch_bytes, patch_u32le}

take-length : (new rest : List ℕ) → take (length new) (new ++ rest) ≡ new
take-length [] rest = refl
take-length (x ∷ new) rest = ap (◌∷◌ x) (take-length new rest)

-- `n` bytes put into a list from `offset` on.
abbrev pub splice : ℕ → List ℕ → ℕ → List ℕ → List ℕ
splice n bs zero new = new ++ drop n bs
splice n [] (suc i) new = []
splice n (b ∷ bs) (suc i) new = b ∷ splice n bs i new

length-patch_bytes : (n : ℕ) (bs : List ℕ) (i v : ℕ) → length (patch_bytes n bs i v) ≡ length bs
unfolding patch_bytes
length-patch_bytes zero bs i v = refl
length-patch_bytes (suc n) bs i v = length-patch_bytes n _ (i + 1) (v / 256) ∙ length-set bs i _

patch_bytes_cons :
    (n : ℕ) (b : ℕ) (bs : List ℕ) (i v : ℕ)
    → patch_bytes n (b ∷ bs) (suc i) v ≡ b ∷ patch_bytes n bs i v
unfolding patch_bytes
patch_bytes_cons zero b bs i v = refl
patch_bytes_cons (suc n) b bs i v =
    rw (add-one, add-one) (patch_bytes_cons n b (set bs i (u8 (low_bits v 8))) (suc i) (v / 256))

patch_bytes_front :
    (n : ℕ) (bs : List ℕ) (v : ℕ) → n ≤ length bs → patch_bytes n bs 0 v ≡ le_bytes n v ++ drop n bs
unfolding patch_bytes
patch_bytes_front zero bs v h = refl
patch_bytes_front (suc n) [] v h = absurd (omega arith)
patch_bytes_front (suc n) (b ∷ bs) v h =
    patch_bytes_cons n (u8 (low_bits v 8)) bs 0 (v / 256)
    ∙ ap₂ ◌∷◌ (low_byte_lem v) (patch_bytes_front n bs (v / 256) (omega arith))

patch_bytes_lem :
    (n : ℕ) (bs : List ℕ) (i v : ℕ)
    → i + n ≤ length bs
    → patch_bytes n bs i v ≡ splice n bs i (le_bytes n v)
patch_bytes_lem n bs zero v h = patch_bytes_front n bs v (omega arith)
patch_bytes_lem n [] (suc i) v h = absurd (omega arith)
patch_bytes_lem n (b ∷ bs) (suc i) v h =
    patch_bytes_cons n b bs i v ∙ ap (◌∷◌ b) (patch_bytes_lem n bs i v (omega arith))

take-drop-splice :
    (n : ℕ) (bs : List ℕ) (i : ℕ) (new : List ℕ)
    → i ≤ length bs
    → length new ≡ n
    → take n (drop i (splice n bs i new)) ≡ new
take-drop-splice n bs zero new h e = rw (← e) (take-length new _)
take-drop-splice n [] (suc i) new h e = absurd (omega arith)
take-drop-splice n (b ∷ bs) (suc i) new h e = take-drop-splice n bs i new (omega arith) e

patch_bytes-frame :
    (n : ℕ) (bs : List ℕ) (i v j : ℕ)
    → (j < i) ⊎ (i + n ≤ j)
    → get_elem? (patch_bytes n bs i v) j ≡ get_elem? bs j
unfolding patch_bytes
patch_bytes-frame zero bs i v j h = refl
patch_bytes-frame (suc n) bs i v j h =
    patch_bytes-frame n _ (i + 1) (v / 256) j (ground arith) ∙ get_elem?-set_ne bs _ (ground arith)

-- A patched buffer: same length, the four bytes at `offset` are the value, the others are as before.
pub record Patched (b : Buf) (offset value : ℕ) (after : Buf) : Type 0 where
  pub same_length : length after.bytes ≡ length b.bytes
  pub same_cap : after.cap ≡ b.cap
  pub reads_back : le_value (take 4 (drop offset after.bytes)) ≡ value
  pub frame :
      (j : ℕ) → ((offset ≤ j) × (j < offset + 4)) ⊎ (get_elem? after.bytes j ≡ get_elem? b.bytes j)

patch_bytes-inside :
    (b : Buf) (offset value j : ℕ)
    → ((offset ≤ j) × (j < offset + 4))
      ⊎ (get_elem? (patch_bytes 4 b.bytes offset value) j ≡ get_elem? b.bytes j)
patch_bytes-inside b offset value j = elim (Bool-cases (leb offset j)) [
  | inr e ↦ inr (patch_bytes-frame 4 b.bytes offset value j (inl (ground (arith, e))))
  | inl e ↦ elim (Bool-cases (leb (offset + 4) j)) [
    | inl f ↦ inr (patch_bytes-frame 4 b.bytes offset value j (inr (ground (arith, f))))
    | inr f ↦ inl (ground (arith, e), ground (arith, f))
  ]
]

patch_bytes-Patched :
    (b : Buf) (offset value : ℕ)
    → value < 2 ^ 32
    → offset + 4 ≤ length b.bytes
    → Patched b offset value (record b { bytes = patch_bytes 4 b.bytes offset value })
patch_bytes-Patched b offset value hv h = record {
  same_length = length-patch_bytes 4 b.bytes offset value;
  same_cap = refl;
  reads_back =
      rw
        (
          patch_bytes_lem 4 b.bytes offset value h,
          take-drop-splice 4 b.bytes offset (le_bytes 4 value) (omega arith) refl,
        )
        (le_value-le_bytes 4 value hv);
  frame = λ j. patch_bytes-inside b offset value j;
}

-- For every buffer, offset and 32-bit value: when the four bytes lie within the buffer the patch
-- succeeds, they read back as the value in little-endian order, and length, capacity and every byte
-- outside them stay; otherwise it is refused and nothing changes.
pub patch_u32le-Patched :
    (b : Buf) (offset value : ℕ)
    → length b.bytes < 2 ^ 64
    → offset < 2 ^ 64
    → value < 2 ^ 32
    → ((offset + 4 ≤ length b.bytes)
        × (after : Buf) × (patch_u32le b offset value ≡ (ok, after))
        × Patched b offset value after)
      ⊎ ((length b.bytes < offset + 4) × (patch_u32le b offset value ≡ (invalid_argument, b)))
unfolding patch_u32le
patch_u32le-Patched b offset value hl ho hv =
    elim (Bool-cases (leb (offset + 4) (length b.bytes))) [
      | inl e ↦
          let h : offset + 4 ≤ length b.bytes = ground (arith, e) in
          inl (
            h,
            record { bytes = patch_bytes 4 b.bytes offset value; cap = b.cap },
            ground (arith, h),
            patch_bytes-Patched b offset value hv h,
          )
      | inr e ↦ inr (ground (arith, e), ground (arith, e))
    ]
