-- ===== src/Asm/Align.antt =====
-- Emission and alignment of asm/internal/unit.c in the current section.
use quicks_qas.Common.{
  ℕ, zero, suc, ◌+◌, ◌-◌, ◌%◌, ◌^◌, ◌≤◌, ◌<◌, ◌≡◌, ◌≢◌, ◌⊎◌, inl, inr, refl, sym, ap, ◌∙◌, Bool,
  true, false, List, [], ◌∷◌, ◌++◌, some, length, length-append, length-replicate, replicate,
  get_elem?, get_elem?-set_self, leb, ltb, ◌==◌, arith, Bool-cases,
}
use native.Mathlib.Nat.{mod-lt, mod_self, mod-add-mod}
use quicks_qas.Common.Words.{u64}
use quicks_qas.Status.{ok}
use quicks_qas.Buf.Ops.{Buf, Outcome, append_zeros}
use quicks_qas.Buf.Growth.{IsValid, ok-cases}
use quicks_qas.Buf.Append.{Writes, writers-Writes}
use quicks_qas.Asm.Section.{Section, sht_nobits, section_set_at, section_size}
use quicks_qas.Asm.Unit.{
  AsmUnit, Step, unit_current, put_current, with_data, with_bss, with_align, stored, emit_zeros,
  emit_zeros_to, raise_align, raise_to, align_to, unit_align,
}

in_range : (xs : List Section) (i : ℕ) (s : Section) → get_elem? xs i ≡ some s → i < length xs
in_range [] i s e = cc
in_range (x ∷ xs) zero s e = omega arith
in_range (x ∷ xs) (suc i) s e = omega (arith, in_range xs i s e)

current-put :
    (u : AsmUnit) (s t : Section)
    → unit_current u ≡ some s
    → unit_current (put_current u t) ≡ some t
unfolding unit_current section_set_at
current-put u s t e =
    get_elem?-set_self u.sections.items u.current t (in_range u.sections.items u.current s e)

-- The current section of `u` is `s`, with a buffer that keeps its own invariant.
abbrev pub Enters : AsmUnit → Section → Type 0
Enters u s = (unit_current u ≡ some s) × IsValid s.contents

-- A step that leaves the current section with `count` more bytes, or fails and leaves it as it was.
abbrev pub Grows : Section → ℕ → Step → Type 0
Grows s count r =
    ((r.0 ≡ ok)
      × ((t : Section) × Enters r.1 t
          × (section_size t ≡ section_size s + count)
          × (t.addralign ≡ s.addralign)))
    ⊎ ((r.0 ≢ ok) × Enters r.1 s)

grown :
    (s : Section) (count : ℕ) (b : Buf)
    → b.bytes ≡ s.contents.bytes ++ replicate count 0
    → length b.bytes ≡ length s.contents.bytes + count
grown s count b e = omega (
  arith,
  ap length e,
  length-append s.contents.bytes (replicate count 0),
  length-replicate {A = ℕ} count 0,
)

stored-Grows :
    (u : AsmUnit) (s : Section) (count : ℕ) (r : Outcome)
    → Enters u s
    → (s.type == sht_nobits) ≡ false
    → Writes s.contents (replicate count 0) r
    → Grows s count (stored u s r)
unfolding section_size
stored-Grows u s count r h n w = elim (ok-cases r.0) [
  | inl e ↦ inl (
    e,
    (
      with_data s r.1,
      (current-put u s (with_data s r.1) h.0, w.valid),
      rw n (grown s count r.1 (w.appended e)),
      refl,
    ),
  )
  | inr e ↦ inr (
    e,
    (current-put u s (with_data s r.1) h.0 ∙ ap (λ b. some (with_data s b)) (w.unchanged e), h.1),
  )
]

bss-Grows :
    (u : AsmUnit) (s : Section) (count : ℕ)
    → Enters u s
    → (s.type == sht_nobits) ≡ true
    → section_size s + count < 2 ^ 64
    → Grows s count (ok, put_current u (with_bss s (u64 (s.bss_size + count))))
unfolding section_size
bss-Grows u s count h n l =
    let t = with_bss s (u64 (s.bss_size + count)) in
    inl (refl, (t, (current-put u s t h.0, h.1), ground arith, refl))

zeros-Writes :
    (grant : ℕ → Bool) (s : Section) (count : ℕ)
    → IsValid s.contents
    → count < 2 ^ 64
    → Writes s.contents (replicate count 0) (append_zeros grant s.contents count)
zeros-Writes grant s count v l =
    (writers-Writes grant s.contents [] 0 count 0 v (omega arith) l (omega arith)).2

emit_zeros_to-Grows :
    (grant : ℕ → Bool) (u : AsmUnit) (s : Section) (count : ℕ)
    → Enters u s
    → section_size s + count < 2 ^ 64
    → Grows s count (emit_zeros_to grant u count s)
emit_zeros_to-Grows grant u s count h l = elim (Bool-cases (s.type == sht_nobits)) [
  | inl n ↦ rw n (bss-Grows u s count h n l)
  | inr n ↦ rw n (
      stored-Grows u s count (append_zeros grant s.contents count) h n
        (zeros-Writes grant s count h.1 (omega arith)))
]

-- For a current section that ends below 2^64 after `count` more bytes, whether it keeps bytes or only
-- a size: `qas_asm_unit_emit_zeros` makes it longer by exactly `count`, or fails and leaves it as it
-- was.
pub emit_zeros-Grows :
    (grant : ℕ → Bool) (u : AsmUnit) (s : Section) (count : ℕ)
    → Enters u s
    → section_size s + count < 2 ^ 64
    → Grows s count (emit_zeros grant u count)
unfolding emit_zeros
emit_zeros-Grows grant u s count h l = rw h.0 (emit_zeros_to-Grows grant u s count h l)

-- A step behind which the current section is aligned, reached by less than `alignment` more bytes, or
-- a failure that leaves it as it was.
abbrev pub Aligns : Section → ℕ → Step → Type 0
Aligns s alignment r =
    ((r.0 ≡ ok)
      × (t : Section) × Enters r.1 t
      × (section_size t % alignment ≡ 0)
      × (section_size s ≤ section_size t)
      × (section_size t < section_size s + alignment)
      × (s.addralign ≤ t.addralign)
      × (alignment ≤ t.addralign))
    ⊎ ((r.0 ≢ ok) × Enters r.1 s)

raised :
    (u : AsmUnit) (t : Section) (alignment : ℕ)
    → Enters u t
    → (x : Section) × ((raise_to u alignment t).0 ≡ ok)
      × Enters (raise_to u alignment t).1 x
      × (section_size x ≡ section_size t)
      × (t.addralign ≤ x.addralign)
      × (alignment ≤ x.addralign)
unfolding section_size
raised u t alignment h = elim (Bool-cases (ltb t.addralign alignment)) [
  | inl q ↦ rw q (
    with_align t alignment,
    refl,
    (current-put u t (with_align t alignment) h.0, h.1),
    refl,
    ground (arith, q),
    omega arith,
  )
  | inr q ↦ rw q (t, refl, h, refl, omega arith, ground (arith, q))
]

raise_align-Aligns :
    (s : Section) (alignment count : ℕ) (r : Step)
    → Grows s count r
    → (section_size s + count) % alignment ≡ 0
    → count < alignment
    → Aligns s alignment (raise_align alignment r)
raise_align-Aligns s alignment count (ok, u) (inl (e, (t, h, size, same))) m l =
    let r = raised u t alignment h in
    rw h.0 (
      inl (
        r.1,
        r.0,
        r.2,
        ap (λ k. k % alignment) (r.3 ∙ size) ∙ m,
        omega (arith, r.3),
        omega (arith, r.3),
        omega (arith, r.4),
        r.5,
      ))
raise_align-Aligns s alignment count (ok, u) (inr (e, h)) m l = absurd (e refl)
raise_align-Aligns s alignment count (st, u) (inl (e, h)) m l = cc
raise_align-Aligns s alignment count (st, u) (inr (e, h)) m l = inr (e, h)

fill_up : (k a : ℕ) → 1 ≤ a → k % a + (a - k % a) ≡ a
fill_up k a h = omega (arith, mod-lt k h)

rounding : (k a : ℕ) → 1 ≤ a → (k + (a - k % a)) % a ≡ 0
rounding k a h = sym (mod-add-mod k a (a - k % a)) ∙ ap (λ x. x % a) (fill_up k a h) ∙ mod_self a

add_zero : (k : ℕ) → k + 0 ≡ k
add_zero k = omega arith

no_rest : (k a : ℕ) → (k % a == 0) ≡ true → (k + 0) % a ≡ 0
no_rest k a h = ap (λ x. x % a) (add_zero k) ∙ ground (arith, h)

some_rest : (k a : ℕ) → 1 ≤ a → (k % a == 0) ≡ false → a - k % a < a
some_rest k a l h = ground (arith, h)

align_to-Aligns :
    (grant : ℕ → Bool) (u : AsmUnit) (s : Section) (alignment : ℕ)
    → Enters u s
    → 1 ≤ alignment
    → section_size s + alignment < 2 ^ 64
    → Aligns s alignment (align_to grant u alignment s)
align_to-Aligns grant u s alignment h a l = elim (Bool-cases (section_size s % alignment == 0)) [
  | inl q ↦ rw q (
      raise_align-Aligns s alignment 0 (ok, u) (inl (refl, (s, h, omega arith, refl)))
        (no_rest (section_size s) alignment q) (omega arith))
  | inr q ↦ rw q (
      raise_align-Aligns s alignment (alignment - section_size s % alignment)
        (emit_zeros grant u (alignment - section_size s % alignment))
        (emit_zeros-Grows grant u s (alignment - section_size s % alignment) h (omega arith))
        (rounding (section_size s) alignment a) (some_rest (section_size s) alignment a q))
]

one_only : (a : ℕ) → 1 ≤ a → leb a 1 ≡ true → a ≡ 1
one_only a h l = ground (arith, l)

one_divides : (k a : ℕ) → 1 ≤ a → leb a 1 ≡ true → k % a ≡ 0
one_divides k a h l = ap (λ x. k % x) (one_only a h l) ∙ omega arith

-- For every alignment from 1 on, in a current section that has a recorded alignment and ends at least
-- `alignment` below 2^64: `qas_asm_unit_align` succeeds with the next offset a multiple of `alignment`,
-- reached by fewer than `alignment` added bytes, and the section's recorded alignment neither lowered
-- nor below `alignment`; or it fails and leaves the section as it was.
pub unit_align-Aligns :
    (grant : ℕ → Bool) (u : AsmUnit) (s : Section) (alignment : ℕ)
    → Enters u s
    → 1 ≤ s.addralign
    → 1 ≤ alignment
    → section_size s + alignment < 2 ^ 64
    → Aligns s alignment (unit_align grant u alignment)
unfolding unit_align
unit_align-Aligns grant u s alignment h b a l = elim (Bool-cases (leb alignment 1)) [
  | inl q ↦ rw q (
      inl (
        refl,
        s,
        h,
        one_divides (section_size s) alignment a q,
        omega arith,
        omega arith,
        omega arith,
        ground (arith, q),
      ))
  | inr q ↦ rw (q, h.0) (align_to-Aligns grant u s alignment h a l)
]
