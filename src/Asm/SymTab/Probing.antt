-- ===== src/Asm/SymTab/Probing.antt =====
-- The probing loops of asm/internal/symtab.c against the walk over the buckets.
use quicks_qas.Common.{
  ℕ, zero, suc, ◌+◌, ◌-◌, ◌%◌, ◌<◌, ◌≡◌, ◌≢◌, inl, inr, refl, sym, ap, ◌∙◌, true, false, List, [],
  ◌∷◌, some, length, get_or, arith, Bool-cases,
}
use quicks_qas.Asm.Section.{same_name}
use quicks_qas.Asm.SymTab.Ops.{SymTab, name_at, next_slot, empty_slot, interned, vacant, probe}
use quicks_qas.Asm.SymTab.Buckets.{IsPow, next_slot-mod, cell, cell-step, cell-start}

-- `strcmp` finds two names alike exactly when they are the same bytes.
pub same_name-true : (a b : List ℕ) → same_name a b ≡ true → a ≡ b
unfolding same_name
same_name-true [] [] h = refl
same_name-true [] (b ∷ bs) h = cc
same_name-true (a ∷ rest) [] h = cc
same_name-true (a ∷ rest) (b ∷ bs) h =
    let heads : a ≡ b = ground (arith, h) in
    let tails : same_name rest bs ≡ true = ground (arith, h) in
    rw (heads, same_name-true rest bs tails)

pub same_name_refl : (a : List ℕ) → same_name a a ≡ true
unfolding same_name
same_name_refl [] = refl
same_name_refl (a ∷ rest) = ground (arith, same_name_refl rest)

pub same_name-false : (a b : List ℕ) → a ≢ b → same_name a b ≡ false
same_name-false a b h = elim (Bool-cases (same_name a b)) [
  | inl e ↦ absurd (h (same_name-true a b e))
  | inr e ↦ e
]

empty_slot-here :
    (fuel : ℕ) (b : List ℕ) (slot : ℕ)
    → get_or b slot 0 ≡ 0
    → empty_slot (suc fuel) b slot ≡ some slot
unfolding empty_slot
empty_slot-here fuel b slot h = rw (h, empty_slot) refl

empty_slot-later :
    (fuel : ℕ) (b : List ℕ) (slot : ℕ)
    → get_or b slot 0 ≢ 0
    → empty_slot (suc fuel) b slot ≡ empty_slot fuel b (next_slot b slot)
unfolding empty_slot
empty_slot-later fuel b slot h = ground (arith, h)

-- The loop ends at the first empty bucket, `e` steps on.
pub empty_slot-end :
    (fuel e s : ℕ) (b : List ℕ)
    → IsPow b
    → e < fuel
    → cell b s e ≡ 0
    → ((j : ℕ) → j < e → cell b s j ≢ 0)
    → empty_slot fuel b (s % length b) ≡ some ((s + e) % length b)
empty_slot-end zero e s b pow h at before = absurd (omega arith)
empty_slot-end (suc fuel) zero s b pow h at before =
    empty_slot-here fuel b (s % length b) (cell-start b s ∙ at)
    ∙ ap (λ k. some (k % length b)) (omega arith)
empty_slot-end (suc fuel) (suc e) s b pow h at before =
    let full = before 0 (omega arith) in
    empty_slot-later fuel b (s % length b) (λ z. full (sym (cell-start b s) ∙ z))
    ∙ ap (empty_slot fuel b) (next_slot-mod b s pow)
    ∙ empty_slot-end fuel e (s + 1) b pow (omega arith) (cell-step b s e ∙ at)
        (λ j l z. before (suc j) (omega arith) (sym (cell-step b s j) ∙ z))
    ∙ ap (λ k. some (k % length b)) (omega arith)

module _ (t : SymTab) (name : List ℕ) where
  probe-vacant :
      (fuel slot : ℕ)
      → get_or t.buckets slot 0 ≡ 0
      → probe (suc fuel) t name slot ≡ some (vacant slot)
  unfolding probe
  probe-vacant fuel slot h = ground (arith, h)

  probe-interned :
      (fuel slot : ℕ)
      → get_or t.buckets slot 0 ≢ 0
      → same_name (name_at t.syms (get_or t.buckets slot 0 - 1)) name ≡ true
      → probe (suc fuel) t name slot ≡ some (interned (get_or t.buckets slot 0 - 1))
  unfolding probe
  probe-interned fuel slot h same = ground (arith, h, same)

  probe-later :
      (fuel slot : ℕ)
      → get_or t.buckets slot 0 ≢ 0
      → same_name (name_at t.syms (get_or t.buckets slot 0 - 1)) name ≡ false
      → probe (suc fuel) t name slot ≡ probe fuel t name (next_slot t.buckets slot)
  unfolding probe
  probe-later fuel slot h other = ground (arith, h, other)

  -- No record that a bucket on the way refers to has the name: the loop ends at the empty bucket.
  pub probe-misses :
      (fuel e s : ℕ)
      → IsPow t.buckets
      → e < fuel
      → cell t.buckets s e ≡ 0
      → ((j : ℕ) → j < e → cell t.buckets s j ≢ 0)
      → ((q : ℕ) → get_or t.buckets q 0 ≢ 0 → name_at t.syms (get_or t.buckets q 0 - 1) ≢ name)
      → probe fuel t name (s % length t.buckets) ≡ some (vacant ((s + e) % length t.buckets))
  probe-misses zero e s pow h at before other = absurd (omega arith)
  probe-misses (suc fuel) zero s pow h at before other =
      probe-vacant fuel (s % length t.buckets) (cell-start t.buckets s ∙ at)
      ∙ ap (λ k. some (vacant (k % length t.buckets))) (omega arith)
  probe-misses (suc fuel) (suc e) s pow h at before other =
      let slot = s % length t.buckets in
      let full : get_or t.buckets slot 0 ≢ 0 =
        λ z. before 0 (omega arith) (sym (cell-start t.buckets s) ∙ z) in
      let unlike =
        same_name-false (name_at t.syms (get_or t.buckets slot 0 - 1)) name (other slot full) in
      probe-later fuel slot full unlike
      ∙ ap (probe fuel t name) (next_slot-mod t.buckets s pow)
      ∙ probe-misses fuel e (s + 1) pow (omega arith) (cell-step t.buckets s e ∙ at)
          (λ j l z. before (suc j) (omega arith) (sym (cell-step t.buckets s j) ∙ z)) other
      ∙ ap (λ k. some (vacant (k % length t.buckets))) (omega arith)

  -- The record `i` alone has the name, and its bucket is met before an empty one.
  pub probe-finds :
      (fuel e s i : ℕ)
      → IsPow t.buckets
      → e < fuel
      → cell t.buckets s e ≡ suc i
      → ((j : ℕ) → j < e → cell t.buckets s j ≢ 0)
      → name_at t.syms i ≡ name
      → ((q : ℕ)
          → get_or t.buckets q 0 ≢ 0
          → name_at t.syms (get_or t.buckets q 0 - 1) ≡ name
          → get_or t.buckets q 0 - 1 ≡ i)
      → probe fuel t name (s % length t.buckets) ≡ some (interned i)
  probe-finds zero e s i pow h at before named only = absurd (omega arith)
  probe-finds (suc fuel) zero s i pow h at before named only =
      let slot = s % length t.buckets in
      let here : get_or t.buckets slot 0 ≡ suc i = cell-start t.buckets s ∙ at in
      let rec : get_or t.buckets slot 0 - 1 ≡ i = omega (arith, here) in
      let like =
        ap (λ k. same_name (name_at t.syms k) name) rec
        ∙ ap (λ k. same_name k name) named
        ∙ same_name_refl name in
      probe-interned fuel slot (λ z. absurd (omega (arith, here, z))) like
      ∙ ap (λ k. some (interned k)) rec
  probe-finds (suc fuel) (suc e) s i pow h at before named only =
      let slot = s % length t.buckets in
      let full : get_or t.buckets slot 0 ≢ 0 =
        λ z. before 0 (omega arith) (sym (cell-start t.buckets s) ∙ z) in
      elim (Bool-cases (same_name (name_at t.syms (get_or t.buckets slot 0 - 1)) name)) [
        | inl like ↦
            let rec =
              only slot full
                (same_name-true (name_at t.syms (get_or t.buckets slot 0 - 1)) name like) in
            probe-interned fuel slot full like ∙ ap (λ k. some (interned k)) rec
        | inr unlike ↦
            probe-later fuel slot full unlike
            ∙ ap (probe fuel t name) (next_slot-mod t.buckets s pow)
            ∙ probe-finds fuel e (s + 1) i pow (omega arith) (cell-step t.buckets s e ∙ at)
                (λ j l z. before (suc j) (omega arith) (sym (cell-step t.buckets s j) ∙ z)) named
                only
      ]
