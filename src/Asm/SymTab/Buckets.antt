-- ===== src/Asm/SymTab/Buckets.antt =====
-- Probing in asm/internal/symtab.c: from a hash, a walk over buckets meets every bucket, so it ends at an
-- empty one or at the record that it is after.
use quicks_qas.Common.{
  ℕ, zero, suc, ◌+◌, ◌-◌, ◌%◌, ◌^◌, ◌≤◌, ◌<◌, ◌≡◌, ◌≢◌, inl, inr, sym, ap, ◌∙◌, false, List, [],
  ◌∷◌, length, get_or, leb, ◌==◌, if◌then◌else◌, arith, Bool-cases, bit_and,
}
use quicks_qas.Common.Mask.{two_pow-pos, bit_and-mask}
use native.Mathlib.Nat.{mod-lt, mod-add-mod, mod_self, mod-eq_of_lt}
use quicks_qas.Asm.SymTab.Ops.{fnv1a, home_slot, next_slot}

-- The bucket count is a power of two.
abbrev pub IsPow : List ℕ → Type 0
IsPow b = (k : ℕ) × (length b ≡ 2 ^ k)

pub IsPow-pos : (b : List ℕ) → IsPow b → 1 ≤ length b
IsPow-pos b (k, e) = omega (arith, two_pow-pos k)

mask_mod : (b : List ℕ) (x : ℕ) → IsPow b → bit_and x (length b - 1) ≡ x % length b
mask_mod b x (k, e) = rw e (bit_and-mask x k)

pub home_slot-mod :
    (b : List ℕ) (name : List ℕ) → IsPow b → home_slot b name ≡ fnv1a name % length b
unfolding home_slot
home_slot-mod b name h = mask_mod b (fnv1a name) h

pub next_slot-mod : (b : List ℕ) (s : ℕ) → IsPow b → next_slot b (s % length b) ≡ (s + 1) % length b
unfolding next_slot
next_slot-mod b s h = mask_mod b (s % length b + 1) h ∙ mod-add-mod s (length b) 1

-- The bucket `d` steps behind the slot of hash `s`.
abbrev pub cell : List ℕ → ℕ → ℕ → ℕ
cell b s d = get_or b ((s + d) % length b) 0

pub cell-step : (b : List ℕ) (s d : ℕ) → cell b (s + 1) d ≡ cell b s (suc d)
cell-step b s d = ap (λ k. get_or b (k % length b) 0) (omega arith)

pub cell-start : (b : List ℕ) (s : ℕ) → get_or b (s % length b) 0 ≡ cell b s 0
cell-start b s = ap (λ k. get_or b (k % length b) 0) (omega arith)

-- How many buckets are in use.
abbrev pub occupied : List ℕ → ℕ
occupied [] = 0
occupied (x ∷ b) = (if x == 0 then 0 else 1) + occupied b

-- Where a bucket is empty, with fewer buckets in use than there are.
some_empty : (b : List ℕ) → occupied b < length b → (p : ℕ) × (p < length b) × (get_or b p 0 ≡ 0)
some_empty [] h = absurd (omega arith)
some_empty (x ∷ b) h = elim (Bool-cases (x == 0)) [
  | inl e ↦ (0, omega arith, ground (arith, e))
  | inr e ↦ let (p, l, z) = some_empty b (ground (arith, e)) in (suc p, omega (arith, l), z)
]

-- The first place up to `m` where a function is 0.
least_zero :
    (m : ℕ) (f : ℕ → ℕ) → f m ≡ 0 → (e : ℕ) × (e ≤ m) × (f e ≡ 0) × ((j : ℕ) → j < e → f j ≢ 0)
least_zero zero f h = (0, omega arith, h, λ j l. absurd (omega arith))
least_zero (suc m) f h = elim (Bool-cases (f 0 == 0)) [
  | inl z ↦ (0, omega arith, ground (arith, z), λ j l. absurd (omega arith))
  | inr z ↦
      let (e, l, at, before) = least_zero m (λ j. f (suc j)) h in
      (suc e, omega (arith, l), at, λ j. positive f e z before j)
]
  where
    positive :
        (f : ℕ → ℕ) (e : ℕ)
        → (f 0 == 0) ≡ false
        → ((j : ℕ) → j < e → f (suc j) ≢ 0)
        → (j : ℕ) → j < suc e
        → f j ≢ 0
    positive f e z before zero l = λ q. ground (arith, z, q)
    positive f e z before (suc j) l = before j (omega arith)

-- The walk from hash `s` to the first empty bucket, `steps` on.
pub record Walk (b : List ℕ) (s : ℕ) : Type 0 where
  pub steps : ℕ
  pub inside : steps < length b
  pub empty_there : cell b s steps ≡ 0
  pub full_before : (j : ℕ) → j < steps → cell b s j ≢ 0

-- Bucket `p` is reached from slot `s % n` in fewer than n steps.
distance : (n s p : ℕ) → 1 ≤ n → p < n → (d : ℕ) × (d < n) × ((s + d) % n ≡ p)
distance n s p h l = elim (Bool-cases (leb (s % n) p)) [
  | inl e ↦
      let d : ℕ = p - s % n in
      (d, omega arith, to_remainder n s d ∙ ap (λ x. x % n) (ground (arith, e)) ∙ mod-eq_of_lt l)
  | inr e ↦
      let low = mod-lt s h in
      let d : ℕ = p + n - s % n in
      let ahead : p < s % n = ground (arith, e) in
      (
        d,
        omega (arith, low, ahead),
        to_remainder n s d ∙ ap (λ x. x % n) (omega (arith, low, ahead)) ∙ round_again n p h l,
      )
]
  where
    to_remainder : (n s d : ℕ) → (s + d) % n ≡ (s % n + d) % n
    to_remainder n s d = sym (mod-add-mod s n d)

    round_again : (n p : ℕ) → 1 ≤ n → p < n → (n + p) % n ≡ p
    round_again n p h l =
        sym (mod-add-mod n n p)
        ∙ ap (λ x. (x + p) % n) (mod_self n)
        ∙ ap (λ x. x % n) (omega arith)
        ∙ mod-eq_of_lt l

pub walk : (b : List ℕ) (s : ℕ) → occupied b < length b → Walk b s
walk b s h =
    let (p, l, z) = some_empty b h in
    let (d, inside, there) = distance (length b) s p (omega arith) l in
    let (e, le, at, before) = least_zero d (cell b s) (ap (λ k. get_or b k 0) there ∙ z) in
    record { steps = e; inside = omega (arith, le, inside); empty_there = at; full_before = before }
