-- ===== src/Asm/SymTab/Index.antt =====
-- The buckets of asm/internal/symtab.c as an index of the records: each record is reached from the hash
-- of its name, and the insertions of `bucket_insert`, `rehash` and `qas_asm_symtab_intern` keep it so.
use quicks_qas.Common.{
  ℕ, zero, suc, ◌+◌, ◌%◌, ◌^◌, ◌≤◌, ◌<◌, ◌≡◌, ◌≢◌, inl, inr, refl, sym, ap, ◌∙◌, List, [], ◌∷◌,
  length, length-set, get_or, set, get_or-set_self, get_or-set_ne, ◌==◌, arith, Bool-cases,
}
use native.Mathlib.Nat.{mod-lt}
use mathlib.Core.Path.{subst}
use quicks_qas.Common.Words.{u32}
use quicks_qas.Asm.SymTab.Ops.{Sym, name_at, fnv1a}
use quicks_qas.Asm.SymTab.Buckets.{IsPow, IsPow-pos, cell, occupied, Walk}

-- The walk from hash `s` meets the bucket of record `i` before an empty one.
pub record Reach (b : List ℕ) (s i : ℕ) : Type 0 where
  pub steps : ℕ
  pub inside : steps < length b
  pub there : cell b s steps ≡ suc i
  pub full_before : (j : ℕ) → j < steps → cell b s j ≢ 0

-- The buckets index the first `m` records.
pub record Indexed (b : List ℕ) (syms : List Sym) (m : ℕ) : Type 0 where
  pub pow : IsPow b
  pub bounded : (q : ℕ) → get_or b q 0 ≤ m
  pub reached : (i : ℕ) → i < m → Reach b (fnv1a (name_at syms i)) i
  pub used : occupied b ≡ m

occupied-set :
    (b : List ℕ) (p v : ℕ)
    → p < length b
    → get_or b p 0 ≡ 0
    → v ≢ 0
    → occupied (set b p v) ≡ occupied b + 1
occupied-set [] p v h z n = absurd (omega arith)
occupied-set (x ∷ b) zero v h z n = ground (arith, z, n)
occupied-set (x ∷ b) (suc p) v h z n = omega (arith, occupied-set b p v (omega arith) z n)

-- A bucket after a write of `v` into an empty one, `p`.
module _ (b : List ℕ) (p v : ℕ) (h : p < length b) where
  cell-set : (s d : ℕ) → cell (set b p v) s d ≡ get_or (set b p v) ((s + d) % length b) 0
  cell-set s d = ap (λ n. get_or (set b p v) ((s + d) % n) 0) (length-set b p v)

  cell-set_new : (s d : ℕ) → (s + d) % length b ≡ p → cell (set b p v) s d ≡ v
  cell-set_new s d e = cell-set s d ∙ ap (λ q. get_or (set b p v) q 0) e ∙ get_or-set_self b p v 0 h

  cell-set_old : (s d i : ℕ) → get_or b p 0 ≡ 0 → cell b s d ≡ suc i → cell (set b p v) s d ≡ suc i
  cell-set_old s d i z e =
      let apart : p ≢ (s + d) % length b =
        λ q. absurd (omega (arith, z, e, ap (λ k. get_or b k 0) q)) in
      cell-set s d ∙ get_or-set_ne b v 0 apart ∙ e

  cell-set_full : (s d : ℕ) → v ≢ 0 → cell b s d ≢ 0 → cell (set b p v) s d ≢ 0
  cell-set_full s d n full = elim (Bool-cases (p == (s + d) % length b)) [
    | inl e ↦ λ z. n (sym (cell-set_new s d (ground (arith, e))) ∙ z)
    | inr e ↦
        λ z. full (sym (get_or-set_ne b v 0 (λ q. ground (arith, e, q))) ∙ sym (cell-set s d) ∙ z)
  ]

  set-bounded :
      (m : ℕ) → ((q : ℕ) → get_or b q 0 ≤ m) → v ≤ m → (q : ℕ) → get_or (set b p v) q 0 ≤ m
  set-bounded m all l q = elim (Bool-cases (p == q)) [
    | inl e ↦
        let at : get_or (set b p v) q 0 ≡ v =
          ap (λ k. get_or (set b p v) k 0) (ground (arith, e)) ∙ get_or-set_self b p v 0 h in
        omega (arith, at)
    | inr e ↦ omega (arith, all q, get_or-set_ne b v 0 (λ (same : p ≡ q). ground (arith, e, same)))
  ]

-- Record `m` written to the empty bucket that its walk ends at.
module _ (b : List ℕ) (syms : List Sym) (m : ℕ) (ix : Indexed b syms m)
    (w : Walk b (fnv1a (name_at syms m))) where
  abbrev pub target : ℕ
  target = (fnv1a (name_at syms m) + w.steps) % length b

  target-inside : target < length b
  target-inside = mod-lt (fnv1a (name_at syms m) + w.steps) (IsPow-pos b ix.pow)

  place-Reach : (i : ℕ) → i < suc m → Reach (set b target (suc m)) (fnv1a (name_at syms i)) i
  place-Reach i l = elim (Bool-cases (i == m)) [
    | inl e ↦
        subst (λ k. Reach (set b target (suc m)) (fnv1a (name_at syms k)) k) (ground (arith, e))
          newest
    | inr e ↦ older (ix.reached i (ground (arith, e, l)))
  ]
    where
      newest : Reach (set b target (suc m)) (fnv1a (name_at syms m)) m
      newest = record {
        steps = w.steps;
        inside = omega (arith, w.inside, length-set b target (suc m));
        there = cell-set_new b target (suc m) target-inside (fnv1a (name_at syms m)) w.steps refl;
        full_before = λ j less.
            cell-set_full b target (suc m) target-inside (fnv1a (name_at syms m)) j
              (λ z. absurd (omega (arith, z))) (w.full_before j less);
      }

      older :
          {i : ℕ}
          → Reach b (fnv1a (name_at syms i)) i
          → Reach (set b target (suc m)) (fnv1a (name_at syms i)) i
      older {i} r = record {
        steps = r.steps;
        inside = omega (arith, r.inside, length-set b target (suc m));
        there =
            cell-set_old b target (suc m) target-inside (fnv1a (name_at syms i)) r.steps i
              w.empty_there r.there;
        full_before = λ j less.
            cell-set_full b target (suc m) target-inside (fnv1a (name_at syms i)) j
              (λ z. absurd (omega (arith, z))) (r.full_before j less);
      }

  place_suc : Indexed (set b target (suc m)) syms (suc m)
  place_suc =
      let (k, e) = ix.pow in
      record {
        pow = (k, length-set b target (suc m) ∙ e);
        bounded =
            set-bounded b target (suc m) target-inside (suc m) (λ q. omega (arith, ix.bounded q))
              (omega arith);
        reached = place-Reach;
        used = omega (
          arith,
          ix.used,
          occupied-set b target (suc m) target-inside w.empty_there
              (λ z. absurd (omega (arith, z))),
        );
      }

  pub place : m + 1 < 2 ^ 32 → Indexed (set b target (u32 (m + 1))) syms (suc m)
  place h = subst (λ v. Indexed (set b target v) syms (suc m)) (exact m h) place_suc
    where
      exact : (m : ℕ) → m + 1 < 2 ^ 32 → suc m ≡ u32 (m + 1)
      exact m h = omega (arith, h)
