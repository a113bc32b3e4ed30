-- ===== src/Source/Search.antt =====
-- The binary search of `qas_source_location` finds how many line starts do not exceed an offset.
use quicks_qas.Common.{
  ℕ, zero, suc, ◌+◌, ◌-◌, ◌/◌, ◌≤◌, ◌<◌, ◌≡◌, inl, inr, sym, ap, List, [], ◌∷◌, some, length,
  get_or, leb, ltb, if◌then◌else◌, arith, Bool-cases,
}
use quicks_qas.Source.Index.{upper_bound}

-- How many entries at the front do not exceed `o`.
abbrev pub count_le : List ℕ → ℕ → ℕ
count_le [] o = 0
count_le (x ∷ xs) o = if leb x o then suc (count_le xs o) else 0

abbrev pub Increasing : ℕ → List ℕ → Type 0
Increasing lo [] = Unit
Increasing lo (x ∷ xs) = (lo ≤ x) × Increasing x xs

lower_bound : (xs : List ℕ) (lo i : ℕ) → Increasing lo xs → i < length xs → lo ≤ get_or xs i 0
lower_bound [] lo i h l = absurd (omega arith)
lower_bound (x ∷ xs) lo zero h l = h.0
lower_bound (x ∷ xs) lo (suc i) h l = omega (arith, lower_bound xs x i h.1 (omega arith))

get_or_mono :
    (xs : List ℕ) (lo i j : ℕ)
    → Increasing lo xs
    → i ≤ j
    → j < length xs
    → get_or xs i 0 ≤ get_or xs j 0
get_or_mono [] lo i j h e l = absurd (omega arith)
get_or_mono (x ∷ xs) lo zero zero h e l = omega arith
get_or_mono (x ∷ xs) lo zero (suc j) h e l = lower_bound xs x j h.1 (omega arith)
get_or_mono (x ∷ xs) lo (suc i) zero h e l = absurd (omega arith)
get_or_mono (x ∷ xs) lo (suc i) (suc j) h e l = get_or_mono xs x i j h.1 (omega arith) (omega arith)

count_le_lem :
    (xs : List ℕ) (o k : ℕ)
    → k ≤ length xs
    → ((j : ℕ) → j < k → get_or xs j 0 ≤ o)
    → (k < length xs → o < get_or xs k 0)
    → count_le xs o ≡ k
count_le_lem [] o k h below above = omega arith
count_le_lem (x ∷ xs) o zero h below above = ground (arith, above)
count_le_lem (x ∷ xs) o (suc k) h below above = ground (
  arith,
  below 0,
  count_le_lem xs o k (omega arith) (λ j l. below (suc j) (omega arith)) (λ l. above (omega arith)),
)

-- Over increasing starts the search ends within its fuel, and with the count.
pub upper_bound_lem :
    (xs : List ℕ) (o fuel lo hi : ℕ)
    → Increasing 0 xs
    → hi - lo < fuel
    → lo ≤ hi
    → hi ≤ length xs
    → ((j : ℕ) → j < lo → get_or xs j 0 ≤ o)
    → ((j : ℕ) → hi ≤ j → j < length xs → o < get_or xs j 0)
    → upper_bound fuel xs o lo hi ≡ some (count_le xs o)
unfolding upper_bound
upper_bound_lem xs o zero lo hi s f l h below above = absurd (omega arith)
upper_bound_lem xs o (suc fuel) lo hi s f l h below above =
    let mid = lo + (hi - lo) / 2 in
    elim (Bool-cases (ltb lo hi)) [
      | inr e ↦ rw e (
          ap some (sym (count_le_lem xs o lo (omega arith) below (λ q. above lo (ground arith) q))))
      | inl e ↦ elim (Bool-cases (leb (get_or xs mid 0) o)) [
        | inl m ↦
            rw (e, m)
              (upper_bound_lem xs o fuel (mid + 1) hi s (ground arith) (ground arith) h
                (λ j q. ground (arith, get_or_mono xs 0 j mid s)) above)
        | inr m ↦
            rw (e, m)
              (upper_bound_lem xs o fuel lo mid s (ground arith) (omega arith) (ground arith) below
                (λ j q r. ground (arith, get_or_mono xs 0 mid j s)))
      ]
    ]
