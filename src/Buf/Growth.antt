-- ===== src/Buf/Growth.antt =====
-- The capacity of a buffer (`qas_buf_reserve`, buf/buf.c).
use quicks_qas.Common.{
  ℕ, zero, suc, ◌+◌, ◌-◌, ◌*◌, ◌%◌, ◌^◌, ◌≤◌, ◌<◌, ◌≡◌, ◌≢◌, ◌⊎◌, inl, inr, refl, ap, Bool, false,
  length, leb, ltb, ◌==◌, if◌then◌else◌, arith, Bool-cases,
}
use native.Mathlib.Nat.{pow-suc}
use quicks_qas.Common.Words.{u64}
use quicks_qas.Status.{Status, ok}
use quicks_qas.Buf.Ops.{Buf, grow, realloc_to, reserve, Outcome}

double_pow : (cap fuel : ℕ) → cap * 2 ^ suc fuel ≡ cap * 2 * 2 ^ fuel
double_pow cap fuel = grind (arith, pow-suc)

-- Doubling covers the need within as many rounds as there are doublings up to it.
grow-covers :
    (fuel cap needed : ℕ)
    → cap < 2 ^ 64
    → needed < 2 ^ 64
    → needed ≤ cap * 2 ^ fuel
    → needed ≤ grow fuel cap needed
unfolding grow
grow-covers zero cap needed hc h e = omega arith
grow-covers (suc fuel) cap needed hc h e =
    ground (arith, double_pow cap fuel, small cap fuel, grow-covers fuel (cap * 2 % 2 ^ 64) needed)
  where
    small : (c f : ℕ) → c * 2 < 2 ^ 64 → c * 2 % 2 ^ 64 * 2 ^ f ≡ c * 2 * 2 ^ f
    small c f l = ap (λ (t : ℕ). t * 2 ^ f) (omega arith)

grow-lt : (fuel size needed : ℕ) → size < 2 ^ 64 → needed < 2 ^ 64 → grow fuel size needed < 2 ^ 64
unfolding grow
grow-lt zero size needed hc h = hc
grow-lt (suc fuel) size needed hc h = ground (arith, grow-lt fuel (size * 2 % 2 ^ 64) needed)

pub record IsValid (b : Buf) : Type 0 where
  pub holds_len : length b.bytes ≤ b.cap
  pub cap_fits : b.cap < 2 ^ 64

-- What a reservation does: the bytes stay, the buffer stays valid, and on success there is room.
pub record Reserved (b : Buf) (additional : ℕ) (r : Outcome) : Type 0 where
  pub same_bytes : r.1.bytes ≡ b.bytes
  pub valid : IsValid r.1
  pub room : r.0 ≡ ok → length b.bytes + additional ≤ r.1.cap
  pub unchanged : r.0 ≢ ok → r.1 ≡ b

realloc_to-Reserved :
    (grant : ℕ → Bool) (b : Buf) (new_cap additional : ℕ)
    → IsValid b
    → new_cap < 2 ^ 64
    → length b.bytes + additional ≤ new_cap
    → Reserved b additional (realloc_to grant b new_cap)
unfolding realloc_to
realloc_to-Reserved grant b new_cap additional v h r = elim (Bool-cases (grant new_cap)) [
  | inl e ↦ rw e (record {
    same_bytes = refl;
    valid = omega arith;
    room = λ _. r;
    unchanged = λ n. absurd (n refl);
  })
  | inr e ↦ rw e (record { same_bytes = refl; valid = v; room = λ n. cc; unchanged = λ _. refl })
]

-- The capacity that a reservation asks for.
abbrev first_cap : Buf → ℕ
first_cap b = if b.cap == 0 then 64 else b.cap

abbrev new_cap : Buf → ℕ → ℕ
new_cap b additional = grow 64 (first_cap b) (u64 (length b.bytes + additional))

first_cap-pos : (b : Buf) → 0 < first_cap b
first_cap-pos b = ground arith

new_cap-lt : (b : Buf) (additional : ℕ) → IsValid b → new_cap b additional < 2 ^ 64
new_cap-lt b additional v =
    grow-lt 64 (first_cap b) (u64 (length b.bytes + additional)) (ground arith) (omega arith)

new_cap-covers :
    (b : Buf) (additional : ℕ)
    → IsValid b
    → additional < 2 ^ 64
    → ltb (u64 (length b.bytes + additional)) (length b.bytes) ≡ false
    → length b.bytes + additional ≤ new_cap b additional
new_cap-covers b additional v h o =
    let exact : u64 (length b.bytes + additional) ≡ length b.bytes + additional = ground arith in
    rw exact (
      rw exact at (
        grow-covers 64 (first_cap b) (u64 (length b.bytes + additional)) (ground arith)
          (omega arith) (omega (arith, first_cap-pos b))))

pub reserve-Reserved :
    (grant : ℕ → Bool) (b : Buf) (additional : ℕ)
    → additional < 2 ^ 64
    → IsValid b
    → Reserved b additional (reserve grant b additional)
unfolding reserve
reserve-Reserved grant b additional h v =
    elim (Bool-cases (leb additional (b.cap - length b.bytes))) [
      | inl e ↦
          rw e (record {
            same_bytes = refl;
            valid = v;
            room = λ _. ground arith;
            unchanged = λ _. refl;
          })
      | inr e ↦ elim (Bool-cases (ltb (u64 (length b.bytes + additional)) (length b.bytes))) [
        | inl o ↦
            rw (e, o)
              (record { same_bytes = refl; valid = v; room = λ n. cc; unchanged = λ _. refl })
        | inr o ↦
            rw (e, o)
              (realloc_to-Reserved grant b (new_cap b additional) additional v
                (new_cap-lt b additional v) (new_cap-covers b additional v h o))
      ]
    ]

pub ok-cases : (st : Status) → (st ≡ ok) ⊎ (st ≢ ok)
ok-cases ok = inl refl
ok-cases st = inr (λ e. cc)

-- Room for `additional` more bytes behind the old ones, or a failure that changes nothing.
abbrev pub HasRoom : Buf → ℕ → Outcome → Type 0
HasRoom b additional r =
    ((r.0 ≡ ok) × (r.1.bytes ≡ b.bytes) × (length b.bytes + additional ≤ r.1.cap))
    ⊎ ((r.0 ≢ ok) × (r.1 ≡ b))

-- For every size below 2^64 and every valid buffer, whatever the allocator answers, `qas_buf_reserve`
-- leaves a valid buffer; it succeeds with the bytes kept and room for what was asked, or it fails and
-- changes nothing.
pub reserve-HasRoom :
    (grant : ℕ → Bool) (b : Buf) (additional : ℕ)
    → additional < 2 ^ 64
    → IsValid b
    → IsValid (reserve grant b additional).1 × HasRoom b additional (reserve grant b additional)
reserve-HasRoom grant b additional h v =
    let w = reserve-Reserved grant b additional h v in
    (
      w.valid,
      elim (ok-cases (reserve grant b additional).0) [
        | inl e ↦ inl (e, w.same_bytes, w.room e)
        | inr e ↦ inr (e, w.unchanged e)
      ],
    )
