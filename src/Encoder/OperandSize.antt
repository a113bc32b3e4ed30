-- ===== src/Encoder/OperandSize.antt =====
-- `compute_op_size` (encoder/internal/insn_table.c): the one size of 16 bits or more that the operands have.
use quicks_qas.Common.{
  ℕ, ◌≤◌, ◌≡◌, ◌≢◌, ◌⊎◌, inl, inr, refl, sym, ◌∙◌, false, List, [], ◌∷◌, leb, ◌==◌, arith,
  Bool-cases,
}
use mathlib.Core.Path.{subst}
use quicks_qas.Ast.{Operand, OperandKind, no_operand, reg, imm, mem}
use quicks_qas.Encoder.Select.{operand_size, op_size_loop, compute_op_size}

-- A register or memory operand has this size; an immediate has none.
abbrev pub HasSize : ℕ → OperandKind → Type 0
HasSize s no_operand = ⊥
HasSize s (reg r) = r.size_bits ≡ s
HasSize s (imm i) = ⊥
HasSize s (mem m) = m.size ≡ s

-- One of the operands has this size.
abbrev pub Uses : ℕ → List Operand → Type 0
Uses s [] = ⊥
Uses s (op ∷ ops) = HasSize s op.kind ⊎ Uses s ops

-- Two operands have different sizes of 16 bits or more.
pub record Conflict (ops : List Operand) : Type 0 where
  pub one : ℕ
  pub other : ℕ
  pub one_wide : 16 ≤ one
  pub other_wide : 16 ≤ other
  pub differ : one ≢ other
  pub one_used : Uses one ops
  pub other_used : Uses other ops

-- The size that all operands of 16 bits or more have, or 0 if there are none.
pub record SizeIs (ops : List Operand) (size : ℕ) : Type 0 where
  pub only : (s : ℕ) → 16 ≤ s → Uses s ops → s ≡ size
  pub used : (size ≡ 0) ⊎ ((16 ≤ size) × Uses size ops)

-- No operand is larger than 64 bits.
abbrev pub AtMost64 : List Operand → Type 0
AtMost64 ops = (s : ℕ) → Uses s ops → s ≤ 64

-- The size found so far counts as one more operand.
abbrev Seen : ℕ → ℕ → List Operand → Type 0
Seen acc s ops = (acc ≡ s) ⊎ Uses s ops

record Clash (acc : ℕ) (ops : List Operand) : Type 0 where
  one : ℕ
  other : ℕ
  one_wide : 16 ≤ one
  other_wide : 16 ≤ other
  differ : one ≢ other
  one_used : Seen acc one ops
  other_used : Seen acc other ops

record Agreed (acc : ℕ) (ops : List Operand) (size : ℕ) : Type 0 where
  only : (s : ℕ) → 16 ≤ s → Seen acc s ops → s ≡ size
  used : (size ≡ 0) ⊎ ((16 ≤ size) × Seen acc size ops)
  small : size ≤ 64

Outcome : ℕ → List Operand → ℕ → Type 0
Outcome acc ops r = ((r ≡ 0xFF) × Clash acc ops) ⊎ Agreed acc ops r

Outcome-map :
    (acc acc' : ℕ) (ops ops' : List Operand) (r : ℕ)
    → ((s : ℕ) → 16 ≤ s → Seen acc s ops → Seen acc' s ops')
    → ((s : ℕ) → 16 ≤ s → Seen acc' s ops' → Seen acc s ops)
    → Outcome acc ops r
    → Outcome acc' ops' r
unfolding Outcome
Outcome-map acc acc' ops ops' r to back (inl (e, c)) = inl (
  e,
  record {
    one = c.one;
    other = c.other;
    one_wide = c.one_wide;
    other_wide = c.other_wide;
    differ = c.differ;
    one_used = to c.one c.one_wide c.one_used;
    other_used = to c.other c.other_wide c.other_used;
  },
)
Outcome-map acc acc' ops ops' r to back (inr a) = inr (record {
  only = λ s w u. a.only s w (back s w u);
  used = elim a.used [ inl z ↦ inl z | inr (w, u) ↦ inr (w, to r w u) ];
  small = a.small;
})

HasSize-operand_size : (s : ℕ) (kd : OperandKind) → HasSize s kd → operand_size kd ≡ s
unfolding operand_size
HasSize-operand_size s no_operand h = absurd h
HasSize-operand_size s (reg r) h = h
HasSize-operand_size s (imm i) h = absurd h
HasSize-operand_size s (mem m) h = h

operand_size-HasSize : (kd : OperandKind) → 16 ≤ operand_size kd → HasSize (operand_size kd) kd
unfolding operand_size
operand_size-HasSize no_operand h = omega arith
operand_size-HasSize (reg r) h = refl
operand_size-HasSize (imm i) h = omega arith
operand_size-HasSize (mem m) h = refl

wide_start : (acc : ℕ) → (acc ≡ 0) ⊎ (16 ≤ acc) → (acc == 0) ≡ false → 16 ≤ acc
wide_start acc (inl z) h = absurd (ground (arith, z, h))
wide_start acc (inr w) h = w

-- One more operand in front: smaller than 16 bits, the first size, the size found, or another one.
module _ (acc : ℕ) (op : Operand) (ops : List Operand) where
  low_operand :
      (r : ℕ) → leb 16 (operand_size op.kind) ≡ false → Outcome acc ops r → Outcome acc (op ∷ ops) r
  low_operand r low =
      Outcome-map acc acc ops (op ∷ ops) r (λ s w u. elim u [ inl e ↦ inl e | inr v ↦ inr (inr v) ])
        (λ s w u. elim u [
          | inl e ↦ inl e
          | inr (inl k) ↦ absurd (ground (arith, low, w, HasSize-operand_size s op.kind k))
          | inr (inr v) ↦ inr v
        ])

  first_size :
      (r : ℕ)
      → acc ≡ 0
      → 16 ≤ operand_size op.kind
      → Outcome (operand_size op.kind) ops r
      → Outcome acc (op ∷ ops) r
  first_size r none_yet wide =
      Outcome-map (operand_size op.kind) acc ops (op ∷ ops) r
        (λ s w u. elim u [
          | inl e ↦ inr (inl (subst (λ k. HasSize k op.kind) e (operand_size-HasSize op.kind wide)))
          | inr v ↦ inr (inr v)
        ])
        (λ s w u. elim u [
          | inl e ↦ absurd (omega (arith, none_yet, e, w))
          | inr (inl k) ↦ inl (HasSize-operand_size s op.kind k)
          | inr (inr v) ↦ inr v
        ])

  same_size : (r : ℕ) → acc ≡ operand_size op.kind → Outcome acc ops r → Outcome acc (op ∷ ops) r
  same_size r same =
      Outcome-map acc acc ops (op ∷ ops) r (λ s w u. elim u [ inl e ↦ inl e | inr v ↦ inr (inr v) ])
        (λ s w u. elim u [
          | inl e ↦ inl e
          | inr (inl k) ↦ inl (same ∙ HasSize-operand_size s op.kind k)
          | inr (inr v) ↦ inr v
        ])

  other_size :
      16 ≤ acc
      → 16 ≤ operand_size op.kind
      → acc ≢ operand_size op.kind
      → Outcome acc (op ∷ ops) 0xFF
  unfolding Outcome
  other_size wide_acc wide other = inl (
    refl,
    record {
      one = acc;
      other = operand_size op.kind;
      one_wide = wide_acc;
      other_wide = wide;
      differ = other;
      one_used = inl refl;
      other_used = inr (inl (operand_size-HasSize op.kind wide));
    },
  )

no_operands : (acc : ℕ) → (acc ≡ 0) ⊎ (16 ≤ acc) → acc ≤ 64 → Outcome acc [] acc
unfolding Outcome
no_operands acc start small = inr (record {
  only = λ s w u. elim u [ inl e ↦ sym e | inr v ↦ absurd v ];
  used = elim start [ inl z ↦ inl z | inr w ↦ inr (w, inl refl) ];
  small = small;
})

op_size_loop-Outcome :
    (acc : ℕ) (ops : List Operand)
    → (acc ≡ 0) ⊎ (16 ≤ acc)
    → acc ≤ 64
    → AtMost64 ops
    → Outcome acc ops (op_size_loop acc ops)
unfolding op_size_loop
op_size_loop-Outcome acc [] start small all = no_operands acc start small
op_size_loop-Outcome acc (op ∷ ops) start small all =
    let h = operand_size op.kind in
    let rest : AtMost64 ops = λ s u. all s (inr u) in
    let keep = op_size_loop-Outcome acc ops start small rest in
    elim (Bool-cases (leb 16 h)) [
      | inr low ↦ rw low (low_operand acc op ops (op_size_loop acc ops) low keep)
      | inl high ↦
          let wide : 16 ≤ h = ground (arith, high) in
          let fresh = all h (inl (operand_size-HasSize op.kind wide)) in
          elim (Bool-cases (acc == 0)) [
            | inl z ↦
                rw (high, z)
                  (first_size acc op ops (op_size_loop h ops) (ground (arith, z)) wide
                    (op_size_loop-Outcome h ops (inr wide) fresh rest))
            | inr nz ↦ elim (Bool-cases (acc == h)) [
              | inl e ↦
                  rw (high, nz, e)
                    (same_size acc op ops (op_size_loop acc ops) (ground (arith, e)) keep)
              | inr ne ↦
                  rw (high, nz, ne)
                    (other_size acc op ops (wide_start acc start nz) wide
                      (λ q. ground (arith, ne, q)))
            ]
          ]
    ]

-- The operands conflict, or the result is their size.
pub compute_op_size-decides :
    (ops : List Operand)
    → AtMost64 ops
    → ((compute_op_size ops ≡ 0xFF) × Conflict ops)
      ⊎ ((compute_op_size ops ≤ 64) × SizeIs ops (compute_op_size ops))
unfolding compute_op_size Outcome
compute_op_size-decides ops all = unseen (op_size_loop-Outcome 0 ops (inl refl) (omega arith) all)
  where
    wide_use : (s : ℕ) → 16 ≤ s → Seen 0 s ops → Uses s ops
    wide_use s w (inl e) = absurd (omega arith)
    wide_use s w (inr u) = u

    unseen :
        Outcome 0 ops (op_size_loop 0 ops)
        → ((op_size_loop 0 ops ≡ 0xFF) × Conflict ops)
          ⊎ ((op_size_loop 0 ops ≤ 64) × SizeIs ops (op_size_loop 0 ops))
    unseen (inl (e, c)) = inl (
      e,
      record {
        one = c.one;
        other = c.other;
        one_wide = c.one_wide;
        other_wide = c.other_wide;
        differ = c.differ;
        one_used = wide_use c.one c.one_wide c.one_used;
        other_used = wide_use c.other c.other_wide c.other_used;
      },
    )
    unseen (inr a) = inr (
      a.small,
      record {
        only = λ s w u. a.only s w (inr u);
        used = elim a.used [
          | inl z ↦ inl z
          | inr (w, u) ↦ inr (w, wide_use (op_size_loop 0 ops) w u)
        ];
      },
    )
