-- ===== src/Asm/SymTab/Room.antt =====
-- The growth at the head of `qas_asm_symtab_intern` (asm/internal/symtab.c) makes room for one more
-- record, and keeps the records.
use quicks_qas.Common.{
  ℕ, suc, ◌+◌, ◌*◌, ◌^◌, ◌≤◌, ◌<◌, ◌≡◌, ◌⊎◌, inl, inr, refl, sym, ap, ◌∙◌, Bool, true, false, List,
  [], some, length, length-replicate, leb, arith, Bool-cases,
}
use mathlib.Core.Path.{subst}
use native.Mathlib.Nat.{pow-suc}
use quicks_qas.Status.{ok, out_of_memory}
use quicks_qas.Asm.SymTab.Ops.{SymTab, rehash, Growth, with_buckets, ensure_room}
use quicks_qas.Asm.SymTab.Buckets.{IsPow, IsPow-pos}
use quicks_qas.Asm.SymTab.Index.{Indexed}
use quicks_qas.Asm.SymTab.Rehash.{rehash-Inserts}
use quicks_qas.Asm.SymTab.Names.{Distinct}

-- The table's invariant.
pub record IsTable (t : SymTab) : Type 0 where
  pub indexed :
      ((t.buckets ≡ []) × (t.syms ≡ []))
      ⊎ (Indexed t.buckets t.syms (length t.syms) × (length t.syms < length t.buckets))
  pub distinct : Distinct t.syms
  pub small : length t.buckets * 7 ≤ 16 * (length t.syms + 1) + 448

-- Past the growth at the head of a call: there is room for one more record.
pub record Ready (t : SymTab) : Type 0 where
  pub indexed : Indexed t.buckets t.syms (length t.syms)
  pub room : length t.syms + 1 < length t.buckets
  pub distinct : Distinct t.syms
  pub small : length t.buckets * 7 ≤ 16 * (length t.syms + 1) + 448

pub data Prepared (cleared : Bool) (t : SymTab) : Growth → Type 0 where
  ready :
      {after : SymTab} → after.syms ≡ t.syms → Ready after → Prepared cleared t (some (ok, after))
  refused : cleared ≡ false → Prepared cleared t (some (out_of_memory, t))

rehash-Prepared :
    (cleared : Bool) (t : SymTab) (n k : ℕ)
    → n ≡ 2 ^ k
    → length t.syms + 1 < n
    → length t.syms + 1 < 2 ^ 32
    → Distinct t.syms
    → n * 7 ≤ 16 * (length t.syms + 1) + 448
    → Prepared cleared t (rehash cleared t n)
unfolding rehash
rehash-Prepared false t n k pow room h d small = refused refl
rehash-Prepared true t n k pow room h d small =
    let put = rehash-Inserts n k t.syms pow (omega (arith, room)) (omega (arith, h)) in
    let same : length put.after ≡ n = put.same_size ∙ length-replicate n 0 in
    subst (λ out. Prepared true t (with_buckets t out)) (sym put.result)
      (ready refl (record {
        indexed = put.indexed;
        room = omega (arith, same, room);
        distinct = d;
        small = omega (arith, same, small);
      }))

pow-twice : (b : List ℕ) → IsPow b → (k : ℕ) × (length b * 2 ≡ 2 ^ k)
pow-twice b (k, e) = (suc k, omega (arith, e, pow-suc 2 k))

pub ensure_room-Prepared :
    (cleared : Bool) (t : SymTab)
    → IsTable t
    → length t.syms + 1 < 2 ^ 32
    → Prepared cleared t (ensure_room cleared t)
unfolding ensure_room
ensure_room-Prepared cleared t it h = elim it.indexed [
  | inl (nb, ns) ↦
      let empty : length t.buckets ≡ 0 = ap length nb in
      let none_yet : length t.syms ≡ 0 = ap length ns in
      let first : ensure_room cleared t ≡ rehash cleared t 64 = ground (arith, empty) in
      subst (Prepared cleared t) (sym first) (
        rehash-Prepared cleared t 64 6 (omega arith) (omega (arith, none_yet)) h it.distinct
          (omega (arith, none_yet)))
  | inr (ix, room) ↦ elim (Bool-cases (leb (length t.buckets * 7) ((length t.syms + 1) * 8))) [
    | inl tight ↦
        let twice : ensure_room cleared t ≡ rehash cleared t (length t.buckets * 2) =
          ground (arith, tight, h, it.small, room) in
        let le : length t.buckets * 7 ≤ (length t.syms + 1) * 8 = ground (arith, tight) in
        let (k, e) = pow-twice t.buckets ix.pow in
        subst (Prepared cleared t) (sym twice) (
          rehash-Prepared cleared t (length t.buckets * 2) k e
            (omega (arith, room, IsPow-pos t.buckets ix.pow)) h it.distinct (omega (arith, le)))
    | inr loose ↦
        let same : ensure_room cleared t ≡ some (ok, t) =
          ground (arith, loose, h, it.small, room) in
        let gt : (length t.syms + 1) * 8 < length t.buckets * 7 = ground (arith, loose) in
        subst (Prepared cleared t) (sym same) (
          ready refl (record {
            indexed = ix;
            room = omega (arith, gt);
            distinct = it.distinct;
            small = it.small;
          }))
  ]
]
