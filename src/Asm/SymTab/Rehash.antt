-- ===== src/Asm/SymTab/Rehash.antt =====
-- The insertions of asm/internal/symtab.c one after the other: `bucket_insert` and `rehash` end, and index
-- the records.
use quicks_qas.Common.{
  ℕ, zero, suc, ◌+◌, ◌^◌, ◌<◌, ◌≡◌, refl, ap, ◌∙◌, List, Option, some, length, length-set, get_or,
  set, replicate, length-replicate, arith,
}
use mathlib.Core.Path.{subst}
use quicks_qas.Common.Words.{u32}
use quicks_qas.Asm.SymTab.Ops.{
  Sym, name_at, fnv1a, bucket_insert, insert_at, empty_slot, insert_all,
}
use quicks_qas.Asm.SymTab.Buckets.{occupied, Walk, walk, home_slot-mod}
use quicks_qas.Asm.SymTab.Probing.{empty_slot-end}
use quicks_qas.Asm.SymTab.Index.{Indexed, target, place}

-- Fewer records than buckets: the walk for the next one ends.
pub vacancy : (b : List ℕ) (syms : List Sym) (m s : ℕ) → Indexed b syms m → m < length b → Walk b s
vacancy b syms m s ix h = walk b s (omega (arith, ix.used))

-- `bucket_insert` ends, and adds the next record to the index.
pub record Inserts (b : List ℕ) (syms : List Sym) (m : ℕ) (out : Option (List ℕ)) : Type 0 where
  pub after : List ℕ
  pub result : out ≡ some after
  pub same_size : length after ≡ length b
  pub indexed : Indexed after syms m

bucket_insert-Inserts :
    (b : List ℕ) (syms : List Sym) (m : ℕ)
    → Indexed b syms m
    → m < length b
    → m + 1 < 2 ^ 32
    → Inserts b syms (suc m) (bucket_insert b syms m)
unfolding bucket_insert
bucket_insert-Inserts b syms m ix room h =
    let w = vacancy b syms m (fnv1a (name_at syms m)) ix room in
    let found =
      empty_slot-end (length b) w.steps (fnv1a (name_at syms m)) b ix.pow w.inside w.empty_there
        w.full_before in
    let start =
      ap (λ slot. insert_at b m (empty_slot (length b) b slot))
        (home_slot-mod b (name_at syms m) ix.pow) in
    record {
      after = set b (target b syms m ix w) (u32 (m + 1));
      result = start ∙ ap (insert_at b m) found;
      same_size = length-set b (target b syms m ix w) (u32 (m + 1));
      indexed = place b syms m ix w h;
    }

insert_all-suc :
    (n i : ℕ) (syms : List Sym) (b after : List ℕ)
    → bucket_insert b syms i ≡ some after
    → insert_all (suc n) i syms b ≡ insert_all n (i + 1) syms after
unfolding insert_all
insert_all-suc n i syms b after e = rw (e, insert_all) refl

insert_all-Inserts :
    (n i : ℕ) (syms : List Sym) (b : List ℕ)
    → Indexed b syms i
    → i + n < length b
    → i + n < 2 ^ 32
    → Inserts b syms (i + n) (insert_all n i syms b)
unfolding insert_all
insert_all-Inserts zero i syms b ix room h = record {
  after = b;
  result = refl;
  same_size = refl;
  indexed = subst (Indexed b syms) (omega arith) ix;
}
insert_all-Inserts (suc n) i syms b ix room h =
    let first = bucket_insert-Inserts b syms i ix (omega arith) (omega arith) in
    let next : Indexed first.after syms (i + 1) =
      subst (Indexed first.after syms) (omega arith) first.indexed in
    let rest =
      insert_all-Inserts n (i + 1) syms first.after next (omega (arith, first.same_size, room))
        (omega arith) in
    record {
      after = rest.after;
      result = insert_all-suc n i syms b first.after first.result ∙ rest.result;
      same_size = rest.same_size ∙ first.same_size;
      indexed = subst (Indexed rest.after syms) (omega arith) rest.indexed;
    }

occupied-replicate : (n : ℕ) → occupied (replicate n 0) ≡ 0
occupied-replicate zero = refl
occupied-replicate (suc n) = omega (arith, occupied-replicate n)

get_or-replicate : (n q : ℕ) → get_or {A = ℕ} (replicate n 0) q 0 ≡ 0
get_or-replicate zero q = refl
get_or-replicate (suc n) zero = refl
get_or-replicate (suc n) (suc q) = get_or-replicate n q

-- New buckets of a size that is a power of two index no record.
blank-Indexed : (n k : ℕ) (syms : List Sym) → n ≡ 2 ^ k → Indexed (replicate n 0) syms 0
blank-Indexed n k syms e = record {
  pow = (k, length-replicate n 0 ∙ e);
  bounded = λ q. omega (arith, get_or-replicate n q);
  reached = λ i l. absurd (omega (arith, l));
  used = occupied-replicate n;
}

-- `rehash` into `n` new buckets indexes all the records.
pub rehash-Inserts :
    (n k : ℕ) (syms : List Sym)
    → n ≡ 2 ^ k
    → length syms < n
    → length syms < 2 ^ 32
    → Inserts (replicate n 0) syms (length syms) (insert_all (length syms) 0 syms (replicate n 0))
rehash-Inserts n k syms e room h =
    let size : length {A = ℕ} (replicate n 0) ≡ n = length-replicate n 0 in
    let all : Inserts (replicate n 0) syms (0 + length syms)
        (insert_all (length syms) 0 syms (replicate n 0)) =
      insert_all-Inserts (length syms) 0 syms (replicate n 0) (blank-Indexed n k syms e)
        (omega (arith, size, room)) (omega (arith, h)) in
    subst (λ m. Inserts (replicate n 0) syms m (insert_all (length syms) 0 syms (replicate n 0)))
      (omega arith) all
