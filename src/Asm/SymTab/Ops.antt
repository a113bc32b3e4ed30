-- ===== src/Asm/SymTab/Ops.antt =====
-- The operations of asm/internal/symtab.c. A name is the list of its bytes, without NUL. `none` stands for
-- a probe that runs round the buckets without end.
use quicks_qas.Common.{
  ℕ, zero, suc, ◌+◌, ◌-◌, ◌*◌, Bool, false, List, [], ◌∷◌, ◌++◌, Option, none, some, length,
  get_elem?, get_or, set, replicate, leb, ◌==◌, if◌then◌else◌, bit_xor, bit_and,
}
use quicks_qas.Common.Words.{u32, u64}
use quicks_qas.Status.{Status, ok, out_of_memory}
use quicks_qas.Asm.Section.{same_name}

pub data SymWhere : Type 0 where
  sym_undef sym_section sym_abs : SymWhere

pub record Sym : Type 0 where
  pub name : List ℕ
  pub defined : Bool
  pub where_defined : SymWhere
  pub section : ℕ
  pub value : ℕ
  pub is_global : Bool
  pub referenced : Bool
  pub emitted : Bool
  pub elf_handle : ℕ

-- `count` and `bucket_count` are the lengths of the lists.
pub record SymTab : Type 0 where
  pub syms : List Sym
  pub capacity : ℕ
  pub buckets : List ℕ

abbrev pub symtab_init : SymTab
symtab_init = record { syms = []; capacity = 0; buckets = [] }

-- The loop of `fnv1a`, from the hash `h`.
unfoldable pub fnv_loop : ℕ → List ℕ → ℕ
fnv_loop h [] = h
fnv_loop h (c ∷ cs) = fnv_loop (u64 (bit_xor h c * 1099511628211)) cs

unfoldable pub fnv1a : List ℕ → ℕ
fnv1a name = fnv_loop 1469598103934665603 name

unfoldable pub symtab_at : SymTab → ℕ → Option Sym
symtab_at t index = get_elem? t.syms index

-- The name of a record; a bucket refers to a record that is there (Buckets).
abbrev pub name_at : List Sym → ℕ → List ℕ
name_at [] i = []
name_at (s ∷ syms) zero = s.name
name_at (s ∷ syms) (suc i) = name_at syms i

unfoldable pub home_slot : List ℕ → List ℕ → ℕ
home_slot buckets name = bit_and (fnv1a name) (length buckets - 1)

unfoldable pub next_slot : List ℕ → ℕ → ℕ
next_slot buckets slot = bit_and (slot + 1) (length buckets - 1)

-- The loop of `bucket_insert`, to the empty slot; a round for each bucket is enough (Buckets).
unfoldable pub empty_slot : ℕ → List ℕ → ℕ → Option ℕ
empty_slot zero buckets slot = none
empty_slot (suc fuel) buckets slot =
    let later = empty_slot fuel buckets (next_slot buckets slot) in
    if get_or buckets slot 0 == 0 then some slot else later

abbrev pub insert_at : List ℕ → ℕ → Option ℕ → Option (List ℕ)
insert_at buckets rec_index none = none
insert_at buckets rec_index (some slot) = some (set buckets slot (u32 (rec_index + 1)))

unfoldable pub bucket_insert : List ℕ → List Sym → ℕ → Option (List ℕ)
bucket_insert buckets syms rec_index =
    insert_at buckets rec_index
      (empty_slot (length buckets) buckets (home_slot buckets (name_at syms rec_index)))

-- The loop of `rehash` over the records from `i` on, `n` of them.
unfoldable pub insert_all : ℕ → ℕ → List Sym → List ℕ → Option (List ℕ)
insert_all zero i syms buckets = some buckets
insert_all (suc n) i syms buckets = elim (bucket_insert buckets syms i) [
  | none ↦ none
  | some next ↦ insert_all n (i + 1) syms next
]

abbrev pub Growth : Type 0
Growth = Option (Status × SymTab)

abbrev pub with_buckets : SymTab → Option (List ℕ) → Growth
with_buckets t none = none
with_buckets t (some buckets) =
    some (ok, record { syms = t.syms; capacity = t.capacity; buckets = buckets })

-- `calloc` provides the new array, or not.
unfoldable pub rehash : Bool → SymTab → ℕ → Growth
rehash cleared t new_count =
    if cleared
    then with_buckets t (insert_all (length t.syms) 0 t.syms (replicate new_count 0))
    else some (out_of_memory, t)

unfoldable pub new_sym : List ℕ → Sym
new_sym name = record {
  name = name;
  defined = false;
  where_defined = sym_undef;
  section = 0;
  value = 0;
  is_global = false;
  referenced = false;
  emitted = false;
  elf_handle = 0;
}

-- What the allocator gives to one call: calloc for the buckets, realloc for the records, malloc for the
-- copy of the name.
pub record Grants : Type 0 where
  pub cleared : Bool
  pub grown : Bool
  pub copied : Bool

-- Past the growth of the records.
abbrev pub append_copy : Bool → SymTab → List ℕ → Status × SymTab
append_copy copied t name =
    if copied
    then (
      ok,
      record { syms = t.syms ++ (new_sym name ∷ []); capacity = t.capacity; buckets = t.buckets },
    )
    else (out_of_memory, t)

unfoldable pub append_record : Grants → SymTab → List ℕ → Status × SymTab
append_record g t name =
    let larger : SymTab = record {
      syms = t.syms;
      capacity = if t.capacity == 0 then 32 else t.capacity * 2;
      buckets = t.buckets;
    } in
    if leb t.capacity (length t.syms)
    then (if g.grown then append_copy g.copied larger name else (out_of_memory, t))
    else append_copy g.copied t name

-- The end of the probing loop of `qas_asm_symtab_intern`: a record of this name, or an empty slot.
pub data Probe : Type 0 where
  interned : ℕ → Probe
  vacant : ℕ → Probe

unfoldable pub probe : ℕ → SymTab → List ℕ → ℕ → Option Probe
probe zero t name slot = none
probe (suc fuel) t name slot =
    let rec = get_or t.buckets slot 0 in
    let later = probe fuel t name (next_slot t.buckets slot) in
    if rec == 0
    then some (vacant slot)
    else if same_name (name_at t.syms (rec - 1)) name
    then some (interned (rec - 1))
    else later

-- Status, table and the index that is written.
abbrev pub Interning : Type 0
Interning = Option (Status × SymTab × ℕ)

-- 0 stands for the index that a failure does not write.
abbrev pub publish : ℕ → ℕ → Status × SymTab → Status × SymTab × ℕ
publish slot index (ok, t) = (
  ok,
  record { syms = t.syms; capacity = t.capacity; buckets = set t.buckets slot (u32 (index + 1)) },
  u32 index,
)
publish slot index (st, t) = (st, t, 0)

abbrev pub after_probe : Grants → SymTab → List ℕ → Option Probe → Interning
after_probe g t name none = none
after_probe g t name (some (interned rec)) = some (ok, t, rec)
after_probe g t name (some (vacant slot)) =
    some (publish slot (length t.syms) (append_record g t name))

unfoldable pub intern_in : Grants → SymTab → List ℕ → Interning
intern_in g t name =
    after_probe g t name (probe (length t.buckets) t name (home_slot t.buckets name))

abbrev pub after_growth : Grants → List ℕ → Growth → Interning
after_growth g name none = none
after_growth g name (some (ok, t)) = intern_in g t name
after_growth g name (some (st, t)) = some (st, t, 0)

-- The growth at the head of `qas_asm_symtab_intern`.
unfoldable pub ensure_room : Bool → SymTab → Growth
ensure_room cleared t =
    if length t.buckets == 0
    then rehash cleared t 64
    else if leb (u64 (length t.buckets * 7)) (u64 (u64 (length t.syms + 1) * 8))
    then rehash cleared t (u64 (length t.buckets * 2))
    else some (ok, t)

unfoldable pub symtab_intern : Grants → SymTab → List ℕ → Interning
symtab_intern g t name = after_growth g name (ensure_room g.cleared t)
