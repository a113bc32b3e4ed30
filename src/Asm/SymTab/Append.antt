-- ===== src/Asm/SymTab/Append.antt =====
-- A record appended by `qas_asm_symtab_intern` (asm/internal/symtab.c), or the failure of an allocation, and
-- the index that a new record extends.
use quicks_qas.Common.{
  ℕ, suc, ◌+◌, ◌*◌, ◌%◌, ◌^◌, ◌<◌, ◌≡◌, sym, ◌∙◌, Bool, true, false, ◌&&◌, List, [], ◌∷◌, ◌++◌,
  length, set, leb, ◌==◌, if◌then◌else◌, arith,
}
use mathlib.Core.Path.{subst}
use quicks_qas.Common.Words.{u32}
use quicks_qas.Status.{Status, ok, out_of_memory}
use quicks_qas.Asm.SymTab.Ops.{Sym, SymTab, fnv1a, new_sym, Grants, append_copy, append_record}
use quicks_qas.Asm.SymTab.Buckets.{Walk}
use quicks_qas.Asm.SymTab.Index.{Reach, Indexed, place}
use quicks_qas.Asm.SymTab.Names.{name_at-append_left, name_at-append_last}

abbrev pub all_given : Grants → Bool
all_given g = g.cleared && g.grown && g.copied

-- The records of a call that adds one, or the failure of an allocation; `given` where none fails.
pub data Appended (given : Bool) (t : SymTab) (name : List ℕ) : Status × SymTab → Type 0 where
  added :
      (capacity : ℕ)
      → Appended given t name (
        ok,
        record { syms = t.syms ++ (new_sym name ∷ []); capacity = capacity; buckets = t.buckets },
      )
  denied :
      (capacity : ℕ)
      → given ≡ false
      → Appended given t name
          (out_of_memory, record { syms = t.syms; capacity = capacity; buckets = t.buckets })

append_copy-Appended :
    (c w copied : Bool) (t : SymTab) (name : List ℕ) (capacity : ℕ)
    → Appended (c && w && copied) t name (
        append_copy copied
          (record { syms = t.syms; capacity = capacity; buckets = t.buckets })
          name)
append_copy-Appended c w true t name capacity = added capacity
append_copy-Appended c w false t name capacity = denied capacity (ground arith)

pub append_record-Appended :
    (g : Grants) (t : SymTab) (name : List ℕ)
    → Appended (all_given g) t name (append_record g t name)
unfolding append_record
append_record-Appended g t name = branch g.cleared g.grown g.copied (leb t.capacity (length t.syms))
  where
    branch :
        (c w copied full : Bool)
        → Appended (c && w && copied) t name (
            if full
            then (if w
                then append_copy copied
                    (record {
                      syms = t.syms;
                      capacity = if t.capacity == 0 then 32 else t.capacity * 2;
                      buckets = t.buckets;
                    })
                    name
                else (out_of_memory, t))
            else append_copy copied t name)
    branch c w copied false = append_copy-Appended c w copied t name t.capacity
    branch c true copied true =
        append_copy-Appended c true copied t name (if t.capacity == 0 then 32 else t.capacity * 2)
    branch c false copied true = denied t.capacity (ground arith)

extend :
    (b : List ℕ) (syms more : List Sym)
    → Indexed b syms (length syms)
    → Indexed b (syms ++ more) (length syms)
extend b syms more ix = record {
  pow = ix.pow;
  bounded = ix.bounded;
  reached = λ i l.
      subst (λ n. Reach b (fnv1a n) i) (sym (name_at-append_left syms more i l)) (ix.reached i l);
  used = ix.used;
}

-- The new record is indexed where the walk from the hash of its name ends.
pub fresh-Indexed :
    (b : List ℕ) (syms : List Sym) (s : Sym) (n : List ℕ)
    → Indexed b syms (length syms)
    → length syms + 1 < 2 ^ 32
    → s.name ≡ n
    → (w : Walk b (fnv1a n))
    → Indexed
        (set b ((fnv1a n + w.steps) % length b) (u32 (length syms + 1)))
        (syms ++ (s ∷ []))
        (suc (length syms))
fresh-Indexed b syms s n ix h e =
    subst
      (λ m.
        (w : Walk b (fnv1a m))
        → Indexed (set b ((fnv1a m + w.steps) % length b) (u32 (length syms + 1)))
            (syms ++ (s ∷ [])) (suc (length syms)))
      (name_at-append_last syms s ∙ e)
      (λ w. place b (syms ++ (s ∷ [])) (length syms) (extend b syms (s ∷ []) ix) w h)
