-- ===== src/Asm/FixList.antt =====
-- The pending fixups of asm/internal/fixups.c.
use quicks_qas.Common.{ℕ, ◌*◌, Bool, List, [], ◌∷◌, ◌++◌, length, leb, ◌==◌, if◌then◌else◌}
use quicks_qas.Common.Int.{ℤ}
use quicks_qas.Status.{Status, ok, out_of_memory}

pub data FixKind : Type 0 where
  fix_pc32 fix_abs32s fix_abs32 fix_abs64 : FixKind

pub record Fix : Type 0 where
  pub out_section : ℕ
  pub offset : ℕ
  pub kind : FixKind
  pub sym_off : ℕ
  pub sym_len : ℕ
  pub addend : ℤ

-- `count` is the length of `items`.
pub record FixList : Type 0 where
  pub items : List Fix
  pub capacity : ℕ

abbrev pub fix_list_init : FixList
fix_list_init = record { items = []; capacity = 0 }

-- `grown` says whether realloc gives the larger array.
unfoldable pub fix_list_push : Bool → FixList → Fix → Status × FixList
fix_list_push grown list fix =
    let pushed = list.items ++ (fix ∷ []) in
    if leb list.capacity (length list.items)
    then (if grown
        then (
          ok,
          record {
            items = pushed;
            capacity = if list.capacity == 0 then 16 else list.capacity * 2;
          },
        )
        else (out_of_memory, list))
    else (ok, record { items = pushed; capacity = list.capacity })
