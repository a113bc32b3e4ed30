-- ===== src/Asm/Section.antt =====
-- The output sections of asm/internal/section.c.
use quicks_qas.Common.{
  ℕ, suc, ◌*◌, Bool, true, false, ◌&&◌, List, [], ◌∷◌, ◌++◌, Option, none, some, length, get_elem?,
  leb, ◌==◌, if◌then◌else◌,
}
use quicks_qas.Status.{Status, ok, out_of_memory}
use quicks_qas.Buf.Ops.{Buf, init}
use quicks_qas.Common.Words.{u32}

-- The values of SHT_PROGBITS and SHT_NOBITS.
abbrev pub sht_progbits : ℕ
sht_progbits = 1

abbrev pub sht_nobits : ℕ
sht_nobits = 8

pub record Section : Type 0 where
  pub name : List ℕ
  pub type : ℕ
  pub flags : ℕ
  pub addralign : ℕ
  pub contents : Buf
  pub bss_size : ℕ

-- `count` is the length of `items`.
pub record SectionSet : Type 0 where
  pub items : List Section
  pub capacity : ℕ

abbrev pub section_set_init : SectionSet
section_set_init = record { items = []; capacity = 0 }

-- `strcmp(a, b) == 0` on names without NUL.
unfoldable pub same_name : List ℕ → List ℕ → Bool
same_name [] [] = true
same_name [] (b ∷ bs) = false
same_name (a ∷ rest) [] = false
same_name (a ∷ rest) (b ∷ bs) = (a == b) && same_name rest bs

unfoldable pub find_from : ℕ → List Section → List ℕ → Option ℕ
find_from i [] name = none
find_from i (s ∷ rest) name =
    let later = find_from (suc i) rest name in if same_name s.name name then some (u32 i) else later

unfoldable pub section_set_find : SectionSet → List ℕ → Option ℕ
section_set_find sections name = find_from 0 sections.items name

abbrev pub Added : Type 0
Added = Status × SectionSet × ℕ

unfoldable pub new_section : List ℕ → ℕ → ℕ → ℕ → Section
new_section name type flags addralign = record {
  name = name;
  type = type;
  flags = flags;
  addralign = if addralign == 0 then 1 else addralign;
  contents = init;
  bss_size = 0;
}

-- Past the growth of the array; `copied` says whether malloc gives the block of the name.
unfoldable pub add_item : Bool → SectionSet → Section → Added
add_item copied sections section =
    if copied
    then (
      ok,
      record { items = sections.items ++ (section ∷ []); capacity = sections.capacity },
      u32 (length sections.items),
    )
    else (out_of_memory, sections, 0)

-- `qas_asm_section_set_add`; `grown` says whether realloc gives the larger array, and 0 stands for the
-- index that a failure does not write.
unfoldable pub section_set_add : Bool → Bool → SectionSet → List ℕ → ℕ → ℕ → ℕ → Added
section_set_add grown copied sections name type flags addralign =
    let section = new_section name type flags addralign in
    let larger : SectionSet = record {
      items = sections.items;
      capacity = if sections.capacity == 0 then 8 else sections.capacity * 2;
    } in
    if leb sections.capacity (length sections.items)
    then (if grown then add_item copied larger section else (out_of_memory, sections, 0))
    else add_item copied sections section

unfoldable pub section_set_at : SectionSet → ℕ → Option Section
section_set_at sections index = get_elem? sections.items index

unfoldable pub section_size : Section → ℕ
section_size s = if s.type == sht_nobits then s.bss_size else length s.contents.bytes
