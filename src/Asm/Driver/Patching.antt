-- ===== src/Asm/Driver/Patching.antt =====
-- A reference that the third pass of asm/asm.c resolves in place: the field, sign-extended, is the distance.
use quicks_qas.Common.{
  ℕ, ◌+◌, ◌^◌, ◌≤◌, ◌<◌, ◌≡◌, ◌⊎◌, inl, inr, refl, ap, ◌∙◌, true, false, List, some, length, take,
  drop, arith, Bool-cases, [], ◌∷◌, ◌++◌,
}
use mathlib.Core.Path.{subst}
use quicks_qas.Common.Int.{ℤ, pos, negsuc, ◌+ℤ◌, ◌-ℤ◌}
use quicks_qas.Common.Words.{u32, to_int64, to_uint64, fits_int32, sign_extend, le_value}
use quicks_qas.Status.{ok}
use quicks_qas.Buf.Ops.{Buf, patch_u32le}
use quicks_qas.Buf.Patch.{Patched, patch_u32le-Patched}
use quicks_qas.Asm.Section.{Section, section_set_at}
use quicks_qas.Asm.SymTab.Ops.{Sym, sym_section}
use quicks_qas.Asm.FixList.{Fix, FixKind, fix_pc32, fix_abs32s, fix_abs32, fix_abs64}
use quicks_qas.Asm.Assembly.{Assembly, Memory, report_error, with_syms, put_sym}
use quicks_qas.Asm.Driver.Resolve.{
  RelocRec, Resolution, is_pc32, keep_recs, local_pc32, pc_value, put_section, patch_site,
  patch_local, resolve_sym, reloc_of, reloc_type_of,
}

field_value : (v : ℤ) → fits_int32 v ≡ true → sign_extend 32 (u32 (to_uint64 v)) ≡ v
unfolding to_uint64
field_value (pos n) h = ground (arith, h)
field_value (negsuc n) h = ground (arith, h)

-- A reference whose distance is known when it is met: PC-relative, to a label that is not global and is
-- defined in the section of the reference.
pub record IsLocal (fx : Fix) (s : Sym) : Type 0 where
  pub relative : fx.kind ≡ fix_pc32
  pub defined : s.defined ≡ true
  pub label : s.where_defined ≡ sym_section
  pub same_section : s.section ≡ fx.out_section
  pub not_global : s.is_global ≡ false

-- The psABI's S + A - P, within the section.
abbrev pub distance : Fix → Sym → ℤ
distance fx s = (pos s.value +ℤ fx.addend) -ℤ pos fx.offset

-- The psABI's numbers of the relocation types.
abbrev pub type_number : FixKind → ℕ
type_number fix_pc32 = 2
type_number fix_abs32s = 11
type_number fix_abs32 = 10
type_number fix_abs64 = 1

is_pc32-kind : (k : FixKind) → is_pc32 k ≡ true → k ≡ fix_pc32
is_pc32-kind fix_pc32 h = refl
is_pc32-kind fix_abs32s h = cc
is_pc32-kind fix_abs32 h = cc
is_pc32-kind fix_abs64 h = cc

local_pc32-IsLocal : (fx : Fix) (s : Sym) → local_pc32 fx s ≡ true → IsLocal fx s
unfolding local_pc32
local_pc32-IsLocal fx s h = record {
  relative = is_pc32-kind fx.kind (ground (arith, h));
  defined = ground (arith, h);
  label = ground (arith, h);
  same_section = ground (arith, h);
  not_global = ground (arith, h);
}

IsLocal-local_pc32 : (fx : Fix) (s : Sym) → IsLocal fx s → local_pc32 fx s ≡ true
unfolding local_pc32
IsLocal-local_pc32 fx s h =
    ground (arith, h.relative, h.defined, h.label, h.same_section, h.not_global)

to_int64_small : (n : ℕ) → n < 2 ^ 63 → to_int64 n ≡ pos n
unfolding to_int64
to_int64_small n h = ground (arith, h)

pc_value-eq-distance :
    (fx : Fix) (s : Sym) → s.value < 2 ^ 63 → fx.offset < 2 ^ 63 → pc_value fx s ≡ distance fx s
unfolding pc_value
pc_value-eq-distance fx s v o = rw (to_int64_small s.value v, to_int64_small fx.offset o) refl

-- What becomes of a reference to a local symbol of the same section, `sec`, whose distance is `value`.
abbrev pub Patches : Memory → Fix → List RelocRec → Assembly → ℤ → Section → Resolution → Type 0
Patches m fx recs a value sec out =
    ((fits_int32 value ≡ true)
      × (after : Buf) × (out ≡ keep_recs recs (put_section a fx.out_section sec (ok, after)))
      × Patched sec.contents fx.offset (u32 (to_uint64 value)) after
      × (sign_extend 32 (le_value (take 4 (drop fx.offset after.bytes))) ≡ value))
    ⊎ ((fits_int32 value ≡ false) × (out ≡ keep_recs recs (report_error m a fx.sym_off fx.sym_len)))

-- What becomes of any other reference: one more relocation, of the symbol by its index, and the symbol is
-- marked as referenced.
abbrev pub Relocates : Fix → List RelocRec → Assembly → ℕ → Sym → Resolution → Type 0
Relocates fx recs a index s out =
    out
    ≡ some (
      ok,
      with_syms a (put_sym a.syms index (record s { referenced = true })),
      recs
          ++ record {
            out_section = fx.out_section;
            offset = fx.offset;
            sym_index = index;
            type = type_number fx.kind;
            addend = fx.addend;
          }
            ∷ [],
    )

module _ (m : Memory) (fx : Fix) (recs : List RelocRec) (a : Assembly) (index : ℕ) (s : Sym)
    (sec : Section) where
  to_patch :
      local_pc32 fx s ≡ true
      → resolve_sym m fx recs a index s ≡ keep_recs recs (patch_local m a fx (pc_value fx s))
  unfolding resolve_sym
  to_patch e = rw (e, resolve_sym) refl

  to_site :
      section_set_at a.unit.sections fx.out_section ≡ some sec
      → fits_int32 (pc_value fx s) ≡ true
      → patch_local m a fx (pc_value fx s)
        ≡ put_section a fx.out_section sec
            (patch_u32le sec.contents fx.offset (u32 (to_uint64 (pc_value fx s))))
  unfolding patch_local
  to_site at e = rw (e, patch_local) (ap (patch_site a fx (pc_value fx s)) at)

  to_report :
      fits_int32 (pc_value fx s) ≡ false
      → patch_local m a fx (pc_value fx s) ≡ report_error m a fx.sym_off fx.sym_len
  unfolding patch_local
  to_report e = rw (e, patch_local) refl

to_patched :
    (m : Memory) (fx : Fix) (recs : List RelocRec) (a : Assembly) (index : ℕ) (s : Sym)
    (sec : Section)
    → section_set_at a.unit.sections fx.out_section ≡ some sec
    → length sec.contents.bytes < 2 ^ 64
    → fx.offset + 4 ≤ length sec.contents.bytes
    → local_pc32 fx s ≡ true
    → Patches m fx recs a (pc_value fx s) sec (resolve_sym m fx recs a index s)
to_patched m fx recs a index s sec at size inside e =
    elim (Bool-cases (fits_int32 (pc_value fx s))) [
      | inr wide ↦ inr (
        wide,
        to_patch m fx recs a index s sec e
            ∙ ap (keep_recs recs) (to_report m fx recs a index s sec wide),
      )
      | inl fits ↦
          let value : ℕ = u32 (to_uint64 (pc_value fx s)) in
          elim (patch_u32le-Patched sec.contents fx.offset value size (omega (arith, size, inside))
            (omega arith)) [
              | inr (outside, r) ↦ absurd (omega (arith, outside, inside))
              | inl (there, after, r, patched) ↦ inl (
                fits,
                after,
                to_patch m fx recs a index s sec e
                    ∙ ap (keep_recs recs) (to_site m fx recs a index s sec at fits)
                    ∙ ap (λ o. keep_recs recs (put_section a fx.out_section sec o)) r,
                patched,
                ap (sign_extend 32) patched.reads_back ∙ field_value (pc_value fx s) fits,
              )
            ]
    ]

type_number-eq : (k : FixKind) → reloc_type_of k ≡ type_number k
unfolding reloc_type_of
type_number-eq fix_pc32 = refl
type_number-eq fix_abs32s = refl
type_number-eq fix_abs32 = refl
type_number-eq fix_abs64 = refl

to_relocation :
    (m : Memory) (fx : Fix) (recs : List RelocRec) (a : Assembly) (index : ℕ) (s : Sym)
    → local_pc32 fx s ≡ false
    → Relocates fx recs a index s (resolve_sym m fx recs a index s)
unfolding resolve_sym reloc_of
to_relocation m fx recs a index s e = rw (e, resolve_sym, reloc_of, type_number-eq fx.kind) refl

-- For a fixup with its four bytes inside its section, and a symbol. A PC-relative reference to a label that
-- is not global and is defined in the section of the reference is resolved in place, with no relocation:
-- when S + A - P, the symbol's value plus the addend minus the place of the field, fits 32 signed bits, the
-- four bytes are patched, all others stay, and read as a signed number they are that distance; otherwise a
-- diagnostic is reported and no byte changes. Any other reference leaves the bytes to one more relocation,
-- with the place, the addend and the psABI's type of the fixup and the symbol's index, and the symbol is
-- marked as referenced. Section and value are below 2^63 bytes.
pub resolve_sym-Patches :
    (m : Memory) (fx : Fix) (recs : List RelocRec) (a : Assembly) (index : ℕ) (s : Sym)
    (sec : Section)
    → section_set_at a.unit.sections fx.out_section ≡ some sec
    → length sec.contents.bytes < 2 ^ 63
    → fx.offset + 4 ≤ length sec.contents.bytes
    → s.value < 2 ^ 63
    → (IsLocal fx s × Patches m fx recs a (distance fx s) sec (resolve_sym m fx recs a index s))
      ⊎ ((IsLocal fx s → ⊥) × Relocates fx recs a index s (resolve_sym m fx recs a index s))
resolve_sym-Patches m fx recs a index s sec at size inside small =
    elim (Bool-cases (local_pc32 fx s)) [
      | inl e ↦ inl (
        local_pc32-IsLocal fx s e,
        subst (λ v. Patches m fx recs a v sec (resolve_sym m fx recs a index s))
            (pc_value-eq-distance fx s small (omega (arith, size, inside)))
            (to_patched m fx recs a index s sec at (omega (arith, size)) inside e),
      )
      | inr e ↦ inr (λ h. cc (IsLocal-local_pc32 fx s h, e), to_relocation m fx recs a index s e)
    ]
