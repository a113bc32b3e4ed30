-- ===== src/Encoder/Emit.antt =====
-- The emission of `encoder.c` as plain lists: `put` and `put_le` append, as long as 15 bytes hold
-- what they are given.
use quicks_qas.Common.{
  ℕ, zero, suc, ◌+◌, ◌/◌, ◌%◌, ◌≤◌, ◌<◌, ◌≡◌, bit_or, Bool, true, false, List, [], ◌∷◌, ◌++◌,
  length, length-append, ◌==◌, if◌then◌else◌, arith,
}
use mathlib.Core.List.{append-nil, append_assoc}
use quicks_qas.Common.Words.{
  u8, le_bytes, length-le_bytes, low_byte_lem, low_byte_lem, to_uint64, ◌<<<◌,
}
use quicks_qas.Encoder.Forms.{InsnForm}
use quicks_qas.Encoder.Address.{done, RmEncoding, Fixup}
use quicks_qas.Encoder.Engine.{
  Encoded, Fields, put, put_le, put_if, emit_opcode, emit_modrm, emit_disp, emit_rm, rex_needed,
  rex_byte, empty,
}

pub put_lem :
    (out : Encoded) (b : ℕ)
    → length out.bytes < 15
    → put out b ≡ done (record out { bytes = out.bytes ++ b ∷ [] })
unfolding put
put_lem out b h = ground arith

pub put_le_lem :
    (w : ℕ) (out : Encoded) (v : ℕ)
    → length out.bytes + w ≤ 15
    → put_le out v w ≡ done (record out { bytes = out.bytes ++ le_bytes w v })
unfolding put_le
put_le_lem zero out v h = rw append-nil
put_le_lem (suc w) out v h = rw (put_lem out (v % 256 % 256) (omega arith)) (
    rw
      (put_le_lem w (record out { bytes = out.bytes ++ (v % 256 % 256) ∷ [] }) (v / 256)
        (len out (v % 256 % 256) h))
      (rw (append_assoc, low_byte_lem v)))
  where
    len : (o : Encoded) (b : ℕ) → length o.bytes + suc w ≤ 15 → length (o.bytes ++ b ∷ []) + w ≤ 15
    len o b h = omega (arith, length-append o.bytes (b ∷ []))

-- A byte that is emitted under a condition.
abbrev pub opt : Bool → ℕ → List ℕ
opt true b = b ∷ []
opt false b = []

pub put_if_lem :
    (c : Bool) (out : Encoded) (b : ℕ)
    → length out.bytes + length (opt c b) ≤ 15
    → put_if c out b ≡ done (record out { bytes = out.bytes ++ opt c b })
put_if_lem true out b h = put_lem out b (omega arith)
put_if_lem false out b h = rw append-nil

-- The prefixes, the escape byte and the opcode of a form without a mandatory prefix.
abbrev pub opcode_bytes : InsnForm → Bool → Bool → Fields → List ℕ
opcode_bytes f pfx_66 w p =
    opt pfx_66 0x66
    ++ (opt (rex_needed w p) (rex_byte w p) ++ (opt f.two_byte 0x0F ++ p.opcode ∷ []))

pub length-opt : (c : Bool) (b : ℕ) → length (opt c b) ≤ 1
length-opt true b = omega arith
length-opt false b = omega arith

abbrev pub bytes_only : List ℕ → Encoded
bytes_only bs = record { bytes = bs; fixups = [] }

pub emit_opcode_lem :
    (f : InsnForm) (pfx_66 w : Bool) (p : Fields)
    → (f.mand_pfx == 0) ≡ true
    → emit_opcode f pfx_66 w p empty ≡ done (bytes_only (opcode_bytes f pfx_66 w p))
unfolding emit_opcode
emit_opcode_lem f pfx w p h =
    let r = opt (rex_needed w p) (rex_byte w p) in
    let l1 = length-opt pfx 0x66 in
    let l2 = length-opt (rex_needed w p) (rex_byte w p) in
    let l3 = length-opt f.two_byte 0x0F in
    let a1 = length-append (opt pfx 0x66) r in
    let a2 = length-append (opt pfx 0x66 ++ r) (opt f.two_byte 0x0F) in
    rw
      (
        h,
        put_if_lem pfx empty 0x66 (omega arith),
        put_if_lem (rex_needed w p) (bytes_only (opt pfx 0x66)) (rex_byte w p) (omega arith),
        put_if_lem f.two_byte (bytes_only (opt pfx 0x66 ++ r)) 0x0F (omega arith),
        put_lem (bytes_only ((opt pfx 0x66 ++ r) ++ opt f.two_byte 0x0F)) p.opcode (omega arith),
      )
      (simp append_assoc)

-- The displacement bytes and the fixup, when the field begins at `offset`.
abbrev pub disp_bytes : RmEncoding → List ℕ
disp_bytes rm = le_bytes rm.disp_len (if rm.disp_symbol then 0 else to_uint64 rm.disp)

abbrev pub disp_fixups : RmEncoding → ℕ → List Fixup
disp_fixups rm offset =
    if rm.disp_len == 0
    then []
    else if rm.disp_symbol
    then record {
      offset = offset;
      size = rm.disp_len;
      kind = rm.disp_fixkind;
      sym_off = rm.sym_off;
      sym_len = rm.sym_len;
      addend = rm.disp_addend;
    }
      ∷ []
    else []

abbrev pub extend : Encoded → List ℕ → List Fixup → Encoded
extend out bs fs = record { bytes = out.bytes ++ bs; fixups = out.fixups ++ fs }

pub emit_disp_lem :
    (rm : RmEncoding) (out : Encoded)
    → length out.bytes + rm.disp_len ≤ 15
    → emit_disp rm out ≡ done (extend out (disp_bytes rm) (disp_fixups rm (length out.bytes)))
unfolding emit_disp
emit_disp_lem rm out h = ground (
  arith,
  append-nil out.bytes,
  append-nil out.fixups,
  put_le_lem rm.disp_len out (to_uint64 rm.disp),
  put_le_lem rm.disp_len (extend out [] (disp_fixups rm (length out.bytes))) 0,
)

-- The ModR/M byte, the SIB byte and the displacement.
abbrev pub modrm_prefix : Fields → List ℕ
modrm_prefix p = u8 (bit_or p.rm.modrm (p.reg3 <<< 3)) ∷ opt p.rm.has_sib p.rm.sib

abbrev pub modrm_bytes : Fields → List ℕ
modrm_bytes p = if p.have_modrm then modrm_prefix p ++ disp_bytes p.rm else []

abbrev pub modrm_fixups : Fields → ℕ → List Fixup
modrm_fixups p offset =
    if p.have_modrm then disp_fixups p.rm (offset + length (modrm_prefix p)) else []

emit_rm_lem :
    (p : Fields) (out : Encoded)
    → length out.bytes + length (modrm_prefix p ++ disp_bytes p.rm) ≤ 15
    → emit_rm p out
      ≡ done (
          extend out
            (modrm_prefix p ++ disp_bytes p.rm)
            (disp_fixups p.rm (length out.bytes + length (modrm_prefix p))))
unfolding emit_rm
emit_rm_lem p out h =
    let m = u8 (bit_or p.rm.modrm (p.reg3 <<< 3)) in
    let s = opt p.rm.has_sib p.rm.sib in
    let l1 = length-append (modrm_prefix p) (disp_bytes p.rm) in
    let l2 = length-le_bytes p.rm.disp_len (if p.rm.disp_symbol then 0 else to_uint64 p.rm.disp) in
    let l3 = length-append out.bytes (m ∷ []) in
    let l4 = length-append (out.bytes ++ m ∷ []) s in
    let offset_is : length ((out.bytes ++ m ∷ []) ++ s)
        ≡ length out.bytes + length (modrm_prefix p) =
      omega arith in
    rw
      (
        put_lem out m (omega arith),
        put_if_lem p.rm.has_sib (record out { bytes = out.bytes ++ m ∷ [] }) p.rm.sib (omega arith),
        emit_disp_lem p.rm (record out { bytes = (out.bytes ++ m ∷ []) ++ s }) (omega arith),
      )
      (rw offset_is (simp append_assoc))

pub emit_modrm_lem :
    (p : Fields) (out : Encoded)
    → length out.bytes + length (modrm_bytes p) ≤ 15
    → emit_modrm p out ≡ done (extend out (modrm_bytes p) (modrm_fixups p (length out.bytes)))
unfolding emit_modrm
emit_modrm_lem p out h =
    ground (arith, emit_rm_lem p out, append-nil out.bytes, append-nil out.fixups)
