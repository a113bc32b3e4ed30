-- ===== src/Encoder/Table.antt =====
-- `qas_insn_forms` (encoder/internal/insn_table.c), row by row in its order; selection takes the
-- first row that fits.
use quicks_qas.Common.{List, [], ◌∷◌, codes}
use quicks_qas.Encoder.Forms.{
  InsnForm, ops_r8, ops_rv, ops_rm8, ops_rmv, ops_r64, ops_rm64, ops_m, ops_imm8, ops_immv,
  ops_imm32, ops_imm64, ops_rel8, ops_rel32, ops_al, ops_rax, enc_zo, enc_o, enc_oi, enc_mr, enc_rm,
  enc_mi, enc_m, enc_d, enc_i, immk_ib, immk_id, immk_iv, immk_iov, immk_rel8, immk_rel32, row,
  sized, with_imm, digit, escaped, wide, arith_forms, unary_forms, incdec_forms, shift_forms,
  jcc_forms,
}

-- Data movement and address computation.
unfoldable pub movement_rows : List InsnForm → List InsnForm
movement_rows rest =
    row (codes "mov") (ops_rm8 ∷ ops_r8 ∷ []) enc_mr 0x88
    ∷ sized (row (codes "mov") (ops_rmv ∷ ops_rv ∷ []) enc_mr 0x89)
    ∷ row (codes "mov") (ops_r8 ∷ ops_rm8 ∷ []) enc_rm 0x8A
    ∷ sized (row (codes "mov") (ops_rv ∷ ops_rmv ∷ []) enc_rm 0x8B)
    ∷ with_imm immk_iv (wide (digit 0 (row (codes "mov") (ops_rm64 ∷ ops_imm32 ∷ []) enc_mi 0xC7)))
    ∷ with_imm immk_ib (row (codes "mov") (ops_r8 ∷ ops_imm8 ∷ []) enc_oi 0xB0)
    ∷ with_imm immk_iov (sized (row (codes "mov") (ops_rv ∷ ops_imm64 ∷ []) enc_oi 0xB8))
    ∷ with_imm immk_ib (digit 0 (row (codes "mov") (ops_rm8 ∷ ops_imm8 ∷ []) enc_mi 0xC6))
    ∷ with_imm immk_iv (sized (digit 0 (row (codes "mov") (ops_rmv ∷ ops_immv ∷ []) enc_mi 0xC7)))
    ∷ sized (row (codes "lea") (ops_rv ∷ ops_m ∷ []) enc_rm 0x8D)
    ∷ rest

-- The eight ADD-like groups.
unfoldable pub arithmetic_rows : List InsnForm → List InsnForm
arithmetic_rows rest = arith_forms (codes "add") 0 (
    arith_forms (codes "or") 1 (
      arith_forms (codes "adc") 2 (
        arith_forms (codes "sbb") 3 (
          arith_forms (codes "and") 4 (
            arith_forms (codes "sub") 5
              (arith_forms (codes "xor") 6 (arith_forms (codes "cmp") 7 rest)))))))

-- `test`.
unfoldable pub tests_rows : List InsnForm → List InsnForm
tests_rows rest =
    row (codes "test") (ops_rm8 ∷ ops_r8 ∷ []) enc_mr 0x84
    ∷ sized (row (codes "test") (ops_rmv ∷ ops_rv ∷ []) enc_mr 0x85)
    ∷ with_imm immk_ib (row (codes "test") (ops_al ∷ ops_imm8 ∷ []) enc_i 0xA8)
    ∷ with_imm immk_iv (sized (row (codes "test") (ops_rax ∷ ops_immv ∷ []) enc_i 0xA9))
    ∷ with_imm immk_ib (digit 0 (row (codes "test") (ops_rm8 ∷ ops_imm8 ∷ []) enc_mi 0xF6))
    ∷ with_imm immk_iv (sized (digit 0 (row (codes "test") (ops_rmv ∷ ops_immv ∷ []) enc_mi 0xF7)))
    ∷ rest

-- The unary, INC/DEC and shift groups.
unfoldable pub groups_rows : List InsnForm → List InsnForm
groups_rows rest = unary_forms (codes "not") 2 (
    unary_forms (codes "neg") 3 (
      unary_forms (codes "mul") 4 (
        unary_forms (codes "imul") 5 (
          unary_forms (codes "div") 6 (
            unary_forms (codes "idiv") 7 (
              incdec_forms (codes "inc") 0 (
                incdec_forms (codes "dec") 1 (
                  shift_forms (codes "shl") 4
                    (shift_forms (codes "shr") 5 (shift_forms (codes "sar") 7 rest))))))))))

-- push and pop.
unfoldable pub stack_rows : List InsnForm → List InsnForm
stack_rows rest =
    row (codes "push") (ops_r64 ∷ []) enc_o 0x50
    ∷ with_imm immk_ib (row (codes "push") (ops_imm8 ∷ []) enc_i 0x6A)
    ∷ with_imm immk_id (row (codes "push") (ops_imm32 ∷ []) enc_i 0x68)
    ∷ digit 6 (row (codes "push") (ops_rm64 ∷ []) enc_m 0xFF)
    ∷ row (codes "pop") (ops_r64 ∷ []) enc_o 0x58
    ∷ digit 0 (row (codes "pop") (ops_rm64 ∷ []) enc_m 0x8F)
    ∷ rest

-- call and jmp.
unfoldable pub control_rows : List InsnForm → List InsnForm
control_rows rest =
    with_imm immk_rel32 (row (codes "call") (ops_rel32 ∷ []) enc_d 0xE8)
    ∷ digit 2 (row (codes "call") (ops_rm64 ∷ []) enc_m 0xFF)
    ∷ with_imm immk_rel8 (row (codes "jmp") (ops_rel8 ∷ []) enc_d 0xEB)
    ∷ with_imm immk_rel32 (row (codes "jmp") (ops_rel32 ∷ []) enc_d 0xE9)
    ∷ digit 4 (row (codes "jmp") (ops_rm64 ∷ []) enc_m 0xFF)
    ∷ rest

-- The conditional jumps.
unfoldable pub jcc_rows : List InsnForm → List InsnForm
jcc_rows rest = jcc_forms (codes "jo") 0x0 (
    jcc_forms (codes "jno") 0x1 (
      jcc_forms (codes "jb") 0x2 (
        jcc_forms (codes "jc") 0x2 (
          jcc_forms (codes "jnae") 0x2 (
            jcc_forms (codes "jae") 0x3 (
              jcc_forms (codes "jnb") 0x3 (
                jcc_forms (codes "jnc") 0x3 (
                  jcc_forms (codes "je") 0x4 (
                    jcc_forms (codes "jz") 0x4 (
                      jcc_forms (codes "jne") 0x5 (
                        jcc_forms (codes "jnz") 0x5 (
                          jcc_forms (codes "jbe") 0x6 (
                            jcc_forms (codes "jna") 0x6 (
                              jcc_forms (codes "ja") 0x7 (
                                jcc_forms (codes "jnbe") 0x7 (
                                  jcc_forms (codes "js") 0x8 (
                                    jcc_forms (codes "jns") 0x9 (
                                      jcc_forms (codes "jp") 0xA (
                                        jcc_forms (codes "jpe") 0xA (
                                          jcc_forms (codes "jnp") 0xB (
                                            jcc_forms (codes "jpo") 0xB (
                                              jcc_forms (codes "jl") 0xC (
                                                jcc_forms (codes "jnge") 0xC (
                                                  jcc_forms (codes "jge") 0xD (
                                                    jcc_forms (codes "jnl") 0xD (
                                                      jcc_forms (codes "jle") 0xE (
                                                        jcc_forms (codes "jng") 0xE (
                                                          jcc_forms (codes "jg") 0xF (
                                                            jcc_forms (codes "jnle") 0xF
                                                            rest)))))))))))))))))))))))))))))

-- No operand, and `int`.
unfoldable pub misc_rows : List InsnForm → List InsnForm
misc_rows rest =
    row (codes "ret") [] enc_zo 0xC3
    ∷ row (codes "leave") [] enc_zo 0xC9
    ∷ row (codes "nop") [] enc_zo 0x90
    ∷ row (codes "hlt") [] enc_zo 0xF4
    ∷ row (codes "int3") [] enc_zo 0xCC
    ∷ row (codes "cdq") [] enc_zo 0x99
    ∷ wide (row (codes "cqo") [] enc_zo 0x99)
    ∷ escaped (row (codes "syscall") [] enc_zo 0x05)
    ∷ escaped (row (codes "cpuid") [] enc_zo 0xA2)
    ∷ escaped (row (codes "ud2") [] enc_zo 0x0B)
    ∷ with_imm immk_ib (row (codes "int") (ops_imm8 ∷ []) enc_i 0xCD)
    ∷ rest

unfoldable pub insn_forms : List InsnForm
unfolding movement_rows arithmetic_rows tests_rows groups_rows stack_rows control_rows jcc_rows
    misc_rows
insn_forms = movement_rows (
    arithmetic_rows
      (tests_rows (groups_rows (stack_rows (control_rows (jcc_rows (misc_rows [])))))))
