-- ===== src/Tests/Driver.antt =====
-- Runs of the theorems about the symbol table, the diagnostics and the passes of the assembler.
use quicks_qas.Common.{
  ℕ, ◌+◌, ◌-◌, ◌^◌, ◌<◌, ◌≡◌, ◌⊎◌, inl, refl, true, false, List, [], ◌∷◌, ◌++◌, none, some, length,
  codes, arith,
}
use quicks_qas.Common.Int.{negsuc, ◌+ℤ◌, ◌-ℤ◌}
use quicks_qas.Ast.{Stmt, label, directive, symbol_arg}
use quicks_qas.Diag.Sink.{Printing, diag_sink_init, Severity, error, diag_emit, severity_count}
use quicks_qas.Diag.Counts.{Counts, count_of, Emitted, diag_emit-Emitted}
use quicks_qas.Asm.SymTab.Ops.{Grants, symtab_init, symtab_intern}
use quicks_qas.Asm.SymTab.Intern.{Refines, symtab_intern-Refines, symtab_init-IsTable}
use quicks_qas.Asm.Assembly.{Assembly, Supply, assembly_init, empty_assembly}
use quicks_qas.Asm.Section.{section_set_add, add_item, new_section}
use quicks_qas.Asm.Unit.{unit_init}
use quicks_qas.Parser.State.{parser_init}
use quicks_qas.Parser.Instruction.{parse_operand_list}
use quicks_qas.Parser.Accepted.{Operands, parse_operand_list-Ends}
use quicks_qas.Parser.Memory.{parse_memory}
use quicks_qas.Parser.Ahead.{parser_init-IsAt}
use quicks_qas.Parser.Operand.{Ends, IsMem, parse_memory-Ends}
use quicks_qas.Buf.Ops.{init}
use quicks_qas.Asm.Section.{Section, section_set_at}
use quicks_qas.Asm.SymTab.Ops.{Sym, sym_section}
use quicks_qas.Asm.FixList.{Fix, fix_pc32, fix_list_push}
use quicks_qas.Asm.Assembly.{add_fix}
use quicks_qas.Asm.Directive.Datum.{align_arg}
use quicks_qas.Asm.Directive.Range.{Ranged, fits_width-Ranged, Alignment, align_arg-Alignment}
use quicks_qas.Asm.Strdec.{decode_string}
use quicks_qas.Asm.Quote.{AllBytes}
use quicks_qas.Asm.Literal.{Gives, literal, decode_string-Gives}
use quicks_qas.Asm.Driver.Layout.{lay_out}
use quicks_qas.Asm.Driver.Resolve.{resolve_sym, resolve_fixups}
use quicks_qas.Asm.Driver.Patching.{IsLocal, Patches, Relocates, resolve_sym-Patches}
use quicks_qas.Asm.Sound.Emission.{add_fix-Stays}
use quicks_qas.Asm.Sound.Relocations.{Links}
use quicks_qas.Asm.Sound.Resolution.{resolve_fixups-Links}
use quicks_qas.Asm.Sound.State.{Sound, Stays, assembly_init-Started}
use quicks_qas.Asm.Sound.Pass.{weight, lay_out-Stays}

abbrev all_grants : Grants
all_grants = record { cleared = true; grown = true; copied = true }

symtab_intern-Refines_example :
    Refines true [] (codes "main") (symtab_intern all_grants symtab_init (codes "main"))
symtab_intern-Refines_example =
    symtab_intern-Refines all_grants symtab_init (codes "main") symtab_init-IsTable (omega arith)

abbrev printing : Printing
printing = record { grown = true; text = some (codes "value does not fit in 1 byte(s)") }

no-Counts : Counts diag_sink_init
unfolding Counts severity_count count_of
no-Counts Severity.note = refl
no-Counts Severity.warning = refl
no-Counts Severity.error = refl

diag_emit-Emitted_example :
    Emitted printing diag_sink_init error 6 3 (diag_emit printing diag_sink_init error 6 3)
diag_emit-Emitted_example = diag_emit-Emitted printing diag_sink_init error 6 3 no-Counts

abbrev plenty : Supply
plenty i = record {
  table = all_grants;
  buffer = λ n. true;
  fix_slot = true;
  section_slot = true;
  section_name = true;
  print = printing;
}

-- The unit that the driver starts from.
abbrev start : Assembly
start = record (empty_assembly diag_sink_init) {
  unit = record {
    sections = record {
      items =
          record {
            name = codes ".text";
            type = 1;
            flags = 6;
            addralign = 1;
            contents = record { bytes = []; cap = 0 };
            bss_size = 0;
          }
          ∷ [];
      capacity = 8;
    };
    current = 0;
  };
}

start-Sound : Sound 1 start
unfolding assembly_init unit_init section_set_add add_item new_section
start-Sound = assembly_init-Started true true diag_sink_init no-Counts

-- self: .quad self
abbrev program : List ℕ
program = codes "self: .quad self"

abbrev statements : List Stmt
statements =
    record {
      kind = label;
      offset = 0;
      length = 5;
      line = 1;
      name_off = 0;
      name_len = 4;
      operands = [];
      args = [];
    }
    ∷ record {
      kind = directive;
      offset = 6;
      length = 10;
      line = 1;
      name_off = 6;
      name_len = 5;
      operands = [];
      args = record { kind = symbol_arg; off = 12; len = 4; int_value = 0 } ∷ [];
    }
    ∷ []

few_names : 1 + weight statements < 2 ^ 32
unfolding weight
few_names = omega arith

lay_out-Stays_example :
    Stays (1 + weight statements) (lay_out (λ i. plenty) program statements start)
lay_out-Stays_example = lay_out-Stays (λ i. plenty) program statements start 1 start-Sound few_names

-- jmp self, with its field one byte in: the distance is 0 - 4 - 1.
abbrev jump_fix : Fix
jump_fix = record {
  out_section = 0;
  offset = 1;
  kind = fix_pc32;
  sym_off = 0;
  sym_len = 4;
  addend = negsuc 3;
}

abbrev jump_text : Section
jump_text = record {
  name = codes ".text";
  type = 1;
  flags = 6;
  addralign = 1;
  contents = record { bytes = 233 ∷ 0 ∷ 0 ∷ 0 ∷ 0 ∷ []; cap = 64 };
  bss_size = 0;
}

abbrev self_sym : Sym
self_sym = record {
  name = codes "self";
  defined = true;
  where_defined = sym_section;
  section = 0;
  value = 0;
  is_global = false;
  referenced = false;
  emitted = false;
  elf_handle = 0;
}

abbrev jumping : Assembly
jumping = record start {
  unit = record { sections = record { items = jump_text ∷ []; capacity = 8 }; current = 0 };
}

jump_text-there : section_set_at jumping.unit.sections 0 ≡ some jump_text
unfolding section_set_at
jump_text-there = refl

resolve_sym-Patches_example :
    (IsLocal jump_fix self_sym
      × Patches
          (plenty 0)
          jump_fix
          []
          jumping
          (negsuc 4)
          jump_text
          (resolve_sym (plenty 0) jump_fix [] jumping 0 self_sym))
    ⊎ ((IsLocal jump_fix self_sym → ⊥)
        × Relocates jump_fix [] jumping 0 self_sym
            (resolve_sym (plenty 0) jump_fix [] jumping 0 self_sym))
unfolding ◌+ℤ◌ ◌-ℤ◌
resolve_sym-Patches_example =
    resolve_sym-Patches (plenty 0) jump_fix [] jumping 0 self_sym jump_text jump_text-there
      (omega arith) (omega arith) (omega arith)

-- The start with one fixup pending, at offset 1.
abbrev pending : Assembly
pending = record start { fixes = record { items = jump_fix ∷ []; capacity = 16 } }

pending-Sound : Sound 1 pending
unfolding add_fix fix_list_push
pending-Sound = add_fix-Stays start 1 start-Sound (plenty 0) fix_pc32 0 4 (negsuc 3) 1

resolve_fixups-Links_example : Links 2 1 1 (resolve_fixups true plenty program pending)
resolve_fixups-Links_example =
    resolve_fixups-Links true plenty program pending 1 pending-Sound (omega arith)

-- .byte -1
fits_width-Ranged_example : Ranged (2 ^ 64 - 1) 1
fits_width-Ranged_example = fits_width-Ranged (2 ^ 64 - 1) 1 (omega arith) (inl refl)

align_arg-Alignment_example :
    ((alignment : ℕ) × (align_arg false 24 ≡ some alignment) × Alignment false 24 alignment)
    ⊎ ((align_arg false 24 ≡ none) × ((alignment : ℕ) → Alignment false 24 alignment → ⊥))
align_arg-Alignment_example = align_arg-Alignment false 24

-- A quote, a letter, a newline and a byte beyond ASCII.
abbrev odd_bytes : List ℕ
odd_bytes = 34 ∷ 97 ∷ 10 ∷ 200 ∷ []

odd_bytes-AllBytes : AllBytes odd_bytes
unfolding AllBytes
odd_bytes-AllBytes = (omega arith)

decode_string-Gives_example : Gives odd_bytes diag_sink_init (
    decode_string plenty
      (codes ".ascii " ++ (literal odd_bytes ++ []))
      (length (codes ".ascii "))
      (length (literal odd_bytes))
      init
      diag_sink_init)
decode_string-Gives_example =
    decode_string-Gives plenty (codes ".ascii ") odd_bytes [] init diag_sink_init odd_bytes-AllBytes
      (λ i n. refl) (omega arith)

-- A source, and the parser at its start.
abbrev operand_text : List ℕ
operand_text = codes "[rsp+r9*8-5]"

parse_memory-Ends_example :
    Ends operand_text
      (2 + length operand_text)
      (IsMem 64)
      (parse_memory operand_text (parser_init operand_text diag_sink_init (λ i. printing)) 64)
parse_memory-Ends_example =
    parse_memory-Ends operand_text (parser_init operand_text diag_sink_init (λ i. printing)) 64
      (parser_init-IsAt operand_text diag_sink_init (λ i. printing))

parse_operand_list-Ends_example :
    Ends operand_text
      (2 + length operand_text)
      (Operands 4)
      (parse_operand_list operand_text (parser_init operand_text diag_sink_init (λ i. printing)))
parse_operand_list-Ends_example =
    parse_operand_list-Ends operand_text (parser_init operand_text diag_sink_init (λ i. printing))
      (parser_init-IsAt operand_text diag_sink_init (λ i. printing))
