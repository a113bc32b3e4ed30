-- ===== src/Parser/Instruction.antt =====
-- The operands of an instruction (parser/parser.c).
use quicks_qas.Common.{
  ℕ, zero, suc, ◌-◌, true, false, not, ◌&&◌, ◌||◌, List, [], ◌∷◌, ◌++◌, Option, none, some, codes,
  ◌==◌, if◌then◌else◌,
}
use quicks_qas.Lexer.Cursor.{Token, TokenKind}
use quicks_qas.Reg.Table.{Reg}
use quicks_qas.Reg.Lookup.{reg_lookup}
use quicks_qas.Ast.{Mem, Operand, OperandKind, reg, imm, mem}
use quicks_qas.Parser.State.{
  Parser, is_kind, at_stmt_end, lexeme, tok_ieq, size_keyword_bits, advance, Parsed, and_then,
  refuse, parse_signed_int,
}
use quicks_qas.Parser.Memory.{is_sign, parse_memory}

-- QAS_MAX_OPERANDS.
abbrev pub max_operands : ℕ
max_operands = 4

abbrev pub operand_to : ℕ → Parser → OperandKind → Operand
operand_to offset p kind = record { offset = offset; length = p.last_end - offset; kind = kind }

abbrev pub mem_operand : ℕ → Option (Parsed Mem) → Option (Parsed Operand)
mem_operand offset none = none
mem_operand offset (some (p, none)) = some (p, none)
mem_operand offset (some (p, some m)) = some (p, some (operand_to offset p (mem m)))

-- Past `byte`, `word` and the like: `ptr` or not, and the bracket.
unfoldable pub sized_memory : List ℕ → Parser → ℕ → ℕ → Option (Parsed Operand)
sized_memory src p offset bits =
    let q =
      if is_kind p TokenKind.identifier && tok_ieq src p.cur (codes "ptr") then advance p else p in
    if is_kind q TokenKind.lbracket
    then mem_operand offset (parse_memory src q bits)
    else some (refuse q)

abbrev pub symbol_to : ℕ → Token → Parser → ℕ → Operand
symbol_to offset name p addend =
    operand_to offset p
      (imm (record { is_symbol = true; sym_off = name.offset; sym_len = name.len; value = addend }))

-- A symbol, with an addend or without.
unfoldable pub symbol_operand : Parser → ℕ → Parsed Operand
symbol_operand p offset =
    let q = advance p in
    if is_sign q
    then and_then (parse_signed_int q) (λ r addend. (r, some (symbol_to offset p.cur r addend)))
    else (q, some (symbol_to offset p.cur q 0))

abbrev pub named_operand : Parser → ℕ → Option Reg → Parsed Operand
named_operand p offset none = symbol_operand p offset
named_operand p offset (some r) = (advance p, some (operand_to offset (advance p) (reg r)))

unfoldable pub number_operand : Parser → ℕ → Parsed Operand
number_operand p offset = and_then (parse_signed_int p) (λ q v. (
  q,
  some (
      operand_to offset q
        (imm (record { is_symbol = false; sym_off = 0; sym_len = 0; value = v }))),
))

unfoldable pub parse_operand : List ℕ → Parser → Option (Parsed Operand)
parse_operand src p =
    let offset = p.cur.offset in
    let bits = size_keyword_bits src p.cur in
    if is_kind p TokenKind.identifier && not (bits == 0)
    then sized_memory src (advance p) offset bits
    else if is_kind p TokenKind.lbracket
    then mem_operand offset (parse_memory src p 0)
    else if is_kind p TokenKind.identifier
    then some (named_operand p offset (reg_lookup (lexeme src p.cur)))
    else if is_kind p TokenKind.integer || is_kind p TokenKind.minus || is_kind p TokenKind.plus
    then some (number_operand p offset)
    else some (refuse p)

-- What follows an operand: another one after a comma.
abbrev pub after_operand :
    (Parser → List Operand → Option (Parsed (List Operand)))
    → List Operand
    → Option (Parsed Operand)
    → Option (Parsed (List Operand))
after_operand k ops none = none
after_operand k ops (some (p, none)) = some (p, none)
after_operand k ops (some (p, some op)) =
    let more = k (advance p) (ops ++ (op ∷ [])) in
    if is_kind p TokenKind.comma then more else some (p, some (ops ++ (op ∷ [])))

-- The loop of `parse_operand_list`, with `left` places in the array.
unfoldable pub operand_list : ℕ → List ℕ → Parser → List Operand → Option (Parsed (List Operand))
operand_list zero src p ops = some (refuse p)
operand_list (suc left) src p ops = after_operand (operand_list left src) ops (parse_operand src p)

unfoldable pub parse_operand_list : List ℕ → Parser → Option (Parsed (List Operand))
parse_operand_list src p =
    if at_stmt_end p then some (p, some []) else operand_list max_operands src p []
