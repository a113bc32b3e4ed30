-- ===== src/Parser/Accepted.antt =====
-- What `parse_operand_list` of parser/parser.c accepts.
use quicks_qas.Common.{
  ℕ, zero, suc, ◌+◌, ◌≤◌, ◌<◌, ◌≡◌, refl, ltb, get_elem?, Bool, true, false, not, ◌&&◌, ◌||◌, List,
  [], ◌∷◌, ◌++◌, Option, none, some, length, length-append, codes, ◌==◌, arith, if◌then◌else◌,
}
use quicks_qas.Lexer.Cursor.{TokenKind}
use quicks_qas.Lexer.Place.{IsAt}
use quicks_qas.Reg.Table.{Reg, reg_table, rows_64, rows_32, rows_16, rows_8, rows_rex, rows_high}
use quicks_qas.Encoder.Roundtrip.{IsIndex}
use quicks_qas.Reg.Lookup.{reg_lookup}
use quicks_qas.Ast.{Mem, Operand, OperandKind, no_operand, reg, imm, mem}
use quicks_qas.Parser.State.{
  Parser, is_kind, at_stmt_end, lexeme, tok_ieq, size_keyword_bits, advance, Parsed, refuse,
  parse_signed_int,
}
use quicks_qas.Parser.Memory.{is_sign, parse_memory}
use quicks_qas.Parser.Instruction.{
  max_operands, mem_operand, sized_memory, symbol_to, symbol_operand, named_operand, number_operand,
  parse_operand, after_operand, operand_list, parse_operand_list,
}
use quicks_qas.Parser.Ahead.{Within, bounded, advance-Within}
use quicks_qas.Parser.Operand.{
  Any, Indexable, Known, IsMem, Yields, Ends, pick, pick_run, refuse-Yields, and_then-Yields,
  parse_signed_int-Yields, parse_memory-Ends,
}

-- The registers of the table have four-bit numbers.
small_rows : List Reg → Bool
small_rows [] = true
small_rows (r ∷ rows) = ltb r.encoding 16 && small_rows rows

all_small : small_rows reg_table ≡ true
unfolding small_rows reg_table rows_64 rows_32 rows_16 rows_8 rows_rex rows_high
all_small = refl

row_small :
    (rows : List Reg) (i : ℕ) (r : Reg)
    → small_rows rows ≡ true
    → get_elem? rows i ≡ some r
    → r.encoding < 16
unfolding small_rows
row_small [] i r h at = cc
row_small (x ∷ rows) zero r h at = ground (arith, h, at)
row_small (x ∷ rows) (suc i) r h at = row_small rows i r (ground (arith, h)) at

-- An index that the parser admits is one that the encoder relies on.
Indexable-IsIndex :
    (index : Option Reg) (scale : ℕ) → Indexable index scale → Known index → IsIndex index scale
Indexable-IsIndex none scale h k = tt
Indexable-IsIndex (some r) scale (class, other, scaled) (i, at) =
    let small = row_small reg_table i r all_small at in
    (small, ground (arith, small, other), ground (arith, scaled))

-- A memory operand has an index that a SIB byte can name, if it has one; its base is a register of the
-- table, whichever it is.
abbrev pub IndexFits : OperandKind → Type 0
IndexFits (mem m) =
    Known m.base × Known m.index × Indexable m.index m.scale × IsIndex m.index m.scale
IndexFits no_operand = Unit {0}
IndexFits (reg r) = Unit {0}
IndexFits (imm i) = Unit {0}

abbrev pub AllIndexable : List Operand → Type 0
AllIndexable [] = Unit {0}
AllIndexable (op ∷ ops) = IndexFits op.kind × AllIndexable ops

AllIndexable-append :
    (ops : List Operand) (op : Operand)
    → AllIndexable ops
    → IndexFits op.kind
    → AllIndexable (ops ++ (op ∷ []))
AllIndexable-append [] op h e = (e, h)
AllIndexable-append (o ∷ ops) op (first, h) e = (first, AllIndexable-append ops op h e)

abbrev IsOperand : Operand → Type 0
IsOperand op = IndexFits op.kind

-- At most `count` operands.
abbrev pub Operands : ℕ → List Operand → Type 0
Operands count ops = (length ops ≤ count) × AllIndexable ops

module _ (src : List ℕ) where
  abbrev top : ℕ
  top = 2 + length src

  any_place : (p : Parser) → IsAt src p.lexer → Within src top p
  any_place p h = record { place = h; few = bounded src p }

  refused_here : (p : Parser) → IsAt src p.lexer → Ends src top IsOperand (some (refuse p))
  refused_here p h = refuse-Yields src top top IsOperand p (any_place p h)

  mem_operand-Ends :
      (offset size : ℕ) (r : Option (Parsed Mem))
      → Ends src top (IsMem size) r
      → Ends src top IsOperand (mem_operand offset r)
  mem_operand-Ends offset size none h = h
  mem_operand-Ends offset size (some (p, none)) h = h
  mem_operand-Ends offset size (some (p, some m)) (w, good) = (
    w,
    (
      good.base_known,
      good.index_known,
      good.indexable,
      Indexable-IsIndex m.index m.scale good.indexable good.index_known,
    ),
  )

  next_place : (p : Parser) → IsAt src p.lexer → IsAt src (advance p).lexer
  next_place p h = (advance-Within src top p (any_place p h)).place

  sized_memory-Ends :
      (p : Parser) (offset bits : ℕ)
      → IsAt src p.lexer
      → Ends src top IsOperand (sized_memory src p offset bits)
  unfolding sized_memory
  sized_memory-Ends p offset bits h = bracket (if ptr then advance p else p) (past_ptr ptr)
    where
      ptr : Bool
      ptr = is_kind p TokenKind.identifier && tok_ieq src p.cur (codes "ptr")

      past_ptr : (b : Bool) → IsAt src (if b then advance p else p).lexer
      past_ptr true = next_place p h
      past_ptr false = h

      bracket :
          (q : Parser)
          → IsAt src q.lexer
          → Ends src top IsOperand (
              if is_kind q TokenKind.lbracket
              then mem_operand offset (parse_memory src q bits)
              else some (refuse q))
      bracket q g =
          pick_run src top IsOperand (is_kind q TokenKind.lbracket)
            (mem_operand offset (parse_memory src q bits)) (some (refuse q))
            (λ e.
              mem_operand-Ends offset bits (parse_memory src q bits)
                (parse_memory-Ends src q bits g))
            (λ e. refused_here q g)

  symbol_operand-Yields :
      (p : Parser) (offset : ℕ)
      → IsAt src p.lexer
      → Yields src top IsOperand (symbol_operand p offset)
  unfolding symbol_operand
  symbol_operand-Yields p offset h =
      let w = advance-Within src top p (any_place p h) in
      pick src top IsOperand (is_sign (advance p)) _
        (advance p, some (symbol_to offset p.cur (advance p) 0))
        (λ e.
          and_then-Yields src top top Any IsOperand (parse_signed_int (advance p))
            (λ r addend. (r, some (symbol_to offset p.cur r addend)))
            (parse_signed_int-Yields src top (advance p) w) (λ q v u g. (u, omega arith)))
        (λ e. (w, omega arith))

  named_operand-Yields :
      (p : Parser) (offset : ℕ) (o : Option Reg)
      → IsAt src p.lexer
      → Yields src top IsOperand (named_operand p offset o)
  named_operand-Yields p offset none h = symbol_operand-Yields p offset h
  named_operand-Yields p offset (some r) h = (advance-Within src top p (any_place p h), omega arith)

  number_operand-Yields :
      (p : Parser) (offset : ℕ)
      → IsAt src p.lexer
      → Yields src top IsOperand (number_operand p offset)
  unfolding number_operand
  number_operand-Yields p offset h =
      and_then-Yields src top top Any IsOperand (parse_signed_int p) _
        (parse_signed_int-Yields src top p (any_place p h)) (λ q v u g. (u, omega arith))

  parse_operand-Ends :
      (p : Parser) → IsAt src p.lexer → Ends src top IsOperand (parse_operand src p)
  unfolding parse_operand
  parse_operand-Ends p h =
      pick_run src top IsOperand
        (is_kind p TokenKind.identifier && not (size_keyword_bits src p.cur == 0))
        (sized_memory src (advance p) p.cur.offset (size_keyword_bits src p.cur)) _
        (λ e.
          sized_memory-Ends (advance p) p.cur.offset (size_keyword_bits src p.cur) (next_place p h))
        (λ e.
          pick_run src top IsOperand (is_kind p TokenKind.lbracket)
            (mem_operand p.cur.offset (parse_memory src p 0)) _
            (λ f.
              mem_operand-Ends p.cur.offset 0 (parse_memory src p 0) (parse_memory-Ends src p 0 h))
            (λ f.
              pick_run src top IsOperand (is_kind p TokenKind.identifier)
                (some (named_operand p p.cur.offset (reg_lookup (lexeme src p.cur)))) _
                (λ g. named_operand-Yields p p.cur.offset (reg_lookup (lexeme src p.cur)) h)
                (λ g.
                  pick_run src top IsOperand
                    (is_kind p TokenKind.integer
                      || is_kind p TokenKind.minus
                      || is_kind p TokenKind.plus)
                    (some (number_operand p p.cur.offset)) (some (refuse p))
                    (λ k. number_operand-Yields p p.cur.offset h) (λ k. refused_here p h))))

  after_operand-Ends :
      (count : ℕ) (k : Parser → List Operand → Option (Parsed (List Operand))) (ops : List Operand)
      (r : Option (Parsed Operand))
      → suc (length ops) ≤ count
      → AllIndexable ops
      → Ends src top IsOperand r
      → ((q : Parser) (op : Operand)
          → IsAt src q.lexer
          → IndexFits op.kind
          → Ends src top (Operands count) (k q (ops ++ (op ∷ []))))
      → Ends src top (Operands count) (after_operand k ops r)
  after_operand-Ends count k ops none room all h next = h
  after_operand-Ends count k ops (some (p, none)) room all h next = h
  after_operand-Ends count k ops (some (p, some op)) room all (w, good) next =
      pick_run src top (Operands count) (is_kind p TokenKind.comma)
        (k (advance p) (ops ++ (op ∷ []))) (some (p, some (ops ++ (op ∷ []))))
        (λ e. next (advance p) op (next_place p w.place) good)
        (λ e. (
          w,
          (omega (arith, length-append ops (op ∷ []), room), AllIndexable-append ops op all good),
        ))

  operand_list-Ends :
      (left count : ℕ) (p : Parser) (ops : List Operand)
      → length ops + left ≤ count
      → AllIndexable ops
      → IsAt src p.lexer
      → Ends src top (Operands count) (operand_list left src p ops)
  unfolding operand_list
  operand_list-Ends zero count p ops room all h =
      refuse-Yields src top top (Operands count) p (any_place p h)
  operand_list-Ends (suc left) count p ops room all h =
      after_operand-Ends count (operand_list left src) ops (parse_operand src p) (omega arith) all
        (parse_operand-Ends p h)
        (λ q op g good.
          operand_list-Ends left count q (ops ++ (op ∷ []))
            (omega (arith, length-append ops (op ∷ []), room)) (AllIndexable-append ops op all good)
            g)

-- From a parser whose lexer stands in the source, `parse_operand_list` returns. It refuses with an error
-- reported, or it accepts at most four operands, as many as a statement holds. The index of each memory
-- operand, if it has one, is a general-purpose register of the table with a number below 16 other than 4,
-- that of rsp, and a scale of 1, 2, 4 or 8, as the encoder relies on; the base, if there is one, is some
-- register of the table, and rip with a scaled index is among what is accepted. The lexer stands in the
-- source again.
pub parse_operand_list-Ends :
    (src : List ℕ) (p : Parser)
    → IsAt src p.lexer
    → Ends src (2 + length src) (Operands 4) (parse_operand_list src p)
unfolding parse_operand_list
parse_operand_list-Ends src p h =
    pick_run src (2 + length src) (Operands 4) (at_stmt_end p) (some (p, some []))
      (operand_list max_operands src p []) (λ e. (any_place src p h, (omega arith, omega arith)))
      (λ e. operand_list-Ends src 4 4 p [] (omega arith) (omega arith) h)
