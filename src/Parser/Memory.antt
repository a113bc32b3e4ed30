-- ===== src/Parser/Memory.antt =====
-- The memory operands of parser/parser.c. `m` is written through a pointer; after a failure it is not read.
use quicks_qas.Common.{
  ℕ, zero, suc, ◌+◌, Bool, true, false, not, ◌&&◌, ◌||◌, List, Option, none, some, length, ◌==◌,
  if◌then◌else◌,
}
use quicks_qas.Common.Int.{pos, ◌+ℤ◌, ◌-ℤ◌}
use quicks_qas.Common.Words.{u8, to_int64}
use quicks_qas.Status.{Status, ok}
use quicks_qas.Lexer.Cursor.{TokenKind}
use quicks_qas.Reg.Table.{Reg, RegClass, gpr, ip, none_class, low3, ext}
use quicks_qas.Reg.Lookup.{reg_lookup}
use quicks_qas.Ast.{Mem}
use quicks_qas.Parser.State.{
  Parser, is_kind, at_stmt_end, lexeme, advance, Parsed, and_then, refuse, parse_signed_int,
}

abbrev pub is_gpr : RegClass → Bool
is_gpr gpr = true
is_gpr ip = false
is_gpr none_class = false

abbrev pub is_ip : RegClass → Bool
is_ip ip = true
is_ip gpr = false
is_ip none_class = false

abbrev pub is_set : Option Reg → Bool
is_set none = false
is_set (some r) = true

abbrev pub ip_base : Option Reg → Bool
ip_base none = false
ip_base (some r) = is_ip r.reg_class

abbrev pub with_base : Mem → Reg → Mem
with_base m r = record {
  base = some r;
  index = m.index;
  scale = m.scale;
  has_disp = m.has_disp;
  disp_is_symbol = m.disp_is_symbol;
  sym_off = m.sym_off;
  sym_len = m.sym_len;
  disp = m.disp;
  size = m.size;
}

abbrev pub with_index : Mem → Reg → ℕ → Mem
with_index m r scale = record {
  base = m.base;
  index = some r;
  scale = scale;
  has_disp = m.has_disp;
  disp_is_symbol = m.disp_is_symbol;
  sym_off = m.sym_off;
  sym_len = m.sym_len;
  disp = m.disp;
  size = m.size;
}

abbrev pub is_scale : ℕ → Bool
is_scale scale = scale == 1 || scale == 2 || scale == 4 || scale == 8

unfoldable pub mem_set_index : Parser → Mem → Reg → ℕ → Parsed Mem
mem_set_index p m r scale =
    if not (is_gpr r.reg_class)
    then refuse p
    else if low3 r == 4 && ext r == 0
    then refuse p
    else if not (is_scale scale)
    then refuse p
    else if is_set m.index
    then refuse p
    else (p, some (with_index m r scale))

unfoldable pub mem_set_plain_reg : Parser → Mem → Reg → Parsed Mem
mem_set_plain_reg p m r =
    if is_ip r.reg_class
    then (if is_set m.base || is_set m.index then refuse p else (p, some (with_base m r)))
    else if ip_base m.base
    then refuse p
    else if not (is_set m.base)
    then (p, some (with_base m r))
    else mem_set_index p m r 1

-- Past a register: `reg * scale`, or the register alone.
unfoldable pub mem_reg : Parser → Mem → Reg → Parsed Mem
mem_reg p m r =
    if is_kind p TokenKind.star
    then and_then (parse_signed_int (advance p)) (λ q scale. mem_set_index q m r (u8 scale))
    else mem_set_plain_reg p m r

unfoldable pub mem_symbol : Parser → Mem → Parsed Mem
mem_symbol p m = if m.disp_is_symbol then refuse p else (
  advance p,
  some (record {
    base = m.base;
    index = m.index;
    scale = m.scale;
    has_disp = true;
    disp_is_symbol = true;
    sym_off = p.cur.offset;
    sym_len = p.cur.len;
    disp = m.disp;
    size = m.size;
  }),
)

abbrev pub mem_name : Parser → Mem → Bool → Option Reg → Parsed Mem
mem_name p m negative (some r) = if negative then refuse p else mem_reg (advance p) m r
mem_name p m negative none = if negative then refuse p else mem_symbol p m

-- Past `int *`.
abbrev pub mem_scaled : Parser → Mem → ℕ → Option Reg → Parsed Mem
mem_scaled p m scale none = refuse p
mem_scaled p m scale (some r) = mem_set_index (advance p) m r (u8 scale)

unfoldable pub scaled_index : List ℕ → Parser → Mem → ℕ → Parsed Mem
scaled_index src p m scale =
    if is_kind p TokenKind.identifier
    then mem_scaled p m scale (reg_lookup (lexeme src p.cur))
    else refuse p

-- A sum beyond 64 bits would overflow in C.
abbrev pub with_number : Mem → Bool → ℕ → Mem
with_number m negative v = record {
  base = m.base;
  index = m.index;
  scale = m.scale;
  has_disp = true;
  disp_is_symbol = m.disp_is_symbol;
  sym_off = m.sym_off;
  sym_len = m.sym_len;
  disp = if negative then m.disp -ℤ to_int64 v else m.disp +ℤ to_int64 v;
  size = m.size;
}

abbrev pub is_star : TokenKind → Bool
is_star TokenKind.star = true
is_star _ = false

unfoldable pub mem_number : List ℕ → Parser → Mem → Bool → Parsed Mem
mem_number src p m negative =
    if is_star p.next.kind
    then (if negative then refuse p else scaled_index src (advance (advance p)) m p.cur.int_value)
    else (advance p, some (with_number m negative p.cur.int_value))

unfoldable pub parse_mem_term : List ℕ → Parser → Mem → Bool → Parsed Mem
parse_mem_term src p m negative =
    if is_kind p TokenKind.identifier
    then mem_name p m negative (reg_lookup (lexeme src p.cur))
    else if is_kind p TokenKind.integer
    then mem_number src p m negative
    else refuse p

abbrev pub is_ok : Status → Bool
is_ok ok = true
is_ok _ = false

abbrev pub is_sign : Parser → Bool
is_sign p = is_kind p TokenKind.plus || is_kind p TokenKind.minus

-- What follows a term: another round after a sign.
abbrev pub after_term :
    (Parser → Mem → Option (Parsed (Mem × Bool))) → Parsed Mem → Option (Parsed (Mem × Bool))
after_term k (p, none) = some (p, none)
after_term k (p, some m) = let more = k p m in if is_sign p then more else some (p, some (m, true))

-- The loop of `parse_memory`; every round takes a token (Ahead). The Boolean is `any`.
unfoldable pub mem_terms : ℕ → List ℕ → Parser → Mem → Bool → Option (Parsed (Mem × Bool))
mem_terms zero src p m any = none
mem_terms (suc fuel) src p m any =
    let again = λ (q : Parser) (n : Mem). mem_terms fuel src q n true in
    let start = if is_sign p then advance p else p in
    let round = after_term again (parse_mem_term src start m (is_kind p TokenKind.minus)) in
    if is_kind p TokenKind.rbracket || at_stmt_end p || not (is_ok p.fatal)
    then some (p, some (m, any))
    else round

-- The closing bracket.
abbrev pub mem_close : Parsed (Mem × Bool) → Parsed Mem
mem_close (p, none) = (p, none)
mem_close (p, some (m, any)) =
    if is_kind p TokenKind.rbracket
    then (if any then (advance p, some m) else refuse (advance p))
    else refuse p

abbrev pub closed : Option (Parsed (Mem × Bool)) → Option (Parsed Mem)
closed none = none
closed (some r) = some (mem_close r)

abbrev pub empty_mem : ℕ → Mem
empty_mem size = record {
  base = none;
  index = none;
  scale = 0;
  has_disp = false;
  disp_is_symbol = false;
  sym_off = 0;
  sym_len = 0;
  disp = pos 0;
  size = size;
}

-- `parse_memory`, with a round for each byte of the source and two for the tokens ahead.
unfoldable pub parse_memory : List ℕ → Parser → ℕ → Option (Parsed Mem)
parse_memory src p size_hint =
    closed (mem_terms (3 + length src) src (advance p) (empty_mem size_hint) false)
