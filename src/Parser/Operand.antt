-- ===== src/Parser/Operand.antt =====
-- What `parse_memory` of parser/parser.c accepts: an index that a SIB byte can name, with a scale that it can
-- hold.
use quicks_qas.Common.{
  ℕ, zero, suc, ◌+◌, ◌≤◌, ◌<◌, ◌≡◌, refl, ap, Bool, true, false, not, ◌&&◌, ◌||◌, List, Option,
  none, some, length, get_elem?, ◌==◌, arith, if◌then◌else◌,
}
use quicks_qas.Common.Words.{u8}
use quicks_qas.Lexer.Cursor.{TokenKind}
use quicks_qas.Lexer.Next.{is_eof}
use quicks_qas.Lexer.Place.{IsAt}
use quicks_qas.Reg.Table.{Reg, low3, ext, reg_table}
use quicks_qas.Reg.Names.{Listed, reg_lookup-Listed}
use quicks_qas.Reg.Lookup.{reg_lookup}
use quicks_qas.Ast.{Mem}
use quicks_qas.Parser.State.{
  Parser, is_kind, kind_code, at_stmt_end, lexeme, advance, error_here, Parsed, and_then, refuse,
  parse_magnitude, parse_signed_int,
}
use quicks_qas.Parser.Memory.{
  is_gpr, is_ip, is_set, ip_base, with_base, is_scale, mem_set_index, mem_set_plain_reg, mem_reg,
  mem_symbol, mem_name, mem_scaled, scaled_index, with_number, is_star, mem_number, parse_mem_term,
  is_ok, is_sign, after_term, mem_terms, mem_close, closed, empty_mem, parse_memory,
}
use quicks_qas.Parser.Ahead.{
  token_weight, Within, ahead, bounded, advance-Within, advance-Less, error_here-Within, Within-le,
}

-- No index, or a general-purpose register other than number 4, scaled by 1, 2, 4 or 8.
abbrev pub Indexable : Option Reg → ℕ → Type 0
Indexable none scale = Unit {0}
Indexable (some r) scale =
    (is_gpr r.reg_class ≡ true) × ((low3 r == 4 && ext r == 0) ≡ false) × (is_scale scale ≡ true)

-- The register, if there is one, is a row of the table.
abbrev pub Known : Option Reg → Type 0
Known none = Unit {0}
Known (some r) = (i : ℕ) × (get_elem? reg_table i ≡ some r)

pub record IsMem (size : ℕ) (m : Mem) : Type 0 where
  pub indexable : Indexable m.index m.scale
  pub base_known : Known m.base
  pub index_known : Known m.index
  pub sized : m.size ≡ size

-- A parsing function's outcome: a value with `P` and no more ahead than `n`, or a reported error.
abbrev pub Yields : {A : Type 0} → List ℕ → ℕ → (A → Type 0) → Parsed A → Type 0
Yields src n P (q, none) = (q.had_error ≡ true) × IsAt src q.lexer
Yields src n P (q, some a) = Within src n q × P a

pub pick :
    {A : Type 0} (src : List ℕ) (n : ℕ) (P : A → Type 0) (test : Bool) (x y : Parsed A)
    → (test ≡ true → Yields src n P x)
    → (test ≡ false → Yields src n P y)
    → Yields src n P (if test then x else y)
pick src n P true x y h k = h refl
pick src n P false x y h k = k refl

pub refuse-Yields :
    {A : Type 0} (src : List ℕ) (n k : ℕ) (P : A → Type 0) (p : Parser)
    → Within src k p
    → Yields src n P (refuse p)
unfolding error_here
refuse-Yields src n k P p w = (refl, w.place)

Yields-le :
    {A : Type 0} (src : List ℕ) (n k : ℕ) (P : A → Type 0) (r : Parsed A)
    → Yields src n P r
    → n ≤ k
    → Yields src k P r
Yields-le src n k P (q, none) h l = h
Yields-le src n k P (q, some a) (w, good) l = (Within-le q w l, good)

pub and_then-Yields :
    {A B : Type 0} (src : List ℕ) (n k : ℕ) (P : A → Type 0) (Q : B → Type 0) (r : Parsed A)
    (f : Parser → A → Parsed B)
    → Yields src n P r
    → ((q : Parser) (a : A) → Within src n q → P a → Yields src k Q (f q a))
    → Yields src k Q (and_then r f)
and_then-Yields src n k P Q (q, none) f h next = h
and_then-Yields src n k P Q (q, some a) f (w, good) next = next q a w good

Listed-Known : (name : List ℕ) (o : Option Reg) → Listed reg_table name o → Known o
Listed-Known name none h = tt
Listed-Known name (some r) h = (h.1, h.2)

reg_lookup-Known : (name : List ℕ) → Known (reg_lookup name)
reg_lookup-Known name = Listed-Known name (reg_lookup name) (reg_lookup-Listed name)

not_eof : (k : TokenKind) (c : ℕ) → (kind_code k == suc c) ≡ true → is_eof k ≡ false
not_eof TokenKind.eof c h = absurd (ground (arith, h))
not_eof _ c h = refl

abbrev pub Any : ℕ → Type 0
Any v = v ≡ v

parse_magnitude-Yields :
    (src : List ℕ) (n : ℕ) (negative : Bool) (p : Parser)
    → Within src n p
    → Yields src n Any (parse_magnitude negative p)
unfolding parse_magnitude
parse_magnitude-Yields src n negative p w =
    pick src n Any (is_kind p TokenKind.integer) _ (refuse p)
      (λ e. (
        advance-Within src n (if p.cur.int_overflow then error_here p else p)
            (kept p.cur.int_overflow),
        refl,
      ))
      (λ e. refuse-Yields src n n Any p w)
  where
    kept : (b : Bool) → Within src n (if b then error_here p else p)
    kept true = error_here-Within src n p w
    kept false = w

pub parse_signed_int-Yields :
    (src : List ℕ) (n : ℕ) (p : Parser) → Within src n p → Yields src n Any (parse_signed_int p)
unfolding parse_signed_int
parse_signed_int-Yields src n p w =
    pick src n Any (is_kind p TokenKind.minus) (parse_magnitude true (advance p)) _
      (λ e. parse_magnitude-Yields src n true (advance p) (advance-Within src n p w))
      (λ e.
        pick src n Any (is_kind p TokenKind.plus) (parse_magnitude false (advance p))
          (parse_magnitude false p)
          (λ f. parse_magnitude-Yields src n false (advance p) (advance-Within src n p w))
          (λ f. parse_magnitude-Yields src n false p w))

module _ (src : List ℕ) (n size : ℕ) (m : Mem) (good : IsMem size m) where
  mem_set_index-Yields :
      (p : Parser) (r : Reg) (scale : ℕ)
      → Known (some r)
      → Within src n p
      → Yields src n (IsMem size) (mem_set_index p m r scale)
  unfolding mem_set_index
  mem_set_index-Yields p r scale known w =
      let no = refuse-Yields src n n (IsMem size) p w in
      pick src n (IsMem size) (not (is_gpr r.reg_class)) (refuse p) _ (λ e. no)
        (λ class.
          pick src n (IsMem size) (low3 r == 4 && ext r == 0) (refuse p) _ (λ e. no)
            (λ other.
              pick src n (IsMem size) (not (is_scale scale)) (refuse p) _ (λ e. no)
                (λ scaled.
                  pick src n (IsMem size) (is_set m.index) (refuse p) _ (λ e. no)
                    (λ free. (
                      w,
                      record {
                        indexable = (ground (arith, class), other, ground (arith, scaled));
                        base_known = good.base_known;
                        index_known = known;
                        sized = good.sized;
                      },
                    )))))

  with_base-IsMem : (r : Reg) → Known (some r) → IsMem size (with_base m r)
  with_base-IsMem r known = record {
    indexable = good.indexable;
    base_known = known;
    index_known = good.index_known;
    sized = good.sized;
  }

  mem_set_plain_reg-Yields :
      (p : Parser) (r : Reg)
      → Known (some r)
      → Within src n p
      → Yields src n (IsMem size) (mem_set_plain_reg p m r)
  unfolding mem_set_plain_reg
  mem_set_plain_reg-Yields p r known w =
      let no = refuse-Yields src n n (IsMem size) p w in
      pick src n (IsMem size) (is_ip r.reg_class) _ _
        (λ e.
          pick src n (IsMem size) (is_set m.base || is_set m.index) (refuse p)
            (p, some (with_base m r)) (λ f. no) (λ f. (w, with_base-IsMem r known)))
        (λ e.
          pick src n (IsMem size) (ip_base m.base) (refuse p) _ (λ f. no)
            (λ f.
              pick src n (IsMem size) (not (is_set m.base)) (p, some (with_base m r))
                (mem_set_index p m r 1) (λ g. (w, with_base-IsMem r known))
                (λ g. mem_set_index-Yields p r 1 known w)))

  mem_reg-Yields :
      (p : Parser) (r : Reg)
      → Known (some r)
      → Within src n p
      → Yields src n (IsMem size) (mem_reg p m r)
  unfolding mem_reg
  mem_reg-Yields p r known w =
      pick src n (IsMem size) (is_kind p TokenKind.star) _ (mem_set_plain_reg p m r)
        (λ e.
          and_then-Yields src n n Any (IsMem size) (parse_signed_int (advance p))
            (λ q scale. mem_set_index q m r (u8 scale))
            (parse_signed_int-Yields src n (advance p) (advance-Within src n p w))
            (λ q scale v g. mem_set_index-Yields q r (u8 scale) known v))
        (λ e. mem_set_plain_reg-Yields p r known w)

-- A term takes a token at least.
module _ (src : List ℕ) (n size : ℕ) (m : Mem) (good : IsMem size m) (p : Parser)
    (w : Within src (suc n) p) where
  no_term : Yields src n (IsMem size) (refuse p)
  no_term = refuse-Yields src n (suc n) (IsMem size) p w

  mem_symbol-Yields : is_eof p.cur.kind ≡ false → Yields src n (IsMem size) (mem_symbol p m)
  unfolding mem_symbol
  mem_symbol-Yields e =
      pick src n (IsMem size) m.disp_is_symbol (refuse p) _ (λ f. no_term)
        (λ f. (
          advance-Less src n p e w,
          record {
            indexable = good.indexable;
            base_known = good.base_known;
            index_known = good.index_known;
            sized = good.sized;
          },
        ))

  mem_name-Yields :
      (negative : Bool) (o : Option Reg)
      → Known o
      → is_eof p.cur.kind ≡ false
      → Yields src n (IsMem size) (mem_name p m negative o)
  mem_name-Yields negative none known e =
      pick src n (IsMem size) negative (refuse p) (mem_symbol p m) (λ f. no_term)
        (λ f. mem_symbol-Yields e)
  mem_name-Yields negative (some r) known e =
      pick src n (IsMem size) negative (refuse p) (mem_reg (advance p) m r) (λ f. no_term)
        (λ f. mem_reg-Yields src n size m good (advance p) r known (advance-Less src n p e w))

  scaled_index-Yields :
      (q : Parser) (scale : ℕ)
      → Within src n q
      → Yields src n (IsMem size) (scaled_index src q m scale)
  unfolding scaled_index
  scaled_index-Yields q scale v =
      pick src n (IsMem size) (is_kind q TokenKind.identifier) _ (refuse q)
        (λ e. named (reg_lookup (lexeme src q.cur)) (reg_lookup-Known (lexeme src q.cur)))
        (λ e. refuse-Yields src n n (IsMem size) q v)
    where
      named : (o : Option Reg) → Known o → Yields src n (IsMem size) (mem_scaled q m scale o)
      named none known = refuse-Yields src n n (IsMem size) q v
      named (some r) known =
          mem_set_index-Yields src n size m good (advance q) r (u8 scale) known
            (advance-Within src n q v)

  mem_number-Yields :
      (negative : Bool)
      → is_eof p.cur.kind ≡ false
      → Yields src n (IsMem size) (mem_number src p m negative)
  unfolding mem_number
  mem_number-Yields negative e =
      let past = advance-Less src n p e w in
      pick src n (IsMem size) (is_star p.next.kind) _
        (advance p, some (with_number m negative p.cur.int_value))
        (λ f.
          pick src n (IsMem size) negative (refuse p)
            (scaled_index src (advance (advance p)) m p.cur.int_value) (λ g. no_term)
            (λ g.
              scaled_index-Yields (advance (advance p)) p.cur.int_value
                (advance-Within src n (advance p) past)))
        (λ f. (
          past,
          record {
            indexable = good.indexable;
            base_known = good.base_known;
            index_known = good.index_known;
            sized = good.sized;
          },
        ))

  parse_mem_term-Yields :
      (negative : Bool) → Yields src n (IsMem size) (parse_mem_term src p m negative)
  unfolding parse_mem_term
  parse_mem_term-Yields negative =
      pick src n (IsMem size) (is_kind p TokenKind.identifier)
        (mem_name p m negative (reg_lookup (lexeme src p.cur))) _
        (λ e.
          mem_name-Yields negative (reg_lookup (lexeme src p.cur))
            (reg_lookup-Known (lexeme src p.cur)) (not_eof p.cur.kind 1 e))
        (λ e.
          pick src n (IsMem size) (is_kind p TokenKind.integer) (mem_number src p m negative)
            (refuse p) (λ f. mem_number-Yields negative (not_eof p.cur.kind 3 f)) (λ f. no_term))

-- A loop that returns, with such an outcome.
abbrev pub Ends : {A : Type 0} → List ℕ → ℕ → (A → Type 0) → Option (Parsed A) → Type 0
Ends src n P none = ⊥
Ends src n P (some r) = Yields src n P r

abbrev Terms : ℕ → Mem × Bool → Type 0
Terms size r = IsMem size r.0

pub pick_run :
    {A : Type 0} (src : List ℕ) (n : ℕ) (P : A → Type 0) (test : Bool) (x y : Option (Parsed A))
    → (test ≡ true → Ends src n P x)
    → (test ≡ false → Ends src n P y)
    → Ends src n P (if test then x else y)
pick_run src n P true x y h k = h refl
pick_run src n P false x y h k = k refl

after_term-Ends :
    (src : List ℕ) (n k size : ℕ) (again : Parser → Mem → Option (Parsed (Mem × Bool)))
    (r : Parsed Mem)
    → n ≤ k
    → Yields src n (IsMem size) r
    → ((q : Parser) (m : Mem) → Within src n q → IsMem size m → Ends src k (Terms size) (again q m))
    → Ends src k (Terms size) (after_term again r)
after_term-Ends src n k size again (q, none) l h next = h
after_term-Ends src n k size again (q, some m) l (w, good) next =
    pick_run src k (Terms size) (is_sign q) (again q m) (some (q, some (m, true)))
      (λ e. next q m w good) (λ e. (Within-le q w l, good))

Ends-le :
    {A : Type 0} (src : List ℕ) (n k : ℕ) (P : A → Type 0) (r : Option (Parsed A))
    → Ends src n P r
    → n ≤ k
    → Ends src k P r
Ends-le src n k P none h l = h
Ends-le src n k P (some r) h l = Yields-le src n k P r h l

unended : (k : TokenKind) → (kind_code k == 1 || kind_code k == 0) ≡ false → is_eof k ≡ false
unended TokenKind.eof h = absurd (cc)
unended _ h = refl

more_ahead : (src : List ℕ) (p : Parser) → at_stmt_end p ≡ false → 1 ≤ ahead src p
unfolding at_stmt_end ahead
more_ahead src p h =
    let heavy : token_weight p.cur ≡ 1 = ap (λ b. if b then 0 else 1) (unended p.cur.kind h) in
    omega (arith, heavy)

mem_terms-Ends :
    (fuel : ℕ) (src : List ℕ) (n size : ℕ) (p : Parser) (m : Mem) (any : Bool)
    → n < fuel
    → Within src n p
    → IsMem size m
    → Ends src n (Terms size) (mem_terms fuel src p m any)
unfolding mem_terms
mem_terms-Ends zero src n size p m any l w good = absurd (omega arith)
mem_terms-Ends (suc fuel) src zero size p m any l w good =
    pick_run src zero (Terms size)
      (is_kind p TokenKind.rbracket || at_stmt_end p || not (is_ok p.fatal))
      (some (p, some (m, any))) _ (λ e. (w, good))
      (λ e. absurd (omega (arith, w.few, more_ahead src p (ground (arith, e)))))
mem_terms-Ends (suc fuel) src (suc n) size p m any l w good =
    pick_run src (suc n) (Terms size)
      (is_kind p TokenKind.rbracket || at_stmt_end p || not (is_ok p.fatal))
      (some (p, some (m, any))) _ (λ e. (w, good))
      (λ e.
        after_term-Ends src n (suc n) size (λ q r. mem_terms fuel src q r true)
          (parse_mem_term src (if is_sign p then advance p else p) m (is_kind p TokenKind.minus))
          (omega arith)
          (parse_mem_term-Yields src n size m good (if is_sign p then advance p else p)
            (signed (is_sign p)) (is_kind p TokenKind.minus))
          (λ q r v g.
            Ends-le src n (suc n) (Terms size) (mem_terms fuel src q r true)
              (mem_terms-Ends fuel src n size q r true (omega arith) v g) (omega arith)))
  where
    signed : (b : Bool) → Within src (suc n) (if b then advance p else p)
    signed true = advance-Within src (suc n) p w
    signed false = w

mem_close-Yields :
    (src : List ℕ) (n size : ℕ) (r : Parsed (Mem × Bool))
    → Yields src n (Terms size) r
    → Yields src n (IsMem size) (mem_close r)
mem_close-Yields src n size (q, none) h = h
mem_close-Yields src n size (q, some (m, any)) (w, good) =
    pick src n (IsMem size) (is_kind q TokenKind.rbracket) _ (refuse q)
      (λ e.
        pick src n (IsMem size) any (advance q, some m) (refuse (advance q))
          (λ f. (advance-Within src n q w, good))
          (λ f. refuse-Yields src n n (IsMem size) (advance q) (advance-Within src n q w)))
      (λ e. refuse-Yields src n n (IsMem size) q w)

-- From a parser whose lexer stands in the source, `parse_memory` returns. It refuses with an error
-- reported, or it accepts an operand of the size given whose index, if there is one, is a general-purpose
-- register other than number 4 (rsp), with scale 1, 2, 4 or 8; its registers are rows of the table. The lexer
-- stands in the source again.
pub parse_memory-Ends :
    (src : List ℕ) (p : Parser) (size : ℕ)
    → IsAt src p.lexer
    → Ends src (2 + length src) (IsMem size) (parse_memory src p size)
unfolding parse_memory ahead
parse_memory-Ends src p size h =
    ended (mem_terms (3 + length src) src (advance p) (empty_mem size) false) (
      mem_terms-Ends (3 + length src) src (2 + length src) size (advance p) (empty_mem size) false
        (omega arith) start
        (record { indexable = tt; base_known = tt; index_known = tt; sized = refl }))
  where
    whole : Within src (2 + length src) p
    whole = record { place = h; few = bounded src p }

    start : Within src (2 + length src) (advance p)
    start = advance-Within src (2 + length src) p whole

    ended :
        (o : Option (Parsed (Mem × Bool)))
        → Ends src (2 + length src) (Terms size) o
        → Ends src (2 + length src) (IsMem size) (closed o)
    ended none e = e
    ended (some r) e = mem_close-Yields src (2 + length src) size r e
