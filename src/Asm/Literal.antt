-- ===== src/Asm/Literal.antt =====
-- A printed string literal decodes to its bytes (asm/internal/strdec.c).
use quicks_qas.Common.{
  ℕ, zero, suc, ◌+◌, ◌-◌, ◌^◌, ◌≤◌, ◌<◌, ◌≡◌, inl, inr, refl, sym, ap, ◌∙◌, Bool, true, false, not,
  ◌||◌, List, [], ◌∷◌, ◌++◌, some, length, length-append, take, drop, get_or, leb, ltb, ◌==◌, arith,
  if◌then◌else◌, Bool-cases,
}
use mathlib.Core.Path.{subst}
use quicks_qas.Common.Words.{u64}
use quicks_qas.Status.{ok, invalid_argument}
use quicks_qas.Buf.Ops.{Buf, grow, reserve, realloc_to, append_u8}
use quicks_qas.Diag.Sink.{DiagSink}
use quicks_qas.Asm.Strdec.{
  Scanned, void_report, put_value, Decoding, go_on, decode_from, decode_string,
}
use quicks_qas.Asm.Assembly.{Supply, past, span_of}
use quicks_qas.Asm.Quote.{quote_byte, quote, AllBytes, Reads, quote_byte-Reads}

append_u8_granted :
    (grant : ℕ → Bool) (b : Buf) (v : ℕ)
    → ((n : ℕ) → grant n ≡ true)
    → length b.bytes + 1 < 2 ^ 64
    → (after : Buf) × (append_u8 grant b v ≡ (ok, after)) × (after.bytes ≡ b.bytes ++ (v ∷ []))
unfolding append_u8 reserve realloc_to
append_u8_granted grant b v all h = elim (Bool-cases (leb 1 (b.cap - length b.bytes))) [
  | inl e ↦ (record { bytes = b.bytes ++ (v ∷ []); cap = b.cap }, ground (arith, e), refl)
  | inr e ↦
      let cap : ℕ = grow 64 (if b.cap == 0 then 64 else b.cap) (u64 (length b.bytes + 1)) in
      (record { bytes = b.bytes ++ (v ∷ []); cap = cap }, ground (arith, e, h, all cap), refl)
]

Reads-decode :
    (fuel : ℕ) (m : Supply) (stop c : ℕ) (bytes rest : List ℕ) (out after : Buf) (sink : DiagSink)
    → Reads stop c bytes rest
    → append_u8 (m 0).buffer out c ≡ (ok, after)
    → decode_from (suc fuel) m stop bytes out sink
      ≡ decode_from fuel (past 1 m) stop rest after sink
unfolding decode_from
Reads-decode fuel m stop c bytes rest out after sink r e =
    let round = λ (x : Scanned).
      go_on (decode_from fuel (past 1 m) stop x.rest) (put_value (m 0).buffer out x.value)
        (void_report (m 0).print sink x.report) in
    ap (λ b. decode_from (suc fuel) m stop b out sink) r.starts
    ∙ ap round r.scanned
    ∙ ap (λ o. go_on (decode_from fuel (past 1 m) stop rest) o sink) e

append_nil : (xs : List ℕ) → xs ++ [] ≡ xs
append_nil [] = refl
append_nil (x ∷ xs) = ap (◌∷◌ x) (append_nil xs)

append_cons : (xs : List ℕ) (c : ℕ) (cs : List ℕ) → (xs ++ (c ∷ [])) ++ cs ≡ xs ++ (c ∷ cs)
append_cons [] c cs = refl
append_cons (x ∷ xs) c cs = ap (◌∷◌ x) (append_cons xs c cs)

-- Every request of every operation is granted.
abbrev pub Granting : Supply → Type 0
Granting m = (i n : ℕ) → (m i).buffer n ≡ true

-- A decoding that succeeds, with these bytes and no diagnostic.
abbrev pub Gives : List ℕ → DiagSink → Decoding → Type 0
Gives bytes sink d = (after : Buf) × (d ≡ some (ok, after, sink)) × (after.bytes ≡ bytes)

quote-Gives :
    (bs : List ℕ) (fuel : ℕ) (m : Supply) (stop : ℕ) (out : Buf) (sink : DiagSink)
    → AllBytes bs
    → Granting m
    → length out.bytes + length bs < 2 ^ 64
    → length bs ≤ fuel
    → Gives (out.bytes ++ bs) sink (decode_from fuel m stop (quote bs) out sink)
unfolding quote AllBytes decode_from
quote-Gives [] zero m stop out sink all g room l = (out, refl, sym (append_nil out.bytes))
quote-Gives [] (suc fuel) m stop out sink all g room l = (out, refl, sym (append_nil out.bytes))
quote-Gives (c ∷ cs) zero m stop out sink all g room l = absurd (omega arith)
quote-Gives (c ∷ cs) (suc fuel) m stop out sink (small, all) g room l =
    let (next, put, bytes) = append_u8_granted (m 0).buffer out c (g 0) (omega arith) in
    let size : length next.bytes ≡ length out.bytes + 1 =
      ap length bytes ∙ length-append out.bytes (c ∷ []) ∙ omega arith in
    let (after, e, has) =
      quote-Gives cs fuel (past 1 m) stop next sink all (λ i. g (1 + i)) (omega (arith, size))
        (omega arith) in
    (
      after,
      Reads-decode fuel m stop c (quote_byte c ++ quote cs) (quote cs) out next sink
            (quote_byte-Reads stop c (quote cs) small) put
          ∙ e,
      has ∙ ap (λ (xs : List ℕ). xs ++ cs) bytes ∙ append_cons out.bytes c cs,
    )

drop-append : (xs ys : List ℕ) → drop (length xs) (xs ++ ys) ≡ ys
drop-append [] ys = refl
drop-append (x ∷ xs) ys = drop-append xs ys

take-append : (xs ys : List ℕ) → take (length xs) (xs ++ ys) ≡ xs
take-append [] ys = take_none ys
  where
    take_none : (zs : List ℕ) → take 0 zs ≡ []
    take_none zs = refl
take-append (x ∷ xs) ys = ap (◌∷◌ x) (take-append xs ys)

get_or-append : (xs ys : List ℕ) (y : ℕ) → get_or (xs ++ (y ∷ ys)) (length xs) 0 ≡ y
get_or-append [] ys y = refl
get_or-append (x ∷ xs) ys y = get_or-append xs ys y

-- The literal of some bytes, in its quotes.
abbrev pub literal : List ℕ → List ℕ
literal bs = 34 ∷ (quote bs ++ (34 ∷ []))

module _ (before bs after : List ℕ) where
  literal-span :
      span_of (before ++ (literal bs ++ after)) (length before) (length (literal bs)) ≡ literal bs
  literal-span =
      ap (take (length (literal bs))) (drop-append before (literal bs ++ after))
      ∙ take-append (literal bs) after

  literal-interior : take (length (literal bs) - 2) (drop 1 (literal bs)) ≡ quote bs
  literal-interior =
      ap (λ n. take n (quote bs ++ (34 ∷ []))) (omega (arith, length-append (quote bs) (34 ∷ [])))
      ∙ take-append (quote bs) (34 ∷ [])

  literal-end : get_or (literal bs) (length (literal bs) - 1) 0 ≡ 34
  literal-end =
      let last : length (literal bs) - 1 ≡ length (34 ∷ quote bs) =
        omega (arith, length-append (quote bs) (34 ∷ [])) in
      ap (λ n. get_or (literal bs) n 0) last ∙ get_or-append (34 ∷ quote bs) [] 34

quote_byte-pos : (c : ℕ) → 1 ≤ length (quote_byte c)
unfolding quote_byte
quote_byte-pos c = ground arith

quote-le : (bs : List ℕ) → length bs ≤ length (quote bs)
unfolding quote
quote-le [] = omega arith
quote-le (c ∷ cs) =
    omega (arith, length-append (quote_byte c) (quote cs), quote_byte-pos c, quote-le cs)

-- Where memory is granted, any bytes, printed as a literal that stands anywhere in a source, decode to
-- themselves: they are appended to the buffer, with no diagnostic.
pub decode_string-Gives :
    (m : Supply) (before bs after : List ℕ) (out : Buf) (sink : DiagSink)
    → AllBytes bs
    → Granting m
    → length out.bytes + length bs < 2 ^ 64
    → Gives (out.bytes ++ bs) sink (
        decode_string m
          (before ++ (literal bs ++ after))
          (length before)
          (length (literal bs))
          out
          sink)
unfolding decode_string
decode_string-Gives m before bs after out sink all g room =
    subst (λ s. Gives (out.bytes ++ bs) sink (body s)) (sym (literal-span before bs after))
      (past_quotes
        (ltb n 2
          || not (get_or (literal bs) 0 0 == 34)
          || not (get_or (literal bs) (n - 1) 0 == 34))
        ended)
  where
    n : ℕ
    n = length (literal bs)

    stop : ℕ
    stop = length before + n - 1

    body : List ℕ → Decoding
    body s =
        if ltb n 2 || not (get_or s 0 0 == 34) || not (get_or s (n - 1) 0 == 34)
        then some (invalid_argument, out, sink)
        else decode_from n m stop (take (n - 2) (drop 1 s)) out sink

    ended :
        (ltb n 2
          || not (get_or (literal bs) 0 0 == 34)
          || not (get_or (literal bs) (n - 1) 0 == 34))
        ≡ false
    ended = ground (arith, literal-end before bs after, length-append (quote bs) (34 ∷ []))

    inner :
        Gives
          (out.bytes ++ bs)
          sink
          (decode_from n m stop (take (n - 2) (drop 1 (literal bs))) out sink)
    inner =
        subst (λ q. Gives (out.bytes ++ bs) sink (decode_from n m stop q out sink))
          (sym (literal-interior before bs after))
          (quote-Gives bs n m stop out sink all g room
            (omega (arith, quote-le bs, length-append (quote bs) (34 ∷ []))))

    past_quotes :
        (bad : Bool)
        → bad ≡ false
        → Gives (out.bytes ++ bs) sink (
            if bad
            then some (invalid_argument, out, sink)
            else decode_from n m stop (take (n - 2) (drop 1 (literal bs))) out sink)
    past_quotes true e = absurd (cc)
    past_quotes false e = inner
