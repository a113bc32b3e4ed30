-- ===== src/Buf/Append.antt =====
-- The writers of buf/buf.c are list append, or change nothing.
use quicks_qas.Common.{
  ℕ, zero, suc, ◌/◌, ◌^◌, ◌<◌, ◌≡◌, ◌≢◌, ◌⊎◌, inl, inr, ◌∙◌, refl, Bool, false, List, [], ◌∷◌, ◌++◌,
  length, length-append, replicate, length-replicate, ◌==◌, arith,
}
use mathlib.Core.List.{append-nil, append_assoc}
use quicks_qas.Common.Words.{le_bytes, length-le_bytes, low_byte_lem}
use quicks_qas.Status.{ok}
use quicks_qas.Buf.Ops.{
  Buf, Outcome, on_ok, write, reserve, append, append_u8, append_zeros, write_le, append_le,
}
use quicks_qas.Buf.Growth.{IsValid, Reserved, reserve-Reserved, ok-cases}

-- A write of `bs`: on success behind the old bytes, on failure no change, the buffer valid.
pub record Writes (b : Buf) (bs : List ℕ) (r : Outcome) : Type 0 where
  pub appended : r.0 ≡ ok → r.1.bytes ≡ b.bytes ++ bs
  pub unchanged : r.0 ≢ ok → r.1 ≡ b
  pub valid : IsValid r.1

on_ok-Writes :
    (b : Buf) (bs : List ℕ) (r : Outcome)
    → Reserved b (length bs) r
    → Writes b bs (on_ok r (λ q. write q bs))
on_ok-Writes b bs (ok, q) h = record {
  appended = λ _. rw h.same_bytes;
  unchanged = λ n. absurd (n refl);
  valid = record {
    holds_len = rw length-append (rw h.same_bytes (h.room refl));
    cap_fits = h.valid.cap_fits;
  };
}
on_ok-Writes b bs (st, q) h = record {
  appended = λ e. cc;
  unchanged = λ n. h.unchanged n;
  valid = h.valid;
}

write_le_lem : (n v : ℕ) (b : Buf) → write_le n v b ≡ record b { bytes = b.bytes ++ le_bytes n v }
unfolding write_le
write_le_lem zero v b = rw append-nil
write_le_lem (suc n) v b = write_le_lem n (v / 256) _ ∙ rw (append_assoc, low_byte_lem)

nothing-Writes : (b : Buf) → IsValid b → Writes b [] (ok, b)
nothing-Writes b v = record {
  appended = λ _. rw append-nil;
  unchanged = λ n. absurd (n refl);
  valid = v;
}

append-Writes :
    (grant : ℕ → Bool) (b : Buf) (bs : List ℕ)
    → IsValid b
    → length bs < 2 ^ 64
    → Writes b bs (append grant b bs)
unfolding append
append-Writes grant b [] v h = nothing-Writes b v
append-Writes grant b (x ∷ bs) v h =
    on_ok-Writes b (x ∷ bs) (reserve grant b (length (x ∷ bs)))
      (reserve-Reserved grant b (length (x ∷ bs)) h v)

append_zeros-Writes :
    (grant : ℕ → Bool) (b : Buf) (count : ℕ)
    → IsValid b
    → count < 2 ^ 64
    → Writes b (replicate count 0) (append_zeros grant b count)
unfolding append_zeros
append_zeros-Writes grant b zero v h = nothing-Writes b v
append_zeros-Writes grant b (suc n) v h =
    let e : (suc n == 0) ≡ false = ground arith in
    rw e (
      on_ok-Writes b (replicate (suc n) 0) (reserve grant b (suc n))
        (rw length-replicate (reserve-Reserved grant b (suc n) h v)))

abbrev le_step : ℕ → ℕ → Buf → Outcome
le_step n v q = (ok, write_le n v q)

le_step_lem : (n v : ℕ) (q : Buf) → le_step n v q ≡ write q (le_bytes n v)
le_step_lem n v q = rw write_le_lem

on_ok_ext : (r : Outcome) (k l : Buf → Outcome) → ((q : Buf) → k q ≡ l q) → on_ok r k ≡ on_ok r l
on_ok_ext (ok, q) k l h = h q
on_ok_ext (st, q) k l h = refl

append_le-Writes :
    (grant : ℕ → Bool) (b : Buf) (value n : ℕ)
    → IsValid b
    → n < 2 ^ 64
    → Writes b (le_bytes n value) (append_le grant b value n)
unfolding append_le
append_le-Writes grant b value n v h =
    rw
      (on_ok_ext (reserve grant b n) (le_step n value) (λ q. write q (le_bytes n value))
        (le_step_lem n value))
      (on_ok-Writes b (le_bytes n value) (reserve grant b n)
        (rw length-le_bytes (reserve-Reserved grant b n h v)))

pub writers-Writes :
    (grant : ℕ → Bool) (b : Buf) (bs : List ℕ) (value count n : ℕ)
    → IsValid b
    → length bs < 2 ^ 64
    → count < 2 ^ 64
    → n < 2 ^ 64
    → Writes b bs (append grant b bs)
      × Writes b (value ∷ []) (append_u8 grant b value)
      × Writes b (replicate count 0) (append_zeros grant b count)
      × Writes b (le_bytes n value) (append_le grant b value n)
writers-Writes grant b bs value count n v hb hc hn = (
  append-Writes grant b bs v hb,
  unfold append_u8 in
      on_ok-Writes b (value ∷ []) (reserve grant b 1) (reserve-Reserved grant b 1 (omega arith) v),
  append_zeros-Writes grant b count v hc,
  append_le-Writes grant b value n v hn,
)

-- A valid buffer with `bs` behind the old bytes, or a failure that changes nothing.
abbrev pub Appends : Buf → List ℕ → Outcome → Type 0
Appends b bs r =
    IsValid r.1 × (((r.0 ≡ ok) × (r.1.bytes ≡ b.bytes ++ bs)) ⊎ ((r.0 ≢ ok) × (r.1 ≡ b)))

Writes-Appends : (b : Buf) (bs : List ℕ) (r : Outcome) → Writes b bs r → Appends b bs r
Writes-Appends b bs r w = (
  w.valid,
  elim (ok-cases r.0) [ inl e ↦ inl (e, w.appended e) | inr e ↦ inr (e, w.unchanged e) ],
)

-- For every valid buffer and sizes below 2^64, whatever the allocator answers, each writer leaves a
-- valid buffer and appends its bytes, or fails and changes nothing: raw bytes, one byte, zeros, and the
-- low `n` bytes of a value in little-endian order.
pub writers-Appends :
    (grant : ℕ → Bool) (b : Buf) (bs : List ℕ) (value count n : ℕ)
    → IsValid b
    → length bs < 2 ^ 64
    → count < 2 ^ 64
    → n < 2 ^ 64
    → Appends b bs (append grant b bs)
      × Appends b (value ∷ []) (append_u8 grant b value)
      × Appends b (replicate count 0) (append_zeros grant b count)
      × Appends b (le_bytes n value) (append_le grant b value n)
writers-Appends grant b bs value count n v hb hc hn =
    let w = writers-Writes grant b bs value count n v hb hc hn in
    (
      Writes-Appends b bs (append grant b bs) w.0,
      Writes-Appends b (value ∷ []) (append_u8 grant b value) w.1,
      Writes-Appends b (replicate count 0) (append_zeros grant b count) w.2,
      Writes-Appends b (le_bytes n value) (append_le grant b value n) w.3,
    )
