-- ===== src/Memory/Streams/FullWrite.antt =====
-- writeFullStream over an object that takes a byte or more in each call.
use lib_mantids.Common.{
  ℕ, zero, suc, ◌+◌, ◌≤◌, ◌<◌, ◌≡◌, refl, sym, ap, ◌∙◌, inl, inr, some, [], ◌++◌, arith, Bytes,
  u64_mod, add64-eq, le→ltb-false, lt→ltb, lt_or_le, length, take, drop, drop_all, drop-drop,
  length-drop, take-append-drop,
}
use lib_mantids.Memory.Streams.{
  Written, StreamOps, add_status, wrote, write_loop, write_full_stream,
}

-- One call of `write` on bytes that are there: it succeeds, takes some bytes from the front, and
-- what the object stands for is carried on by the bytes taken.
pub record Takes (S A : Type 0) (view : S → A) (run : A → Bytes → A) (Inv : S → Type 0)
    (buf : Bytes) (s : S) (result : Written S) : Type 0 where
  pub taken : ℕ
  pub after : S
  pub some_taken : 0 < taken
  pub not_beyond : taken ≤ length buf
  pub returns : result ≡ some (wrote taken, after)
  pub carried : view after ≡ run (view s) (take taken buf)
  pub invariant : Inv after

-- All of the bytes, in one call of writeFullStream.
pub record TakesAll (S A : Type 0) (view : S → A) (run : A → Bytes → A) (Inv : S → Type 0)
    (buf : Bytes) (s : S) (result : Written S) : Type 0 where
  pub after : S
  pub returns : result ≡ some (wrote (length buf), after)
  pub carried : view after ≡ run (view s) buf
  pub invariant : Inv after

pub next_status : (n k : ℕ) → n + k < u64_mod → add_status (wrote n) (wrote k) ≡ wrote (n + k)
unfolding add_status
next_status n k h = ap wrote (add64-eq n k h)

pub no_round :
    {S : Type 0} (ops : StreamOps S) (fuel n : ℕ) (buf : Bytes) (s : S)
    → length buf ≤ n
    → write_loop ops fuel buf (wrote n) s ≡ some (wrote n, s)
unfolding write_loop
no_round ops zero n buf s h = rw (le→ltb-false n (length buf) h)
no_round ops (suc fuel) n buf s h = rw (le→ltb-false n (length buf) h, write_loop) refl

pub one_round :
    {S : Type 0} (ops : StreamOps S) (fuel n k : ℕ) (buf : Bytes) (s after : S)
    → n < length buf
    → n + k < u64_mod
    → ops.write (drop n buf) s ≡ some (wrote k, after)
    → write_loop ops (suc fuel) buf (wrote n) s ≡ write_loop ops fuel buf (wrote (n + k)) after
unfolding write_loop
one_round ops fuel n k buf s after lt bound e =
    rw (lt→ltb n (length buf) lt, write_loop, e, next_status n k bound) refl

module _ {S A : Type 0} (ops : StreamOps S) (view : S → A) (run : A → Bytes → A) (Inv : S → Type 0)
    (run-nil : (a : A) → run a [] ≡ a)
    (run-append : (a : A) (xs ys : Bytes) → run a (xs ++ ys) ≡ run (run a xs) ys)
    (step : (buf : Bytes) (s : S)
      → 0 < length buf
      → length buf < u64_mod
      → Inv s
      → Takes S A view run Inv buf s (ops.write buf s)) where
  -- The front and the rest of what is left.
  run_on :
      (a : A) (n k : ℕ) (buf : Bytes)
      → run a (drop n buf) ≡ run (run a (take k (drop n buf))) (drop (n + k) buf)
  run_on a n k buf =
      ap (run a) (sym (take-append-drop k (drop n buf)))
      ∙ run-append a (take k (drop n buf)) (drop k (drop n buf))
      ∙ ap (run (run a (take k (drop n buf)))) (drop-drop k n buf)

  HandsOver : ℕ → Bytes → ℕ → S → Type 0
  HandsOver fuel buf n s =
      (after : S) × (write_loop ops fuel buf (wrote n) s ≡ some (wrote (length buf), after))
      × (view after ≡ run (view s) (drop n buf))
      × Inv after

  at_end :
      (fuel : ℕ) (buf : Bytes) (n : ℕ) (s : S) → n ≡ length buf → Inv s → HandsOver fuel buf n s
  unfolding HandsOver
  at_end fuel buf n s e inv = (
    s,
    no_round ops fuel n buf s (omega arith) ∙ ap (λ k. some (wrote k, s)) e,
    sym (run-nil (view s)) ∙ ap (run (view s)) (sym (drop_all n buf (omega arith))),
    inv,
  )

  all_rounds :
      (fuel : ℕ) (buf : Bytes) (n : ℕ) (s : S)
      → length buf < u64_mod
      → n ≤ length buf
      → length buf ≤ n + fuel
      → Inv s
      → HandsOver fuel buf n s
  unfolding HandsOver
  all_rounds zero buf n s bound le enough inv = at_end zero buf n s (omega arith) inv
  all_rounds (suc fuel) buf n s bound le enough inv = elim (lt_or_le n (length buf)) [
    | inr all ↦ at_end (suc fuel) buf n s (omega arith) inv
    | inl more ↦
        let front =
          step (drop n buf) s (omega (arith, length-drop n buf)) (omega (arith, length-drop n buf))
            inv in
        let k : ℕ = front.taken in
        let inside : n + k ≤ length buf = omega (arith, length-drop n buf, front.not_beyond) in
        let next =
          all_rounds fuel buf (n + k) front.after bound inside (omega (arith, front.some_taken))
            front.invariant in
        (
          next.0,
          one_round ops fuel n k buf s front.after more (omega arith) front.returns ∙ next.1,
          next.2 ∙ ap (λ a. run a (drop (n + k) buf)) front.carried ∙ sym (run_on (view s) n k buf),
          next.3,
        )
  ]

  -- Such an object is handed all of the bytes, and writeFullStream returns.
  pub write_full_stream-TakesAll :
      (buf : Bytes) (s : S)
      → length buf < u64_mod
      → Inv s
      → TakesAll S A view run Inv buf s (write_full_stream ops buf s)
  unfolding write_full_stream HandsOver
  write_full_stream-TakesAll buf s bound inv =
      let all = all_rounds (length buf) buf 0 s bound (omega arith) (omega arith) inv in
      record { after = all.0; returns = all.1; carried = all.2; invariant = all.3 }
