-- ===== src/Network/Stream/Sending.antt =====
-- writeFull over a socket that sends a part of the bytes in each call.
use lib_mantids.Common.{
  ℕ, zero, suc, ◌≤◌, ◌<◌, ◌≡◌, refl, sym, ap, ◌∙◌, true, false, some, [], ◌∷◌, ◌++◌, append-nil,
  append_assoc, arith, Bytes, ◌==◌, le→ltb-false, length, take, drop, take-drop-take, length-take,
  length-drop, take-append-drop,
}
use lib_mantids.Network.Stream.{SocketOps, fragment, write_full_loop, write_full}

-- One call of partialWrite that sends a byte or more.
pub record Sends {S : Type 0} (ops : SocketOps S) (sent : S → Bytes) (buf : Bytes) (s : S)
    : Type 0 where
  pub taken : ℕ
  pub after : S
  pub some_taken : 0 < taken
  pub not_beyond : taken ≤ length buf
  pub returns : ops.partial_write buf s ≡ (some taken, after)
  pub carried : sent after ≡ sent s ++ take taken buf

length-fragment : (left : Bytes) → length (fragment left) ≤ length left
unfolding fragment
length-fragment left = omega (arith, length-take 4096 left)

fragment_some : (left : Bytes) → 0 < length left → 0 < length (fragment left)
unfolding fragment
fragment_some left h = omega (arith, length-take 4096 left)

take-fragment :
    (n : ℕ) (left : Bytes) → n ≤ length (fragment left) → take n (fragment left) ≡ take n left
unfolding fragment
take-fragment n left h = take-drop-take n 0 4096 left (omega (arith, length-take 4096 left))

positive_test : (n : ℕ) → 0 < n → (n == 0) ≡ false
positive_test n h = ground arith

zero_test : (n : ℕ) → n ≡ 0 → (n == 0) ≡ true
zero_test n e = ground arith

module _ {S : Type 0} (ops : SocketOps S) where
  write_done :
      (fuel : ℕ) (left : Bytes) (s : S)
      → length left ≡ 0
      → write_full_loop ops fuel left s ≡ some (true, s)
  unfolding write_full_loop
  write_done zero left s e = rw (zero_test (length left) e)
  write_done (suc fuel) left s e = rw (zero_test (length left) e)

  write_round :
      (fuel n : ℕ) (left : Bytes) (s after : S)
      → 0 < length left
      → 0 < n
      → n ≤ length (fragment left)
      → ops.partial_write (fragment left) s ≡ (some n, after)
      → write_full_loop ops (suc fuel) left s ≡ write_full_loop ops fuel (drop n left) after
  unfolding write_full_loop
  write_round fuel n left s after more pos inside e =
      rw
        (
          positive_test (length left) more,
          e,
          write_full_loop,
          positive_test n pos,
          le→ltb-false (length (fragment left)) n inside,
        )
        (ap (λ q. write_full_loop ops fuel (drop n left) q.1) e)

  module _ (sent : S → Bytes)
      (sends : (buf : Bytes) (s : S) → 0 < length buf → Sends ops sent buf s) where
    write_full_loop-sent :
        (fuel : ℕ) (left : Bytes) (s : S)
        → length left ≤ fuel
        → (after : S) × (write_full_loop ops fuel left s ≡ some (true, after))
          × (sent after ≡ sent s ++ left)
    write_full_loop-sent fuel [] s h = (s, write_done fuel [] s refl, sym (append-nil (sent s)))
    write_full_loop-sent zero (x ∷ xs) s h = absurd (omega arith)
    write_full_loop-sent (suc fuel) (x ∷ xs) s h =
        let left = x ∷ xs in
        let part = sends (fragment left) s (fragment_some left (omega arith)) in
        let n : ℕ = part.taken in
        let inside : n ≤ length left = omega (arith, length-fragment left, part.not_beyond) in
        let (after, done, all) =
          write_full_loop-sent fuel (drop n left) part.after
            (omega (arith, length-drop n left, part.some_taken)) in
        (
          after,
          write_round fuel n left s part.after (omega arith) part.some_taken part.not_beyond
                part.returns
              ∙ done,
          all
              ∙ ap (λ l. l ++ drop n left)
                  (part.carried ∙ ap (◌++◌ (sent s)) (take-fragment n left part.not_beyond))
              ∙ append_assoc (sent s) (take n left) (drop n left)
              ∙ ap (◌++◌ (sent s)) (take-append-drop n left),
        )

    pub write_full-sent :
        (buf : Bytes) (s : S)
        → (after : S) × (write_full ops buf s ≡ some (true, after)) × (sent after ≡ sent s ++ buf)
    unfolding write_full
    write_full-sent buf s = write_full_loop-sent (length buf) buf s (omega arith)
