-- ===== src/Network/Stream/Receiving.antt =====
-- readFull over a socket that gives a part of what comes in in each call.
use lib_mantids.Common.{
  ℕ, zero, suc, ◌+◌, ◌-◌, ◌≤◌, ◌<◌, ◌≡◌, refl, sym, ap, ◌∙◌, inl, inr, Bool, true, false, some, [],
  ◌∷◌, ◌++◌, append-nil, append_assoc, arith, Bytes, leb, ◌==◌, le→ltb-false, lt_or_le, length,
  take, drop, drop-drop, take_nil, take_add, length-take, length-drop,
}
use lib_mantids.Network.Stream.{SocketOps, Received, fragment_size, read_full_loop, read_full}

-- One call of partialRead: a part of what comes in, and nothing only at its end.
pub record Reads {S : Type 0} (ops : SocketOps S) (incoming : S → Bytes) (n : ℕ) (s : S)
    : Type 0 where
  pub taken : ℕ
  pub after : S
  pub not_beyond : taken ≤ n
  pub within : taken ≤ length (incoming s)
  pub some_taken : 0 < length (incoming s) → 0 < taken
  pub returns : ops.partial_read n s ≡ (some (take taken (incoming s)), after)
  pub left : incoming after ≡ drop taken (incoming s)

fragment_size_pos : (n : ℕ) → 0 < n → 0 < fragment_size n
unfolding fragment_size
fragment_size_pos n h = omega arith

fragment_size_le : (n : ℕ) → fragment_size n ≤ n
unfolding fragment_size
fragment_size_le n = omega arith

positive_test : (n : ℕ) → 0 < n → (n == 0) ≡ false
positive_test n h = ground arith

-- What readFull makes of what comes in behind the bytes that it has: all that is asked for, or what
-- there is up to the end.
abbrev pub received : Bytes → ℕ → Bytes → Received
received got left coming = record {
  complete = leb left (length coming);
  count = length (got ++ take left coming);
  bytes = got ++ take left coming;
}

same_received :
    (c d : Bool) (xs ys : Bytes)
    → c ≡ d
    → xs ≡ ys
    → ◌≡◌ {A = Received}
        (record { complete = c; count = length xs; bytes = xs })
        (record { complete = d; count = length ys; bytes = ys })
same_received c d xs ys e f =
    ap (λ b. record { complete = b; count = length xs; bytes = xs }) e
    ∙ ap (λ l. record { complete = d; count = length l; bytes = l }) f

received_none :
    (got coming : Bytes)
    → received got 0 coming ≡ record { complete = true; count = length got; bytes = got }
received_none got coming = same_received _ true _ got (ground arith) (append-nil got)

received_end :
    (left : ℕ) (got coming : Bytes)
    → 0 < left
    → length coming ≤ 0
    → received got left coming ≡ record { complete = false; count = length got; bytes = got }
received_end left got [] pos h =
    same_received _ false _ got (ground arith) (ap (◌++◌ got) (take_nil left) ∙ append-nil got)
received_end left got (x ∷ xs) pos h = absurd (omega arith)

leb_shift : (n m k : ℕ) → k ≤ n → k ≤ m → leb (n - k) (m - k) ≡ leb n m
leb_shift n m k h j = ground arith

received-append :
    (got : Bytes) (k left : ℕ) (coming : Bytes)
    → k ≤ left
    → k ≤ length coming
    → received (got ++ take k coming) (left - k) (drop k coming) ≡ received got left coming
received-append got k left coming h j =
    same_received _ _ _ _
      (ap (leb (left - k)) (length-drop k coming) ∙ leb_shift left (length coming) k h j)
      (append_assoc got (take k coming) (take (left - k) (drop k coming))
        ∙ ap (◌++◌ got) (
            sym (take_add k (left - k) coming)
            ∙ ap (λ n. take n coming) {x = k + (left - k)} {y = left} (omega arith)))

nothing_left : (xs : Bytes) → length xs ≤ 0 → xs ≡ []
nothing_left [] h = refl
nothing_left (x ∷ xs) h = absurd (omega arith)

module _ {S : Type 0} (ops : SocketOps S) where
  read_done :
      (fuel : ℕ) (got : Bytes) (s : S)
      → read_full_loop ops fuel 0 got s
        ≡ some (record { complete = true; count = length got; bytes = got }, s)
  unfolding read_full_loop
  read_done zero got s = refl
  read_done (suc fuel) got s = refl

  read_end :
      (fuel left : ℕ) (got : Bytes) (s after : S)
      → 0 < left
      → ops.partial_read (fragment_size left) s ≡ (some [], after)
      → read_full_loop ops (suc fuel) left got s
        ≡ some (record { complete = false; count = length got; bytes = got }, after)
  unfolding read_full_loop
  read_end fuel left got s after more e =
      rw (positive_test left more, e, read_full_loop)
        (ap (λ q. some (record { complete = false; count = length got; bytes = got }, q.1)) e)

  read_round :
      (fuel left : ℕ) (got bs : Bytes) (s after : S)
      → 0 < left
      → 0 < length bs
      → length bs ≤ fragment_size left
      → ops.partial_read (fragment_size left) s ≡ (some bs, after)
      → read_full_loop ops (suc fuel) left got s
        ≡ read_full_loop ops fuel (left - length bs) (got ++ bs) after
  unfolding read_full_loop
  read_round fuel left got bs s after more pos inside e =
      rw
        (
          positive_test left more,
          e,
          read_full_loop,
          positive_test (length bs) pos,
          le→ltb-false (fragment_size left) (length bs) inside,
        )
        (ap (λ q. read_full_loop ops fuel (left - length bs) (got ++ bs) q.1) e)

  module _ (incoming : S → Bytes) (reads : (n : ℕ) (s : S) → 0 < n → Reads ops incoming n s) where
    read_full_loop-received :
        (fuel left : ℕ) (got : Bytes) (s : S)
        → left ≤ fuel
        → (after : S) × (read_full_loop ops fuel left got s
            ≡ some (received got left (incoming s), after))
          × (incoming after ≡ drop left (incoming s))
    read_full_loop-received fuel zero got s h = (
      s,
      read_done fuel got s ∙ ap (λ r. some (r, s)) (sym (received_none got (incoming s))),
      refl,
    )
    read_full_loop-received zero (suc left) got s h = absurd (omega arith)
    read_full_loop-received (suc fuel) (suc n) got s h =
        let left : ℕ = suc n in
        let part = reads (fragment_size left) s (fragment_size_pos left (omega arith)) in
        let k : ℕ = part.taken in
        let coming = incoming s in
        let size = length-take k coming in
        elim (lt_or_le 0 (length coming)) [
          | inr closed ↦ (
            part.after,
            read_end fuel left got s part.after (omega arith) (
                  part.returns
                  ∙ ap (λ bs. (some bs, part.after))
                      (nothing_left (take k coming) (omega (arith, part.within))))
                ∙ ap (λ r. some (r, part.after))
                    (sym (received_end left got coming (omega arith) closed)),
            part.left
                ∙ nothing_left (drop k coming) (omega (arith, length-drop k coming))
                ∙ sym (nothing_left (drop left coming) (omega (arith, length-drop left coming))),
          )
          | inl more ↦
              let bs = take k coming in
              let inside : k ≤ left = omega (arith, part.not_beyond, fragment_size_le left) in
              let (after, done, last) =
                read_full_loop-received fuel (left - length bs) (got ++ bs) part.after
                  (omega (arith, part.within, part.some_taken more)) in
              (
                after,
                read_round fuel left got bs s part.after (omega arith)
                      (omega (arith, part.within, part.some_taken more))
                      (omega (arith, part.not_beyond)) part.returns
                    ∙ done
                    ∙ ap (λ r. some (r, after))
                        (ap (received (got ++ bs) (left - length bs)) part.left
                          ∙ ap (λ m. received (got ++ bs) (left - m) (drop k coming))
                              {x = length bs} {y = k} (omega (arith, part.within))
                          ∙ received-append got k left coming inside part.within),
                last
                    ∙ ap (drop (left - length bs)) part.left
                    ∙ drop-drop (left - length bs) k coming
                    ∙ ap (λ m. drop m coming) {x = k + (left - length bs)} {y = left}
                        (omega (arith, part.within)),
              )
        ]

    -- readFull gives what is asked for, or what comes in up to the end, and takes no more than that.
    pub read_full-received :
        (expected : ℕ) (s : S)
        → (after : S) × (read_full ops expected s ≡ some (received [] expected (incoming s), after))
          × (incoming after ≡ drop expected (incoming s))
    unfolding read_full
    read_full-received expected s = read_full_loop-received expected expected [] s (omega arith)
