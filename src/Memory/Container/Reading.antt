-- ===== src/Memory/Container/Reading.antt =====
-- toString, copyToString and copyOut, over containers whose copyOut2 reads the bytes asked for.
use lib_mantids.Common.{
  ℕ, zero, suc, ◌+◌, ◌-◌, ◌≤◌, ◌<◌, ◌≡◌, sym, ap, ◌∙◌, ◌⊎◌, inl, inr, true, false, not, none, some,
  [], ◌++◌, append-nil, append_assoc, arith, Bytes, u64_mod, u64_max, add64-eq, overflow-none, leb,
  ◌==◌, if◌then◌else◌, Bool-cases, lt_or_le, length, take, drop, take_all, drop_all, drop-drop,
  take_add, length-take, length-drop,
}
use lib_mantids.Memory.Container.{
  ContainerOps, Container, asked, in_range, block_size, copy_out, to_string_loop, to_string,
}

-- The `bytes` bytes of a text from an offset on: nothing where they go past the end.
unfoldable pub part : ℕ → ℕ → Bytes → Bytes
part bytes offset xs = if leb (offset + bytes) (length xs) then take bytes (drop offset xs) else []

-- The same, where the largest number stands for all that is left.
unfoldable pub slice : ℕ → ℕ → Bytes → Bytes
unfolding part
slice bytes offset xs = if bytes == u64_max then drop offset xs else part bytes offset xs

-- What a container stands for, and that its size and its copyOut2 say so.
pub record IsReadable {C : Type 0} (ops : ContainerOps C) (view : C → Bytes) (Inv : C → Type 0)
    : Type 0 where
  pub size_eq : (c : C) → Inv c → ops.size c ≡ length (view c)
  pub bounded : (c : C) → Inv c → length (view c) < u64_mod
  pub copies :
      (c : C) (bytes offset : ℕ)
      → Inv c
      → 0 < bytes
      → offset + bytes ≤ length (view c)
      → ops.copy_out2 c bytes offset ≡ ((true, bytes), take bytes (drop offset (view c)))

module _ {C : Type 0} (ops : ContainerOps C) (view : C → Bytes) (Inv : C → Type 0)
    (readable : IsReadable ops view Inv) where
  block_size_pos : (n : ℕ) → 0 < n → 0 < block_size n
  unfolding block_size
  block_size_pos n pos = ground arith

  block_size_le : (n : ℕ) → block_size n ≤ n
  unfolding block_size
  block_size_le n = ground arith

  block_size_small : (n : ℕ) → block_size n < 8193
  unfolding block_size
  block_size_small n = ground arith

  in_range-true :
      (b : Container C) (bytes offset : ℕ)
      → Inv b.object
      → offset + bytes ≤ length (view b.object)
      → in_range ops b bytes offset ≡ true
  unfolding in_range
  in_range-true b bytes offset inv le =
      rw
        (
          overflow-none offset bytes (omega (arith, readable.bounded b.object inv)),
          readable.size_eq b.object inv,
        )
        (ground arith)

  in_range-false :
      (b : Container C) (bytes offset : ℕ)
      → Inv b.object
      → 0 < bytes
      → length (view b.object) < offset + bytes
      → in_range ops b bytes offset ≡ false
  unfolding in_range
  in_range-false b bytes offset inv pos gt = rw (readable.size_eq b.object inv) (ground arith)

  pub copy_out_block :
      (b : Container C) (bytes offset : ℕ)
      → Inv b.object
      → 0 < bytes
      → bytes < u64_max
      → offset + bytes ≤ length (view b.object)
      → copy_out ops b bytes offset ≡ ((true, bytes), take bytes (drop offset (view b.object)))
  unfolding copy_out asked
  copy_out_block b bytes offset inv pos small le =
      ground (
        arith,
        in_range-true b bytes offset inv le,
        readable.copies b.object bytes offset inv pos le,
      )

  read_pieces :
      (xs : Bytes) (k n offset : ℕ)
      → k ≤ n
      → take k (drop offset xs) ++ take (n - k) (drop (offset + k) xs) ≡ take n (drop offset xs)
  read_pieces xs k n offset le =
      ap (λ l. take k (drop offset xs) ++ take (n - k) l) (sym (drop-drop k offset xs))
      ∙ sym (take_add k (n - k) (drop offset xs))
      ∙ ap (λ i. take i (drop offset xs)) {x = k + (n - k)} {y = n} (omega arith)

  -- A round of the loop, on the bytes still to be read.
  to_string_loop-round :
      (fuel : ℕ) (b : Container C) (n offset : ℕ) (r : Bytes)
      → Inv b.object
      → offset + n ≤ length (view b.object)
      → 0 < n
      → let k = block_size n in
        to_string_loop ops (suc fuel) b n offset r
        ≡ to_string_loop ops fuel b (n - k) (offset + k) (r ++ take k (drop offset (view b.object)))
  unfolding to_string_loop
  to_string_loop-round fuel b n offset r inv le pos =
      let k = block_size n in
      let out = drop offset (view b.object) in
      let bounded = readable.bounded b.object inv in
      let positive : 0 < k = block_size_pos n pos in
      let within : k ≤ n = block_size_le n in
      let small : k < 8193 = block_size_small n in
      let copied = copy_out_block b k offset inv positive (omega arith) (omega arith) in
      rw
        (
          copied,
          take_all k (take k out) (omega (arith, length-take k out)),
          add64-eq offset k (omega arith),
        )
        (ground arith)

  to_string_loop-reads :
      (fuel : ℕ) (b : Container C) (n offset : ℕ) (r : Bytes)
      → Inv b.object
      → offset + n ≤ length (view b.object)
      → n ≤ fuel
      → to_string_loop ops fuel b n offset r ≡ (true, r ++ take n (drop offset (view b.object)))
  unfolding to_string_loop
  to_string_loop-reads zero b zero offset r inv le enough = ap (λ l. (true, l)) (sym (append-nil r))
  to_string_loop-reads zero b (suc n) offset r inv le enough = absurd (omega arith)
  to_string_loop-reads (suc fuel) b zero offset r inv le enough =
      ap (λ l. (true, l)) (sym (append-nil r))
  to_string_loop-reads (suc fuel) b (suc n) offset r inv le enough =
      let m = suc n in
      let k = block_size m in
      let xs = view b.object in
      let positive : 0 < k = block_size_pos m (omega arith) in
      let within : k ≤ m = block_size_le m in
      to_string_loop-round fuel b m offset r inv le (omega arith)
      ∙ to_string_loop-reads fuel b (m - k) (offset + k) (r ++ take k (drop offset xs)) inv
          (omega arith) (omega arith)
      ∙ ap (λ l. (true, l))
          (append_assoc r (take k (drop offset xs)) (take (m - k) (drop (offset + k) xs))
            ∙ ap (λ l. r ++ l) (read_pieces xs k m offset within))

  -- What follows the resolution of the bytes asked for, in toString and in copyToString.
  read_asked :
      (b : Container C) (n offset : ℕ) (r : Bytes)
      → Inv b.object
      → (if not (in_range ops b n offset)
          then r
          else if n == 0
          then r
          else (to_string_loop ops n b n offset r).1)
        ≡ r ++ part n offset (view b.object)
  unfolding part
  read_asked b n offset r inv = elim (lt_or_le (suc (length (view b.object))) (suc (offset + n))) [
    | inl gt ↦ elim (lt_or_le 0 n) [
      | inl pos ↦
          rw (in_range-false b n offset inv pos (omega arith)) (ground (arith, append-nil r))
      | inr le ↦ ground (arith, append-nil r)
    ]
    | inr le ↦
        rw
          (
            in_range-true b n offset inv (omega arith),
            to_string_loop-reads n b n offset r inv (omega arith) (omega arith),
          )
          (ground (arith, append-nil r))
  ]

  asked-cases :
      (b : Container C) (bytes offset : ℕ)
      → Inv b.object
      → ((asked ops b bytes offset ≡ none) × (slice bytes offset (view b.object) ≡ []))
        ⊎ ((n : ℕ) × (asked ops b bytes offset ≡ some n)
            × (slice bytes offset (view b.object) ≡ part n offset (view b.object)))
  unfolding asked slice part
  asked-cases b bytes offset inv =
      let xs = view b.object in
      elim (Bool-cases (bytes == u64_max)) [
        | inr e ↦ inr (bytes, ground arith, ground arith)
        | inl e ↦ elim (lt_or_le (length xs) offset) [
          | inl gt ↦ inl (
            rw (readable.size_eq b.object inv) (ground arith),
            rw (e) (drop_all offset xs (omega arith)),
          )
          | inr le ↦ inr (
            length xs - offset,
            rw (readable.size_eq b.object inv) (ground arith),
            rw (e) (
                ground
                  (arith, take_all (length xs - offset) (drop offset xs), length-drop offset xs)),
          )
        ]
      ]

  -- toString returns the bytes asked for, and nothing where they go past the end of the container.
  pub to_string-slice :
      (b : Container C) (bytes offset : ℕ)
      → Inv b.object
      → to_string ops b bytes offset ≡ slice bytes offset (view b.object)
  unfolding to_string
  to_string-slice b bytes offset inv = elim (asked-cases b bytes offset inv) [
    | inl (e, nothing) ↦ rw (e, to_string, nothing)
    | inr (n, e, some_part) ↦ rw (e, to_string, some_part) (read_asked b n offset [] inv)
  ]
