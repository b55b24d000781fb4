-- ===== src/Helpers/Mem/Compare.antt =====
-- memcmp64 and memicmp2 against the comparison of two lists, and the lengths that memcmp64 over-reads.
use mathlib.Core.Path.{subst, ap₂}
use native.Mathlib.Nat.{mod-eq-sub-mod, zero-mod}
use lib_mantids.Common.{
  ℕ, zero, suc, ◌%◌, ◌≤◌, ◌<◌, ◌≡◌, refl, sym, ap, ◌∙◌, ◌≢◌, inl, inr, Bool, true, false, ◌&&◌,
  some, [], ◌∷◌, ◌++◌, arith, Bytes, u64_mod, sub64, sub64-eq, ◌==◌, if◌then◌else◌, lt_or_le,
  length, take, drop, length-drop, length-append, take_within, drop_within,
}
use lib_mantids.Helpers.Mem.{
  compare_bytes, memcmp, memcmp64_loop, memcmp64_block, memcmp64, memicmp2, icharcmp,
}

-- Whether two lists have the same length and the test holds at each place.
unfoldable pub all_same : (ℕ → ℕ → Bool) → Bytes → Bytes → Bool
all_same same [] [] = true
all_same same [] (y ∷ ys) = false
all_same same (x ∷ xs) [] = false
all_same same (x ∷ xs) (y ∷ ys) = same x y && all_same same xs ys

-- The test of memicmp2 for two bytes.
unfoldable pub same_byte : Bool → ℕ → ℕ → Bool
unfolding icharcmp
same_byte case_sensitive = if case_sensitive then ◌==◌ else icharcmp

compare_bytes-all_same :
    (same : ℕ → ℕ → Bool) (s1 s2 : Bytes) (n : ℕ)
    → n ≤ length s1
    → n ≤ length s2
    → compare_bytes same s1 s2 n ≡ some (all_same same (take n s1) (take n s2))
unfolding compare_bytes all_same
compare_bytes-all_same same s1 s2 zero h k = refl
compare_bytes-all_same same [] s2 (suc n) h k = absurd (omega arith)
compare_bytes-all_same same (x ∷ s1) [] (suc n) h k = absurd (omega arith)
compare_bytes-all_same same (x ∷ s1) (y ∷ s2) (suc n) h k =
    ground (arith, compare_bytes-all_same same s1 s2 n)

memcmp-all_same :
    (s1 s2 : Bytes) (n : ℕ)
    → n ≤ length s1
    → n ≤ length s2
    → memcmp s1 s2 n ≡ some (all_same ◌==◌ (take n s1) (take n s2))
unfolding memcmp
memcmp-all_same s1 s2 n h k = ground (arith, compare_bytes-all_same ◌==◌ s1 s2 n h k)

memcmp64-block :
    (s1 s2 : Bytes) (n : ℕ)
    → n ≤ length s1
    → n ≤ length s2
    → n ≤ 65536
    → memcmp64 s1 s2 n ≡ some (all_same ◌==◌ (take n s1) (take n s2))
unfolding memcmp64 memcmp64_block memcmp64_loop all_same
memcmp64-block s1 s2 zero h k small = refl
memcmp64-block [] s2 (suc n) h k small = absurd (omega arith)
memcmp64-block (x ∷ s1) s2 (suc n) h k small =
    let done = sub64-eq (suc n) (suc n) (omega arith) (omega arith) in
    ground (arith, memcmp-all_same (x ∷ s1) s2 (suc n) h k)

-- memicmp2 on at most one block.
pub memicmp2-block :
    (s1 s2 : Bytes) (n : ℕ) (case_sensitive : Bool)
    → n ≤ length s1
    → n ≤ length s2
    → n ≤ 65536
    → memicmp2 s1 s2 n case_sensitive
      ≡ some (all_same (same_byte case_sensitive) (take n s1) (take n s2))
unfolding memicmp2 same_byte
memicmp2-block s1 s2 n true h k small = memcmp64-block s1 s2 n h k small
memicmp2-block s1 s2 n false h k small = compare_bytes-all_same icharcmp s1 s2 n h k

all_same_refl : (xs : Bytes) → all_same ◌==◌ xs xs ≡ true
unfolding all_same
all_same_refl [] = refl
all_same_refl (x ∷ xs) = ground (arith, all_same_refl xs)

-- Two memories that go on with bytes of their own behind `xs`, compared up to the end of `xs`.
memcmp_front :
    (xs ys zs : Bytes) (n : ℕ) → n ≤ length xs → memcmp (xs ++ ys) (xs ++ zs) n ≡ some true
memcmp_front xs ys zs n h =
    memcmp-all_same (xs ++ ys) (xs ++ zs) n (omega (arith, length-append xs ys))
      (omega (arith, length-append xs zs))
    ∙ ap some (
        ap₂ (all_same ◌==◌) (take_within n xs ys h) (take_within n xs zs h)
        ∙ all_same_refl (take n xs))

all_same-differ :
    (xs ys zs : Bytes) (y z n : ℕ)
    → length xs < n
    → (y == z) ≡ false
    → all_same ◌==◌ (take n (xs ++ y ∷ ys)) (take n (xs ++ z ∷ zs)) ≡ false
unfolding all_same
all_same-differ xs ys zs y z zero h e = absurd (omega arith)
all_same-differ [] ys zs y z (suc n) h e = rw (e) refl
all_same-differ (x ∷ xs) ys zs y z (suc n) h e =
    ground (arith, all_same-differ xs ys zs y z n (omega arith) e)

-- A comparison that goes behind `xs` sees the first byte there.
memcmp_past :
    (xs ys zs : Bytes) (y z n : ℕ)
    → length xs < n
    → n ≤ length (xs ++ y ∷ ys)
    → n ≤ length (xs ++ z ∷ zs)
    → (y == z) ≡ false
    → memcmp (xs ++ y ∷ ys) (xs ++ z ∷ zs) n ≡ some false
memcmp_past xs ys zs y z n past left right e =
    memcmp-all_same (xs ++ y ∷ ys) (xs ++ z ∷ zs) n left right
    ∙ ap some (all_same-differ xs ys zs y z n past e)

nonzero_length : (xs : Bytes) (k : ℕ) → 0 < k → length xs % k ≢ 0 → 0 < length xs
nonzero_length [] k pos odd = absurd (odd (zero-mod k))
nonzero_length (x ∷ xs) k pos odd = omega arith

memcmp64_block_long : (n : ℕ) → 65536 < n → memcmp64_block n ≡ 65536
unfolding memcmp64_block
memcmp64_block_long n h = ground arith

-- The rounds of memcmp64 over blocks of `k` bytes, when bytes for a whole block stand behind `xs`.
memcmp64_loop-over_read :
    (fuel k : ℕ) (xs ys zs : Bytes) (y z : ℕ)
    → length xs < fuel
    → length xs < u64_mod
    → 0 < k
    → length xs % k ≢ 0
    → k ≤ length (y ∷ ys)
    → k ≤ length (z ∷ zs)
    → (y == z) ≡ false
    → memcmp64_loop fuel k (xs ++ y ∷ ys) (xs ++ z ∷ zs) (length xs) ≡ some false
unfolding memcmp64_loop
memcmp64_loop-over_read zero k xs ys zs y z enough bound pos odd left right e = absurd (omega arith)
memcmp64_loop-over_read (suc fuel) k xs ys zs y z enough bound pos odd left right e =
    elim (lt_or_le (length xs) k) [
      | inl small ↦
          rw
            (
              memcmp_past xs ys zs y z k small (omega (arith, length-append xs (y ∷ ys)))
                  (omega (arith, length-append xs (z ∷ zs))) e,
              memcmp64_loop,
            )
            (ground (arith, nonzero_length xs k pos odd))
      | inr big ↦
          let vs = drop k xs in
          let less : length vs ≡ sub64 (length xs) k =
            length-drop k xs ∙ sym (sub64-eq (length xs) k big bound) in
          let odd' : length vs % k ≢ 0 =
            λ m. odd (mod-eq-sub-mod big ∙ ap (λ l. l % k) (sym (length-drop k xs)) ∙ m) in
          let rest : memcmp64_loop fuel k (vs ++ y ∷ ys) (vs ++ z ∷ zs) (sub64 (length xs) k)
              ≡ some false =
            subst (λ m. memcmp64_loop fuel k (vs ++ y ∷ ys) (vs ++ z ∷ zs) m ≡ some false) less
              (memcmp64_loop-over_read fuel k vs ys zs y z (omega (arith, length-drop k xs))
                (omega (arith, length-drop k xs)) pos odd' left right e) in
          rw
            (
              memcmp_front xs (y ∷ ys) (z ∷ zs) k big,
              memcmp64_loop,
              drop_within k xs (y ∷ ys) big,
              drop_within k xs (z ∷ zs) big,
              rest,
            )
            (ground (arith, nonzero_length xs k pos odd))
    ]

-- Where the length is above 65536, below 2 ^ 64 and no multiple of 65536, memcmp64 tells apart two
-- memories that agree in all bytes of that length, by the first byte behind them, when 65536 more
-- bytes can be read there and the two memories differ in that first byte.
pub memcmp64-over_read :
    (xs ys zs : Bytes) (y z : ℕ)
    → 65536 < length xs
    → length xs < u64_mod
    → length xs % 65536 ≢ 0
    → 65536 ≤ length (y ∷ ys)
    → 65536 ≤ length (z ∷ zs)
    → (y == z) ≡ false
    → memcmp64 (xs ++ y ∷ ys) (xs ++ z ∷ zs) (length xs) ≡ some false
unfolding memcmp64
memcmp64-over_read xs ys zs y z long bound odd left right differ =
    let k = memcmp64_block (length xs) in
    let eq : k ≡ 65536 = memcmp64_block_long (length xs) long in
    memcmp64_loop-over_read (suc (length (xs ++ y ∷ ys))) k xs ys zs y z
      (omega (arith, length-append xs (y ∷ ys))) bound (omega arith)
      (λ e. odd (ap (λ m. length xs % m) (sym eq) ∙ e)) (omega arith) (omega arith) differ
