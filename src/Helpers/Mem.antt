-- ===== src/Helpers/Mem.antt =====
-- Helpers/mdz_hlp_functions/mem.cpp: comparisons of memory, with and without the case of letters. A
-- pointer is the list of the bytes that may be read from it on; none is a read past their end.
pub mod Compare
use lib_mantids.Common.{
  ℕ, zero, suc, ◌+◌, ◌-◌, Bool, true, false, ◌||◌, Option, none, some, [], ◌∷◌, ◌++◌, is_between,
  Bytes, sub64, ltb, ◌==◌, if◌then◌else◌, length, get_or, drop,
}

range : ℕ → ℕ → Bytes
range first zero = []
range first (suc count) = first ∷ range (first + 1) count

-- cmpMatrix: at each byte, the lower-case letter of an upper-case one, and else the byte.
unfoldable pub cmp_matrix : Bytes
unfolding range
cmp_matrix = range 0 65 ++ range 97 26 ++ range 91 6 ++ range 97 26 ++ range 123 133

unfoldable pub icharcmp : ℕ → ℕ → Bool
unfolding cmp_matrix
icharcmp c1 c2 = get_or cmp_matrix c1 0 == get_or cmp_matrix c2 0

-- The first `n` bytes, byte by byte: whether the test holds for all of them.
unfoldable pub compare_bytes : (ℕ → ℕ → Bool) → Bytes → Bytes → ℕ → Option Bool
compare_bytes same s1 s2 zero = some true
compare_bytes same [] s2 (suc n) = none
compare_bytes same (x ∷ s1) [] (suc n) = none
compare_bytes same (x ∷ s1) (y ∷ s2) (suc n) =
    let rest = compare_bytes same s1 s2 n in if same x y then rest else some false

-- memcmp of <string.h>: whether it returns 0. It may read all of its `n` bytes.
unfoldable pub memcmp : Bytes → Bytes → ℕ → Option Bool
unfolding compare_bytes
memcmp s1 s2 n = if ltb (length s1) n || ltb (length s2) n then none else compare_bytes ◌==◌ s1 s2 n

-- The loop of memcmp64. The size of a block is set once, and a round takes that size from `n`, in
-- 64 bits. Each round goes past a byte of `s1`, so one round more than its bytes is fuel enough.
unfoldable pub memcmp64_loop : ℕ → ℕ → Bytes → Bytes → ℕ → Option Bool
unfolding memcmp
memcmp64_loop zero cur_block s1 s2 n = none
memcmp64_loop (suc fuel) cur_block s1 s2 n =
    let rest =
      memcmp64_loop fuel cur_block (drop cur_block s1) (drop cur_block s2) (sub64 n cur_block) in
    if n == 0 then some true else elim (memcmp s1 s2 cur_block) [
      | none ↦ none
      | some equal ↦ if equal then rest else some false
    ]

-- The size of a block: n>64*KB_MULT?64*KB_MULT:n
unfoldable pub memcmp64_block : ℕ → ℕ
memcmp64_block n = if ltb 65536 n then 65536 else n

-- Whether memcmp64 returns 0.
unfoldable pub memcmp64 : Bytes → Bytes → ℕ → Option Bool
unfolding memcmp64_loop memcmp64_block
memcmp64 s1 s2 n = memcmp64_loop (suc (length s1)) (memcmp64_block n) s1 s2 n

-- Whether memicmp2 returns 0.
unfoldable pub memicmp2 : Bytes → Bytes → ℕ → Bool → Option Bool
unfolding memcmp64 compare_bytes icharcmp
memicmp2 s1 s2 n case_sensitive =
    if case_sensitive then memcmp64 s1 s2 n else compare_bytes icharcmp s1 s2 n

-- memchr of <string.h>: the index of the first of the `n` bytes that is `c`.
unfoldable pub memchr : Bytes → ℕ → ℕ → Option ℕ
memchr s c zero = none
memchr [] c (suc n) = none
memchr (x ∷ s) c (suc n) =
    let rest = memchr s c n in
    if x == c then some 0 else elim rest [ none ↦ none | some i ↦ some (suc i) ]

-- std::toupper and std::tolower in the C locale.
abbrev pub to_upper : ℕ → ℕ
to_upper c = if is_between 97 122 c then c - 32 else c

abbrev pub to_lower : ℕ → ℕ
to_lower c = if is_between 65 90 c then c + 32 else c
