-- ===== src/Memory/Chunks/Search/Boundaries.antt =====
-- compare2: the boundaries of the chunks do not matter.
use lib_mantids.Common.{
  ℕ, ◌+◌, ◌-◌, ◌≤◌, ◌<◌, ◌≡◌, refl, sym, ap, ◌∙◌, inl, inr, Bool, false, ◌&&◌, Option, some, List,
  [], ◌∷◌, ◌++◌, arith, Bytes, u64_mod, overflow-none, le→ltb-false, lt→ltb, lt_or_le, length, take,
  drop, take_all, drop_past, drop_within, take_within, take_past, length-append, length-take,
  length-drop,
}
use lib_mantids.Helpers.Mem.Compare.{all_same, same_byte, memicmp2-block}
use lib_mantids.Memory.Chunk.{Chunk}
use lib_mantids.Memory.Chunks.{FsOps, BChunks, contents, size}
use lib_mantids.Memory.Chunks.CopyOut.{IsValid}
use lib_mantids.Memory.Chunks.Search.{reach, compare_piece, compare_chunks, compare2}

-- No chunk is larger than one block of memcmp64.
abbrev pub AllSmall : List Chunk → Type 0
AllSmall [] = Unit {0}
AllSmall (c ∷ cs) = (length c.bytes ≤ 65536) × AllSmall cs

all_same-append :
    (same : ℕ → ℕ → Bool) (xs ys buf : Bytes)
    → length xs ≤ length buf
    → all_same same (xs ++ ys) buf
      ≡ all_same same xs (take (length xs) buf) && all_same same ys (drop (length xs) buf)
unfolding all_same
all_same-append same [] ys buf h = refl
all_same-append same (x ∷ xs) ys [] h = absurd (omega arith)
all_same-append same (x ∷ xs) ys (y ∷ buf) h = ground (arith, all_same-append same xs ys buf)

pub reach_short :
    (current : Bytes) (left : ℕ) → length current < left → reach current left ≡ length current
unfolding reach
reach_short current left h = ground arith

pub reach_long : (current : Bytes) (left : ℕ) → left ≤ length current → reach current left ≡ left
unfolding reach
reach_long current left h = ground arith

-- A piece that the text goes past, where the rounds to come compare what is left of it.
compare_piece-short :
    (current xs buf : Bytes) (case_sensitive : Bool) (rest : Option Bool)
    → let same = all_same (same_byte case_sensitive) in
      let k = length current in
      k ≤ 65536
      → k < length buf
      → rest ≡ some (same (take (length buf - k) xs) (drop k buf))
      → compare_piece current buf (length buf) case_sensitive rest
        ≡ some (same (take (length buf) (current ++ xs)) buf)
unfolding compare_piece
compare_piece-short current xs buf case_sensitive rest small short e =
    let k = length current in
    let same = all_same (same_byte case_sensitive) in
    rw
      (
        reach_short current (length buf) short,
        compare_piece,
        memicmp2-block current buf k case_sensitive (omega arith) (omega arith) small,
        take_all k current (omega arith),
        e,
        take_past (length buf) current xs (omega arith),
        all_same-append (same_byte case_sensitive) current (take (length buf - k) xs) buf
            (omega arith),
      )
      (ground arith)

compare_piece-long :
    (current xs buf : Bytes) (case_sensitive : Bool) (rest : Option Bool)
    → length current ≤ 65536
    → length buf ≤ length current
    → compare_piece current buf (length buf) case_sensitive rest
      ≡ some (all_same (same_byte case_sensitive) (take (length buf) (current ++ xs)) buf)
unfolding compare_piece
compare_piece-long current xs buf case_sensitive rest small long =
    rw
      (
        reach_long current (length buf) long,
        compare_piece,
        memicmp2-block current buf (length buf) case_sensitive long (omega arith) (omega arith),
        take_all (length buf) buf (omega arith),
        take_within (length buf) current xs long,
      )
      (ground arith)

-- The round on a piece, before chunks on which the loop is right.
compare_piece-chunks :
    (current : Bytes) (cs : List Chunk) (buf : Bytes) (case_sensitive : Bool)
    → let same = all_same (same_byte case_sensitive) in
      ((left : Bytes)
        → 0 < length left
        → length left ≤ length (contents cs)
        → compare_chunks cs left (length left) case_sensitive 0
          ≡ some (same (take (length left) (contents cs)) left))
      → length current ≤ 65536
      → length buf ≤ length current + length (contents cs)
      → let k = reach current (length buf) in
        compare_piece current buf
          (length buf)
          case_sensitive
          (compare_chunks cs (drop k buf) (length buf - k) case_sensitive 0)
        ≡ some (same (take (length buf) (current ++ contents cs)) buf)
compare_piece-chunks current cs buf case_sensitive right small fits =
    let k = length current in
    let left = drop k buf in
    elim (lt_or_le k (length buf)) [
      | inr long ↦ compare_piece-long current (contents cs) buf case_sensitive _ small long
      | inl short ↦
          let measured : length buf - k ≡ length left = sym (length-drop k buf) in
          compare_piece-short current (contents cs) buf case_sensitive _ small short (
            ap (λ j. compare_chunks cs (drop j buf) (length buf - j) case_sensitive 0)
              (reach_short current (length buf) short)
            ∙ ap (λ m. compare_chunks cs left m case_sensitive 0) measured
            ∙ right left (omega arith) (omega arith)
            ∙ ap (λ m. some (all_same (same_byte case_sensitive) (take m (contents cs)) left))
                (sym measured))
    ]

-- The loop from the first chunk on, where the text fits in the chunks.
compare_chunks-start :
    (cs : List Chunk) (case_sensitive : Bool) (buf : Bytes)
    → AllSmall cs
    → 0 < length buf
    → length buf ≤ length (contents cs)
    → compare_chunks cs buf (length buf) case_sensitive 0
      ≡ some (all_same (same_byte case_sensitive) (take (length buf) (contents cs)) buf)
unfolding compare_chunks
compare_chunks-start [] case_sensitive buf small pos fits = absurd (omega arith)
compare_chunks-start (c ∷ cs) case_sensitive buf (here, small) pos fits =
    rw (le→ltb-false (length c.bytes) 0 (omega arith)) (
      compare_piece-chunks c.bytes cs buf case_sensitive
        (λ left p q. compare_chunks-start cs case_sensitive left small p q) here
        (omega (arith, length-append c.bytes (contents cs))))

-- The loop from an offset on.
compare_chunks-from :
    (cs : List Chunk) (buf : Bytes) (case_sensitive : Bool) (offset : ℕ)
    → AllSmall cs
    → 0 < length buf
    → offset + length buf ≤ length (contents cs)
    → compare_chunks cs buf (length buf) case_sensitive offset
      ≡ some
          (all_same (same_byte case_sensitive) (take (length buf) (drop offset (contents cs))) buf)
unfolding compare_chunks
compare_chunks-from [] buf case_sensitive offset small pos fits = absurd (omega arith)
compare_chunks-from (c ∷ cs) buf case_sensitive offset (here, small) pos fits =
    let current = drop offset c.bytes in
    elim (lt_or_le (length c.bytes) offset) [
      | inl past ↦
          rw
            (
              lt→ltb (length c.bytes) offset past,
              drop_past offset c.bytes (contents cs) (omega arith),
            )
            (compare_chunks-from cs buf case_sensitive (offset - length c.bytes) small pos
              (omega (arith, length-append c.bytes (contents cs))))
      | inr within ↦
          rw
            (
              le→ltb-false (length c.bytes) offset within,
              drop_within offset c.bytes (contents cs) within,
            )
            (compare_piece-chunks current cs buf case_sensitive
              (λ left p q. compare_chunks-start cs case_sensitive left small p q)
              (omega (arith, length-drop offset c.bytes))
              (omega (arith, length-append c.bytes (contents cs), length-drop offset c.bytes)))
    ]

pub all_same_lengths :
    (same : ℕ → ℕ → Bool) (xs ys : Bytes) → length xs < length ys → all_same same xs ys ≡ false
unfolding all_same
all_same_lengths same xs [] h = absurd (omega arith)
all_same_lengths same [] (y ∷ ys) h = refl
all_same_lengths same (x ∷ xs) (y ∷ ys) h = ground (arith, all_same_lengths same xs ys)

pub size-total :
    {F : Type 0} (fs : FsOps F) (b : BChunks F)
    → IsValid b
    → size fs b ≡ length (contents b.chunks_vector)
unfolding size
size-total fs b v = rw (v.in_memory, size) v.counted

-- compare2 answers whether the text stands at the offset, whatever the chunks.
pub compare2-all_same :
    {F : Type 0} (fs : FsOps F) (b : BChunks F) (buf : Bytes) (case_sensitive : Bool) (offset : ℕ)
    → IsValid b
    → AllSmall b.chunks_vector
    → length buf < u64_mod
    → offset < u64_mod
    → compare2 fs b buf case_sensitive offset
      ≡ some (
          all_same
            (same_byte case_sensitive)
            (take (length buf) (drop offset (contents b.chunks_vector)))
            buf)
unfolding compare2 all_same
compare2-all_same fs b [] case_sensitive offset v small hb ho =
    rw (v.in_memory, compare2) (ground (arith, ho))
compare2-all_same fs b (x ∷ xs) case_sensitive offset v small hb ho =
    let buf = x ∷ xs in
    let standing = take (length buf) (drop offset (contents b.chunks_vector)) in
    let same = all_same (same_byte case_sensitive) in
    elim (lt_or_le (length (contents b.chunks_vector)) (offset + length buf)) [
      | inl out ↦
          let differ : same standing buf ≡ false =
            all_same_lengths (same_byte case_sensitive) standing buf (
              omega (
                arith,
                length-take (length buf) (drop offset (contents b.chunks_vector)),
                length-drop offset (contents b.chunks_vector),
              )) in
          rw (v.in_memory, compare2, size-total fs b v, differ) (ground arith)
      | inr fits ↦
          let found =
            compare_chunks-from b.chunks_vector buf case_sensitive offset small (omega arith)
              fits in
          rw
            (
              v.in_memory,
              compare2,
              size-total fs b v,
              overflow-none offset (length buf) (omega (arith, v.counted, v.bounded)),
              found,
            )
            (ground arith)
    ]
