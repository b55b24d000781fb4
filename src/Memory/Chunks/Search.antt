-- ===== src/Memory/Chunks/Search.antt =====
-- Memory/mdz_mem_vars/b_chunks.cpp, compare2 and findChar: what stands at an offset of the chunks, and
-- the position of a character.
pub mod Boundaries
pub mod Positions
use lib_mantids.Common.{
  ℕ, ◌+◌, ◌-◌, Bool, true, false, not, ◌&&◌, ◌||◌, Option, none, some, List, [], ◌∷◌, is_between,
  Bytes, Outcome, u64_max, check_uint_overflow_sum, ltb, leb, ◌==◌, if◌then◌else◌, length, drop,
}
use lib_mantids.Helpers.Mem.{memicmp2, memchr, to_upper, to_lower}
use lib_mantids.Memory.Chunk.{Chunk}
use lib_mantids.Memory.Chunk
use lib_mantids.Memory.Chunks.{FsOps, BChunks, size}

-- The bytes of a piece that `left` bytes reach: left>size?size:left
unfoldable pub reach : Bytes → ℕ → ℕ
reach current left = if ltb (length current) left then length current else left

-- One piece of the text: `rest` is what the next rounds return.
unfoldable pub compare_piece : Bytes → Bytes → ℕ → Bool → Option Bool → Option Bool
unfolding reach
compare_piece current buf left case_sensitive rest =
    let k = reach current left in
    elim (memicmp2 current buf k case_sensitive) [
      | none ↦ none
      | some equal ↦ if not equal then some false else if left - k == 0 then some true else rest
    ]

-- The loop of compare2: `left` is dataToCompare, and `buf` what is left of the text. none is a read
-- past the end of `buf` or of a chunk.
unfoldable pub compare_chunks : List Chunk → Bytes → ℕ → Bool → ℕ → Option Bool
unfolding compare_piece reach
compare_chunks [] buf left case_sensitive offset = some (left == 0)
compare_chunks (c ∷ cs) buf left case_sensitive offset =
    let passed = compare_chunks cs buf left case_sensitive (offset - Chunk.size c) in
    let current = drop offset c.bytes in
    let k = reach current left in
    let rest = compare_chunks cs (drop k buf) (left - k) case_sensitive 0 in
    if ltb (Chunk.size c) offset then passed else compare_piece current buf left case_sensitive rest

-- The nearer of the positions of an upper-case and a lower-case letter.
unfoldable pub nearest : Option ℕ → Option ℕ → Option ℕ
nearest none lower = lower
nearest (some upper) none = some upper
nearest (some upper) (some lower) = if leb upper lower then some upper else some lower

-- The search in one piece of memory.
unfoldable pub find_in : Bytes → ℕ → ℕ → Bool → Option ℕ
unfolding nearest
find_in current c n case_sensitive =
    if not case_sensitive
    then memchr current c n
    else nearest (memchr current (to_upper c) n) (memchr current (to_lower c) n)

-- One piece of the search: `rest` is what the next rounds return.
unfoldable pub find_piece : Bytes → ℕ → ℕ → Bool → ℕ → Outcome → Outcome
unfolding find_in reach
find_piece current c space case_sensitive position rest =
    elim (find_in current c (reach current space) case_sensitive) [
      | some pos ↦ (true, position + pos)
      | none ↦ if ltb (length current) space then rest else (false, 0)
    ]

-- The loop of findChar.
unfoldable pub find_char_chunks : List Chunk → ℕ → ℕ → ℕ → Bool → ℕ → Outcome
unfolding find_piece
find_char_chunks [] c offset space case_sensitive retpos = (false, 0)
find_char_chunks (x ∷ xs) c offset space case_sensitive retpos =
    let passed =
      find_char_chunks xs c (offset - Chunk.size x) space case_sensitive (retpos + Chunk.size x) in
    let current = drop offset x.bytes in
    let rest =
      find_char_chunks xs c 0 (space - length current) case_sensitive (retpos + Chunk.size x) in
    if ltb (Chunk.size x) offset
    then passed
    else find_piece current c space case_sensitive (offset + retpos) rest

abbrev pub is_letter : ℕ → Bool
is_letter c = is_between 65 90 c || is_between 97 122 c

module _ {F : Type 0} (fs : FsOps F) where
  unfoldable pub compare2 : BChunks F → Bytes → Bool → ℕ → Option Bool
  unfolding compare_chunks
  compare2 b buf case_sensitive offset = elim b.mmap_container [
    | some m ↦ fs.compare m buf case_sensitive offset
    | none ↦
        if check_uint_overflow_sum offset (length buf)
        then some false
        else if length buf == 0
        then some true
        else if ltb (size fs b) (offset + length buf)
        then some false
        else compare_chunks b.chunks_vector buf (length buf) case_sensitive offset
  ]

  unfoldable pub find_char : BChunks F → ℕ → ℕ → ℕ → Bool → Outcome
  unfolding find_char_chunks
  find_char b c offset space case_sensitive = elim b.mmap_container [
    | some m ↦ fs.find_char m c offset
    | none ↦
        if check_uint_overflow_sum offset space
        then (false, u64_max)
        else if ltb (size fs b) offset || ltb (size fs b) (offset + space)
        then (false, u64_max)
        else find_char_chunks b.chunks_vector c offset space (case_sensitive && is_letter c) 0
  ]
