-- ===== src/Memory/Chunks/Search/Positions.antt =====
-- findChar: the position of the first byte that matches, whatever the chunks.
use lib_mantids.Common.{
  ℕ, zero, suc, ◌+◌, ◌-◌, ◌≤◌, ◌<◌, ◌≡◌, refl, ap, ◌∙◌, inl, inr, Bool, true, false, ◌&&◌, ◌||◌,
  Option, none, some, List, [], ◌∷◌, ◌++◌, arith, Bytes, Outcome, first_index, report,
  overflow-none, ◌==◌, if◌then◌else◌, le→ltb-false, lt→ltb, lt_or_le, length, take, drop, take_all,
  drop_past, drop_within, take_within, take_past, take_nil, drop_nil, length-drop,
}
use lib_mantids.Helpers.Mem.{memchr, to_upper, to_lower}
use lib_mantids.Memory.Chunk.{Chunk}
use lib_mantids.Memory.Chunks.{FsOps, BChunks, contents}
use lib_mantids.Memory.Chunks.CopyOut.{IsValid}
use lib_mantids.Memory.Chunks.Search.{
  nearest, find_in, find_piece, find_char_chunks, is_letter, find_char,
}
use lib_mantids.Memory.Chunks.Search.Boundaries.{size-total, reach_short, reach_long}

-- The bytes that findChar stops at.
unfoldable pub wanted : Bool → ℕ → ℕ → Bool
wanted case_sensitive c x = if case_sensitive then x == to_upper c || x == to_lower c else x == c

pub memchr-first_index : (s : Bytes) (c n : ℕ) → memchr s c n ≡ first_index (λ x. x == c) (take n s)
unfolding memchr first_index
memchr-first_index s c zero = refl
memchr-first_index [] c (suc n) = refl
memchr-first_index (x ∷ s) c (suc n) = ground (arith, memchr-first_index s c n)

pub first_index_or :
    (f g : ℕ → Bool) (xs : Bytes)
    → nearest (first_index f xs) (first_index g xs) ≡ first_index (λ x. f x || g x) xs
unfolding first_index nearest
first_index_or f g [] = refl
first_index_or f g (x ∷ xs) = ground (arith, first_index_or f g xs)

find_in-first_index :
    (s : Bytes) (c n : ℕ) (case_sensitive : Bool)
    → find_in s c n case_sensitive ≡ first_index (wanted case_sensitive c) (take n s)
unfolding find_in wanted
find_in-first_index s c n false = memchr-first_index s c n
find_in-first_index s c n true =
    rw (memchr-first_index s (to_upper c) n, memchr-first_index s (to_lower c) n)
      (first_index_or (λ x. x == to_upper c) (λ x. x == to_lower c) (take n s))

abbrev or_later : ℕ → Option ℕ → Option ℕ → Option ℕ
or_later k (some i) o = some i
or_later k none none = none
or_later k none (some i) = some (k + i)

first_index-append :
    (test : ℕ → Bool) (xs ys : Bytes)
    → first_index test (xs ++ ys) ≡ or_later (length xs) (first_index test xs) (first_index test ys)
unfolding first_index
first_index-append test [] ys = ground arith
first_index-append test (x ∷ xs) ys = ground (arith, first_index-append test xs ys)

report_later :
    (position k : ℕ) (o o' : Option ℕ)
    → report position (or_later k o o')
      ≡ elim o [ some i ↦ (true, position + i) | none ↦ report (position + k) o' ]
report_later position k (some i) o' = refl
report_later position k none none = refl
report_later position k none (some i) = ap (λ n. (true, n)) (omega arith)

report_cases :
    (position : ℕ) (o : Option ℕ)
    → elim o [ some pos ↦ (true, position + pos) | none ↦ (false, 0) ] ≡ report position o
report_cases position none = refl
report_cases position (some i) = refl

rest_cases :
    (position : ℕ) (o : Option ℕ) {a b : Outcome}
    → a ≡ b
    → elim o [ some pos ↦ (true, position + pos) | none ↦ a ]
      ≡ elim o [ some pos ↦ (true, position + pos) | none ↦ b ]
rest_cases position none e = e
rest_cases position (some i) e = refl

report_place : (p q : ℕ) (o : Option ℕ) → p ≡ q → report p o ≡ report q o
report_place p q o e = ap (λ n. report n o) e

-- The round on a piece, before bytes in which the rounds to come search right.
find_piece-report :
    (current xs : Bytes) (c space : ℕ) (case_sensitive : Bool) (position : ℕ) (rest : Outcome)
    → let test = wanted case_sensitive c in
      (length current < space
        → rest
          ≡ report
              (position + length current)
              (first_index test (take (space - length current) xs)))
      → find_piece current c space case_sensitive position rest
        ≡ report position (first_index test (take space (current ++ xs)))
unfolding find_piece
find_piece-report current xs c space case_sensitive position rest right =
    let k = length current in
    let test = wanted case_sensitive c in
    elim (lt_or_le k space) [
      | inl short ↦
          rw
            (
              reach_short current space short,
              find_piece,
              find_in-first_index current c k case_sensitive,
              take_all k current (omega arith),
              take_past space current xs (omega arith),
              first_index-append test current (take (space - k) xs),
              report_later position k (first_index test current)
                  (first_index test (take (space - k) xs)),
            )
            (rest_cases position (first_index test current)
              (rw (lt→ltb k space short) (right short)))
      | inr long ↦
          rw
            (
              reach_long current space long,
              find_piece,
              find_in-first_index current c space case_sensitive,
              take_within space current xs long,
            )
            (rest_cases position (first_index test (take space current))
                (rw (le→ltb-false k space long))
              ∙ report_cases position (first_index test (take space current)))
    ]

find_char_chunks-start :
    (cs : List Chunk) (c space : ℕ) (case_sensitive : Bool) (retpos : ℕ)
    → find_char_chunks cs c 0 space case_sensitive retpos
      ≡ report retpos (first_index (wanted case_sensitive c) (take space (contents cs)))
unfolding find_char_chunks first_index
find_char_chunks-start [] c space case_sensitive retpos = rw (take_nil space)
find_char_chunks-start (x ∷ xs) c space case_sensitive retpos =
    let k = length x.bytes in
    let test = wanted case_sensitive c in
    rw (le→ltb-false k 0 (omega arith)) (
      find_piece-report x.bytes (contents xs) c space case_sensitive (0 + retpos) _ (λ short.
        find_char_chunks-start xs c (space - k) case_sensitive (retpos + k)
        ∙ report_place (retpos + k) ((0 + retpos) + k) _ (omega arith))
      ∙ report_place (0 + retpos) retpos _ (omega arith))

-- The loop from an offset on.
find_char_chunks-from :
    (cs : List Chunk) (c offset space : ℕ) (case_sensitive : Bool) (retpos : ℕ)
    → find_char_chunks cs c offset space case_sensitive retpos
      ≡ report
          (offset + retpos)
          (first_index (wanted case_sensitive c) (take space (drop offset (contents cs))))
unfolding find_char_chunks first_index
find_char_chunks-from [] c offset space case_sensitive retpos = rw (drop_nil offset, take_nil space)
find_char_chunks-from (x ∷ xs) c offset space case_sensitive retpos =
    let k = length x.bytes in
    let current = drop offset x.bytes in
    elim (lt_or_le k offset) [
      | inl past ↦
          rw (lt→ltb k offset past, drop_past offset x.bytes (contents xs) (omega arith))
            (find_char_chunks-from xs c (offset - k) space case_sensitive (retpos + k)
              ∙ report_place ((offset - k) + (retpos + k)) (offset + retpos) _ (omega arith))
      | inr within ↦
          rw (le→ltb-false k offset within, drop_within offset x.bytes (contents xs) within)
            (find_piece-report current (contents xs) c space case_sensitive (offset + retpos) _
              (λ short.
                find_char_chunks-start xs c (space - length current) case_sensitive (retpos + k)
                ∙ report_place (retpos + k) ((offset + retpos) + length current) _
                    (omega (arith, length-drop offset x.bytes))))
    ]

-- findChar reports the first byte that matches, whatever the chunks.
pub find_char-first_index :
    {F : Type 0} (fs : FsOps F) (b : BChunks F) (c offset space : ℕ) (case_sensitive : Bool)
    → IsValid b
    → offset + space ≤ length (contents b.chunks_vector)
    → find_char fs b c offset space case_sensitive
      ≡ report offset (
          first_index
            (wanted (case_sensitive && is_letter c) c)
            (take space (drop offset (contents b.chunks_vector))))
unfolding find_char
find_char-first_index fs b c offset space case_sensitive v fits =
    rw
      (
        v.in_memory,
        find_char,
        size-total fs b v,
        overflow-none offset space (omega (arith, v.counted, v.bounded)),
        le→ltb-false (length (contents b.chunks_vector)) offset (omega arith),
        le→ltb-false (length (contents b.chunks_vector)) (offset + space) (omega arith),
      )
      (find_char_chunks-from b.chunks_vector c offset space (case_sensitive && is_letter c) 0
        ∙ report_place (offset + 0) offset _ (omega arith))
