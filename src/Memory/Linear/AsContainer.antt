-- ===== src/Memory/Linear/AsContainer.antt =====
-- B_MEM as a B_Base: the operations of the base read and search the bytes of the memory.
use lib_mantids.Common.{
  ℕ, ◌+◌, ◌-◌, ◌≤◌, ◌<◌, ◌≡◌, sym, ap, ◌∙◌, inl, inr, Bool, true, false, not, some, [], ◌∷◌, arith,
  Bytes, first_index, first_match, report, u64_mod, overflow-none, ◌==◌, if◌then◌else◌, Bool-cases,
  le→ltb-false, lt_or_le, length, take, drop, take_all, drop_all, take-drop-take, length-take,
  length-drop,
}
use lib_mantids.Helpers.Mem.{to_upper, to_lower}
use lib_mantids.Helpers.Mem.Compare.{all_same, same_byte, memicmp2-block}
use lib_mantids.Memory.Container.{Container, to_string, find}
use lib_mantids.Memory.Container.Reading.{slice, IsReadable, to_string-slice}
use lib_mantids.Memory.Container.Searching.{IsSearchable, begins, find-first_match}
use lib_mantids.Memory.Chunks.{FsOps, BChunks}
use lib_mantids.Memory.Chunks.Search.{is_letter}
use lib_mantids.Memory.Chunks.Search.Boundaries.{all_same_lengths}
use lib_mantids.Memory.Chunks.Search.Positions.{wanted, memchr-first_index, first_index_or}
use lib_mantids.Memory.Chunks.AsContainer
use lib_mantids.Memory.Linear.{BMem, find_in, find_char, copy_out2, compare2, mem_ops}

-- The bytes of the container.
abbrev pub view : BMem → Bytes
view m = take m.container_bytes m.linear_mem

-- The memory has the bytes, and they are no more than the block of a comparison.
abbrev pub IsHeld : BMem → Type 0
IsHeld m = (m.container_bytes ≤ length m.linear_mem) × (m.container_bytes ≤ 65536)

size-view : (m : BMem) → IsHeld m → m.container_bytes ≡ length (view m)
size-view m (held, small) = omega (arith, length-take m.container_bytes m.linear_mem)

unfoldable pub mem_stop : ℕ → ℕ → Bool
unfolding wanted
mem_stop c = wanted (not (is_letter c)) c

mem_stop_self : (x : ℕ) → mem_stop x x ≡ true
unfolding mem_stop wanted
mem_stop_self x = ground arith

find_in-first_index :
    (s : Bytes) (c n : ℕ) (case_sensitive : Bool)
    → find_in s c n case_sensitive ≡ first_index (wanted (not case_sensitive) c) (take n s)
unfolding find_in wanted
find_in-first_index s c n true = memchr-first_index s c n
find_in-first_index s c n false =
    rw (memchr-first_index s (to_upper c) n, memchr-first_index s (to_lower c) n)
      (first_index_or (λ x. x == to_upper c) (λ x. x == to_lower c) (take n s))

copies_lem :
    (m : BMem) (bytes offset : ℕ)
    → IsHeld m
    → 0 < bytes
    → offset + bytes ≤ length (view m)
    → copy_out2 m bytes offset ≡ ((true, bytes), take bytes (drop offset (view m)))
unfolding copy_out2
copies_lem m bytes offset h pos le =
    let n = size-view m h in
    rw
      (
        take-drop-take bytes offset m.container_bytes m.linear_mem (omega arith),
        overflow-none offset bytes (omega (arith, h.1)),
        le→ltb-false m.container_bytes (offset + bytes) (omega arith),
        le→ltb-false m.container_bytes offset (omega arith),
        le→ltb-false (m.container_bytes - offset) bytes (omega arith),
      )
      (ground arith)

pub is_zero : (n : ℕ) → (n == 0) ≡ true → n ≡ 0
is_zero n e = ground arith

rest_size :
    (n offset space : ℕ) → offset + space ≡ n → (if space == 0 then n - offset else space) ≡ space
rest_size n offset space e = ground arith

finds_lem :
    (m : BMem) (x offset space : ℕ)
    → IsHeld m
    → offset + space ≡ length (view m)
    → find_char m x offset space true
      ≡ report offset (first_index (mem_stop x) (drop offset (view m)))
unfolding find_char mem_stop first_index
finds_lem m x offset space h whole =
    let n = size-view m h in
    let rest = drop offset (view m) in
    elim (Bool-cases (m.container_bytes == 0)) [
      | inl nothing ↦
          rw (nothing, find_char)
            (sym (
              ap (λ l. report offset (first_index (mem_stop x) l))
                (drop_all offset (view m) (omega (arith, n, is_zero m.container_bytes nothing)))))
      | inr more ↦
          rw
            (
              more,
              find_char,
              overflow-none offset space (omega (arith, h.1)),
              le→ltb-false m.container_bytes (offset + space) (omega arith),
              rest_size m.container_bytes offset space (omega arith),
              find_in-first_index (drop offset m.linear_mem) x space (is_letter x),
            )
            (ap (λ l. report offset (first_index (mem_stop x) l))
              (sym (take-drop-take space offset m.container_bytes m.linear_mem (omega arith))
                ∙ take_all space rest (omega (arith, length-drop offset (view m)))))
    ]

compares_lem :
    (m : BMem) (buf : Bytes) (offset : ℕ)
    → IsHeld m
    → length buf < u64_mod
    → offset < u64_mod
    → compare2 m buf true offset
      ≡ some (all_same (same_byte true) (take (length buf) (drop offset (view m))) buf)
unfolding compare2 all_same
compares_lem m [] offset h hb ho = ground (arith, ho)
compares_lem m (x ∷ xs) offset h hb ho =
    let buf = x ∷ xs in
    let n = size-view m h in
    let standing = take (length buf) (drop offset (view m)) in
    elim (lt_or_le m.container_bytes (offset + length buf)) [
      | inl out ↦
          let differ : all_same (same_byte true) standing buf ≡ false =
            all_same_lengths (same_byte true) standing buf (
              omega (
                arith,
                length-take (length buf) (drop offset (view m)),
                length-drop offset (view m),
              )) in
          rw (differ) (ground arith)
      | inr fits ↦
          rw
            (
              overflow-none offset (length buf) (omega (arith, h.1)),
              le→ltb-false m.container_bytes (offset + length buf) fits,
              take-drop-take (length buf) offset m.container_bytes m.linear_mem fits,
              memicmp2-block (drop offset m.linear_mem) buf (length buf) true
                  (omega (arith, length-drop offset m.linear_mem)) (omega arith)
                  (omega (arith, h.1)),
              take_all (length buf) buf (omega arith),
            )
            (ground arith)
    ]

pub mem-IsReadable : IsReadable mem_ops view IsHeld
unfolding mem_ops
mem-IsReadable = record {
  size_eq = λ m h. size-view m h;
  bounded = λ m h. omega (arith, size-view m h, h.1);
  copies = λ m bytes offset h pos le. copies_lem m bytes offset h pos le;
}

pub mem-IsSearchable : IsSearchable mem_ops view IsHeld mem_stop
unfolding mem_ops
mem-IsSearchable = record {
  size_eq = λ m h. size-view m h;
  bounded = λ m h. omega (arith, size-view m h, h.1);
  stops_at = mem_stop_self;
  finds = λ m x offset space h whole. finds_lem m x offset space h whole;
  compares = λ m buf offset h hb ho. compares_lem m buf offset h hb ho;
}

-- A container over memory of at most 64 KB and a container of chunks that hold the same bytes
-- answer alike: find, with the case of letters, over the whole of the rest, and for a needle of one
-- byte or more that fits there, and toString; when the container of chunks is valid, in memory, and
-- without a chunk above the size of a block.
pub mem-chunks :
    {F : Type 0} (fs : FsOps F) (a : Container BMem) (b : Container (BChunks F)) (needle : Bytes)
    (bytes offset : ℕ)
    → IsHeld a.object
    → AsContainer.IsSound b.object
    → view a.object ≡ AsContainer.view b.object
    → 0 < length needle
    → offset + length needle ≤ length (view a.object)
    → (find mem_ops a needle true offset 0
        ≡ find (AsContainer.chunks_ops fs) b needle true offset 0)
      × (to_string mem_ops a bytes offset ≡ to_string (AsContainer.chunks_ops fs) b bytes offset)
mem-chunks fs a b needle bytes offset held sound same pos fits = (
  find-first_match mem_ops view IsHeld mem_stop mem-IsSearchable a needle offset held pos fits
      ∙ ap (λ xs. some (report offset (first_match (begins needle) (drop offset xs)))) same
      ∙ sym (AsContainer.chunks-find fs b needle offset sound pos (omega (arith, ap length same))),
  to_string-slice mem_ops view IsHeld mem-IsReadable a bytes offset held
      ∙ ap (slice bytes offset) same
      ∙ sym (AsContainer.chunks-to_string fs b bytes offset sound),
)
