-- ===== src/Memory/Container/ToStream.antt =====
-- Memory/mdz_mem_vars/b_base.cpp: the bytes of a container are handed to a stream.
pub mod Whole
use lib_mantids.Common.{
  ℕ, ◌+◌, ◌-◌, Bool, true, false, not, ◌||◌, Option, none, some, List, [], ◌∷◌, Bytes, Outcome,
  u64_max, add64, check_uint_overflow_sum, ltb, ◌==◌, if◌then◌else◌, length,
}
use lib_mantids.Memory.Streams.{StreamOps, write_full_stream}
use lib_mantids.Memory.Container.{ContainerOps, Container, asked}

module _ {C : Type 0} (ops : ContainerOps C) where
  -- appendTo; `copy_to2` is the virtual copyTo2 into an object whose state is an `S`, and none is a
  -- stream that does not return.
  unfoldable pub append_to :
      {S : Type 0}
      → (C → ℕ → ℕ → S → Option (Outcome × S))
      → Container C
      → ℕ
      → ℕ
      → S
      → Option (Outcome × S)
  append_to copy_to2 b bytes offset s =
      let current = ops.size b.object in
      elim (asked ops b bytes offset) [
        | none ↦ some ((false, 0), s)
        | some n ↦
            if check_uint_overflow_sum offset n
            then some ((false, 0), s)
            else if n == 0
            then some ((true, 0), s)
            else if ltb current offset
            then some ((false, 0), s)
            else if ltb current (offset + n)
            then copy_to2 b.object (current - offset) offset s
            else copy_to2 b.object n offset s
      ]

-- What a caller returns after a call of writeEOF.
abbrev pub answer : {S : Type 0} → Bool → Option S → Option (Bool × S)
answer b none = none
answer b (some s) = some (b, s)

-- streamTo; `write_eof` is the virtual writeEOF of the stream.
unfoldable pub stream_to :
    {C S : Type 0}
    → ContainerOps C
    → (C → ℕ → ℕ → S → Option (Outcome × S))
    → (Bool → S → Option S)
    → Container C
    → S
    → Option (Bool × S)
stream_to ops copy_to2 write_eof b s = elim (append_to ops copy_to2 b u64_max 0 s) [
  | none ↦ none
  | some ((succeed, n), s') ↦ answer succeed (write_eof succeed s')
]

-- copyToSOUsingCleanVector: the pieces are written one after the other, and the bytes counted.
unfoldable pub copy_to_so : {S : Type 0} → StreamOps S → List Bytes → S → ℕ → Option (ℕ × S)
copy_to_so stream [] s acum = some (acum, s)
copy_to_so stream (piece ∷ pieces) s acum = elim (write_full_stream stream piece s) [
  | none ↦ none
  | some (cur, s') ↦
      let acum' = add64 acum cur.bytes_written in
      let rest = copy_to_so stream pieces s' acum' in
      if not cur.succeed || (not (cur.bytes_written == length piece) || cur.finish)
      then some (acum', s')
      else rest
]
