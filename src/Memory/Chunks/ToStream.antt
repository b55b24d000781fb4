-- ===== src/Memory/Chunks/ToStream.antt =====
-- Memory/mdz_mem_vars/b_chunks.cpp, copyTo2: the bytes of the chunks are handed to a stream.
pub mod Whole
pub mod Handing
use lib_mantids.Common.{
  ℕ, ◌+◌, ◌-◌, true, false, Option, none, some, List, [], ◌∷◌, Bytes, Outcome,
  check_uint_overflow_sum, ltb, ◌==◌, if◌then◌else◌, take, drop,
}
use lib_mantids.Memory.Streams.{StreamOps}
use lib_mantids.Memory.Container.ToStream.{copy_to_so}
use lib_mantids.Memory.Chunk.{Chunk}
use lib_mantids.Memory.Chunk
use lib_mantids.Memory.Chunks.{FsOps, BChunks, size}
use lib_mantids.Memory.Chunks.Search.{reach}

-- The loop over the chunks: the pieces that are to be written.
unfoldable pub cut_chunks : List Chunk → ℕ → ℕ → List Bytes
cut_chunks [] offset left = []
cut_chunks (c ∷ cs) offset left =
    let passed = cut_chunks cs (offset - Chunk.size c) left in
    let current = drop offset c.bytes in
    let k = reach current left in
    let rest = cut_chunks cs 0 (left - k) in
    if ltb (Chunk.size c) offset
    then passed
    else if left - k == 0
    then take k current ∷ []
    else take k current ∷ rest

-- `file_append_to` is appendTo of the file container.
unfoldable pub copy_to2 :
    {F S : Type 0}
    → FsOps F
    → (F → ℕ → ℕ → S → Option (Outcome × S))
    → StreamOps S
    → BChunks F
    → ℕ
    → ℕ
    → S
    → Option (Outcome × S)
copy_to2 fs file_append_to stream b bytes offset s = elim b.mmap_container [
  | some m ↦ file_append_to m bytes offset s
  | none ↦
      let current = size fs b in
      let bytes' = if ltb current (offset + bytes) then current - offset else bytes in
      if bytes == 0
      then some ((true, 0), s)
      else if check_uint_overflow_sum offset bytes
      then some ((false, 0), s)
      else if ltb current offset
      then some ((false, 0), s)
      else elim (copy_to_so stream (cut_chunks b.chunks_vector offset bytes') s 0) [
        | none ↦ none
        | some (n, s') ↦ some ((true, n), s')
      ]
]
