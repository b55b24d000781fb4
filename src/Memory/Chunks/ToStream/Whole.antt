-- ===== src/Memory/Chunks/ToStream/Whole.antt =====
-- copyTo2 of B_Chunks inside of the container: it hands on what the loop over the chunks cuts.
use lib_mantids.Common.{
  ℕ, ◌+◌, ◌≤◌, ◌<◌, ◌≡◌, true, Option, some, arith, Outcome, overflow-none, le→ltb-false, length,
}
use lib_mantids.Memory.Streams.{StreamOps}
use lib_mantids.Memory.Container.ToStream.{copy_to_so}
use lib_mantids.Memory.Chunks.{FsOps, BChunks, contents}
use lib_mantids.Memory.Chunks.CopyOut.{IsValid}
use lib_mantids.Memory.Chunks.Search.Boundaries.{size-total}
use lib_mantids.Memory.Chunks.ToStream.{cut_chunks, copy_to2}

module _ {F S : Type 0} (fs : FsOps F) (file_append_to : F → ℕ → ℕ → S → Option (Outcome × S))
    (stream : StreamOps S) where
  pub copy_to2-eq :
      (b : BChunks F) (n offset k : ℕ) (s after : S)
      → IsValid b
      → offset + n ≤ length (contents b.chunks_vector)
      → 0 < n
      → copy_to_so stream (cut_chunks b.chunks_vector offset n) s 0 ≡ some (k, after)
      → copy_to2 fs file_append_to stream b n offset s ≡ some ((true, k), after)
  unfolding copy_to2
  copy_to2-eq b n offset k s after v fits pos sent =
      let bound = v.bounded in
      let counted = v.counted in
      rw
        (
          v.in_memory,
          copy_to2,
          size-total fs b v,
          le→ltb-false (length (contents b.chunks_vector)) (offset + n) fits,
          overflow-none offset n (omega arith),
          le→ltb-false (length (contents b.chunks_vector)) offset (omega arith),
          sent,
        )
        (ground arith)
