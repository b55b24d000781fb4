-- ===== src/Tests/Containers.antt =====
-- Memory/mdz_mem_vars: the chunked container on concrete bytes.
use lib_mantids.Common.{
  ℕ, ◌≡◌, refl, true, false, List, [], ◌∷◌, ◌++◌, none, some, arith, length, take, drop, Bytes,
}
use lib_mantids.Memory.Chunk.{Chunk}
use lib_mantids.Memory.Chunks.{
  FsOps, BChunks, contents, append2, displace2, truncate2, copy_out2, get_pos_for_offset,
}
use lib_mantids.Memory.Chunks
use lib_mantids.Memory.Chunks.Offsets.{total}
use lib_mantids.Memory.Chunks.CopyOut.{IsValid, copy_out2-eq-take}
use lib_mantids.Memory.Chunks.Append.{Appends, append2-Appends}
use lib_mantids.Memory.Chunks.Displace.{displace2-contents}
use lib_mantids.Memory.Chunks.Stale.{copy_out2-displace2_stale}
use lib_mantids.Memory.Chunks.Truncate.{truncate2-take}
use lib_mantids.Memory.Chunks.Prepend.{prepend_two_chunks}

-- A file that never fails, as the list of its bytes.
abbrev plain_file : FsOps Bytes
plain_file = record {
  copy_to_fs = λ buf. some buf;
  size = λ m. length m;
  append = λ m buf. (m ++ buf, (true, length buf));
  prepend = λ m buf. (buf ++ m, (true, length buf));
  truncate = λ m n. (take n m, (true, n));
  displace = λ m n. (drop n m, (true, n));
  copy_out = λ m n offset. ((true, n), take n (drop offset m));
  compare = λ m buf case offset. some false;
  find_char = λ m c offset. (false, 0);
}

abbrev chunk : Bytes → ℕ → Chunk
chunk bytes offset = record { bytes = bytes; offset = offset }

abbrev holding : List Chunk → BChunks Bytes
holding cs = record {
  chunks_vector = cs;
  container_bytes = length (contents cs);
  max_chunks = 4;
  max_chunk_size = 4;
  max_container_size_until_going_to_fs = 0;
  mmap_container = none;
}

abbrev two : List Chunk
two = chunk (1 ∷ 2 ∷ 3 ∷ 4 ∷ []) 0 ∷ chunk (5 ∷ 6 ∷ []) 4 ∷ []

abbrev three : List Chunk
three = chunk (1 ∷ 2 ∷ []) 0 ∷ chunk (3 ∷ 4 ∷ []) 2 ∷ chunk (5 ∷ 6 ∷ []) 4 ∷ []

two-IsValid : IsValid (holding two)
two-IsValid = record {
  offsets = omega arith;
  counted = refl;
  bounded = omega arith;
  in_memory = refl;
}

three-IsValid : IsValid (holding three)
three-IsValid = record {
  offsets = omega arith;
  counted = refl;
  bounded = omega arith;
  in_memory = refl;
}

append_runs : (append2 plain_file Chunks.new (1 ∷ 2 ∷ []) false).1 ≡ (true, 2)
unfolding append2 Chunks.append_chunks Chunks.new
append_runs = refl

copy_out2-eq-take_example : copy_out2 plain_file (holding two) 3 2 ≡ ((true, 3), 3 ∷ 4 ∷ 5 ∷ [])
copy_out2-eq-take_example =
    copy_out2-eq-take plain_file (holding two) 3 2 two-IsValid (omega arith) (omega arith)

append2-Appends_example :
    Appends 2 (holding two) (7 ∷ 8 ∷ []) 0 (append2 plain_file (holding two) (7 ∷ 8 ∷ []) false)
append2-Appends_example =
    append2-Appends plain_file (holding two) (7 ∷ 8 ∷ []) two-IsValid refl (omega arith)

displace2-contents_example :
    (contents (displace2 plain_file (holding two) 3).0.chunks_vector ≡ 4 ∷ 5 ∷ 6 ∷ [])
    × ((displace2 plain_file (holding two) 3).0.container_bytes
        ≡ total (displace2 plain_file (holding two) 3).0.chunks_vector)
    × ((displace2 plain_file (holding two) 3).1 ≡ (true, 3))
displace2-contents_example = displace2-contents plain_file (holding two) 3 two-IsValid

-- Two bytes of six are displaced, and the four that are left cannot be read.
copy_out2-displace2_stale_example :
    copy_out2 plain_file (displace2 plain_file (holding three) 2).0 4 0 ≡ ((false, 0), [])
unfolding displace2 Chunks.displace_chunks Chunks.recalc_chunk_offsets
copy_out2-displace2_stale_example =
    copy_out2-displace2_stale plain_file (holding three) 2 4 three-IsValid (omega arith)
      (omega arith) (omega arith)

truncate2-take_example :
    IsValid (truncate2 plain_file (holding two) 5).0
    × (contents (truncate2 plain_file (holding two) 5).0.chunks_vector ≡ 1 ∷ 2 ∷ 3 ∷ 4 ∷ 5 ∷ [])
    × ((truncate2 plain_file (holding two) 5).1 ≡ (true, 5))
truncate2-take_example = truncate2-take plain_file (holding two) 5 two-IsValid (omega arith)

prepend_two_chunks_example :
    contents (append2 plain_file (holding two) (11 ∷ 12 ∷ 13 ∷ 14 ∷ 15 ∷ []) true).0.chunks_vector
    ≡ 15 ∷ 11 ∷ 12 ∷ 13 ∷ 14 ∷ 1 ∷ 2 ∷ 3 ∷ 4 ∷ 5 ∷ 6 ∷ []
prepend_two_chunks_example =
    prepend_two_chunks plain_file (holding two) (11 ∷ 12 ∷ 13 ∷ 14 ∷ 15 ∷ []) two-IsValid refl
      (omega arith) (omega arith) (omega arith)
