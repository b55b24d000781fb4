-- ===== src/Memory/Chunks.antt =====
-- Memory/mdz_mem_vars/b_chunks.cpp: B_Chunks, a container that keeps its bytes in a vector of chunks.
pub mod Offsets
pub mod CopyOut
pub mod Append
pub mod Displace
pub mod Stale
pub mod Truncate
pub mod Prepend
pub mod Search
pub mod AsContainer
pub mod ToStream
pub mod AsBuffer
pub mod ToText
use lib_mantids.Common.{
  ℕ, zero, suc, ◌+◌, ◌-◌, ◌/◌, ◌%◌, ◌*◌, Bool, true, false, not, ◌&&◌, List, [], ◌∷◌, ◌++◌, Option,
  none, some, ltb, leb, ◌==◌, if◌then◌else◌, length, get_elem?, take, drop, set, Bytes, Outcome,
  add64, sub64, check_uint_overflow_sum,
}
use lib_mantids.Memory.Chunk.{Chunk}
use lib_mantids.Memory.Chunk

-- The virtual operations of B_Base that B_Chunks calls on `mmapContainer`, over the states `F` of
-- that container. `copy_to_fs` is copyToFS("",true) applied to the bytes held so far: none where the
-- file cannot be opened or not be written whole.
pub record FsOps (F : Type 0) : Type 0 where
  pub copy_to_fs : Bytes → Option F
  pub size : F → ℕ
  pub append : F → Bytes → F × Outcome
  pub prepend : F → Bytes → F × Outcome
  pub truncate : F → ℕ → F × Outcome
  pub displace : F → ℕ → F × Outcome
  pub copy_out : F → ℕ → ℕ → Outcome × Bytes
  pub compare : F → Bytes → Bool → ℕ → Option Bool
  pub find_char : F → ℕ → ℕ → Outcome

pub record BChunks (F : Type 0) : Type 0 where
  pub chunks_vector : List Chunk
  pub container_bytes : ℕ
  pub max_chunks : ℕ
  pub max_chunk_size : ℕ
  pub max_container_size_until_going_to_fs : ℕ
  pub mmap_container : Option F

-- The bytes of the chunks, in the order of the vector.
abbrev pub contents : List Chunk → Bytes
contents [] = []
contents (c ∷ cs) = c.bytes ++ contents cs

-- recalcChunkOffsets: the loop's pointer is set once, to the first chunk, and never moves, so each
-- round writes the offset of that chunk again. `rounds` is vsize - vpos.
unfoldable pub recalc_rounds : ℕ → Chunk → ℕ → Chunk
recalc_rounds zero i current_offset = i
recalc_rounds (suc rounds) i current_offset =
    let i' = record i { offset = current_offset } in recalc_rounds rounds i' (Chunk.next_offset i')

unfoldable pub recalc_chunk_offsets : List Chunk → List Chunk
unfolding recalc_rounds
recalc_chunk_offsets [] = []
recalc_chunk_offsets (c ∷ cs) = recalc_rounds (suc (length cs)) c 0 ∷ cs

-- The offset that a chunk gets at the end of the vector.
abbrev pub end_offset : List Chunk → ℕ
end_offset [] = 0
end_offset (c ∷ []) = Chunk.next_offset c
end_offset (c ∷ d ∷ cs) = end_offset (d ∷ cs)

unfoldable pub midpoint : ℕ → ℕ → ℕ
midpoint curmin curmax =
    if curmin == curmax then curmin else curmin + (curmax + 1 - curmin) / 2 - (curmax - curmin) % 2

-- I_Chunk_GetPosForOffset once its default arguments are resolved; none is MAX_SIZE_T. Each call
-- halves a range of positions, so the number of chunks is fuel enough.
unfoldable pub search_pos : ℕ → List Chunk → ℕ → ℕ → ℕ → ℕ → Option ℕ
search_pos zero cs offset curpos curmax curmin = none
search_pos (suc fuel) cs offset curpos curmax curmin =
    let lower = search_pos fuel cs offset (midpoint curmin (curpos - 1)) (curpos - 1) curmin in
    let upper = search_pos fuel cs offset (midpoint (curpos + 1) curmax) curmax (curpos + 1) in
    elim (get_elem? cs curpos) [
      | none ↦ none
      | some c ↦
          if Chunk.contains_offset c offset
          then some curpos
          else if ltb offset c.offset
          then if curpos == curmin then none else lower
          else if curpos == curmax
          then none
          else upper
    ]

-- I_Chunk_GetPosForOffset(offset)
unfoldable pub get_pos_for_offset : List Chunk → ℕ → Option ℕ
get_pos_for_offset [] offset = none
get_pos_for_offset (c ∷ cs) offset =
    let n = length (c ∷ cs) in
    let curpos = if n == 1 then 0 else n / 2 - 1 in
    let curmax = if n == 1 then 0 else n - 1 in search_pos n (c ∷ cs) offset curpos curmax 0

-- The loop of copyOut2, from the part `current` of a chunk on: the outcome, and what it writes to
-- the buffer. `bytes` stays above 0, so the loop ends in a branch.
unfoldable pub copy_chunks : List Chunk → Bytes → ℕ → ℕ → Outcome × Bytes
copy_chunks [] current bytes copied =
    if ltb (length current) bytes
    then ((true, copied + length current), current)
    else ((true, copied + bytes), take bytes current)
copy_chunks (c ∷ cs) current bytes copied =
    let (r, out) = copy_chunks cs c.bytes (bytes - length current) (copied + length current) in
    if ltb (length current) bytes
    then (r, current ++ out)
    else ((true, copied + bytes), take bytes current)

-- The loop of displace2.
unfoldable pub displace_chunks : List Chunk → ℕ → ℕ → ℕ → (List Chunk × ℕ × Outcome)
displace_chunks cs bytes zero displaced = (recalc_chunk_offsets cs, bytes, (true, displaced))
displace_chunks [] bytes (suc n) displaced = ([], bytes, (true, displaced))
displace_chunks (c ∷ cs) bytes (suc n) displaced =
    let k = Chunk.size c in
    let rest = displace_chunks cs (sub64 bytes k) (suc n - k) (displaced + k) in
    if leb k (suc n) then rest else (
      recalc_chunk_offsets (Chunk.displace c (suc n) ∷ cs),
      sub64 bytes (suc n),
      (true, displaced + suc n),
    )

module _ {F : Type 0} where
  -- B_Chunks::B_Chunks()
  unfoldable pub new : BChunks F
  new = record {
    chunks_vector = [];
    container_bytes = 0;
    max_chunks = 256 * 1024;
    max_chunk_size = 64 * 1024;
    max_container_size_until_going_to_fs = 0;
    mmap_container = none;
  }

  -- clearChunks: the byte counter stays as it is.
  abbrev pub clear_chunks : BChunks F → BChunks F
  clear_chunks b = record b { chunks_vector = [] }

  -- clear2; the counter is reset by the caller, B_Base::clear.
  unfoldable pub clear2 : BChunks F → BChunks F
  clear2 b = clear_chunks (record b { mmap_container = none })

  -- What one round of append2 does with the chunk it has copied.
  abbrev pub add_chunk : Bool → BChunks F → Bytes → BChunks F
  add_chunk prepend_mode b buf =
      let counted = record b { container_bytes = add64 b.container_bytes (length buf) } in
      if prepend_mode
      then record counted { chunks_vector = Chunk.copy buf ∷ b.chunks_vector }
      else record counted {
        chunks_vector =
            b.chunks_vector ++ record (Chunk.copy buf) { offset = end_offset b.chunks_vector } ∷ [];
      }

  -- if (prependMode) recalcChunkOffsets();
  abbrev pub settle : Bool → BChunks F → BChunks F
  settle prepend_mode b =
      if prepend_mode then record b { chunks_vector = recalc_chunk_offsets b.chunks_vector } else b

  -- The loop of append2. `room` is maxChunks - chunksVector.size(): each round adds one chunk, and
  -- the test chunksVector.size()+1 > maxChunks holds when none is left. That exit does not
  -- recalculate the offsets.
  unfoldable pub append_chunks : ℕ → Bool → BChunks F → Bytes → ℕ → BChunks F × Outcome
  append_chunks room prepend_mode b [] added = (settle prepend_mode b, (true, added))
  append_chunks zero prepend_mode b (x ∷ buf) added = (b, (false, added))
  append_chunks (suc room) prepend_mode b (x ∷ buf) added =
      let piece = take b.max_chunk_size (x ∷ buf) in
      append_chunks room prepend_mode (add_chunk prepend_mode b piece)
        (drop b.max_chunk_size (x ∷ buf)) (add64 added (length piece))

  -- A call that goes on in the file container.
  abbrev pub in_file : BChunks F → F × Outcome → BChunks F × Outcome
  in_file b (m, r) = (record b { mmap_container = some m }, r)

  -- The chunk at `ival` holds the offset `n`; what stands behind it goes.
  truncate_at : BChunks F → ℕ → ℕ → Chunk → BChunks F × Outcome
  truncate_at b n ival c =
      let cs =
        if c.offset == n
        then take ival b.chunks_vector
        else take (ival + 1) (set b.chunks_vector ival (Chunk.truncate c n)) in
      (record b { chunks_vector = cs; container_bytes = n }, (true, n))

  truncate_mem : BChunks F → ℕ → BChunks F × Outcome
  unfolding truncate_at
  truncate_mem b n = elim (get_pos_for_offset b.chunks_vector n) [
    | none ↦ (b, (false, 0))
    | some ival ↦ elim (get_elem? b.chunks_vector ival) [
      | none ↦ (b, (false, 0))
      | some c ↦ truncate_at b n ival c
    ]
  ]

  copy_out_at : BChunks F → ℕ → ℕ → ℕ → Outcome × Bytes
  copy_out_at b bytes offset icurrent = elim (get_elem? b.chunks_vector icurrent) [
    | none ↦ ((false, 0), [])
    | some c ↦
        copy_chunks (drop (icurrent + 1) b.chunks_vector) (Chunk.move_to_offset c offset).bytes
          bytes 0
  ]

  copy_out_mem : BChunks F → ℕ → ℕ → Outcome × Bytes
  unfolding copy_out_at
  copy_out_mem b bytes offset =
      if check_uint_overflow_sum offset bytes
      then ((false, 0), [])
      else if bytes == 0
      then ((true, 0), [])
      else if ltb b.container_bytes (offset + bytes)
      then ((false, 0), [])
      else elim (get_pos_for_offset b.chunks_vector offset) [
        | none ↦ ((false, 0), [])
        | some icurrent ↦ copy_out_at b bytes offset icurrent
      ]

  module _ (fs : FsOps F) where
    unfoldable pub size : BChunks F → ℕ
    size b = elim b.mmap_container [ none ↦ b.container_bytes | some m ↦ fs.size m ]

    abbrev pub add_to_file : Bool → F → Bytes → F × Outcome
    add_to_file prepend_mode m buf = if prepend_mode then fs.prepend m buf else fs.append m buf

    -- The size limit of the memory is passed: the bytes move to a file, then it takes the new ones.
    go_to_fs : Bool → BChunks F → Bytes → BChunks F × Outcome
    go_to_fs prepend_mode b buf = elim (fs.copy_to_fs (contents b.chunks_vector)) [
      | none ↦ (b, (false, 0))
      | some m ↦ in_file (clear_chunks b) (add_to_file prepend_mode m buf)
    ]

    append_mem : Bool → BChunks F → Bytes → BChunks F × Outcome
    unfolding go_to_fs
    append_mem prepend_mode b buf =
        if check_uint_overflow_sum (length buf) b.container_bytes
        then (b, (false, 0))
        else if not (b.max_container_size_until_going_to_fs == 0)
            && ltb b.max_container_size_until_going_to_fs (length buf + b.container_bytes)
        then go_to_fs prepend_mode b buf
        else append_chunks (b.max_chunks - length b.chunks_vector) prepend_mode b buf 0

    unfoldable pub append2 : BChunks F → Bytes → Bool → BChunks F × Outcome
    unfolding append_mem
    append2 b buf prepend_mode = elim b.mmap_container [
      | none ↦ append_mem prepend_mode b buf
      | some m ↦ in_file b (add_to_file prepend_mode m buf)
    ]

    unfoldable pub displace2 : BChunks F → ℕ → BChunks F × Outcome
    displace2 b n = elim b.mmap_container [
      | none ↦
          let (cs, bytes, r) = displace_chunks b.chunks_vector b.container_bytes n 0 in
          (record b { chunks_vector = cs; container_bytes = bytes }, r)
      | some m ↦ in_file b (fs.displace m n)
    ]

    unfoldable pub truncate2 : BChunks F → ℕ → BChunks F × Outcome
    unfolding truncate_mem
    truncate2 b n = elim b.mmap_container [
      | none ↦ truncate_mem b n
      | some m ↦ in_file b (fs.truncate m n)
    ]

    -- The outcome, and the bytes written to the caller's buffer.
    unfoldable pub copy_out2 : BChunks F → ℕ → ℕ → Outcome × Bytes
    unfolding copy_out_mem
    copy_out2 b bytes offset = elim b.mmap_container [
      | none ↦ copy_out_mem b bytes offset
      | some m ↦ fs.copy_out m bytes offset
    ]
