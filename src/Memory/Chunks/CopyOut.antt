-- ===== src/Memory/Chunks/CopyOut.antt =====
-- The invariant of a container in memory, and copyOut2: it reads the bytes from a position on.
use lib_mantids.Common.{
  ℕ, zero, suc, ◌+◌, ◌-◌, ◌≤◌, ◌<◌, ◌≡◌, sym, ap, ◌∙◌, true, false, ◌||◌, List, [], ◌∷◌, ◌++◌,
  append-nil, append_assoc, none, some, arith, leb, ◌==◌, if◌then◌else◌, length, length-append,
  get_elem?, take, drop, take-append, drop_past, drop_within, take_all, Bytes, u64_mod, sub64-eq,
  length-drop, overflow-none,
}
use lib_mantids.Memory.Chunk.{Chunk}
use lib_mantids.Memory.Chunk
use lib_mantids.Memory.Chunks.{
  FsOps, BChunks, contents, copy_chunks, copy_out_at, copy_out_mem, copy_out2,
}
use lib_mantids.Memory.Chunks.Offsets.{
  Consecutive, total, get_pos_for_offset-Finds, get_elem-begins, add_one,
}

pub record IsValid {F : Type 0} (b : BChunks F) : Type 0 where
  pub offsets : Consecutive 0 b.chunks_vector
  pub counted : b.container_bytes ≡ total b.chunks_vector
  pub bounded : b.container_bytes < u64_mod
  pub in_memory : b.mmap_container ≡ none

pub contents_split :
    (cs : List Chunk) (i : ℕ) (c : Chunk)
    → get_elem? cs i ≡ some c
    → contents cs ≡ contents (take i cs) ++ (c.bytes ++ contents (drop (suc i) cs))
contents_split [] i c e = cc
contents_split (d ∷ cs) zero c e = ground arith
contents_split (d ∷ cs) (suc i) c e =
    ap (◌++◌ d.bytes) (contents_split cs i c e)
    ∙ sym (append_assoc d.bytes (contents (take i cs)) (c.bytes ++ contents (drop (suc i) cs)))

-- The loop gathers the bytes asked for, across the chunks.
copy_chunks-take :
    (cs : List Chunk) (current : Bytes) (n copied : ℕ)
    → n ≤ length (current ++ contents cs)
    → copy_chunks cs current n copied ≡ ((true, copied + n), take n (current ++ contents cs))
unfolding copy_chunks
copy_chunks-take [] current n copied h = ground (arith, append-nil current, take_all n current)
copy_chunks-take (c ∷ cs) current n copied h = ground (
  arith,
  length-append current (c.bytes ++ contents cs),
  copy_chunks-take cs c.bytes (n - length current) (copied + length current),
  take-append n current (c.bytes ++ contents cs),
  take_all n current,
  append-nil (take n current),
)

-- What the chunk at `i` and those behind it hold is what follows the position in the container.
drop_split :
    (cs : List Chunk) (i : ℕ) (c : Chunk) (offset : ℕ)
    → Consecutive 0 cs
    → get_elem? cs i ≡ some c
    → c.offset ≤ offset
    → offset < Chunk.next_offset c
    → drop offset (contents cs) ≡ drop (offset - c.offset) c.bytes ++ contents (drop (suc i) cs)
drop_split cs i c offset h e p q =
    let before = contents (take i cs) in
    let after = contents (drop (suc i) cs) in
    let b = get_elem-begins cs i c h e in
    ap (drop offset) (contents_split cs i c e)
    ∙ drop_past offset before (c.bytes ++ after) (omega (arith, b))
    ∙ ap (λ k. drop k (c.bytes ++ after)) {x = offset - length before} {y = offset - c.offset}
        (omega (arith, b))
    ∙ drop_within (offset - c.offset) c.bytes after (omega arith)

copy_chunks-all :
    (rest : List Chunk) (current all : Bytes) (n : ℕ)
    → all ≡ current ++ contents rest
    → n ≤ length all
    → copy_chunks rest current n 0 ≡ ((true, n), take n all)
copy_chunks-all rest current all n e h = rw e (
    copy_chunks-take rest current n 0 (omega (arith, ap length e))
    ∙ ap (λ k. ((true, k), take n (current ++ contents rest))) {x = 0 + n} {y = n} (omega arith))

copy_out_at-take :
    {F : Type 0} (b : BChunks F) (bytes offset i : ℕ) (c : Chunk)
    → IsValid b
    → offset < u64_mod
    → offset + bytes ≤ total b.chunks_vector
    → get_elem? b.chunks_vector i ≡ some c
    → c.offset ≤ offset
    → offset < Chunk.next_offset c
    → copy_out_at b bytes offset i
      ≡ ((true, bytes), take bytes (drop offset (contents b.chunks_vector)))
unfolding copy_out_at
copy_out_at-take b bytes offset i c v small fits e p q =
    let all = contents b.chunks_vector in
    rw (e, copy_out_at, add_one i, sub64-eq offset c.offset p small)
      (copy_chunks-all (drop (suc i) b.chunks_vector) (drop (offset - c.offset) c.bytes)
        (drop offset all) bytes (drop_split b.chunks_vector i c offset v.offsets e p q)
        (omega (arith, length-drop offset all)))

copy_out_mem-fits :
    {F : Type 0} (b : BChunks F) (bytes offset : ℕ)
    → IsValid b
    → offset < u64_mod
    → 0 < bytes
    → offset + bytes ≤ total b.chunks_vector
    → copy_out_mem b bytes offset
      ≡ ((true, bytes), take bytes (drop offset (contents b.chunks_vector)))
unfolding copy_out_mem
copy_out_mem-fits b bytes offset v ho pos fits =
    let r = get_pos_for_offset-Finds b.chunks_vector offset v.offsets (omega arith) in
    let e = copy_out_at-take b bytes offset r.pos r.chunk v ho fits r.at r.from r.until in
    rw (overflow-none offset bytes (omega (arith, v.counted, v.bounded)), copy_out_mem, r.found, e)
      (ground (arith, v.counted))

copy_out_mem-refuses :
    {F : Type 0} (b : BChunks F) (bytes offset : ℕ)
    → IsValid b
    → bytes < u64_mod
    → offset < u64_mod
    → 0 < bytes
    → total b.chunks_vector < offset + bytes
    → copy_out_mem b bytes offset ≡ ((false, 0), [])
unfolding copy_out_mem
copy_out_mem-refuses b bytes offset v hb ho pos out = ground (arith, v.counted)

copy_out_mem-zero :
    {F : Type 0} (b : BChunks F) (offset : ℕ)
    → offset < u64_mod
    → copy_out_mem b 0 offset ≡ ((true, 0), [])
unfolding copy_out_mem
copy_out_mem-zero b offset ho = ground arith

-- copyOut2 copies exactly the bytes asked for, or refuses: it never copies less.
pub copy_out2-eq-take :
    {F : Type 0} (fs : FsOps F) (b : BChunks F) (bytes offset : ℕ)
    → IsValid b
    → bytes < u64_mod
    → offset < u64_mod
    → copy_out2 fs b bytes offset ≡ (
        if bytes == 0 || leb (offset + bytes) (total b.chunks_vector)
        then ((true, bytes), take bytes (drop offset (contents b.chunks_vector)))
        else ((false, 0), []))
unfolding copy_out2
copy_out2-eq-take fs b zero offset v hb ho =
    rw (v.in_memory, copy_out2) (copy_out_mem-zero b offset ho)
copy_out2-eq-take fs b (suc n) offset v hb ho =
    rw (v.in_memory, copy_out2)
      (ground (
        arith,
        copy_out_mem-fits b (suc n) offset v ho (omega arith),
        copy_out_mem-refuses b (suc n) offset v hb ho (omega arith),
      ))
