-- ===== src/Memory/Chunks/Truncate.antt =====
-- truncate2 in memory keeps the first bytes, and the invariant.
use lib_mantids.Common.{
  ℕ, zero, suc, ◌+◌, ◌-◌, ◌≤◌, ◌<◌, ◌≡◌, refl, sym, ap, ◌∙◌, inl, inr, true, List, [], ◌∷◌, ◌++◌,
  none, some, arith, ◌==◌, length, take, drop, get_elem?, set, append-nil, take-set, take_past,
  take_within, length-take, u64_mod, sub64-eq, Bool-cases,
}
use lib_mantids.Memory.Chunk.{Chunk}
use lib_mantids.Memory.Chunk
use lib_mantids.Memory.Chunks.{
  FsOps, BChunks, contents, truncate_at, truncate_mem, truncate2, get_pos_for_offset,
}
use lib_mantids.Memory.Chunks.Offsets.{
  Consecutive, total, get_elem-begins, get_elem-lt, add_one, get_pos_for_offset-Finds,
}
use lib_mantids.Memory.Chunks.CopyOut.{IsValid, contents_split}
use lib_mantids.Memory.Chunks.Append.{Consecutive-concat, contents-append}

Consecutive-take :
    (start i : ℕ) (cs : List Chunk) → Consecutive start cs → Consecutive start (take i cs)
Consecutive-take start zero cs h = tt
Consecutive-take start (suc i) [] h = tt
Consecutive-take start (suc i) (c ∷ cs) h = (h.0, Consecutive-take (start + Chunk.size c) i cs h.1)

truncate-bytes :
    (c : Chunk) (n : ℕ)
    → c.offset < n
    → n < Chunk.next_offset c
    → n < u64_mod
    → Chunk.truncate c n ≡ record c { bytes = take (n - c.offset) c.bytes }
unfolding Chunk.truncate
truncate-bytes c n p q small = ground (arith, sub64-eq n c.offset (omega arith) small)

-- What truncate2 promises of the chunks that are left.
record Truncates (cs : List Chunk) (n : ℕ) (l : List Chunk) : Type 0 where
  offsets : Consecutive 0 l
  kept : contents l ≡ take n (contents cs)

-- The first `n` bytes end inside the chunk that holds the offset `n`.
take_inside :
    (cs : List Chunk) (i n : ℕ) (c : Chunk)
    → Consecutive 0 cs
    → get_elem? cs i ≡ some c
    → c.offset ≤ n
    → n ≤ Chunk.next_offset c
    → take n (contents cs) ≡ contents (take i cs) ++ take (n - c.offset) c.bytes
take_inside cs i n c h e p q =
    let before = contents (take i cs) in
    let after = contents (drop (suc i) cs) in
    let b = get_elem-begins cs i c h e in
    ap (take n) (contents_split cs i c e)
    ∙ take_past n before (c.bytes ++ after) (omega (arith, b))
    ∙ ap (λ k. before ++ take k (c.bytes ++ after)) {x = n - length before} {y = n - c.offset}
        (omega (arith, b))
    ∙ ap (◌++◌ before) (take_within (n - c.offset) c.bytes after (omega arith))

truncate_chunk :
    (cs : List Chunk) (i n : ℕ) (c : Chunk)
    → Consecutive 0 cs
    → get_elem? cs i ≡ some c
    → c.offset ≤ n
    → n < Chunk.next_offset c
    → n < u64_mod
    → c.offset < n
    → Truncates cs n (take (suc i) (set cs i (Chunk.truncate c n)))
truncate_chunk cs i n c h e p q small strict =
    let c' : Chunk = record c { bytes = take (n - c.offset) c.bytes } in
    let before = take i cs in
    let b = get_elem-begins cs i c h e in
    rw (truncate-bytes c n strict q small, take-set cs i c' (get_elem-lt cs i c e))
      (record {
        offsets = Consecutive-concat 0 before c' (Consecutive-take 0 i cs h) (omega (arith, b));
        kept =
            contents-append before (c' ∷ [])
            ∙ ap (◌++◌ (contents before)) (append-nil c'.bytes)
            ∙ sym (take_inside cs i n c h e p (omega arith));
      })

truncate_border :
    (cs : List Chunk) (i n : ℕ) (c : Chunk)
    → Consecutive 0 cs
    → get_elem? cs i ≡ some c
    → c.offset ≡ n
    → Truncates cs n (take i cs)
truncate_border cs i n c h e p = record {
  offsets = Consecutive-take 0 i cs h;
  kept = sym (
      take_inside cs i n c h e (omega arith) (omega arith)
      ∙ ap (λ k. contents (take i cs) ++ take k c.bytes) {x = n - c.offset} {y = 0} (omega arith)
      ∙ append-nil (contents (take i cs)));
}

truncate_at-Truncates :
    {F : Type 0} (b : BChunks F) (n i : ℕ) (c : Chunk)
    → IsValid b
    → get_elem? b.chunks_vector i ≡ some c
    → c.offset ≤ n
    → n < Chunk.next_offset c
    → n < u64_mod
    → Truncates b.chunks_vector n (truncate_at b n i c).0.chunks_vector
unfolding truncate_at
truncate_at-Truncates b n i c v e p q small = elim (Bool-cases (c.offset == n)) [
  | inl border ↦ rw border (truncate_border b.chunks_vector i n c v.offsets e (ground arith))
  | inr inside ↦
      rw (inside, add_one i)
        (truncate_chunk b.chunks_vector i n c v.offsets e p q small (ground arith))
]

truncate_at-take :
    {F : Type 0} (b : BChunks F) (n i : ℕ) (c : Chunk)
    → IsValid b
    → n < total b.chunks_vector
    → get_elem? b.chunks_vector i ≡ some c
    → c.offset ≤ n
    → n < Chunk.next_offset c
    → IsValid (truncate_at b n i c).0
      × (contents (truncate_at b n i c).0.chunks_vector ≡ take n (contents b.chunks_vector))
      × ((truncate_at b n i c).1 ≡ (true, n))
truncate_at-take b n i c v h e p q =
    let small : n < u64_mod = omega (arith, v.counted, v.bounded) in
    let t = truncate_at-Truncates b n i c v e p q small in
    (
      record {
        offsets = t.offsets;
        counted =
            unfold truncate_at in
            omega (arith, ap length t.kept, length-take n (contents b.chunks_vector));
        bounded = unfold truncate_at in small;
        in_memory = unfold truncate_at in v.in_memory;
      },
      t.kept,
      unfold truncate_at in refl,
    )

truncate2-at :
    {F : Type 0} (fs : FsOps F) (b : BChunks F) (n i : ℕ) (c : Chunk)
    → b.mmap_container ≡ none
    → get_pos_for_offset b.chunks_vector n ≡ some i
    → get_elem? b.chunks_vector i ≡ some c
    → truncate2 fs b n ≡ truncate_at b n i c
unfolding truncate2 truncate_mem
truncate2-at fs b n i c m e at = ground arith

-- Cutting a container in memory below its size keeps its first bytes, and the invariant.
pub truncate2-take :
    {F : Type 0} (fs : FsOps F) (b : BChunks F) (n : ℕ)
    → IsValid b
    → n < total b.chunks_vector
    → IsValid (truncate2 fs b n).0
      × (contents (truncate2 fs b n).0.chunks_vector ≡ take n (contents b.chunks_vector))
      × ((truncate2 fs b n).1 ≡ (true, n))
truncate2-take fs b n v h =
    let r = get_pos_for_offset-Finds b.chunks_vector n v.offsets h in
    rw (truncate2-at fs b n r.pos r.chunk v.in_memory r.found r.at)
      (truncate_at-take b n r.pos r.chunk v h r.at r.from r.until)
