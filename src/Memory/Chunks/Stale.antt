-- ===== src/Memory/Chunks/Stale.antt =====
-- recalcChunkOffsets leaves the offsets wrong wherever two chunks or more remain: the position 0 then
-- lies in no chunk.
use lib_mantids.Common.{
  ℕ, zero, suc, ◌+◌, ◌-◌, ◌≤◌, ◌<◌, ◌≡◌, refl, ◌∙◌, inl, inr, false, List, [], ◌∷◌, none, some,
  arith, leb, length, get_elem?, length-drop, sub64, Bool-cases, leb-false→lt, Option-cases,
}
use lib_mantids.Memory.Chunk.{Chunk}
use lib_mantids.Memory.Chunk
use lib_mantids.Memory.Chunks.{
  FsOps, BChunks, recalc_rounds, recalc_chunk_offsets, displace_chunks, displace2, midpoint,
  search_pos, get_pos_for_offset, copy_out_mem, copy_out2,
}
use lib_mantids.Memory.Chunks.Offsets.{Consecutive}
use lib_mantids.Memory.Chunks.CopyOut.{IsValid}

-- No chunk is empty.
abbrev pub NonEmpty : List Chunk → Type 0
NonEmpty [] = Unit {0}
NonEmpty (c ∷ cs) = (0 < Chunk.size c) × NonEmpty cs

-- No chunk begins at 0.
abbrev pub Late : List Chunk → Type 0
Late [] = Unit {0}
Late (c ∷ cs) = (0 < c.offset) × Late cs

abbrev LateTail : List Chunk → Type 0
LateTail [] = Unit {0}
LateTail (c ∷ cs) = Late cs

Consecutive-Late : (start : ℕ) (cs : List Chunk) → 0 < start → Consecutive start cs → Late cs
Consecutive-Late start [] p h = tt
Consecutive-Late start (c ∷ cs) p h =
    (omega arith, Consecutive-Late (start + Chunk.size c) cs (omega arith) h.1)

Consecutive-LateTail : (cs : List Chunk) → NonEmpty cs → Consecutive 0 cs → LateTail cs
Consecutive-LateTail [] ne h = tt
Consecutive-LateTail (c ∷ cs) ne h = Consecutive-Late (0 + Chunk.size c) cs (omega arith) h.1

recalc_rounds-ge : (rounds : ℕ) (i : Chunk) (at : ℕ) → at ≤ (recalc_rounds (suc rounds) i at).offset
unfolding recalc_rounds
recalc_rounds-ge zero i at = omega arith
recalc_rounds-ge (suc rounds) i at =
    let i' : Chunk = record i { offset = at } in
    omega (arith, recalc_rounds-ge rounds i' (Chunk.next_offset i'))

recalc_rounds-pos :
    (rounds : ℕ) (c : Chunk) → 0 < Chunk.size c → 0 < (recalc_rounds (suc (suc rounds)) c 0).offset
unfolding recalc_rounds
recalc_rounds-pos rounds c p =
    let i : Chunk = record c { offset = 0 } in
    let ge = recalc_rounds-ge rounds i (Chunk.next_offset i) in omega (arith, ge)

recalc-Late :
    (c d : Chunk) (cs : List Chunk)
    → 0 < Chunk.size c
    → Late (d ∷ cs)
    → Late (recalc_chunk_offsets (c ∷ d ∷ cs))
unfolding recalc_chunk_offsets
recalc-Late c d cs p l = (recalc_rounds-pos (length cs) c p, l)

displace_size : (c : Chunk) (n : ℕ) → 0 < n → n < Chunk.size c → 0 < Chunk.size (Chunk.displace c n)
unfolding Chunk.displace
displace_size c n p h = ground (arith, length-drop n c.bytes)

recalc_two-Late :
    (c : Chunk) (cs : List Chunk)
    → 0 < Chunk.size c
    → Late cs
    → 2 ≤ length (recalc_chunk_offsets (c ∷ cs))
    → Late (recalc_chunk_offsets (c ∷ cs))
unfolding recalc_chunk_offsets
recalc_two-Late c [] p l two = absurd (omega arith)
recalc_two-Late c (d ∷ cs) p l two = recalc-Late c d cs p l

recalc_empty : ¬ (2 ≤ length (recalc_chunk_offsets []))
unfolding recalc_chunk_offsets
recalc_empty = omega arith

Late-LateTail : (cs : List Chunk) → Late cs → LateTail cs
Late-LateTail [] l = tt
Late-LateTail (c ∷ cs) l = l.1

displace_chunks-Late :
    (cs : List Chunk) (bytes n displaced : ℕ)
    → NonEmpty cs
    → LateTail cs
    → 2 ≤ length (displace_chunks cs bytes n displaced).0
    → Late (displace_chunks cs bytes n displaced).0
unfolding displace_chunks
displace_chunks-Late [] bytes zero displaced ne l two = absurd (recalc_empty two)
displace_chunks-Late [] bytes (suc n) displaced ne l two = tt
displace_chunks-Late (c ∷ cs) bytes zero displaced ne l two = recalc_two-Late c cs ne.0 l two
displace_chunks-Late (c ∷ cs) bytes (suc n) displaced ne l two =
    elim (Bool-cases (leb (Chunk.size c) (suc n))) [
      | inl whole ↦ rw whole (
          displace_chunks-Late cs (sub64 bytes (Chunk.size c)) (suc n - Chunk.size c)
            (displaced + Chunk.size c) ne.1 (Late-LateTail cs l) (rw whole at two))
      | inr part ↦ rw part (
          recalc_two-Late (Chunk.displace c (suc n)) cs
            (displace_size c (suc n) (omega arith) (leb-false→lt (Chunk.size c) (suc n) part)) l
            (rw part at two))
    ]

get_elem-Late :
    (cs : List Chunk) (i : ℕ) (c : Chunk) → Late cs → get_elem? cs i ≡ some c → 0 < c.offset
get_elem-Late [] i c l e = cc
get_elem-Late (d ∷ cs) zero c l e = ground arith
get_elem-Late (d ∷ cs) (suc i) c l e = get_elem-Late cs i c l.1 e

search_pos-none :
    (fuel : ℕ) (cs : List Chunk) (curpos curmax curmin : ℕ)
    → Late cs
    → search_pos fuel cs 0 curpos curmax curmin ≡ none
unfolding search_pos
search_pos-none zero cs curpos curmax curmin l = refl
search_pos-none (suc fuel) cs curpos curmax curmin l = elim (Option-cases (get_elem? cs curpos)) [
  | inl out ↦ rw (out, search_pos)
  | inr (c, at) ↦ ground (
    arith,
    at,
    get_elem-Late cs curpos c l at,
    search_pos-none fuel cs (midpoint curmin (curpos - 1)) (curpos - 1) curmin l,
  )
]

get_pos_for_offset-none : (cs : List Chunk) → Late cs → get_pos_for_offset cs 0 ≡ none
unfolding get_pos_for_offset
get_pos_for_offset-none [] l = refl
get_pos_for_offset-none (c ∷ cs) l = search_pos-none (length (c ∷ cs)) (c ∷ cs) _ _ 0 l

copy_out_mem-Late :
    {F : Type 0} (b : BChunks F) (n : ℕ)
    → Late b.chunks_vector
    → 0 < n
    → copy_out_mem b n 0 ≡ ((false, 0), [])
unfolding copy_out_mem
copy_out_mem-Late b n l p = ground (arith, get_pos_for_offset-none b.chunks_vector l)

copy_out2-mem :
    {F : Type 0} (fs : FsOps F) (b : BChunks F) (bytes offset : ℕ)
    → b.mmap_container ≡ none
    → copy_out2 fs b bytes offset ≡ copy_out_mem b bytes offset
unfolding copy_out2
copy_out2-mem fs b bytes offset e = ground arith

displace2-mem :
    {F : Type 0} (fs : FsOps F) (b : BChunks F) (n : ℕ)
    → b.mmap_container ≡ none
    → ((displace2 fs b n).0.chunks_vector
        ≡ (displace_chunks b.chunks_vector b.container_bytes n 0).0)
      × ((displace2 fs b n).0.mmap_container ≡ b.mmap_container)
unfolding displace2
displace2-mem fs b n e = ground arith

-- After a displacement of a valid container in memory, of which no chunk is empty, that leaves two
-- chunks or more, copyOut2 of one byte or more from position 0 fails and writes nothing.
pub copy_out2-displace2_stale :
    {F : Type 0} (fs : FsOps F) (b : BChunks F) (n k : ℕ)
    → IsValid b
    → NonEmpty b.chunks_vector
    → 2 ≤ length (displace2 fs b n).0.chunks_vector
    → 0 < k
    → copy_out2 fs (displace2 fs b n).0 k 0 ≡ ((false, 0), [])
copy_out2-displace2_stale fs b n k v ne two p =
    let m = displace2-mem fs b n v.in_memory in
    copy_out2-mem fs (displace2 fs b n).0 k 0 (m.1 ∙ v.in_memory)
    ∙ copy_out_mem-Late (displace2 fs b n).0 k
        (rw m.0 (
          displace_chunks-Late b.chunks_vector b.container_bytes n 0 ne
            (Consecutive-LateTail b.chunks_vector ne v.offsets) (rw m.0 at two)))
        p
