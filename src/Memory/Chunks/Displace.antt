-- ===== src/Memory/Chunks/Displace.antt =====
-- displace2 in memory, and recalcChunkOffsets: the right bytes go, the offsets of what is left do not
-- follow.
use lib_mantids.Common.{
  ℕ, zero, suc, ◌+◌, ◌-◌, ◌≤◌, ◌<◌, ◌≡◌, refl, sym, ap, ◌∙◌, inl, inr, true, List, [], ◌∷◌, ◌++◌,
  arith, leb, length, length-append, drop, drop_past, drop_within, length-drop, min, Outcome,
  u64_mod, sub64, sub64-eq, Bool-cases, leb→le, leb-false→lt,
}
use lib_mantids.Memory.Chunk.{Chunk}
use lib_mantids.Memory.Chunk
use lib_mantids.Memory.Chunks.{
  FsOps, BChunks, contents, recalc_rounds, recalc_chunk_offsets, displace_chunks, displace2,
}
use lib_mantids.Memory.Chunks.Offsets.{total}
use lib_mantids.Memory.Chunks.CopyOut.{IsValid}

recalc_rounds-bytes :
    (rounds : ℕ) (i : Chunk) (at : ℕ) → (recalc_rounds rounds i at).bytes ≡ i.bytes
unfolding recalc_rounds
recalc_rounds-bytes zero i at = refl
recalc_rounds-bytes (suc rounds) i at =
    recalc_rounds-bytes rounds (record i { offset = at })
      (Chunk.next_offset (record i { offset = at }))

pub recalc-contents : (cs : List Chunk) → contents (recalc_chunk_offsets cs) ≡ contents cs
unfolding recalc_chunk_offsets
recalc-contents [] = refl
recalc-contents (c ∷ cs) = ap (λ l. l ++ contents cs) (recalc_rounds-bytes (suc (length cs)) c 0)

-- What displace2 promises about the bytes.
pub record Displaces (cs : List Chunk) (n displaced : ℕ) (r : List Chunk × ℕ × Outcome)
    : Type 0 where
  dropped : contents r.0 ≡ drop n (contents cs)
  pub left : r.1 ≡ total cs - n
  pub outcome : r.2 ≡ (true, displaced + min n (total cs))

displace-bytes :
    (c : Chunk) (n : ℕ) → n < Chunk.size c → 0 < n → (Chunk.displace c n).bytes ≡ drop n c.bytes
unfolding Chunk.displace
displace-bytes c n h p = ground arith

displace_chunks-Displaces :
    (cs : List Chunk) (bytes n displaced : ℕ)
    → bytes ≡ total cs
    → bytes < u64_mod
    → Displaces cs n displaced (displace_chunks cs bytes n displaced)
unfolding displace_chunks
displace_chunks-Displaces [] bytes zero displaced e b = record {
  dropped = recalc-contents [];
  left = omega arith;
  outcome = ap (λ k. (true, k)) (omega arith);
}
displace_chunks-Displaces (c ∷ cs) bytes zero displaced e b = record {
  dropped = recalc-contents (c ∷ cs);
  left = omega arith;
  outcome = ap (λ k. (true, k)) (omega arith);
}
displace_chunks-Displaces [] bytes (suc n) displaced e b = record {
  dropped = refl;
  left = omega arith;
  outcome = ap (λ k. (true, k)) (omega arith);
}
displace_chunks-Displaces (c ∷ cs) bytes (suc n) displaced e b =
    let k = Chunk.size c in
    let parts = length-append c.bytes (contents cs) in
    elim (Bool-cases (leb k (suc n))) [
      | inl whole ↦
          let le = leb→le k (suc n) whole in
          let inside : k ≤ bytes = omega (arith, parts) in
          let left_eq : sub64 bytes k ≡ total cs =
            sub64-eq bytes k inside b ∙ omega (arith, parts) in
          let ih =
            displace_chunks-Displaces cs (sub64 bytes k) (suc n - k) (displaced + k) left_eq
              (omega (arith, left_eq, parts)) in
          rw whole (record {
            dropped = ih.dropped ∙ sym (drop_past (suc n) c.bytes (contents cs) (omega arith));
            left = ih.left ∙ omega (arith, parts);
            outcome = ih.outcome ∙ ap (λ k. (true, k)) (omega (arith, parts));
          })
      | inr part ↦
          let lt = leb-false→lt k (suc n) part in
          rw part (record {
            dropped =
                recalc-contents (Chunk.displace c (suc n) ∷ cs)
                ∙ ap (λ l. l ++ contents cs) (displace-bytes c (suc n) lt (omega arith))
                ∙ sym (drop_within (suc n) c.bytes (contents cs) (omega arith));
            left = sub64-eq bytes (suc n) (omega (arith, parts)) b ∙ ap (λ k. k - suc n) e;
            outcome = ap (λ k. (true, k)) (omega (arith, parts));
          })
    ]

-- displace2 takes the first bytes away, and no others.
pub displace2-contents :
    {F : Type 0} (fs : FsOps F) (b : BChunks F) (n : ℕ)
    → IsValid b
    → (contents (displace2 fs b n).0.chunks_vector ≡ drop n (contents b.chunks_vector))
      × ((displace2 fs b n).0.container_bytes ≡ total (displace2 fs b n).0.chunks_vector)
      × ((displace2 fs b n).1 ≡ (true, min n (total b.chunks_vector)))
unfolding displace2
displace2-contents fs b n v =
    let r = displace_chunks-Displaces b.chunks_vector b.container_bytes n 0 v.counted v.bounded in
    rw (v.in_memory, displace2)
      (
        r.dropped,
        omega (arith, r.left, ap length r.dropped, length-drop n (contents b.chunks_vector)),
        r.outcome ∙ ap (λ k. (true, k)) (omega arith),
      )
