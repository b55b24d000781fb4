-- ===== src/Memory/Chunks/Append.antt =====
-- append2 in memory: the bytes that fit the remaining chunks go to the end, and the offsets stay
-- consecutive.
use native.Mathlib.Nat.{suc-mul, zero-mul}
use lib_mantids.Common.{
  ℕ, zero, suc, ◌+◌, ◌-◌, ◌*◌, ◌<◌, ◌≡◌, refl, sym, ap, ◌∙◌, Bool, false, List, [], ◌∷◌, ◌++◌,
  append-nil, append_assoc, none, arith, leb, length, length-append, take, drop, take_nil,
  length-drop, take_add, length-take-drop, Bytes, Outcome, u64_mod, add64, overflow-none,
}
use lib_mantids.Memory.Chunk.{Chunk}
use lib_mantids.Memory.Chunk
use lib_mantids.Memory.Chunks.{
  FsOps, BChunks, contents, end_offset, add_chunk, append_chunks, append_mem, append2,
}
use lib_mantids.Memory.Chunks.Offsets.{Consecutive, total}
use lib_mantids.Memory.Chunks.CopyOut.{IsValid}

pub contents-append : (xs ys : List Chunk) → contents (xs ++ ys) ≡ contents xs ++ contents ys
contents-append [] ys = refl
contents-append (c ∷ xs) ys =
    ap (◌++◌ c.bytes) (contents-append xs ys)
    ∙ sym (append_assoc c.bytes (contents xs) (contents ys))

end_offset-total :
    (start : ℕ) (c : Chunk) (cs : List Chunk)
    → Consecutive start (c ∷ cs)
    → end_offset (c ∷ cs) ≡ start + total (c ∷ cs)
end_offset-total start c [] h = omega (arith, length-append c.bytes [])
end_offset-total start c (d ∷ cs) h = omega (
  arith,
  end_offset-total (start + Chunk.size c) d cs h.1,
  length-append c.bytes (contents (d ∷ cs)),
)

end_offset-eq : (cs : List Chunk) → Consecutive 0 cs → end_offset cs ≡ total cs
end_offset-eq [] h = refl
end_offset-eq (c ∷ cs) h = omega (arith, end_offset-total 0 c cs h)

pub Consecutive-concat :
    (start : ℕ) (cs : List Chunk) (c : Chunk)
    → Consecutive start cs
    → c.offset ≡ start + total cs
    → Consecutive start (cs ++ c ∷ [])
Consecutive-concat start [] c h e = (omega arith, tt)
Consecutive-concat start (d ∷ cs) c h e = (
  h.0,
  Consecutive-concat (start + Chunk.size d) cs c h.1
      (omega (arith, length-append d.bytes (contents cs))),
)

suc_mul_comm : (n m : ℕ) → m + n * m ≡ suc n * m
suc_mul_comm n m = omega (arith, suc-mul n m)

leb_sub : (n m k : ℕ) → leb (n - m) k ≡ leb n (m + k)
leb_sub n m k = ground arith

module _ {F : Type 0} where
  pub total-add_chunk :
      (b : BChunks F) (piece : Bytes)
      → contents (add_chunk false b piece).chunks_vector ≡ contents b.chunks_vector ++ piece
  total-add_chunk b piece =
      contents-append b.chunks_vector _ ∙ ap (◌++◌ (contents b.chunks_vector)) (append-nil piece)

  pub add_chunk-IsValid :
      (b : BChunks F) (piece : Bytes)
      → IsValid b
      → total b.chunks_vector + length piece < u64_mod
      → IsValid (add_chunk false b piece)
  add_chunk-IsValid b piece v fits = record {
    offsets =
        Consecutive-concat 0 b.chunks_vector _ v.offsets
          (omega (arith, end_offset-eq b.chunks_vector v.offsets));
    counted = omega (
      arith,
      v.counted,
      ap length (total-add_chunk b piece),
      length-append (contents b.chunks_vector) piece,
    );
    bounded = omega arith;
    in_memory = v.in_memory;
  }

  -- What append2 promises: the bytes that `room` chunks hold are added, and the outcome tells
  -- whether that is all of them, and how many.
  pub record Appends (room : ℕ) (b : BChunks F) (buf : Bytes) (added : ℕ) (r : BChunks F × Outcome)
      : Type 0 where
    pub valid : IsValid r.0
    pub appended :
        contents r.0.chunks_vector ≡ contents b.chunks_vector ++ take (room * b.max_chunk_size) buf
    pub complete : r.1.0 ≡ leb (length buf) (room * b.max_chunk_size)
    pub count : r.1.1 ≡ added + length (take (room * b.max_chunk_size) buf)
    same_size : r.0.max_chunk_size ≡ b.max_chunk_size

  append_chunks-Appends :
      (room : ℕ) (b : BChunks F) (buf : Bytes) (added : ℕ)
      → IsValid b
      → total b.chunks_vector + length buf < u64_mod
      → added + length buf < u64_mod
      → Appends room b buf added (append_chunks room false b buf added)
  unfolding append_chunks
  append_chunks-Appends room b [] added v fits q = record {
    valid = v;
    appended =
        rw (take_nil {A = ℕ} (room * b.max_chunk_size))
          (sym (append-nil (contents b.chunks_vector)));
    complete = ground arith;
    count = rw (take_nil {A = ℕ} (room * b.max_chunk_size)) (omega arith);
    same_size = refl;
  }
  append_chunks-Appends zero b (x ∷ buf) added v fits q = record {
    valid = v;
    appended = rw zero-mul (sym (append-nil (contents b.chunks_vector)));
    complete = rw zero-mul (ground arith);
    count = rw zero-mul (omega arith);
    same_size = refl;
  }
  append_chunks-Appends (suc room) b (x ∷ buf) added v fits q =
      let all : Bytes = x ∷ buf in
      let piece = take b.max_chunk_size all in
      let rest = drop b.max_chunk_size all in
      let s = length-take-drop b.max_chunk_size all in
      let grown : piece ++ take (room * b.max_chunk_size) rest
          ≡ take (suc room * b.max_chunk_size) all =
        sym (take_add b.max_chunk_size (room * b.max_chunk_size) all)
        ∙ ap (λ k. take k all) (suc_mul_comm room b.max_chunk_size) in
      let ih =
        append_chunks-Appends room (add_chunk false b piece) rest (add64 added (length piece))
          (add_chunk-IsValid b piece v (omega (arith, s)))
          (omega (
            arith,
            s,
            ap length (total-add_chunk b piece),
            length-append (contents b.chunks_vector) piece,
          ))
          (omega (arith, s)) in
      record {
        valid = ih.valid;
        appended =
            ih.appended
            ∙ ap (λ l. l ++ take (room * b.max_chunk_size) rest) (total-add_chunk b piece)
            ∙ append_assoc (contents b.chunks_vector) piece (take (room * b.max_chunk_size) rest)
            ∙ ap (◌++◌ (contents b.chunks_vector)) grown;
        complete =
            ih.complete
            ∙ ap (λ n. leb n (room * b.max_chunk_size)) (length-drop b.max_chunk_size all)
            ∙ leb_sub (length all) b.max_chunk_size (room * b.max_chunk_size)
            ∙ ap (leb (length all)) (suc_mul_comm room b.max_chunk_size);
        count = omega (
          arith,
          ih.count,
          s,
          ap length grown,
          length-append piece (take (room * b.max_chunk_size) rest),
        );
        same_size = ih.same_size;
      }

  append2-mem :
      (fs : FsOps F) (b : BChunks F) (buf : Bytes) (prepend_mode : Bool)
      → b.mmap_container ≡ none
      → append2 fs b buf prepend_mode ≡ append_mem fs prepend_mode b buf
  unfolding append2
  append2-mem fs b buf prepend_mode e = ground arith

  pub append2-chunks :
      (fs : FsOps F) (b : BChunks F) (buf : Bytes) (prepend_mode : Bool)
      → IsValid b
      → b.max_container_size_until_going_to_fs ≡ 0
      → total b.chunks_vector + length buf < u64_mod
      → append2 fs b buf prepend_mode
        ≡ append_chunks (b.max_chunks - length b.chunks_vector) prepend_mode b buf 0
  unfolding append_mem
  append2-chunks fs b buf prepend_mode v mem fits =
      append2-mem fs b buf prepend_mode v.in_memory
      ∙ ground (arith, overflow-none (length buf) b.container_bytes (omega (arith, v.counted)))

  -- Where the container stays in memory, append2 adds the bytes at the end, up to the last chunk
  -- that it may use, and keeps the invariant.
  pub append2-Appends :
      (fs : FsOps F) (b : BChunks F) (buf : Bytes)
      → IsValid b
      → b.max_container_size_until_going_to_fs ≡ 0
      → total b.chunks_vector + length buf < u64_mod
      → Appends (b.max_chunks - length b.chunks_vector) b buf 0 (append2 fs b buf false)
  append2-Appends fs b buf v mem fits =
      rw (append2-chunks fs b buf false v mem fits)
        (append_chunks-Appends (b.max_chunks - length b.chunks_vector) b buf 0 v fits (omega arith))
