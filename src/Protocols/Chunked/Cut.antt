-- ===== src/Protocols/Chunked/Cut.antt =====
-- streamTo of a container of chunks into the writer. copyToSOUsingCleanVector goes on only while each
-- write reports the bytes of its piece, and the writer reports those of the size too.
use lib_mantids.Common.{
  ℕ, ◌+◌, ◌-◌, ◌%◌, ◌^◌, ◌<◌, ◌≡◌, refl, ap, ◌∙◌, true, false, Option, some, List, [], ◌∷◌, ◌++◌,
  arith, Bytes, Outcome, u64_mod, u64_max, add64-eq, ◌==◌, length, le→ltb-false, length-append,
  take_all,
}
use lib_mantids.Helpers.Numbers.{print_hex}
use lib_mantids.Memory.Streams.{StreamOps, wrote, write_full_stream}
use lib_mantids.Memory.Streams.FullWrite.{Takes, no_round, one_round}
use lib_mantids.Memory.Container.{Container}
use lib_mantids.Memory.Container.ToStream.{append_to, copy_to_so, stream_to}
use lib_mantids.Memory.Container.ToStream.Whole.{asked_whole, append_to-within}
use lib_mantids.Memory.Chunk.{Chunk}
use lib_mantids.Memory.Chunks.{FsOps, BChunks, contents}
use lib_mantids.Memory.Chunks.CopyOut.{IsValid}
use lib_mantids.Memory.Chunks.Search.{reach}
use lib_mantids.Memory.Chunks.AsContainer.{chunks_ops, view}
use lib_mantids.Memory.Chunks.Search.Boundaries.{size-total}
use lib_mantids.Memory.Chunks.ToStream.{cut_chunks, copy_to2}
use lib_mantids.Memory.Chunks.ToStream.Whole.{copy_to2-eq}
use lib_mantids.Protocols.Chunked.{ChunkedWriter, crlf, strhex, write, writer_ops}
use lib_mantids.Protocols.Chunked.Sending.{write-Sends, length-strhex}

strhex_pos : (pos n : ℕ) → 0 < length (strhex pos n)
unfolding strhex
strhex_pos pos n = ground (arith, length-append (print_hex (n % 2 ^ 32)) crlf)

reach_short : (bytes : Bytes) (left : ℕ) → length bytes < left → reach bytes left ≡ length bytes
unfolding reach
reach_short bytes left h = ground arith

-- The first piece of a container of two chunks or more is its first chunk.
cut_chunks-cons :
    (c : Chunk) (cs : List Chunk) (left : ℕ)
    → length c.bytes < left
    → cut_chunks (c ∷ cs) 0 left ≡ c.bytes ∷ cut_chunks cs 0 (left - length c.bytes)
unfolding cut_chunks
cut_chunks-cons c cs left more =
    let n = length c.bytes in
    let whole : reach c.bytes left ≡ n = reach_short c.bytes left more in
    let more_left : (left - n == 0) ≡ false = ground arith in
    rw (le→ltb-false n 0 (omega arith), whole, more_left, take_all n c.bytes (omega arith))

module _ {S A : Type 0} (ops : StreamOps S) (view_of : S → A) (run : A → Bytes → A)
    (Inv : S → Type 0) (run-nil : (a : A) → run a [] ≡ a)
    (run-append : (a : A) (xs ys : Bytes) → run a (xs ++ ys) ≡ run (run a xs) ys)
    (step : (buf : Bytes) (s : S)
      → 0 < length buf
      → length buf < u64_mod
      → Inv s
      → Takes S A view_of run Inv buf s (ops.write buf s)) where
  write_full_stream-once :
      (piece : Bytes) (w after : ChunkedWriter S) (n : ℕ)
      → 0 < length piece
      → n + length piece < u64_mod
      → write ops piece w ≡ some (wrote (n + length piece), after)
      → write_full_stream (writer_ops ops) piece w ≡ some (wrote (n + length piece), after)
  unfolding write_full_stream
  write_full_stream-once [] w after n pos bound e = absurd (omega arith)
  write_full_stream-once (x ∷ xs) w after n pos bound e =
      one_round (writer_ops ops) (length xs) 0 (n + length (x ∷ xs)) (x ∷ xs) w after (omega arith)
        (omega arith) e
      ∙ no_round (writer_ops ops) (length xs) (0 + (n + length (x ∷ xs))) (x ∷ xs) after
          (omega arith)
      ∙ ap (λ k. some (wrote k, after)) (omega arith)

  copy_to_so-first :
      (piece : Bytes) (pieces : List Bytes) (w after : ChunkedWriter S) (n : ℕ)
      → 0 < n
      → n + length piece < u64_mod
      → write_full_stream (writer_ops ops) piece w ≡ some (wrote (n + length piece), after)
      → copy_to_so (writer_ops ops) (piece ∷ pieces) w 0 ≡ some (n + length piece, after)
  unfolding copy_to_so
  copy_to_so-first piece pieces w after n more bound e =
      let longer : (n + length piece == length piece) ≡ false = ground arith in
      rw (e, copy_to_so, longer)
        (ap (λ k. some (k, after)) (add64-eq 0 (n + length piece) (omega arith) ∙ omega arith))

  module _ {F : Type 0} (fs : FsOps F)
      (file_append_to : F → ℕ → ℕ → ChunkedWriter S → Option (Outcome × ChunkedWriter S)) where
    copy_to2-first :
        (b : BChunks F) (c : Chunk) (cs : List Chunk) (w after : ChunkedWriter S) (k n : ℕ)
        → IsValid b
        → b.chunks_vector ≡ c ∷ cs
        → n ≡ length (contents b.chunks_vector)
        → length c.bytes < n
        → ((pieces : List Bytes)
            → copy_to_so (writer_ops ops) (c.bytes ∷ pieces) w 0 ≡ some (k, after))
        → copy_to2 fs file_append_to (writer_ops ops) b n 0 w ≡ some ((true, k), after)
    copy_to2-first b c cs w after k n v e whole more sent =
        copy_to2-eq fs file_append_to (writer_ops ops) b n 0 k w after v (omega arith) (omega arith)
          (ap (λ chunks. copy_to_so (writer_ops ops) (cut_chunks chunks 0 n) w 0) e
            ∙ ap (λ pieces. copy_to_so (writer_ops ops) pieces w 0) (cut_chunks-cons c cs n more)
            ∙ sent (cut_chunks cs 0 (n - length c.bytes)))

    stream_to-eq :
        (b : Container (BChunks F)) (w after : ChunkedWriter S) (k : ℕ)
        → append_to (chunks_ops fs) (copy_to2 fs file_append_to (writer_ops ops)) b u64_max 0 w
          ≡ some ((true, k), after)
        → stream_to
            (chunks_ops fs)
            (copy_to2 fs file_append_to (writer_ops ops))
            (λ succeed x. some x)
            b
            w
          ≡ some (true, after)
    unfolding stream_to
    stream_to-eq b w after k e = rw (e, stream_to)

    append_to-all :
        (b : Container (BChunks F)) (w : ChunkedWriter S)
        → IsValid b.object
        → 0 < length (view b.object)
        → append_to (chunks_ops fs) (copy_to2 fs file_append_to (writer_ops ops)) b u64_max 0 w
          ≡ copy_to2 fs file_append_to (writer_ops ops) b.object (length (view b.object)) 0 w
    unfolding chunks_ops
    append_to-all b w v more =
        let bound = v.bounded in
        let counted = v.counted in
        let whole = size-total fs b.object v in
        append_to-within (chunks_ops fs) (copy_to2 fs file_append_to (writer_ops ops)) b u64_max 0
          (length (view b.object)) w (asked_whole (chunks_ops fs) b ∙ ap some whole) more
          (omega (arith, whole)) (omega (arith, whole))

    -- What the writer has been sent of such a container: the first chunk.
    pub record FirstOnly (b : Container (BChunks F)) (c : Bytes) (w : ChunkedWriter S)
        : Type 0 where
      pub after : ChunkedWriter S
      pub returns :
          stream_to
            (chunks_ops fs)
            (copy_to2 fs file_append_to (writer_ops ops))
            (λ succeed x. some x)
            b
            w
          ≡ some (true, after)
      pub carried : view_of after.dst ≡ run (view_of w.dst) (strhex w.pos (length c) ++ c)
      pub moved : after.pos ≡ w.pos + length c
      pub invariant : Inv after.dst

    -- streamTo of a container of chunks in memory, of which the first is not empty and not the whole,
    -- into the writer.
    pub chunks-FirstOnly :
        (b : Container (BChunks F)) (c : Chunk) (cs : List Chunk) (w : ChunkedWriter S)
        → IsValid b.object
        → b.object.chunks_vector ≡ c ∷ cs
        → 0 < length c.bytes
        → length c.bytes < length (contents b.object.chunks_vector)
        → length c.bytes + 64 < u64_mod
        → w.pos + length c.bytes < u64_mod
        → Inv w.dst
        → FirstOnly b c.bytes w
    chunks-FirstOnly b c cs w v e pos more bound far inv =
        let t = write-Sends ops view_of run Inv run-nil run-append step c.bytes w bound far inv in
        let n = length (strhex w.pos (length c.bytes)) in
        let short = length-strhex w.pos (length c.bytes) in
        let k = n + length c.bytes in
        record {
          after = t.after;
          returns = stream_to-eq b w t.after k (
              append_to-all b w v (omega arith)
              ∙ copy_to2-first b.object c cs w t.after k (length (view b.object)) v e refl more
                  (λ pieces.
                    copy_to_so-first c.bytes pieces w t.after n (strhex_pos w.pos (length c.bytes))
                      (omega arith)
                      (write_full_stream-once c.bytes w t.after n pos (omega arith) t.returns)));
          carried = t.carried;
          moved = t.moved;
          invariant = t.invariant;
        }
