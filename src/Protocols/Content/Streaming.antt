-- ===== src/Protocols/Content/Streaming.antt =====
-- stream in chunks of a content that stands in two chunks of memory or more: the message ends as it
-- should, and holds the first chunk alone.
use lib_mantids.Common.{
  ℕ, ◌+◌, ◌<◌, ◌≡◌, sym, ap, ◌∙◌, Bool, true, Option, some, List, [], ◌∷◌, ◌++◌, append_assoc,
  arith, Bytes, Outcome, u64_mod, length,
}
use lib_mantids.Memory.Streams.{StreamOps}
use lib_mantids.Memory.Streams.FullWrite.{Takes}
use lib_mantids.Memory.Container.{Container}
use lib_mantids.Memory.Container.ToStream.{stream_to}
use lib_mantids.Memory.Chunk.{Chunk}
use lib_mantids.Memory.Chunks.{FsOps, BChunks, contents}
use lib_mantids.Memory.Chunks.CopyOut.{IsValid}
use lib_mantids.Memory.Chunks.AsContainer.{chunks_ops}
use lib_mantids.Memory.Chunks.ToStream.{copy_to2}
use lib_mantids.Protocols.Chunked.{ChunkedWriter, strhex, writer_ops, end_buffer}
use lib_mantids.Protocols.Chunked
use lib_mantids.Protocols.Chunked.Cut.{chunks-FirstOnly}
use lib_mantids.Protocols.Chunked.Framed.{last_text, framed}
use lib_mantids.Protocols.Chunked.Sending.{send, send-framed}
use lib_mantids.Protocols.Content.{transmit_chunks, stream}

module _ {S A : Type 0} (ops : StreamOps S) (view_of : S → A) (run : A → Bytes → A)
    (Inv : S → Type 0) (run-nil : (a : A) → run a [] ≡ a)
    (run-append : (a : A) (xs ys : Bytes) → run a (xs ++ ys) ≡ run (run a xs) ys)
    (step : (buf : Bytes) (s : S)
      → 0 < length buf
      → length buf < u64_mod
      → Inv s
      → Takes S A view_of run Inv buf s (ops.write buf s))
    (failed_write_state : S → ℕ) (healthy : (s : S) → failed_write_state s ≡ 0) where
  stream-eq :
      (to_writer : ChunkedWriter S → Option (Bool × ChunkedWriter S))
      (to_up : S → Option (Bool × S)) (up : S) (w w' : ChunkedWriter S)
      → to_writer (Chunked.new up) ≡ some (true, w)
      → end_buffer ops w ≡ some (true, w')
      → stream ops to_writer to_up failed_write_state transmit_chunks up ≡ some (true, w'.dst)
  unfolding stream
  stream-eq to_writer to_up up w w' sent finished = rw (sent, stream, finished, healthy w.dst)

  ended_buffer :
      (w : ChunkedWriter S)
      → w.pos + 64 < u64_mod
      → Inv w.dst
      → (after : ChunkedWriter S) × (end_buffer ops w ≡ some (true, after))
        × (view_of after.dst ≡ run (view_of w.dst) (last_text w.pos))
  unfolding send framed
  ended_buffer w bound inv =
      send-framed ops view_of run Inv run-nil run-append step [] w (omega arith) inv

  framed-one :
      (a : A) (c : Bytes) (pos : ℕ)
      → pos ≡ 0 + length c
      → run (run a (strhex 0 (length c) ++ c)) (last_text pos) ≡ run a (framed 0 (c ∷ []))
  unfolding framed
  framed-one a c pos e =
      sym (run-append a (strhex 0 (length c) ++ c) (last_text pos))
      ∙ ap (run a) (
          append_assoc (strhex 0 (length c)) c (last_text pos)
          ∙ ap (λ n. strhex 0 (length c) ++ (c ++ last_text n)) e)

  module _ {F : Type 0} (fs : FsOps F)
      (file_append_to : F → ℕ → ℕ → ChunkedWriter S → Option (Outcome × ChunkedWriter S)) where
    -- stream in chunks answers that all is sent, where outStream is a container of chunks in memory
    -- of which the first is not empty and not the whole, and upStream takes all it is given and never
    -- fails; what it has sent is the whole text of another content, which is that first chunk.
    pub stream-first :
        (b : Container (BChunks F)) (c : Chunk) (cs : List Chunk) (to_up : S → Option (Bool × S))
        (up : S)
        → IsValid b.object
        → b.object.chunks_vector ≡ c ∷ cs
        → 0 < length c.bytes
        → length c.bytes < length (contents b.object.chunks_vector)
        → length c.bytes + 64 < u64_mod
        → Inv up
        → (after : S) × (stream ops
              (stream_to
                (chunks_ops fs)
                (copy_to2 fs file_append_to (writer_ops ops))
                (λ succeed x. some x)
                b)
              to_up
              failed_write_state
              transmit_chunks
              up
            ≡ some (true, after))
          × (view_of after ≡ run (view_of up) (framed 0 (c.bytes ∷ [])))
    stream-first b c cs to_up up v e pos more bound inv =
        let t =
          chunks-FirstOnly ops view_of run Inv run-nil run-append step fs file_append_to b c cs
            (Chunked.new up) v e pos more bound (omega arith) inv in
        let moved = t.moved in
        let (last, finished, carried) = ended_buffer t.after (omega arith) t.invariant in
        (
          last.dst,
          stream-eq
              (stream_to (chunks_ops fs) (copy_to2 fs file_append_to (writer_ops ops))
                (λ succeed x. some x) b)
              to_up up t.after last t.returns finished,
          carried
              ∙ ap (λ a. run a (last_text t.after.pos)) t.carried
              ∙ framed-one (view_of up) c.bytes t.after.pos t.moved,
        )
