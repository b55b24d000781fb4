-- ===== src/Memory/Chunks/Prepend.antt =====
-- append2 in its prepend mode: each piece goes in front of the pieces before it, so what is longer
-- than one chunk ends up with its pieces in reverse.
use lib_mantids.Common.{
  ℕ, zero, suc, ◌+◌, ◌-◌, ◌≤◌, ◌<◌, ◌≡◌, refl, sym, ap, ◌∙◌, true, [], ◌∷◌, ◌++◌, append_assoc,
  arith, length, take, drop, length-drop, take_nil, take_all, drop_all, drop_nil, Bytes, u64_mod,
  add64,
}
use lib_mantids.Memory.Chunks.{FsOps, BChunks, contents, add_chunk, append_chunks, append2}
use lib_mantids.Memory.Chunks.Offsets.{total}
use lib_mantids.Memory.Chunks.CopyOut.{IsValid}
use lib_mantids.Memory.Chunks.Append.{append2-chunks}
use lib_mantids.Memory.Chunks.Displace.{recalc-contents}

-- The pieces of `buf`, of `size` bytes each and at most `room` of them, last piece first.
abbrev pub backwards : ℕ → ℕ → Bytes → Bytes
backwards zero size buf = []
backwards (suc room) size buf = backwards room size (drop size buf) ++ take size buf

backwards_nil : (room size : ℕ) → backwards room size [] ≡ []
backwards_nil zero size = refl
backwards_nil (suc room) size =
    rw (drop_nil {A = ℕ} size, take_nil {A = ℕ} size, backwards_nil room size)

backwards_one :
    (room size : ℕ) (buf : Bytes) → 0 < room → length buf ≤ size → backwards room size buf ≡ buf
backwards_one zero size buf p h = absurd (omega arith)
backwards_one (suc room) size buf p h =
    rw (drop_all size buf h, take_all size buf h, backwards_nil room size)

backwards_two :
    (room size : ℕ) (buf : Bytes)
    → 1 < room
    → length buf ≤ size + size
    → backwards room size buf ≡ drop size buf ++ take size buf
backwards_two zero size buf p h = absurd (omega arith)
backwards_two (suc room) size buf p h =
    ap (λ l. l ++ take size buf)
      (backwards_one room size (drop size buf) (omega arith) (omega (arith, length-drop size buf)))

module _ {F : Type 0} where
  append_chunks-backwards :
      (room : ℕ) (b : BChunks F) (buf : Bytes) (added : ℕ)
      → contents (append_chunks room true b buf added).0.chunks_vector
        ≡ backwards room b.max_chunk_size buf ++ contents b.chunks_vector
  unfolding append_chunks
  append_chunks-backwards room b [] added =
      recalc-contents b.chunks_vector
      ∙ ap (λ l. l ++ contents b.chunks_vector) (sym (backwards_nil room b.max_chunk_size))
  append_chunks-backwards zero b (x ∷ buf) added = refl
  append_chunks-backwards (suc room) b (x ∷ buf) added =
      let m = b.max_chunk_size in
      let all : Bytes = x ∷ buf in
      append_chunks-backwards room (add_chunk true b (take m all)) (drop m all)
        (add64 added (length (take m all)))
      ∙ sym (append_assoc (backwards room m (drop m all)) (take m all) (contents b.chunks_vector))

  module _ (fs : FsOps F) (b : BChunks F) (buf : Bytes) (v : IsValid b)
      (mem : b.max_container_size_until_going_to_fs ≡ 0)
      (fits : total b.chunks_vector + length buf < u64_mod) where
    prepended-backwards :
        contents (append2 fs b buf true).0.chunks_vector
        ≡ backwards (b.max_chunks - length b.chunks_vector) b.max_chunk_size buf
          ++ contents b.chunks_vector
    prepended-backwards =
        rw (append2-chunks fs b buf true v mem fits)
          (append_chunks-backwards (b.max_chunks - length b.chunks_vector) b buf 0)

    -- What fits one chunk goes in front of the bytes that are there.
    pub prepend_one_chunk :
        length buf ≤ b.max_chunk_size
        → length b.chunks_vector < b.max_chunks
        → contents (append2 fs b buf true).0.chunks_vector ≡ buf ++ contents b.chunks_vector
    prepend_one_chunk short room =
        prepended-backwards
        ∙ ap (λ l. l ++ contents b.chunks_vector)
            (backwards_one (b.max_chunks - length b.chunks_vector) b.max_chunk_size buf
              (omega arith) short)

    -- What takes two chunks at most ends up with the part behind the first chunk in front.
    pub prepend_two_chunks :
        length buf ≤ b.max_chunk_size + b.max_chunk_size
        → length b.chunks_vector + 1 < b.max_chunks
        → contents (append2 fs b buf true).0.chunks_vector
          ≡ drop b.max_chunk_size buf ++ (take b.max_chunk_size buf ++ contents b.chunks_vector)
    prepend_two_chunks short room =
        prepended-backwards
        ∙ ap (λ l. l ++ contents b.chunks_vector)
            (backwards_two (b.max_chunks - length b.chunks_vector) b.max_chunk_size buf
              (omega arith) short)
        ∙ append_assoc (drop b.max_chunk_size buf) (take b.max_chunk_size buf)
            (contents b.chunks_vector)
