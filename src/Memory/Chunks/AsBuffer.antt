-- ===== src/Memory/Chunks/AsBuffer.antt =====
-- B_Chunks as the buffer of a subparser: up to one chunk of bytes is added whole, and it can be
-- emptied.
use mathlib.Core.Path.{subst}
use lib_mantids.Common.{
  ℕ, suc, ◌+◌, ◌-◌, ◌≤◌, ◌<◌, ◌≡◌, refl, sym, ap, ◌∙◌, true, false, List, [], ◌∷◌, ◌++◌, arith,
  Bytes, u64_mod, add64, add64-eq, length, drop, take_all, drop_all, length-append,
}
use lib_mantids.Memory.Chunk.{Chunk}
use lib_mantids.Memory.Chunks.{
  FsOps, BChunks, end_offset, add_chunk, append_chunks, append2, clear2, new,
}
use lib_mantids.Memory.Chunks.Append.{append2-chunks, total-add_chunk, add_chunk-IsValid}
use lib_mantids.Memory.Chunks.Search.Boundaries.{AllSmall}
use lib_mantids.Memory.Chunks.AsContainer.{
  chunks_ops, view, IsSound, chunks_stop, chunks-IsReadable, chunks-IsSearchable,
}
use lib_mantids.Memory.Subparser.Lines.{IsBuffer}

-- A container with the limits that the constructor sets, in which no chunk is empty.
pub record IsFresh {F : Type 0} (b : BChunks F) : Type 0 where
  pub sound : IsSound b
  pub many : b.max_chunks ≡ 262144
  pub large : b.max_chunk_size ≡ 65536
  pub never_to_fs : b.max_container_size_until_going_to_fs ≡ 0
  pub none_empty : length b.chunks_vector ≤ length (view b)

small_end :
    (cs : List Chunk) (c : Chunk) → AllSmall cs → length c.bytes ≤ 65536 → AllSmall (cs ++ c ∷ [])
small_end [] c small h = (h, tt)
small_end (d ∷ cs) c (here, small) h = (here, small_end cs c small h)

append_chunks-one :
    {F : Type 0} (room : ℕ) (b : BChunks F) (buf : Bytes)
    → 0 < length buf
    → length buf ≤ b.max_chunk_size
    → length buf < u64_mod
    → append_chunks (suc room) false b buf 0 ≡ (add_chunk false b buf, (true, length buf))
unfolding append_chunks
append_chunks-one room b [] pos fits bound = absurd (omega arith)
append_chunks-one room b (x ∷ xs) pos fits bound =
    ap
      (λ piece.
        append_chunks room false (add_chunk false b piece) (drop b.max_chunk_size (x ∷ xs))
          (add64 0 (length piece)))
      (take_all b.max_chunk_size (x ∷ xs) fits)
    ∙ ap
        (λ rest.
          append_chunks room false (add_chunk false b (x ∷ xs)) rest (add64 0 (length (x ∷ xs))))
        (drop_all b.max_chunk_size (x ∷ xs) fits)
    ∙ ap (λ n. (add_chunk false b (x ∷ xs), (true, n)))
        (add64-eq 0 (length (x ∷ xs)) (omega arith) ∙ omega arith)

append2-one :
    {F : Type 0} (fs : FsOps F) (b : BChunks F) (buf : Bytes)
    → IsFresh b
    → 0 < length buf
    → length (view b) + length buf ≤ 65536
    → append2 fs b buf false ≡ (add_chunk false b buf, (true, length buf))
append2-one fs b buf f pos fits =
    append2-chunks fs b buf false f.sound.0 f.never_to_fs (omega arith)
    ∙ ap (λ room. append_chunks room false b buf 0) {x = b.max_chunks - length b.chunks_vector}
        {y = suc (b.max_chunks - length b.chunks_vector - 1)} (omega (arith, f.many, f.none_empty))
    ∙ append_chunks-one (b.max_chunks - length b.chunks_vector - 1) b buf pos
        (omega (arith, f.large)) (omega arith)

add_chunk-IsFresh :
    {F : Type 0} (fs : FsOps F) (b : BChunks F) (buf : Bytes)
    → IsFresh b
    → 0 < length buf
    → length (view b) + length buf ≤ 65536
    → IsFresh (add_chunk false b buf) × (view (add_chunk false b buf) ≡ view b ++ buf)
add_chunk-IsFresh fs b buf f pos fits =
    let valid = add_chunk-IsValid b buf f.sound.0 (omega arith) in
    let whole = total-add_chunk b buf in
    (
      record {
        sound = (
          valid,
          small_end b.chunks_vector (record { bytes = buf; offset = end_offset b.chunks_vector })
              f.sound.1 (omega arith),
        );
        many = f.many;
        large = f.large;
        never_to_fs = f.never_to_fs;
        none_empty =
            let longer =
              length-append b.chunks_vector
                (record { bytes = buf; offset = end_offset b.chunks_vector } ∷ []) in
            omega (arith, longer, f.none_empty, ap length whole, length-append (view b) buf);
      },
      whole,
    )

chunks_add :
    {F : Type 0} (fs : FsOps F) (b : BChunks F) (buf : Bytes)
    → IsFresh b
    → 0 < length buf
    → length (view b) + length buf ≤ 65536
    → ((append2 fs b buf false).1 ≡ (true, length buf))
      × IsFresh (append2 fs b buf false).0
      × (view (append2 fs b buf false).0 ≡ view b ++ buf)
chunks_add fs b buf f pos fits =
    let one = append2-one fs b buf f pos fits in
    let (fresh, whole) = add_chunk-IsFresh fs b buf f pos fits in
    (ap (λ q. q.1) one, subst (λ q. IsFresh q.0) (sym one) fresh, ap (λ q. view q.0) one ∙ whole)

chunks_clear :
    {F : Type 0} (c : BChunks F)
    → IsFresh c
    → IsFresh (record (clear2 c) { container_bytes = 0 })
      × (view (record (clear2 c) { container_bytes = 0 }) ≡ [])
unfolding clear2
chunks_clear c f = (
  record {
    sound = (record { offsets = tt; counted = refl; bounded = omega arith; in_memory = refl }, tt);
    many = f.many;
    large = f.large;
    never_to_fs = f.never_to_fs;
    none_empty = omega arith;
  },
  refl,
)

pub new-IsFresh : {F : Type 0} → IsFresh {F = F} new
unfolding new
new-IsFresh = record {
  sound = (record { offsets = tt; counted = refl; bounded = omega arith; in_memory = refl }, tt);
  many = refl;
  large = refl;
  never_to_fs = refl;
  none_empty = omega arith;
}

-- The laws of a buffer, for 65536 bytes.
pub chunks-IsBuffer :
    {F : Type 0} (fs : FsOps F) → IsBuffer (chunks_ops fs) view IsFresh chunks_stop 65536
unfolding chunks_ops
chunks-IsBuffer fs = record {
  searchable = record {
    size_eq = λ c f. (chunks-IsSearchable fs).size_eq c f.sound;
    bounded = λ c f. (chunks-IsSearchable fs).bounded c f.sound;
    stops_at = (chunks-IsSearchable fs).stops_at;
    finds =
        λ c x offset space f whole. (chunks-IsSearchable fs).finds c x offset space f.sound whole;
    compares = λ c buf offset f. (chunks-IsSearchable fs).compares c buf offset f.sound;
  };
  readable = record {
    size_eq = λ c f. (chunks-IsReadable fs).size_eq c f.sound;
    bounded = λ c f. (chunks-IsReadable fs).bounded c f.sound;
    copies = λ c bytes offset f pos le. (chunks-IsReadable fs).copies c bytes offset f.sound pos le;
  };
  small = omega arith;
  adds = λ c buf f pos fits. chunks_add fs c buf f pos fits;
  clears = λ c f. chunks_clear c f;
}
