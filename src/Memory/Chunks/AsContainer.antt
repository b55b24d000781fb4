-- ===== src/Memory/Chunks/AsContainer.antt =====
-- B_Chunks as a B_Base: the virtual operations of the chunks, and that the operations of the base
-- read and search the bytes of the chunks one after the other.
use lib_mantids.Common.{
  ℕ, ◌+◌, ◌-◌, ◌*◌, ◌≤◌, ◌<◌, ◌≡◌, refl, sym, ap, ◌∙◌, inl, inr, Bool, true, false, some, [], ◌∷◌,
  ◌++◌, append-nil, arith, Bytes, Outcome, first_index, first_match, report, u64_mod, if◌then◌else◌,
  Bool-cases, length, take, drop, take_all, length-drop,
}
use lib_mantids.Memory.Container.{ContainerOps, Container, append, to_string, find}
use lib_mantids.Memory.Container.Guards.{has_room, append_refused, append_empty, append_passed}
use lib_mantids.Memory.Container.Reading.{slice, IsReadable, to_string-slice}
use lib_mantids.Memory.Container.Searching.{IsSearchable, begins, find-first_match}
use lib_mantids.Memory.Chunks.{
  FsOps, BChunks, contents, size, append2, truncate2, displace2, clear2, copy_out2,
}
use lib_mantids.Memory.Chunks.CopyOut.{IsValid, copy_out2-eq-take}
use lib_mantids.Memory.Chunks.Append.{append2-Appends}
use lib_mantids.Memory.Chunks.Search.{is_letter, find_char, compare2}
use lib_mantids.Memory.Chunks.Search.Boundaries.{AllSmall, size-total, compare2-all_same}
use lib_mantids.Memory.Chunks.Search.Positions.{wanted, find_char-first_index}

-- The counter that the base clears is the chunks' own.
unfoldable pub chunks_ops : {F : Type 0} → FsOps F → ContainerOps (BChunks F)
chunks_ops fs = record {
  size = size fs;
  append2 = append2 fs;
  truncate2 = truncate2 fs;
  displace2 = displace2 fs;
  clear2 = λ b. (record (clear2 b) { container_bytes = 0 }, true);
  copy_out2 = copy_out2 fs;
  find_char = find_char fs;
  compare2 = compare2 fs;
}

abbrev pub view : {F : Type 0} → BChunks F → Bytes
view b = contents b.chunks_vector

-- A valid container in memory, in which no chunk is above the size of a block.
abbrev pub IsSound : {F : Type 0} → BChunks F → Type 0
IsSound b = IsValid b × AllSmall b.chunks_vector

-- Where findChar of the chunks stops.
unfoldable pub chunks_stop : ℕ → ℕ → Bool
unfolding wanted
chunks_stop c = wanted (is_letter c) c

chunks_stop_self : (x : ℕ) → chunks_stop x x ≡ true
unfolding chunks_stop wanted
chunks_stop_self x = ground arith

copies_lem :
    {F : Type 0} (fs : FsOps F) (c : BChunks F) (bytes offset : ℕ)
    → IsSound c
    → 0 < bytes
    → offset + bytes ≤ length (view c)
    → copy_out2 fs c bytes offset ≡ ((true, bytes), take bytes (drop offset (view c)))
copies_lem fs c bytes offset (v, small) pos le =
    copy_out2-eq-take fs c bytes offset v (omega (arith, v.bounded, v.counted))
      (omega (arith, v.bounded, v.counted))
    ∙ ground arith

finds_lem :
    {F : Type 0} (fs : FsOps F) (c : BChunks F) (x offset space : ℕ)
    → IsSound c
    → offset + space ≡ length (view c)
    → find_char fs c x offset space true
      ≡ report offset (first_index (chunks_stop x) (drop offset (view c)))
unfolding chunks_stop
finds_lem fs c x offset space (v, small) whole =
    find_char-first_index fs c x offset space true v (omega arith)
    ∙ ap (λ l. report offset (first_index (wanted (is_letter x) x) l))
        (take_all space (drop offset (view c)) (omega (arith, length-drop offset (view c))))

pub chunks-IsReadable : {F : Type 0} (fs : FsOps F) → IsReadable (chunks_ops fs) view IsSound
unfolding chunks_ops
chunks-IsReadable fs = record {
  size_eq = λ c s. size-total fs c s.0;
  bounded = λ c s. omega (arith, s.0.bounded, s.0.counted);
  copies = λ c bytes offset s pos le. copies_lem fs c bytes offset s pos le;
}

pub chunks-IsSearchable :
    {F : Type 0} (fs : FsOps F) → IsSearchable (chunks_ops fs) view IsSound chunks_stop
unfolding chunks_ops chunks_stop
chunks-IsSearchable fs = record {
  size_eq = λ c s. size-total fs c s.0;
  bounded = λ c s. omega (arith, s.0.bounded, s.0.counted);
  stops_at = chunks_stop_self;
  finds = λ c x offset space s whole. finds_lem fs c x offset space s whole;
  compares = λ c buf offset s hb ho. compare2-all_same fs c buf true offset s.0 s.1 hb ho;
}

-- toString of a container of chunks is the part of its bytes that is asked for.
pub chunks-to_string :
    {F : Type 0} (fs : FsOps F) (b : Container (BChunks F)) (bytes offset : ℕ)
    → IsSound b.object
    → to_string (chunks_ops fs) b bytes offset ≡ slice bytes offset (view b.object)
chunks-to_string fs b bytes offset sound =
    to_string-slice (chunks_ops fs) view IsSound (chunks-IsReadable fs) b bytes offset sound

-- find in a container of chunks, with the case of letters and over the whole of the rest, reports the
-- first place of the needle, and false where there is none.
pub chunks-find :
    {F : Type 0} (fs : FsOps F) (b : Container (BChunks F)) (needle : Bytes) (offset : ℕ)
    → IsSound b.object
    → 0 < length needle
    → offset + length needle ≤ length (view b.object)
    → find (chunks_ops fs) b needle true offset 0
      ≡ some (report offset (first_match (begins needle) (drop offset (view b.object))))
chunks-find fs b needle offset sound pos fits =
    find-first_match (chunks_ops fs) view IsSound chunks_stop (chunks-IsSearchable fs) b needle
      offset sound pos fits

outcome_of : (o : Outcome) (k : ℕ) → o.0 ≡ true → o.1 ≡ k → o ≡ (true, k)
outcome_of (b, n) k e f = ground (arith, e, f)

-- append on a container of chunks that stays in memory and has the chunks for the bytes: it refuses
-- all of them where it is read only or they pass its limit, and else adds all of them at the end.
pub chunks-append :
    {F : Type 0} (fs : FsOps F) (b : Container (BChunks F)) (buf : Bytes)
    → IsValid b.object
    → b.object.max_container_size_until_going_to_fs ≡ 0
    → length (view b.object) + length buf < u64_mod
    → length buf ≤ (b.object.max_chunks - length b.object.chunks_vector) * b.object.max_chunk_size
    → let r = append (chunks_ops fs) b buf in
      let ok = has_room (chunks_ops fs) b buf in
      (r.1 ≡ (ok, if ok then length buf else 0))
      × (view r.0.object ≡ view b.object ++ (if ok then buf else []))
unfolding chunks_ops
chunks-append fs b [] v mem fits room = elim (Bool-cases (has_room (chunks_ops fs) b [])) [
  | inr full ↦
      rw (append_refused (chunks_ops fs) b [] full, full) (refl, sym (append-nil (view b.object)))
  | inl free ↦
      rw
        (
          append_empty (chunks_ops fs) b
              (omega (arith, size-total fs b.object v, v.bounded, v.counted)) free,
          free,
        )
        (refl, sym (append-nil (view b.object)))
]
chunks-append fs b (x ∷ xs) v mem fits room =
    let buf = x ∷ xs in
    let r = append2-Appends fs b.object buf v mem fits in
    let n = (b.object.max_chunks - length b.object.chunks_vector) * b.object.max_chunk_size in
    elim (Bool-cases (has_room (chunks_ops fs) b buf)) [
      | inr full ↦
          rw (append_refused (chunks_ops fs) b buf full, full)
            (refl, sym (append-nil (view b.object)))
      | inl free ↦
          let whole = take_all n buf room in
          rw
            (
              append_passed (chunks_ops fs) b buf (omega (arith, size-total fs b.object v))
                  (omega arith) free,
              free,
            )
            (
              outcome_of (append2 fs b.object buf false).1 (length buf)
                  (r.complete ∙ ground (arith, room)) (r.count ∙ omega (arith, ap length whole)),
              r.appended ∙ ap (λ l. view b.object ++ l) whole,
            )
    ]
