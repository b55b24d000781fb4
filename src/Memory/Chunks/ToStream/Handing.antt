-- ===== src/Memory/Chunks/ToStream/Handing.antt =====
-- appendTo and copyTo2 over a stream that takes all it is given.
use mathlib.Core.Path.{subst}
use lib_mantids.Common.{
  ℕ, zero, suc, ◌+◌, ◌-◌, ◌≤◌, ◌<◌, ◌≡◌, refl, sym, ap, ◌∙◌, ◌⊎◌, inl, inr, true, Option, some,
  List, [], ◌∷◌, ◌++◌, append-nil, arith, Bytes, Outcome, u64_mod, u64_max, add64-eq, overflow-none,
  ltb, ◌==◌, if◌then◌else◌, Bool-cases, le→ltb-false, lt→ltb, lt_or_le, length, take, drop,
  take_all, drop_past, drop_within, take_within, take_past, take_nil, drop_nil, length-append,
  length-take, length-drop,
}
use lib_mantids.Memory.Streams.{StreamOps}
use lib_mantids.Memory.Streams.FullWrite.{Takes, write_full_stream-TakesAll}
use lib_mantids.Memory.Container.{Container, asked}
use lib_mantids.Memory.Container.ToStream.{append_to, copy_to_so}
use lib_mantids.Memory.Chunk.{Chunk}
use lib_mantids.Memory.Chunks.{FsOps, BChunks, contents}
use lib_mantids.Memory.Chunks.CopyOut.{IsValid}
use lib_mantids.Memory.Chunks.Search.{reach}
use lib_mantids.Memory.Chunks.Search.Boundaries.{size-total, reach_short, reach_long}
use lib_mantids.Memory.Chunks.ToStream.Whole.{copy_to2-eq}
use lib_mantids.Memory.Chunks.AsContainer.{chunks_ops, view}
use lib_mantids.Memory.Chunks.ToStream.{cut_chunks, copy_to2}

abbrev pub joined : List Bytes → Bytes
joined [] = []
joined (piece ∷ pieces) = piece ++ joined pieces

reach-take :
    (current xs : Bytes) (left : ℕ)
    → take left (current ++ xs)
      ≡ take (reach current left) current ++ take (left - reach current left) xs
reach-take current xs left = elim (lt_or_le (length current) left) [
  | inl short ↦
      rw (reach_short current left short, take_all (length current) current (omega arith))
        (take_past left current xs (omega arith))
  | inr long ↦
      rw (reach_long current left long, take_within left current xs long)
        (sym (append-nil (take left current))
          ∙ ap (λ n. take left current ++ take n xs) {x = 0} {y = left - left} (omega arith))
]

same_test : (n : ℕ) → (n == n) ≡ true
same_test n = ground arith

nothing_left : (n : ℕ) → (n == 0) ≡ true → n ≡ 0
nothing_left n e = ground arith

joined-cut_chunks :
    (cs : List Chunk) (offset left : ℕ)
    → joined (cut_chunks cs offset left) ≡ take left (drop offset (contents cs))
unfolding cut_chunks
joined-cut_chunks [] offset left = rw (drop_nil offset, take_nil left)
joined-cut_chunks (c ∷ cs) offset left = elim (lt_or_le (length c.bytes) offset) [
  | inl past ↦
      rw (lt→ltb (length c.bytes) offset past, drop_past offset c.bytes (contents cs) (omega arith))
        (joined-cut_chunks cs (offset - length c.bytes) left)
  | inr within ↦
      let current = drop offset c.bytes in
      let k = reach current left in
      let split = reach-take current (contents cs) left in
      elim (Bool-cases (left - k == 0)) [
        | inl done ↦
            rw
              (
                le→ltb-false (length c.bytes) offset within,
                done,
                drop_within offset c.bytes (contents cs) within,
                split,
              )
              (ap (λ n. take k current ++ take n (contents cs)) {x = 0} {y = left - k}
                (sym (nothing_left (left - k) done)))
        | inr more ↦ rw (
          le→ltb-false (length c.bytes) offset within,
          more,
          drop_within offset c.bytes (contents cs) within,
          split,
          joined-cut_chunks cs 0 (left - k),
        )
      ]
]

module _ {S A : Type 0} (stream : StreamOps S) (view_of : S → A) (run : A → Bytes → A)
    (Inv : S → Type 0) (run-nil : (a : A) → run a [] ≡ a)
    (run-append : (a : A) (xs ys : Bytes) → run a (xs ++ ys) ≡ run (run a xs) ys)
    (step : (buf : Bytes) (s : S)
      → 0 < length buf
      → length buf < u64_mod
      → Inv s
      → Takes S A view_of run Inv buf s (stream.write buf s)) where
  -- The stream has all of the pieces.
  pub record Sent (text : Bytes) (s : S) (r : Option (ℕ × S)) (acum : ℕ) : Type 0 where
    pub after : S
    pub returns : r ≡ some (acum + length text, after)
    pub carried : view_of after ≡ run (view_of s) text
    pub invariant : Inv after

  pub copy_to_so-Sent :
      (pieces : List Bytes) (s : S) (acum : ℕ)
      → acum + length (joined pieces) < u64_mod
      → Inv s
      → Sent (joined pieces) s (copy_to_so stream pieces s acum) acum
  unfolding copy_to_so
  copy_to_so-Sent [] s acum bound inv = record {
    after = s;
    returns = ap (λ n. some (n, s)) (omega arith);
    carried = sym (run-nil (view_of s));
    invariant = inv;
  }
  copy_to_so-Sent (piece ∷ pieces) s acum bound inv =
      let long = length-append piece (joined pieces) in
      let first =
        write_full_stream-TakesAll stream view_of run Inv run-nil run-append step piece s
          (omega arith) inv in
      let n = length piece in
      let rest = copy_to_so-Sent pieces first.after (acum + n) (omega arith) first.invariant in
      record {
        after = rest.after;
        returns =
            rw (first.returns, copy_to_so, add64-eq acum n (omega arith), same_test n, rest.returns)
              (ap (λ k. some (k, rest.after)) (omega arith));
        carried =
            rest.carried
            ∙ ap (λ a. run a (joined pieces)) first.carried
            ∙ sym (run-append (view_of s) piece (joined pieces));
        invariant = rest.invariant;
      }

  -- The call hands a text to the stream, and reports its length.
  pub record Handed (text : Bytes) (s : S) (r : Option (Outcome × S)) : Type 0 where
    pub after : S
    pub returns : r ≡ some ((true, length text), after)
    pub carried : view_of after ≡ run (view_of s) text
    pub invariant : Inv after

  nothing-Handed :
      (s : S) (r : Option (Outcome × S)) → Inv s → r ≡ some ((true, 0), s) → Handed [] s r
  nothing-Handed s r inv e = record {
    after = s;
    returns = e;
    carried = sym (run-nil (view_of s));
    invariant = inv;
  }

  module _ {F : Type 0} (fs : FsOps F) (file_append_to : F → ℕ → ℕ → S → Option (Outcome × S)) where
    pub copy_to2-Handed :
        (b : BChunks F) (n offset : ℕ) (s : S)
        → IsValid b
        → offset + n ≤ length (contents b.chunks_vector)
        → Inv s
        → Handed
            (take n (drop offset (contents b.chunks_vector)))
            s
            (copy_to2 fs file_append_to stream b n offset s)
    unfolding copy_to2
    copy_to2-Handed b zero offset s v fits inv =
        nothing-Handed s (copy_to2 fs file_append_to stream b 0 offset s) inv
          (rw (v.in_memory, copy_to2))
    copy_to2-Handed b (suc m) offset s v fits inv =
        let n = suc m in
        let text = contents b.chunks_vector in
        let joins = joined-cut_chunks b.chunks_vector offset n in
        let long : length (take n (drop offset text)) ≡ n =
          omega (arith, length-take n (drop offset text), length-drop offset text) in
        let bound : length text < u64_mod = omega (arith, v.bounded, v.counted) in
        let sent =
          copy_to_so-Sent (cut_chunks b.chunks_vector offset n) s 0 (omega (arith, ap length joins))
            inv in
        record {
          after = sent.after;
          returns =
              copy_to2-eq fs file_append_to stream b n offset
                (0 + length (joined (cut_chunks b.chunks_vector offset n))) s sent.after v fits
                (omega arith) sent.returns
              ∙ ap (λ k. some ((true, k), sent.after)) (omega (arith, ap length joins));
          carried = sent.carried ∙ ap (run (view_of s)) joins;
          invariant = sent.invariant;
        }

    -- The number of bytes that appendTo resolves, and what they stand for.
    asked-part :
        (b : Container (BChunks F)) (bytes offset : ℕ)
        → IsValid b.object
        → offset ≤ length (view b.object)
        → (bytes ≡ u64_max) ⊎ (offset + bytes < u64_mod)
        → (n : ℕ) × (asked (chunks_ops fs) b bytes offset ≡ some n)
          × (take n (drop offset (view b.object)) ≡ take bytes (drop offset (view b.object)))
          × (offset + n < u64_mod)
    unfolding asked chunks_ops
    asked-part b bytes offset v within small =
        let xs = view b.object in
        let rest = drop offset xs in
        let left = length-drop offset xs in
        let bound : length xs < u64_mod = omega (arith, v.bounded, v.counted) in
        elim (Bool-cases (bytes == u64_max)) [
          | inl e ↦ (
            length xs - offset,
            rw (e, size-total fs b.object v, le→ltb-false (length xs) offset within),
            take_all (length xs - offset) rest (omega arith)
                ∙ sym (take_all bytes rest (ground (arith, left, bound))),
            omega arith,
          )
          | inr e ↦ (bytes, rw (e), refl, ground arith)
        ]

    append_to-cut :
        (b : Container (BChunks F)) (bytes n offset k : ℕ) (s : S)
        → IsValid b.object
        → offset ≤ length (view b.object)
        → asked (chunks_ops fs) b bytes offset ≡ some n
        → offset + n < u64_mod
        → 0 < n
        → (if ltb (length (view b.object)) (offset + n) then length (view b.object) - offset else n)
          ≡ k
        → append_to (chunks_ops fs) (copy_to2 fs file_append_to stream) b bytes offset s
          ≡ copy_to2 fs file_append_to stream b.object k offset s
    unfolding append_to chunks_ops
    append_to-cut b bytes n offset k s v within asks no_wrap pos cut =
        rw
          (
            asks,
            append_to,
            size-total fs b.object v,
            overflow-none offset n no_wrap,
            le→ltb-false (length (view b.object)) offset within,
          )
          (ground (arith, cut))

    append_to-asked :
        (b : Container (BChunks F)) (bytes n offset : ℕ) (s : S)
        → IsValid b.object
        → offset ≤ length (view b.object)
        → asked (chunks_ops fs) b bytes offset ≡ some n
        → offset + n < u64_mod
        → Inv s
        → Handed
            (take n (drop offset (view b.object)))
            s
            (append_to (chunks_ops fs) (copy_to2 fs file_append_to stream) b bytes offset s)
    unfolding append_to
    append_to-asked b bytes zero offset s v within asks no_wrap inv =
        nothing-Handed s _ inv (rw (asks, append_to, overflow-none offset 0 no_wrap))
    append_to-asked b bytes (suc m) offset s v within asks no_wrap inv =
        let n = suc m in
        let xs = view b.object in
        elim (lt_or_le (length xs) (offset + n)) [
          | inl past ↦
              let rest = drop offset xs in
              let left = length-drop offset xs in
              let all =
                take_all (length xs - offset) rest (omega arith)
                ∙ sym (take_all n rest (omega arith)) in
              subst (λ r. Handed (take n rest) s r)
                (sym (
                  append_to-cut b bytes n offset (length xs - offset) s v within asks no_wrap
                    (omega arith) (rw (lt→ltb (length xs) (offset + n) past))))
                (subst
                  (λ l.
                    Handed l s
                      (copy_to2 fs file_append_to stream b.object (length xs - offset) offset s))
                  all (copy_to2-Handed b.object (length xs - offset) offset s v (omega arith) inv))
          | inr fits ↦
              subst (λ r. Handed (take n (drop offset xs)) s r)
                (sym (
                  append_to-cut b bytes n offset n s v within asks no_wrap (omega arith)
                    (rw (le→ltb-false (length xs) (offset + n) fits))))
                (copy_to2-Handed b.object n offset s v fits inv)
        ]

    -- appendTo hands the part asked for to the stream, up to the end of the container.
    pub chunks-append_to :
        (b : Container (BChunks F)) (bytes offset : ℕ) (s : S)
        → IsValid b.object
        → offset ≤ length (view b.object)
        → (bytes ≡ u64_max) ⊎ (offset + bytes < u64_mod)
        → Inv s
        → Handed
            (take bytes (drop offset (view b.object)))
            s
            (append_to (chunks_ops fs) (copy_to2 fs file_append_to stream) b bytes offset s)
    chunks-append_to b bytes offset s v within small inv =
        let (n, asks, same, no_wrap) = asked-part b bytes offset v within small in
        subst
          (λ l.
            Handed l s
              (append_to (chunks_ops fs) (copy_to2 fs file_append_to stream) b bytes offset s))
          same (append_to-asked b bytes n offset s v within asks no_wrap inv)
