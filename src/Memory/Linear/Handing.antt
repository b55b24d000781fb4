-- ===== src/Memory/Linear/Handing.antt =====
-- streamTo of a B_MEM over a stream that takes all it is given.
use lib_mantids.Common.{
  ℕ, zero, suc, ◌+◌, ◌-◌, ◌*◌, ◌≤◌, ◌<◌, ◌≡◌, refl, sym, ap, ◌∙◌, ◌⊎◌, inl, inr, Bool, true, false,
  Option, some, [], ◌++◌, arith, Bytes, u64_mod, u64_max, overflow-none, ltb, ◌==◌, if◌then◌else◌,
  Bool-cases, le→ltb-false, length, take, drop, take_add, length-take,
}
use lib_mantids.Memory.Streams.{StreamOps}
use lib_mantids.Memory.Streams.FullWrite.{Takes}
use lib_mantids.Memory.Container.{Container, asked}
use lib_mantids.Memory.Container.ToStream.{append_to, copy_to_so, answer, stream_to}
use lib_mantids.Memory.Chunks.ToStream.Handing.{joined, copy_to_so-Sent}
use lib_mantids.Memory.Linear.{BMem, mem_ops, cut_memory, copy_to2}
use lib_mantids.Memory.Linear.AsContainer.{view, IsHeld, is_zero}

zero_or_suc : (n : ℕ) → (n ≡ 0) ⊎ ((k : ℕ) × (n ≡ suc k))
zero_or_suc zero = inl refl
zero_or_suc (suc k) = inr (k, refl)

not_zero : (n k : ℕ) → n ≡ suc k → (n == 0) ≡ false
not_zero n k e = ground arith

rosize_pos :
    (left : ℕ) → (left == 0) ≡ false → 0 < (if ltb (64 * 1024) left then 64 * 1024 else left)
rosize_pos left e = ground arith

rosize_le : (left : ℕ) → (if ltb (64 * 1024) left then 64 * 1024 else left) ≤ left
rosize_le left = ground arith

joined-cut_memory :
    (fuel left : ℕ) (mem : Bytes) → left ≤ fuel → joined (cut_memory fuel mem left) ≡ take left mem
unfolding cut_memory
joined-cut_memory zero left mem h = ap (λ n. take n mem) {x = 0} {y = left} (omega arith)
joined-cut_memory (suc fuel) left mem h =
    let k = if ltb (64 * 1024) left then 64 * 1024 else left in
    elim (Bool-cases (left == 0)) [
      | inl done ↦ rw (done) (ap (λ n. take n mem) {x = 0} {y = left} (sym (is_zero left done)))
      | inr more ↦
          rw
            (
              more,
              joined-cut_memory fuel (left - k) (drop k mem) (omega (arith, rosize_pos left more)),
            )
            (sym (take_add k (left - k) mem)
              ∙ ap (λ n. take n mem) {x = k + (left - k)} {y = left}
                  (omega (arith, rosize_le left)))
    ]

module _ {S A : Type 0} (stream : StreamOps S) (view_of : S → A) (run : A → Bytes → A)
    (Inv : S → Type 0) (run-nil : (a : A) → run a [] ≡ a)
    (run-append : (a : A) (xs ys : Bytes) → run a (xs ++ ys) ≡ run (run a xs) ys)
    (step : (buf : Bytes) (s : S)
      → 0 < length buf
      → length buf < u64_mod
      → Inv s
      → Takes S A view_of run Inv buf s (stream.write buf s)) where
  copy_to2-eq :
      (m : BMem) (k n : ℕ) (s after : S)
      → IsHeld m
      → m.container_bytes ≡ suc k
      → copy_to_so stream (cut_memory (suc k) m.linear_mem (suc k)) s 0 ≡ some (n, after)
      → copy_to2 stream m (suc k) 0 s ≡ some ((true, n), after)
  unfolding copy_to2
  copy_to2-eq m k n s after h e sent =
      rw
        (
          e,
          copy_to2,
          le→ltb-false (suc k) (0 + suc k) (omega arith),
          overflow-none 0 (suc k) (omega (arith, h.1)),
          sent,
        )
        (ground arith)

  asked-all : (b : Container BMem) → asked mem_ops b u64_max 0 ≡ some b.object.container_bytes
  unfolding asked mem_ops
  asked-all b = rw (le→ltb-false b.object.container_bytes 0 (omega arith)) (ap some (omega arith))

  append_to-all :
      (b : Container BMem) (s : S)
      → IsHeld b.object
      → (b.object.container_bytes == 0) ≡ false
      → append_to mem_ops (copy_to2 stream) b u64_max 0 s
        ≡ copy_to2 stream b.object b.object.container_bytes 0 s
  unfolding append_to mem_ops
  append_to-all b s h more =
      let n = b.object.container_bytes in
      rw
        (
          asked-all b,
          append_to,
          overflow-none 0 n (omega (arith, h.1)),
          more,
          le→ltb-false n 0 (omega arith),
          le→ltb-false n (0 + n) (omega arith),
        )
        refl

  append_to-none :
      (b : Container BMem) (s : S)
      → b.object.container_bytes ≡ 0
      → append_to mem_ops (copy_to2 stream) b u64_max 0 s ≡ some ((true, 0), s)
  unfolding append_to asked mem_ops
  append_to-none b s e = rw (e, append_to, asked) (ground arith)

  stream_to-eq :
      (write_eof : Bool → S → Option S) (b : Container BMem) (n : ℕ) (s after : S)
      → append_to mem_ops (copy_to2 stream) b u64_max 0 s ≡ some ((true, n), after)
      → stream_to mem_ops (copy_to2 stream) write_eof b s ≡ answer true (write_eof true after)
  unfolding stream_to
  stream_to-eq write_eof b n s after e = rw (e, stream_to)

  -- streamTo of a container over memory writes all of its bytes, and then tells the stream that it
  -- ends with success.
  mem-stream_to :
      (write_eof : Bool → S → Option S) (b : Container BMem) (s : S)
      → IsHeld b.object
      → Inv s
      → (after : S) × (stream_to mem_ops (copy_to2 stream) write_eof b s
          ≡ answer true (write_eof true after))
        × (view_of after ≡ run (view_of s) (view b.object))
  mem-stream_to write_eof b s h inv = elim (zero_or_suc b.object.container_bytes) [
    | inl e ↦ (
      s,
      stream_to-eq write_eof b 0 s s (append_to-none b s e),
      sym (run-nil (view_of s)) ∙ ap (λ k. run (view_of s) (take k b.object.linear_mem)) (sym e),
    )
    | inr (k, e) ↦
        let joins = joined-cut_memory (suc k) (suc k) b.object.linear_mem (omega arith) in
        let long = length-take (suc k) b.object.linear_mem in
        let sent =
          copy_to_so-Sent stream view_of run Inv run-nil run-append step
            (cut_memory (suc k) b.object.linear_mem (suc k)) s 0
            (omega (arith, ap length joins, h.0, h.1)) inv in
        (
          sent.after,
          stream_to-eq write_eof b _ s sent.after (
              append_to-all b s h (not_zero b.object.container_bytes k e)
              ∙ ap (λ j. copy_to2 stream b.object j 0 s) e
              ∙ copy_to2-eq b.object k _ s sent.after h e sent.returns),
          sent.carried
              ∙ ap (run (view_of s)) joins
              ∙ ap (λ j. run (view_of s) (take j b.object.linear_mem)) (sym e),
        )
  ]
