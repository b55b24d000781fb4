-- ===== src/Memory/Ref/Handing.antt =====
-- Memory/mdz_mem_vars/b_ref.cpp: the bytes of a window are handed to a stream.
use lib_mantids.Common.{
  ℕ, zero, suc, ◌+◌, ◌≤◌, ◌<◌, ◌≡◌, refl, sym, ap, ◌∙◌, true, false, not, Option, some, [], ◌∷◌,
  take_nil, arith, Bytes, Outcome, u64_max, add64, ltb, if◌then◌else◌, le→ltb-false, length, take,
  drop, length-take,
}
use lib_mantids.Memory.Container.{ContainerOps, Container}
use lib_mantids.Memory.Container.ToStream.{append_to}
use lib_mantids.Memory.Container.ToStream.Whole.{asked_part, asked_whole, append_to-within}
use lib_mantids.Memory.Container.Reading.{IsReadable}
use lib_mantids.Memory.Ref.Window.{window, IsOpen, size-window, held_all}
use lib_mantids.Memory.Ref.{BRef, size, held, ref_ops, as_container}

-- copyTo2; the argument is copyTo2 of the container referenced.
unfoldable pub copy_to2 :
    {C S : Type 0}
    → ContainerOps C
    → (C → ℕ → ℕ → S → Option (Outcome × S))
    → Container C × BRef
    → ℕ
    → ℕ
    → S
    → Option (Outcome × S)
copy_to2 ops copy (b, r) bytes offset s =
    if not r.references
    then some ((false, 0), s)
    else if ltb (size ops (b, r)) offset
    then some ((false, 0), s)
    else append_to ops copy b (held ops (b, r) bytes offset) (add64 r.referenced_offset offset) s

take-length : (n m : ℕ) (xs : Bytes) → n ≡ length (take m xs) → take n xs ≡ take m xs
take-length n zero xs e = ap (λ k. take k xs) e
take-length n (suc m) [] e = take_nil n
take-length zero (suc m) (x ∷ xs) e = absurd (omega arith)
take-length (suc n) (suc m) (x ∷ xs) e = ap (◌∷◌ x) (take-length n m xs (omega arith))

module _ {C S : Type 0} (ops : ContainerOps C) (view : C → Bytes) (Inv : C → Type 0)
    (readable : IsReadable ops view Inv) (copy : C → ℕ → ℕ → S → Option (Outcome × S))
    (put : Bytes → S → S) where
  -- copyTo2 of the container hands on the bytes asked for.
  abbrev pub Hands : Type 0
  Hands =
      (c : C) (n offset : ℕ) (s : S)
      → Inv c
      → 0 < n
      → offset + n ≤ length (view c)
      → copy c n offset s ≡ some ((true, n), put (take n (drop offset (view c))) s)

  module _ (hands : Hands) where
    append_to-hands :
        (b : Container C) (n offset : ℕ) (s : S)
        → Inv b.object
        → 0 < n
        → n < u64_max
        → offset + n ≤ length (view b.object)
        → append_to ops copy b n offset s
          ≡ some ((true, n), put (take n (drop offset (view b.object))) s)
    append_to-hands b n offset s inside pos small fits =
        let whole = readable.size_eq b.object inside in
        let bound = readable.bounded b.object inside in
        append_to-within ops copy b n offset n s
          (asked_part ops b n offset (omega arith) (omega arith)) pos (omega arith) (omega arith)
        ∙ hands b.object n offset s inside pos fits

    append_to-all :
        (w : Container C × BRef) (n : ℕ) (s : S)
        → size ops w ≡ n
        → 0 < n
        → n < u64_max
        → append_to (ref_ops ops) (copy_to2 ops copy) (as_container w.0 w.1) u64_max 0 s
          ≡ copy_to2 ops copy w n 0 s
    unfolding ref_ops
    append_to-all w n s whole pos small =
        append_to-within (ref_ops ops) (copy_to2 ops copy) (as_container w.0 w.1) u64_max 0 n s
          (asked_whole (ref_ops ops) (as_container w.0 w.1) ∙ ap some whole) pos (omega arith)
          (omega arith)

    copy_to2-all :
        (b : Container C) (r : BRef) (n : ℕ) (s : S)
        → r.references ≡ true
        → size ops (b, r) ≡ n
        → held ops (b, r) n 0 ≡ n
        → r.referenced_offset ≡ 0
        → copy_to2 ops copy (b, r) n 0 s ≡ append_to ops copy b n 0 s
    unfolding copy_to2
    copy_to2-all b r n s opened whole all from =
        simp (opened, whole, all, from, le→ltb-false n 0 (omega arith))

    -- appendTo of a window that begins where its container does.
    pub append_to-window :
        (b : Container C) (m n : ℕ) (s : S)
        → Inv b.object
        → length (view b.object) < u64_max
        → n ≡ length (take m (view b.object))
        → 0 < n
        → append_to
            (ref_ops ops)
            (copy_to2 ops copy)
            (as_container b
              (record { references = true; referenced_offset = 0; referenced_max_bytes = m }))
            u64_max
            0
            s
          ≡ some ((true, n), put (take m (view b.object)) s)
    unfolding window
    append_to-window b m n s inside small measured pos =
        let r : BRef = record {
          references = true;
          referenced_offset = 0;
          referenced_max_bytes = m;
        } in
        let open_window : IsOpen ops view Inv readable (b, r) = record {
          inside = inside;
          small = small;
          references = refl;
          from = omega arith;
        } in
        let whole : size ops (b, r) ≡ n =
          size-window ops view Inv readable (b, r) open_window ∙ sym measured in
        append_to-all (b, r) n s whole pos (omega (arith, length-take m (view b.object)))
        ∙ copy_to2-all b r n s refl whole
            (held_all ops view Inv readable (b, r) n 0 open_window (omega (arith, measured))) refl
        ∙ append_to-hands b n 0 s inside pos (omega (arith, length-take m (view b.object)))
            (omega (arith, length-take m (view b.object)))
        ∙ ap (λ t. some ((true, n), put t s)) (take-length n m (view b.object) measured)
