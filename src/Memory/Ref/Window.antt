-- ===== src/Memory/Ref/Window.antt =====
-- What a window stands for: the bytes of the container from its offset on, up to its length.
use lib_mantids.Common.{
  take-drop-take, ℕ, ◌+◌, ◌≤◌, ◌<◌, ◌≡◌, refl, true, arith, Bytes, u64_mod, u64_max, sub64-eq,
  add64-eq, le→ltb-false, length, take, drop, drop-drop, length-take, length-drop,
}
use lib_mantids.Memory.Container.{ContainerOps, Container, to_string}
use lib_mantids.Memory.Container.Reading.{IsReadable, copy_out_block, slice, to_string-slice}
use lib_mantids.Memory.Ref.{BRef, size, held, copy_out2, ref_ops, as_container}

module _ {C : Type 0} (ops : ContainerOps C) (view : C → Bytes) (Inv : C → Type 0)
    (readable : IsReadable ops view Inv) where
  -- The bytes in the window.
  unfoldable pub window : Container C × BRef → Bytes
  window (b, r) = take r.referenced_max_bytes (drop r.referenced_offset (view b.object))

  -- A window on a container that it lies in.
  pub record IsOpen (w : Container C × BRef) : Type 0 where
    pub inside : Inv w.0.object
    pub small : length (view w.0.object) < u64_max
    pub references : w.1.references ≡ true
    pub from : w.1.referenced_offset ≤ length (view w.0.object)

  pub size-window : (w : Container C × BRef) → IsOpen w → size ops w ≡ length (window w)
  unfolding size window
  size-window (b, r) o =
      let n = length (view b.object) in
      let measured =
        length-take r.referenced_max_bytes (drop r.referenced_offset (view b.object)) in
      let left = length-drop r.referenced_offset (view b.object) in
      rw
        (
          readable.size_eq b.object o.inside,
          o.references,
          sub64-eq n r.referenced_offset o.from (omega (arith, o.small)),
        )
        (ground (arith, measured, left, o.small))

  window_bound : (w : Container C × BRef) → IsOpen w → length (window w) < u64_mod
  unfolding window
  window_bound (b, r) o =
      let bound = o.small in
      omega (
        arith,
        length-take r.referenced_max_bytes (drop r.referenced_offset (view b.object)),
        length-drop r.referenced_offset (view b.object),
      )

  pub held_all :
      (w : Container C × BRef) (bytes offset : ℕ)
      → IsOpen w
      → offset + bytes ≤ length (window w)
      → held ops w bytes offset ≡ bytes
  unfolding held
  held_all w bytes offset o fits = rw (size-window w o) (ground arith)

  -- copyOut2 of the window reads what stands in it.
  copy_out2-window :
      (w : Container C × BRef) (bytes offset : ℕ)
      → IsOpen w
      → 0 < bytes
      → offset + bytes ≤ length (window w)
      → copy_out2 ops w bytes offset ≡ ((true, bytes), take bytes (drop offset (window w)))
  unfolding copy_out2 window
  copy_out2-window (b, r) bytes offset o pos fits =
      let start = r.referenced_offset in
      let xs = view b.object in
      let left = length-drop start xs in
      let measured = length-take r.referenced_max_bytes (drop start xs) in
      let bound = o.small in
      let from = o.from in
      rw (
        size-window (b, r) o,
        le→ltb-false (length (window (b, r))) offset (omega arith),
        held_all (b, r) bytes offset o fits,
        add64-eq start offset (omega arith),
        copy_out_block ops view Inv readable b bytes (start + offset) o.inside pos (omega arith)
            (omega arith),
        take-drop-take bytes offset r.referenced_max_bytes (drop start xs) (omega arith),
        drop-drop offset start xs,
        o.references,
      )

  pub window-IsReadable : IsReadable (ref_ops ops) window IsOpen
  unfolding ref_ops
  window-IsReadable = record {
    size_eq = size-window;
    bounded = λ w o. window_bound w o;
    copies = copy_out2-window;
  }

  -- toString of a window is the part of its bytes that is asked for.
  pub window-to_string :
      (b : Container C) (r : BRef) (bytes offset : ℕ)
      → IsOpen (b, r)
      → to_string (ref_ops ops) (as_container b r) bytes offset ≡ slice bytes offset (window (b, r))
  window-to_string b r bytes offset o =
      to_string-slice (ref_ops ops) window IsOpen window-IsReadable (as_container b r) bytes offset
        o

  -- toString of a window that begins where its container does.
  pub window_text :
      (b : Container C) (n : ℕ)
      → Inv b.object
      → length (view b.object) < u64_max
      → to_string
          (ref_ops ops)
          (as_container b
            (record { references = true; referenced_offset = 0; referenced_max_bytes = n }))
          u64_max
          0
        ≡ take n (view b.object)
  unfolding slice window
  window_text b n inside small =
      window-to_string b
        (record { references = true; referenced_offset = 0; referenced_max_bytes = n }) u64_max 0
        (record { inside = inside; small = small; references = refl; from = omega arith })
