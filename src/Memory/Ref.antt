-- ===== src/Memory/Ref.antt =====
-- Memory/mdz_mem_vars/b_ref.cpp: B_Ref, a window on another container. The object that the pointer
-- referencedBC leads to stands beside the window in the state, since the window reads it as it is.
pub mod Window
pub mod Handing
use lib_mantids.Common.{
  ℕ, ◌-◌, Bool, true, false, not, ◌&&◌, ◌||◌, Option, some, [], is_between, Bytes, Outcome, u64_max,
  add64, sub64, ltb, ◌==◌, if◌then◌else◌, length, take,
}
use lib_mantids.Memory.Container.{ContainerOps, Container, append, prepend, copy_out, compare}

pub record BRef : Type 0 where
  -- Whether referencedBC is not null.
  pub references : Bool
  pub referenced_offset : ℕ
  pub referenced_max_bytes : ℕ

module _ {C : Type 0} (ops : ContainerOps C) where
  -- reference(bc,offset,maxBytes), which leaves the window as it is where the offset is too far.
  unfoldable pub reference : Container C → BRef → ℕ → ℕ → BRef × Bool
  reference b r offset max_bytes = if ltb (ops.size b.object) offset then (r, false) else (
    record { references = true; referenced_offset = offset; referenced_max_bytes = max_bytes },
    true,
  )

  unfoldable pub size : Container C × BRef → ℕ
  size (b, r) =
      let available = sub64 (ops.size b.object) r.referenced_offset in
      if not r.references
      then 0
      else if r.referenced_max_bytes == u64_max || ltb available r.referenced_max_bytes
      then available
      else r.referenced_max_bytes

  unfoldable pub find_char : Container C × BRef → ℕ → ℕ → ℕ → Bool → Outcome
  find_char (b, r) c offset space case_sensitive =
      if not r.references
      then (false, u64_max)
      else ops.find_char b.object c (add64 r.referenced_offset offset) space
          (case_sensitive && (is_between 65 90 c || is_between 97 122 c))

  truncate2 : Container C × BRef → ℕ → (Container C × BRef) × Outcome
  truncate2 (b, r) bytes = ((b, record r { referenced_max_bytes = bytes }), (true, bytes))

  -- A call that changes the container referenced.
  abbrev through : BRef → Container C × Outcome → (Container C × BRef) × Outcome
  through r (b, outcome) = ((b, r), outcome)

  append2 : Container C × BRef → Bytes → Bool → (Container C × BRef) × Outcome
  append2 (b, r) buf prepend_mode =
      if not r.references
      then ((b, r), (false, 0))
      else if prepend_mode
      then through r (prepend ops b buf)
      else through r (append ops b buf)

  unfoldable pub displace2 : Container C × BRef → ℕ → (Container C × BRef) × Outcome
  unfolding size
  displace2 (b, r) wanted =
      let current = size (b, r) in
      let bytes = if ltb current wanted then current else wanted in
      let max_bytes =
        if r.referenced_max_bytes == u64_max
        then r.referenced_max_bytes
        else sub64 r.referenced_max_bytes bytes in
      if not r.references then ((b, r), (false, 0)) else (
        (
          b,
          record r {
            referenced_max_bytes = max_bytes;
            referenced_offset = add64 r.referenced_offset bytes;
          },
        ),
        (true, bytes),
      )

  unfoldable pub clear2 : Container C × BRef → (Container C × BRef) × Bool
  clear2 (b, r) = ((b, record r { references = false }), true)

  -- The bytes of a call with `bytes` and `offset` that the window holds.
  unfoldable pub held : Container C × BRef → ℕ → ℕ → ℕ
  held w bytes offset = let most = size w - offset in if ltb bytes most then bytes else most

  unfoldable pub copy_out2 : Container C × BRef → ℕ → ℕ → Outcome × Bytes
  copy_out2 (b, r) bytes offset =
      if not r.references
      then ((false, 0), [])
      else if ltb (size (b, r)) offset
      then ((false, 0), [])
      else copy_out ops b (held (b, r) bytes offset) (add64 r.referenced_offset offset)

  compare2 : Container C × BRef → Bytes → Bool → ℕ → Option Bool
  compare2 (b, r) buf case_sensitive offset =
      if not r.references
      then some false
      else if ltb (size (b, r)) offset
      then some false
      else compare ops b (take (held (b, r) (length buf) offset) buf) case_sensitive
          (add64 r.referenced_offset offset)

  unfoldable pub ref_ops : ContainerOps (Container C × BRef)
  unfolding size append2 truncate2 displace2 clear2 copy_out2 find_char compare2
  ref_ops = record {
    size = size;
    append2 = append2;
    truncate2 = truncate2;
    displace2 = displace2;
    clear2 = clear2;
    copy_out2 = copy_out2;
    find_char = find_char;
    compare2 = compare2;
  }

-- The window as a container: readOnly is set by reference, and the size is not limited.
abbrev pub as_container : {C : Type 0} → Container C → BRef → Container (Container C × BRef)
as_container b r = record { read_only = true; max_size = u64_max; object = (b, r) }
