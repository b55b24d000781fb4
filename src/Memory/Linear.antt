-- ===== src/Memory/Linear.antt =====
-- Memory/mdz_mem_vars/b_mem.cpp: B_MEM, a container over memory that it does not own. The pointer
-- linearMem is the list of the bytes that may be read from it on: none where it is null.
pub mod AsContainer
pub mod Handing
use lib_mantids.Common.{
  ℕ, zero, suc, ◌+◌, ◌-◌, ◌*◌, Bool, true, false, ◌&&◌, Option, none, some, List, [], ◌∷◌, Bytes,
  Outcome, report, u64_max, sub64, check_uint_overflow_sum, ltb, ◌==◌, if◌then◌else◌, length, take,
  drop,
}
use lib_mantids.Helpers.Mem.{memicmp2, memchr, to_upper, to_lower}
use lib_mantids.Memory.Streams.{StreamOps}
use lib_mantids.Memory.Container.{ContainerOps, Container, clear}
use lib_mantids.Memory.Container.ToStream.{copy_to_so}
use lib_mantids.Memory.Chunks.Search.{nearest, is_letter}

pub record BMem : Type 0 where
  pub linear_mem : Bytes
  pub container_bytes : ℕ

-- The search with memchr: a letter whose case does not count is searched in both cases.
unfoldable pub find_in : Bytes → ℕ → ℕ → Bool → Option ℕ
unfolding nearest
find_in s c n case_sensitive =
    if case_sensitive
    then memchr s c n
    else nearest (memchr s (to_upper c) n) (memchr s (to_lower c) n)

unfoldable pub find_char : BMem → ℕ → ℕ → ℕ → Bool → Outcome
find_char m c offset space case_sensitive =
    let current = m.container_bytes in
    let space' = if space == 0 then current - offset else space in
    if current == 0
    then (false, 0)
    else if check_uint_overflow_sum offset space
    then (false, u64_max)
    else if ltb current (offset + space)
    then (false, u64_max)
    else report offset (find_in (drop offset m.linear_mem) c space' (case_sensitive && is_letter c))

unfoldable pub truncate2 : BMem → ℕ → BMem × Outcome
truncate2 m n = (record m { container_bytes = n }, (true, n))

-- Append is disabled.
unfoldable pub append2 : BMem → Bytes → Bool → BMem × Outcome
append2 m buf prepend_mode = (m, (false, 0))

unfoldable pub displace2 : BMem → ℕ → BMem × Outcome
displace2 m n = if ltb m.container_bytes n then (m, (false, 0)) else (
  record { linear_mem = drop n m.linear_mem; container_bytes = sub64 m.container_bytes n },
  (true, n),
)

unfoldable pub clear2 : BMem → BMem × Bool
clear2 m = (record { linear_mem = []; container_bytes = 0 }, true)

-- The outcome, and the bytes written to the caller's buffer.
unfoldable pub copy_out2 : BMem → ℕ → ℕ → Outcome × Bytes
copy_out2 m bytes offset =
    let left = m.container_bytes - offset in
    let copied = if ltb left bytes then left else bytes in
    if check_uint_overflow_sum offset bytes
    then ((false, 0), [])
    else if bytes == 0
    then ((true, 0), [])
    else if ltb m.container_bytes (offset + bytes)
    then ((false, 0), [])
    else if ltb m.container_bytes offset
    then ((false, 0), [])
    else if left == 0
    then ((true, 0), [])
    else ((true, copied), take copied (drop offset m.linear_mem))

unfoldable pub compare2 : BMem → Bytes → Bool → ℕ → Option Bool
compare2 m buf case_sensitive offset =
    if check_uint_overflow_sum offset (length buf)
    then some false
    else if length buf == 0
    then some true
    else if ltb m.container_bytes (offset + length buf)
    then some false
    else memicmp2 (drop offset m.linear_mem) buf (length buf) case_sensitive

unfoldable pub mem_ops : ContainerOps BMem
mem_ops = record {
  size = λ m. m.container_bytes;
  append2 = append2;
  truncate2 = truncate2;
  displace2 = displace2;
  clear2 = clear2;
  copy_out2 = copy_out2;
  find_char = find_char;
  compare2 = compare2;
}

-- reference: the memory at `buf`, of which `len` bytes are the container. `len` is a uint32_t.
unfoldable pub reference : Container BMem → Bytes → ℕ → Container BMem
unfolding mem_ops clear2
reference b buf len = record (clear mem_ops b).0 {
  read_only = true;
  object = record { linear_mem = buf; container_bytes = len };
}

-- The constructor, over a pointer that is not null where `len` is above 0.
unfoldable pub new : Bytes → ℕ → Container BMem
unfolding reference
new buf len =
    let empty : Container BMem = record {
      read_only = true;
      max_size = 0;
      object = record { linear_mem = []; container_bytes = 0 };
    } in
    if len == 0 then empty else reference empty buf len

-- The pieces that copyTo2 cuts: `fuel` bytes are enough, since each piece takes one or more.
unfoldable pub cut_memory : ℕ → Bytes → ℕ → List Bytes
cut_memory zero transmit_mem left = []
cut_memory (suc fuel) transmit_mem left =
    let rosize = if ltb (64 * 1024) left then 64 * 1024 else left in
    let rest = cut_memory fuel (drop rosize transmit_mem) (left - rosize) in
    if left == 0 then [] else take rosize transmit_mem ∷ rest

unfoldable pub copy_to2 : {S : Type 0} → StreamOps S → BMem → ℕ → ℕ → S → Option (Outcome × S)
unfolding cut_memory copy_to_so
copy_to2 stream m bytes offset s =
    let bytes' =
      if ltb m.container_bytes (offset + bytes) then m.container_bytes - offset else bytes in
    if bytes == 0
    then some ((true, 0), s)
    else if check_uint_overflow_sum offset bytes
    then some ((false, 0), s)
    else if ltb m.container_bytes offset
    then some ((false, 0), s)
    else elim (copy_to_so stream (cut_memory bytes' (drop offset m.linear_mem) bytes') s 0) [
      | none ↦ none
      | some (n, s') ↦ some ((true, n), s')
    ]
