-- ===== src/Memory/Chunk.antt =====
-- Memory/mdz_mem_vars/b_chunk.h: one block of bytes of a chunked container.
-- `data` and `size` are one list here: a null `data` has size 0, and is the empty list. `rodata` and
-- `rosize` belong to copies that are local to one call, and stand in those calls.
use lib_mantids.Common.{
  ℕ, ◌+◌, Bool, ◌&&◌, ◌||◌, [], ltb, leb, ◌==◌, if◌then◌else◌, length, take, drop, Bytes, sub64,
}

pub record Chunk : Type 0 where
  pub bytes : Bytes
  pub offset : ℕ

abbrev pub size : Chunk → ℕ
size c = length c.bytes

abbrev pub destroy : Chunk → Chunk
destroy c = record c { bytes = [] }

unfoldable pub displace : Chunk → ℕ → Chunk
displace c n =
    if n == 0 then c else if leb (size c) n then destroy c else record c { bytes = drop n c.bytes }

-- A target below `offset` would wrap, and read out of bounds: the container calls this on the chunk
-- that holds the target.
unfoldable pub truncate : Chunk → ℕ → Chunk
truncate c n =
    if leb (c.offset + size c) n
    then c
    else if n == 0 || n == c.offset
    then c
    else record c { bytes = take (sub64 n c.offset) c.bytes }

-- `copy` on a fresh chunk. (`new` throws where the memory runs out; it does not return null.)
abbrev pub copy : Bytes → Chunk
copy buf = record { bytes = buf; offset = 0 }

abbrev pub next_offset : Chunk → ℕ
next_offset c = size c + c.offset

abbrev pub contains_offset : Chunk → ℕ → Bool
contains_offset c l = leb c.offset l && ltb l (next_offset c)

abbrev pub move_to_offset : Chunk → ℕ → Chunk
move_to_offset c l = record { bytes = drop (sub64 l c.offset) c.bytes; offset = 0 }
