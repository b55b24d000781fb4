-- ===== src/Protocols/LineRecv/OverChunks.antt =====
-- LineRecv with the buffer that it has, a B_Chunks: from the constructor to the lines.
use lib_mantids.Common.{ℕ, true, false}
use lib_mantids.Memory.Chunks.{BChunks, new}
use lib_mantids.Protocols.LineRecv.{LineRecv, new_subparser, set_max_object_size}

-- A line protocol that starts, with an empty container of chunks.
abbrev pub start : {F L : Type 0} → ℕ → L → LineRecv (BChunks F) L
start m l = record {
  subparser =
      set_max_object_size m
        (new_subparser (record { read_only = false; max_size = 0; object = new }));
  current = true;
  listener = l;
}
