-- ===== src/Tests/Buffers.antt =====
-- Memory/mdz_mem_vars: searches, comparisons, limits and windows on concrete containers.
use mathlib.Core.Path.{subst}
use lib_mantids.Common.{
  ℕ, ◌+◌, ◌%◌, ◌≤◌, ◌<◌, ◌≡◌, refl, sym, ap, ◌∙◌, ◌≢◌, inr, Bool, true, false, none, some, List, [],
  ◌∷◌, ◌++◌, append-nil, append_assoc, arith, text, Bytes, first_index, first_match, suc, report,
  u64_mod, ◌==◌, if◌then◌else◌, length, take, drop, replicate, length-append, length-take,
  length-drop, length-replicate,
}
use lib_mantids.Helpers.Mem.{memcmp64, memchr, memicmp2, icharcmp, cmp_matrix}
use lib_mantids.Helpers.Mem.Compare.{all_same, same_byte, memicmp2-block, memcmp64-over_read}
use lib_mantids.Memory.Chunk.{Chunk}
use lib_mantids.Memory.Chunks.{FsOps, BChunks, contents}
use lib_mantids.Memory.Chunks
use lib_mantids.Memory.Chunks.CopyOut.{IsValid}
use lib_mantids.Memory.Chunks.Search.{find_char}
use lib_mantids.Memory.Chunks.AsContainer.{chunks_ops, view, IsSound, chunks-find, chunks-append}
use lib_mantids.Memory.Container.{ContainerOps, Container, to_string, find_from, find, append}
use lib_mantids.Memory.Container.ToStream.{append_to}
use lib_mantids.Memory.Container.Guards.{
  has_room, Call, appending, displacing, IsSized, run_calls, run_calls-limit,
}
use lib_mantids.Memory.Container.Reading.{IsReadable}
use lib_mantids.Memory.Container.Searching.{begins}
use lib_mantids.Memory.Ref.{BRef}
use lib_mantids.Memory.Ref.Window.{IsOpen}
use lib_mantids.Memory.Streams.{streamable_string}
use lib_mantids.Memory.Linear.{BMem, mem_ops}
use lib_mantids.Memory.Linear.AsContainer.{mem-chunks}
use lib_mantids.Memory.Chunks.ToStream.{copy_to2}
use lib_mantids.Memory.Chunks.ToStream.Handing.{Handed, chunks-append_to}
use lib_mantids.Memory.Streams.Text.{Anything, appends}

-- A file that never fails, as the list of its bytes.
abbrev pub plain_file : FsOps Bytes
plain_file = record {
  copy_to_fs = λ buf. some buf;
  size = λ m. length m;
  append = λ m buf. (m ++ buf, (true, length buf));
  prepend = λ m buf. (buf ++ m, (true, length buf));
  truncate = λ m n. (take n m, (true, n));
  displace = λ m n. (drop n m, (true, n));
  copy_out = λ m n offset. ((true, n), take n (drop offset m));
  compare = λ m buf case offset. some false;
  find_char = λ m c offset. (false, 0);
}

-- "GET /a" and then "\r\nHo", in chunks that cut the words.
abbrev request : List Chunk
request =
    record { bytes = text "GE"; offset = 0 }
    ∷ record { bytes = text "T /"; offset = 2 }
    ∷ record { bytes = 97 ∷ 13 ∷ []; offset = 5 }
    ∷ record { bytes = 10 ∷ 72 ∷ 111 ∷ []; offset = 7 }
    ∷ []

abbrev chunked : BChunks Bytes
chunked = record {
  chunks_vector = request;
  container_bytes = 10;
  max_chunks = 6;
  max_chunk_size = 4;
  max_container_size_until_going_to_fs = 0;
  mmap_container = none;
}

chunked-IsValid : IsValid chunked
chunked-IsValid = record {
  offsets = omega arith;
  counted = refl;
  bounded = omega arith;
  in_memory = refl;
}

chunked-IsSound : IsSound chunked
chunked-IsSound = (chunked-IsValid, omega arith)

abbrev box : Container (BChunks Bytes)
box = record { read_only = false; max_size = 14; object = chunked }

chunks-find_example : find (chunks_ops plain_file) box (13 ∷ 10 ∷ []) true 0 0 ≡ some (true, 6)
unfolding first_match begins all_same same_byte
chunks-find_example =
    chunks-find plain_file box (13 ∷ 10 ∷ []) 0 chunked-IsSound (omega arith) (omega arith)

chunks-append_example :
    ((append (chunks_ops plain_file) box (text "st:")).1 ≡ (true, 3))
    × (view (append (chunks_ops plain_file) box (text "st:")).0.object
        ≡ contents request ++ text "st:")
unfolding has_room chunks_ops Chunks.size
chunks-append_example =
    chunks-append plain_file box (text "st:") chunked-IsValid refl (omega arith) (omega arith)

-- Without the case of letters, the first character is still searched for as it is.
find_other_case : find (chunks_ops plain_file) box (text "get") false 0 0 ≡ some (false, 0)
unfolding find chunks_ops Chunks.size find_from find_char memchr
find_other_case = refl

memicmp2-block_example : memicmp2 (text "Host") (text "host") 4 false ≡ some true
unfolding all_same same_byte icharcmp cmp_matrix
memicmp2-block_example =
    memicmp2-block (text "Host") (text "host") 4 false (omega arith) (omega arith) (omega arith)

-- A container that is the list of its bytes.
abbrev pub plain_ops : ContainerOps Bytes
plain_ops = record {
  size = λ c. length c;
  append2 = λ c buf at_front. (if at_front then buf ++ c else c ++ buf, (true, length buf));
  truncate2 = λ c n. (take n c, (true, n));
  displace2 = λ c n. (drop n c, (true, n));
  clear2 = λ c. ([], true);
  copy_out2 = λ c n offset. ((true, n), take n (drop offset c));
  find_char = λ c x offset space flag. report offset (first_index (λ y. y == x) (drop offset c));
  compare2 =
      λ c buf flag offset. some (all_same (same_byte true) (take (length buf) (drop offset c)) buf);
}

plain_grows :
    (c : Bytes) (buf : Bytes) (at_front : Bool)
    → length (if at_front then buf ++ c else c ++ buf) ≤ length c + length buf
plain_grows c buf true = omega (arith, length-append buf c)
plain_grows c buf false = omega (arith, length-append c buf)

plain-IsSized : IsSized plain_ops
plain-IsSized = record {
  grows = plain_grows;
  displaced = λ c n h. omega (arith, length-drop n c);
  truncated = λ c n h. omega (arith, length-take n c);
}

abbrev small_box : Container Bytes
small_box = record { read_only = false; max_size = 4; object = 1 ∷ 2 ∷ 3 ∷ [] }

abbrev calls : List Call
calls = appending (4 ∷ []) ∷ appending (5 ∷ []) ∷ displacing 2 ∷ appending (6 ∷ 7 ∷ []) ∷ []

run_calls-limit_example :
    ((run_calls plain_ops calls small_box).max_size ≡ 4)
    × (length (run_calls plain_ops calls small_box).object ≤ 4)
run_calls-limit_example = run_calls-limit plain_ops plain-IsSized calls small_box (omega arith)

calls_kept : (run_calls plain_ops calls small_box).object ≡ 3 ∷ 4 ∷ 6 ∷ 7 ∷ []
unfolding run_calls
calls_kept = refl

plain-IsReadable : IsReadable plain_ops (λ c. c) (λ c. length c < 100)
plain-IsReadable = record {
  size_eq = λ c h. refl;
  bounded = λ c h. omega arith;
  copies = λ c bytes offset h pos le. refl;
}

abbrev middle : BRef
middle = record { references = true; referenced_offset = 1; referenced_max_bytes = 2 }

middle-IsOpen : IsOpen plain_ops (λ c. c) (λ c. length c < 100) plain-IsReadable (small_box, middle)
middle-IsOpen = record {
  inside = omega arith;
  small = omega arith;
  references = refl;
  from = omega arith;
}

abbrev over_block : Bytes
over_block = replicate 65537 7

over_block-length : length over_block ≡ 65537
over_block-length = length-replicate {A = ℕ} 65537 7

one_not_zero : 65537 % 65536 ≢ 0
one_not_zero e = omega arith

-- What can be read behind it.
abbrev behind : Bytes
behind = replicate 65536 0

behind-length : length behind ≡ 65536
behind-length = length-replicate {A = ℕ} 65536 0

memcmp64-over_read_example :
    memcmp64 (over_block ++ 1 ∷ behind) (over_block ++ 2 ∷ behind) (length over_block) ≡ some false
memcmp64-over_read_example =
    memcmp64-over_read over_block behind behind 1 2
      (subst (λ n. 65536 < n) (sym over_block-length) (omega arith))
      (subst (λ n. n < u64_mod) (sym over_block-length) (omega arith))
      (λ e. absurd (one_not_zero (sym (ap (λ n. n % 65536) over_block-length) ∙ e)))
      (subst (λ n. 65536 ≤ suc n) (sym behind-length) (omega arith))
      (subst (λ n. 65536 ≤ suc n) (sym behind-length) (omega arith)) refl

chunks-append_to_example :
    Handed streamable_string
      (λ v. v)
      ◌++◌
      Anything
      append-nil
      (λ a xs ys. sym (append_assoc a xs ys))
      appends
      (text "T /a")
      (text "> ")
      (append_to
        (chunks_ops plain_file)
        (copy_to2 plain_file (λ m n offset s. none) streamable_string)
        box
        4
        2
        (text "> "))
chunks-append_to_example =
    chunks-append_to streamable_string (λ v. v) ◌++◌ Anything append-nil
      (λ a xs ys. sym (append_assoc a xs ys)) appends plain_file (λ m n offset s. none) box 4 2
      (text "> ") chunked-IsValid (omega arith) (inr (omega arith)) tt

-- The same bytes in memory, with some behind them.
abbrev in_memory : BMem
in_memory = record {
  linear_mem = text "GET /a" ++ 13 ∷ 10 ∷ 72 ∷ 111 ∷ 115 ∷ [];
  container_bytes = 10;
}

mem-chunks_example :
    (find mem_ops
        (record { read_only = true; max_size = 0; object = in_memory })
        (13 ∷ 10 ∷ [])
        true
        2
        0
      ≡ find (chunks_ops plain_file) box (13 ∷ 10 ∷ []) true 2 0)
    × (to_string mem_ops (record { read_only = true; max_size = 0; object = in_memory }) 3 2
        ≡ to_string (chunks_ops plain_file) box 3 2)
mem-chunks_example =
    mem-chunks plain_file (record { read_only = true; max_size = 0; object = in_memory }) box
      (13 ∷ 10 ∷ []) 3 2 (omega arith, omega arith) chunked-IsSound refl (omega arith) (omega arith)
