-- ===== src/Tests/Lines.antt =====
-- Memory/mdz_mem_vars and Protocols/mdz_proto_linerecv: lines that come in, on a buffer that is the
-- list of its bytes.
use lib_mantids.Common.{
  ℕ, ◌<◌, ◌≡◌, refl, Bool, true, false, Option, none, some, List, [], ◌∷◌, ◌++◌, text, Bytes,
  Outcome, first_index, ◌==◌, length,
}
use lib_mantids.Helpers.Mem.Compare.{all_same, same_byte}
use lib_mantids.Memory.Container.{
  Container, get_size_left, append, clear, find, find_any, find_from, find_loop, to_string, asked,
  in_range, block_size, to_string_loop, copy_out,
}
use lib_mantids.Memory.Ref.{reference, ref_ops, size, held, copy_out2}
use lib_mantids.Memory.Subparser.{
  SubParser, write_into_parser, dispatch, parse_by_multi_delimiter, gather, stick,
  reference_unparsed, clear_unparsed, run_parse, parse_window, delimited,
}
use lib_mantids.Protocols.LineRecv.{LineRecv, parse, new_subparser, set_max_object_size}
use lib_mantids.Tests.Buffers.{plain_ops}

abbrev view : Bytes → Bytes
view c = c

abbrev Small : Bytes → Type 0
Small c = length c < 100

abbrev is_it : ℕ → ℕ → Bool
is_it x y = y == x

abbrev buffer : Container Bytes
buffer = record { read_only = false; max_size = 0; object = [] }

-- Each line is kept.
abbrev keep : Bytes → List Bytes → List Bytes × Bool
keep line kept = (kept ++ line ∷ [], true)

abbrev listening : LineRecv Bytes (List Bytes)
listening = record {
  subparser = set_max_object_size 8 (new_subparser buffer);
  current = true;
  listener = [];
}

abbrev lines : List Bytes
lines = text "user" ∷ [] ∷ text "pass" ∷ []

-- Delivered at once, a line with a carriage return goes on to the line feed; delivered in two parts,
-- it ends at the carriage return.
abbrev at_once : Option (SubParser Bytes Bytes × Outcome)
at_once = write_into_parser plain_ops (parse plain_ops) listening.subparser (97 ∷ 13 ∷ 98 ∷ 10 ∷ [])

abbrev text_parsed : Option (SubParser Bytes Bytes × Outcome) → Bytes
text_parsed none = []
text_parsed (some (p, o)) = p.object

at_once_text : text_parsed at_once ≡ 97 ∷ 13 ∷ 98 ∷ []
unfolding new_subparser write_into_parser dispatch parse_by_multi_delimiter gather stick
    reference_unparsed clear_unparsed run_parse parse_window delimited get_size_left append clear
    find find_any find_from find_loop reference parse to_string asked in_range block_size
    to_string_loop copy_out ref_ops size held copy_out2 all_same same_byte first_index
at_once_text = refl
