-- ===== src/Protocols/LineRecv.antt =====
-- Protocols/mdz_proto_linerecv: a protocol whose messages are lines. The virtual processParsedLine
-- works on a state `L`, and answers whether the protocol goes on.
pub mod Taking
pub mod Delivery
pub mod OverChunks
use lib_mantids.Common.{
  ℕ, Bool, true, false, Option, none, some, [], ◌∷◌, Bytes, Outcome, u64_max, if◌then◌else◌,
}
use lib_mantids.Memory.Container.{ContainerOps, Container, to_string}
use lib_mantids.Memory.Ref.{ref_ops, as_container}
use lib_mantids.Memory.Subparser.{
  SubParser, ParseStatus, get_more_data, goto_next_subparser, mode_multi_delimiter, set_parse_mode,
  write_into_parser,
}
use lib_mantids.Memory.Subparser
use lib_mantids.Memory.Parser.{ParserOps}

module _ {C : Type 0} where
  -- setMaxObjectSize; the argument is a uint32_t.
  abbrev pub set_max_object_size : ℕ → SubParser C Bytes → SubParser C Bytes
  set_max_object_size size p = record p {
    unparsed_buffer = record p.unparsed_buffer { max_size = size };
  }

  -- LineRecv_SubParser::LineRecv_SubParser(), around a fresh buffer.
  unfoldable pub new_subparser : Container C → SubParser C Bytes
  unfolding set_parse_mode Subparser.new
  new_subparser unparsed =
      set_max_object_size 65536
        (record (set_parse_mode mode_multi_delimiter (Subparser.new unparsed [])) {
          parse_multi_delimiter = (10 ∷ []) ∷ (13 ∷ []) ∷ [];
        })

  -- LineRecv_SubParser::parse: the text of the parsed buffer becomes parsedString.
  unfoldable pub parse : ContainerOps C → SubParser C Bytes → SubParser C Bytes × ParseStatus
  parse ops p = (
    record p {
      object = to_string (ref_ops ops) (as_container p.unparsed_buffer p.parsed_buffer) u64_max 0;
    },
    goto_next_subparser,
  )

pub record LineRecv (C L : Type 0) : Type 0 where
  pub subparser : SubParser C Bytes
  -- Whether currentParser is the subparser, and not null.
  pub current : Bool
  pub listener : L

module _ {C L : Type 0} (ops : ContainerOps C) (process_parsed_line : Bytes → L → L × Bool) where
  unfoldable pub write_line : LineRecv C L → Bytes → Option (LineRecv C L × Outcome)
  write_line r buf =
      elim (write_into_parser ops (parse ops) (record r.subparser { parse_status = get_more_data })
        buf) [ none ↦ none | some (p, outcome) ↦ some (record r { subparser = p }, outcome) ]

  -- changeToNextParser
  unfoldable pub change_to_next_parser : LineRecv C L → LineRecv C L × Bool
  change_to_next_parser r =
      let (listener, goes_on) = process_parsed_line r.subparser.object r.listener in
      if goes_on
      then (record r { listener = listener }, true)
      else (record r { listener = listener; current = false }, false)

  unfoldable pub line_ops : ParserOps (LineRecv C L)
  unfolding write_line change_to_next_parser
  line_ops = record {
    has_parser = λ r. r.current;
    write_into_parser = write_line;
    get_parse_status = λ r. r.subparser.parse_status;
    change_to_next_parser = change_to_next_parser;
  }
