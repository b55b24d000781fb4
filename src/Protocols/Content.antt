-- ===== src/Protocols/Content.antt =====
-- Protocols/mdz_proto_http/common_content.cpp: Content, the part of an HTTP message behind its headers,
-- as a subparser. The stream that the bytes go to, outStream, has the state `out`: none is a call of
-- it that does not return. Its copyTo2 is an argument of the container that the bytes stand in, and
-- its writeEOF an argument too. The kinds of containers for the variables of a form are left out.
pub mod Sizes
pub mod Receiving
pub mod Lines
pub mod Rounds
pub mod Transfer
pub mod Streaming
pub mod Length
pub mod Pieces
pub mod Fair
use lib_mantids.Common.{
  ℕ, ◌*◌, ◌%◌, ◌^◌, Bool, true, false, ◌||◌, ◌&&◌, Option, none, some, Bytes, Outcome, u64_max, ltb,
  ◌==◌, if◌then◌else◌,
}
use lib_mantids.Helpers.Numbers.{strtoul}
use lib_mantids.Memory.Container.{ContainerOps, Container, get_size_left, to_string}
use lib_mantids.Memory.Container.ToStream.{append_to}
use lib_mantids.Memory.Ref.{ref_ops, as_container}
use lib_mantids.Memory.Ref
use lib_mantids.Memory.Ref.Handing.{copy_to2}
use lib_mantids.Memory.Subparser.{
  SubParser, ParseStatus, stat_error, get_more_data, goto_next_subparser, mode_delimiter, mode_size,
  mode_direct, set_parse_mode, write_into_parser,
}
use lib_mantids.Memory.Parser.{ParserOps}
use lib_mantids.Memory.Subparser
use lib_mantids.Memory.Streams.{StreamOps}
use lib_mantids.Protocols.Chunked.{ChunkedWriter, crlf, end_buffer}
use lib_mantids.Protocols.Chunked

pub data TransmitionMode : Type 0 where
  transmit_chunks transmit_content_length transmit_connection_close : TransmitionMode

pub data ProcessingMode : Type 0 where
  chunk_size chunk_data chunk_crlf content_length connection_close : ProcessingMode

pub record Content (S : Type 0) : Type 0 where
  pub transmition_mode : TransmitionMode
  pub current_mode : ProcessingMode
  pub security_max_post_data_size : ℕ
  pub current_content_length_size : ℕ
  pub security_max_http_chunk_size : ℕ
  pub out : Option S

-- std::numeric_limits<uint32_t>::max()
abbrev pub u32_max : ℕ
u32_max = 4294967295

abbrev pub ContentParser : Type 0 → Type 0 → Type 0
ContentParser C S = SubParser C (Content S)

-- stream, over an upStream with the state `up`: `to_writer` and `to_up` are streamTo of outStream into
-- the two kinds of streams. The writer is destroyed after the answer is formed.
unfoldable pub stream :
    {U : Type 0}
    → StreamOps U
    → (ChunkedWriter U → Option (Bool × ChunkedWriter U))
    → (U → Option (Bool × U))
    → (U → ℕ)
    → TransmitionMode
    → U
    → Option (Bool × U)
stream {U} ops to_writer to_up failed_write_state mode up =
    let direct : Option (Bool × U) = elim (to_up up) [
      | none ↦ none
      | some (sent, up') ↦ some (sent && failed_write_state up' == 0, up')
    ] in
    elim mode [
      | transmit_chunks ↦ elim (to_writer (Chunked.new up)) [
        | none ↦ none
        | some (sent, w) ↦ elim (end_buffer ops w) [
          | none ↦ none
          | some (finished, w') ↦ some (sent && failed_write_state w.dst == 0, w'.dst)
        ]
      ]
      | transmit_content_length ↦ direct
      | transmit_connection_close ↦ direct
    ]

module _ {C S : Type 0} where
  abbrev pub set_parse_data_target_size : ℕ → ContentParser C S → ContentParser C S
  set_parse_data_target_size value p = record p {
    unparsed_buffer = record p.unparsed_buffer { max_size = value };
  }

  abbrev pub set_current_mode : ProcessingMode → ContentParser C S → ContentParser C S
  set_current_mode mode p = record p { object = record p.object { current_mode = mode } }

  -- Content::Content(), around a fresh buffer and outStream.
  unfoldable pub new : Container C → S → ContentParser C S
  unfolding Subparser.new
  new unparsed out = Subparser.new unparsed (record {
    transmition_mode = transmit_connection_close;
    current_mode = content_length;
    security_max_post_data_size = 17 * 1024 * 1024;
    current_content_length_size = 0;
    security_max_http_chunk_size = 16 * 1024 * 1024;
    out = some out;
  })

  unfoldable pub set_transmition_mode : TransmitionMode → ContentParser C S → ContentParser C S
  unfolding set_parse_mode
  set_transmition_mode value q =
      let p = record q { object = record q.object { transmition_mode = value } } in
      elim value [
        | transmit_connection_close ↦ set_current_mode connection_close (
            set_parse_data_target_size p.object.security_max_post_data_size
              (set_parse_mode mode_direct p))
        | transmit_chunks ↦ set_current_mode chunk_size (
            set_parse_data_target_size 64
              (record (set_parse_mode mode_delimiter p) { parse_delimiter = crlf }))
        | transmit_content_length ↦ set_current_mode content_length (set_parse_mode mode_direct p)
      ]

  unfoldable pub set_content_len_size : ℕ → ContentParser C S → ContentParser C S × Bool
  set_content_len_size size p =
      let with_size : ℕ → ContentParser C S = λ n.
        set_parse_data_target_size n
          (record p { object = record p.object { current_content_length_size = n } }) in
      if ltb p.object.security_max_post_data_size size
      then (with_size 0, false)
      else (with_size size, true)

  -- HTTPv1_Client::parseHeaders2TransmitionMode; the headers give the length, where there is one, and
  -- whether Transfer-Encoding asks for chunks. The answer is whether the content is parsed next.
  unfoldable pub parse_headers2_transmition_mode :
      Option ℕ → Bool → ContentParser C S → ContentParser C S × Bool
  unfolding set_transmition_mode set_content_len_size
  parse_headers2_transmition_mode announced chunked q =
      let p = set_transmition_mode transmit_connection_close q in
      elim announced [
        | some len ↦
            let counting = set_transmition_mode transmit_content_length p in
            if len == 0 then (counting, false) else set_content_len_size len counting
        | none ↦ (if chunked then set_transmition_mode transmit_chunks p else p, true)
      ]

module _ {C S : Type 0} (ops : ContainerOps C) (copy : C → ℕ → ℕ → S → Option (Outcome × S))
    (write_eof : Bool → S → Option S) where
  -- outStream after the parsed bytes are appended to it.
  unfoldable pub appended_out : ContentParser C S → Option S
  appended_out p = elim p.object.out [
    | none ↦ none
    | some s ↦
        elim (append_to (ref_ops ops) (copy_to2 ops copy)
          (as_container p.unparsed_buffer p.parsed_buffer) u64_max 0 s) [
            | none ↦ none
            | some (outcome, s') ↦ some s'
          ]
  ]

  -- getParsedBuffer()->appendTo(*outStream), whose answer is not looked at.
  unfoldable pub append_parsed : ContentParser C S → ContentParser C S
  unfolding appended_out
  append_parsed p = record p { object = record p.object { out = appended_out p } }

  -- outStream->writeEOF(true)
  unfoldable pub end_of_stream : ContentParser C S → ContentParser C S
  end_of_stream p =
      let out : Option S = elim p.object.out [ none ↦ none | some s ↦ write_eof true s ] in
      record p { object = record p.object { out = out } }

  -- toUInt32(16)
  unfoldable pub to_uint32_hex : ContentParser C S → ℕ
  to_uint32_hex p =
      strtoul (to_string (ref_ops ops) (as_container p.unparsed_buffer p.parsed_buffer) u64_max 0)
      % 2 ^ 32

  unfoldable pub parse_http_chunk_size : ContentParser C S → ℕ
  unfolding to_uint32_hex
  parse_http_chunk_size p =
      let parsed_size = to_uint32_hex p in
      if parsed_size == u32_max || ltb p.object.security_max_http_chunk_size parsed_size
      then u32_max
      else parsed_size

  -- The case PROCMODE_CHUNK_SIZE of parse.
  unfoldable pub parse_chunk_size : ContentParser C S → ContentParser C S × ParseStatus
  unfolding parse_http_chunk_size end_of_stream set_parse_mode
  parse_chunk_size p =
      let size = parse_http_chunk_size p in
      if size == u32_max
      then (p, stat_error)
      else if ltb 0 size
      then (
        set_current_mode chunk_data (set_parse_data_target_size size (set_parse_mode mode_size p)),
        get_more_data,
      )
      else (end_of_stream p, goto_next_subparser)

  -- What parse does in each mode.
  unfoldable pub parse_in : ProcessingMode → ContentParser C S → ContentParser C S × ParseStatus
  unfolding parse_chunk_size append_parsed end_of_stream set_parse_mode
  parse_in chunk_size p = parse_chunk_size p
  parse_in chunk_data p = (
    append_parsed
        (set_current_mode chunk_crlf (set_parse_data_target_size 2 (set_parse_mode mode_size p))),
    get_more_data,
  )
  parse_in chunk_crlf p = (
    set_current_mode chunk_size (
        set_parse_data_target_size 1024
          (record (set_parse_mode mode_delimiter p) { parse_delimiter = crlf })),
    get_more_data,
  )
  parse_in content_length p =
      let p' = append_parsed p in
      if ltb 0 (get_size_left ops p'.unparsed_buffer)
      then (p', get_more_data)
      else (end_of_stream p', goto_next_subparser)
  parse_in connection_close p =
      if Ref.size ops (p.unparsed_buffer, p.parsed_buffer) == 0
      then (end_of_stream p, goto_next_subparser)
      else (append_parsed p, get_more_data)

  unfoldable pub parse : ContentParser C S → ContentParser C S × ParseStatus
  unfolding parse_in
  parse p = parse_in p.object.current_mode p

-- The part of HTTPv1_Client (httpv1_client.cpp) behind the headers: currentParser is the content of
-- the response, or null.
pub record Receiver (C S : Type 0) : Type 0 where
  pub content : ContentParser C S
  pub current : Bool

module _ {C S : Type 0} (ops : ContainerOps C) (copy : C → ℕ → ℕ → S → Option (Outcome × S))
    (write_eof : Bool → S → Option S) where
  unfoldable pub write_content : Receiver C S → Bytes → Option (Receiver C S × Outcome)
  write_content r buf =
      elim (write_into_parser ops (parse ops copy write_eof)
        (record r.content { parse_status = get_more_data }) buf) [
          | none ↦ none
          | some (p, outcome) ↦ some (record r { content = p }, outcome)
        ]

  -- changeToNextParser where the content is the current parser.
  unfoldable pub change_to_next_parser : Receiver C S → Receiver C S × Bool
  change_to_next_parser r = (record r { current = false }, true)

  unfoldable pub content_ops : ParserOps (Receiver C S)
  unfolding write_content change_to_next_parser
  content_ops = record {
    has_parser = λ r. r.current;
    write_into_parser = write_content;
    get_parse_status = λ r. r.content.parse_status;
    change_to_next_parser = change_to_next_parser;
  }
