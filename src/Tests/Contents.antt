-- ===== src/Tests/Contents.antt =====
-- Protocols/mdz_proto_http: contents in chunks, written and read.
use lib_mantids.Common.{
  ℕ, ◌+◌, ◌-◌, ◌^◌, ◌<◌, ◌≤◌, ◌≡◌, refl, sym, ap, u64_mod, true, false, Option, none, some, List,
  [], ◌∷◌, ◌++◌, append-nil, append_assoc, arith, text, Bytes, Outcome, length,
}
use lib_mantids.Helpers.Numbers.{hex_digits, print_hex}
use lib_mantids.Protocols.Chunked.Framed.{body, framed}
use lib_mantids.Helpers.Numbers.RoundTrip.{reach, length-hex_digits}
use lib_mantids.Memory.Streams.{streamable_string}
use lib_mantids.Memory.Streams.Text.{Anything, appends}
use lib_mantids.Memory.Container.{Container}
use lib_mantids.Memory.Container.ToStream.{stream_to}
use lib_mantids.Memory.Chunks.{BChunks}
use lib_mantids.Memory.Chunks.CopyOut.{IsValid}
use lib_mantids.Memory.Chunks.AsContainer.{chunks_ops, view, chunks_stop}
use lib_mantids.Memory.Chunks.AsBuffer.{IsFresh, chunks-IsBuffer}
use lib_mantids.Memory.Chunks.ToStream.{copy_to2}
use lib_mantids.Memory.Chunks.ToText.{chunks-Hands}
use lib_mantids.Memory.Parser.{Parsed, parse_data, write}
use lib_mantids.Memory.Parser.Termination.{Settled, parse_data-Settled}
use lib_mantids.Protocols.Content.Fair.{IsRunning, content-IsFair}
use lib_mantids.Memory.Parser.Steps.{ended}
use lib_mantids.Memory.Subparser.{write_into_parser}
use lib_mantids.Protocols.Chunked.{ChunkedWriter, crlf, writer_ops, strhex}
use lib_mantids.Protocols.Chunked
use lib_mantids.Protocols.Content.Streaming.{stream-first}
use lib_mantids.Protocols.Chunked.Sending.{send}
use lib_mantids.Protocols.Content.{
  ContentParser, Receiver, content_ops, parse, transmit_chunks, stream,
}
use lib_mantids.Protocols.Content.Lines.{AwaitsSize, Answer, reads_line}
use lib_mantids.Protocols.Content.Pieces.{write_all}
use lib_mantids.Protocols.CountedContent.{headed-IsRunning, receive-length}
use lib_mantids.Protocols.ChunkedCodec.{
  no_eof, add_text, headed, start, start-IsReceiving, send-receive,
}
use lib_mantids.Tests.Buffers.{plain_file}

abbrev no_file : Bytes → ℕ → ℕ → Bytes → Option (Outcome × Bytes)
no_file m n offset s = none

abbrev pieces : List Bytes
pieces = text "Hello" ∷ text ", world" ∷ []

pieces_lem :
    body pieces crlf
    ≡ text "5"
      ++ 13
        ∷ 10
        ∷ (text "Hello"
            ++ 13 ∷ 10 ∷ 55 ∷ 13 ∷ 10 ∷ (text ", world" ++ 13 ∷ 10 ∷ 48 ∷ 13 ∷ 10 ∷ crlf))
unfolding body print_hex hex_digits
pieces_lem = refl

pieces_small : length (body pieces crlf) < u64_mod
pieces_small = omega (arith, ap length pieces_lem)

send-receive_example :
    (sent : ChunkedWriter Bytes) × (after : Receiver (BChunks Bytes) Bytes) × (send
        streamable_string pieces
        (Chunked.new [])
      ≡ some (true, sent))
    × (parse_data
          (content_ops
            (chunks_ops plain_file)
            (copy_to2 plain_file no_file streamable_string)
            no_eof)
          4098
          4096
          start
          sent.dst
          0
          false
        ≡ some (ended true after 7 (length sent.dst - 2)))
    × (after.content.object.out ≡ some (text "Hello, world"))
send-receive_example =
    send-receive plain_file no_file pieces 4096 (omega arith) (omega arith) (omega arith)
      pieces_small

-- "Hello" in one chunk, and ", world" in another.
abbrev two_chunks : Container (BChunks Bytes)
two_chunks = record {
  read_only = false;
  max_size = 100;
  object = record {
    chunks_vector =
        record { bytes = text "Hello"; offset = 0 }
        ∷ record { bytes = text ", world"; offset = 5 }
        ∷ [];
    container_bytes = 12;
    max_chunks = 262144;
    max_chunk_size = 65536;
    max_container_size_until_going_to_fs = 0;
    mmap_container = none;
  };
}

two_chunks-IsValid : IsValid two_chunks.object
two_chunks-IsValid = record {
  offsets = omega arith;
  counted = refl;
  bounded = omega arith;
  in_memory = refl;
}

stream-first_example :
    (after : Bytes) × (stream streamable_string
        (stream_to
          (chunks_ops plain_file)
          (copy_to2 plain_file (λ m n offset s. none) (writer_ops streamable_string))
          (λ succeed x. some x)
          two_chunks)
        (λ up. none)
        (λ up. 0)
        transmit_chunks
        []
      ≡ some (true, after))
    × (after ≡ [] ++ framed 0 (text "Hello" ∷ []))
stream-first_example =
    stream-first streamable_string (λ v. v) ◌++◌ Anything append-nil
      (λ a xs ys. sym (append_assoc a xs ys)) appends (λ up. 0) (λ up. refl) plain_file
      (λ m n offset s. none) two_chunks (record { bytes = text "Hello"; offset = 0 })
      (record { bytes = text ", world"; offset = 5 } ∷ []) (λ up. none) [] two_chunks-IsValid refl
      (omega arith) (omega arith) (omega arith) tt

awaits_size :
    (fuel n : ℕ)
    → fuel ≤ 8
    → n < 2 ^ 36
    → n < reach fuel
    → AwaitsSize
        (chunks_ops plain_file)
        view
        IsFresh
        chunks_stop
        65536
        (chunks-IsBuffer plain_file)
        (copy_to2 plain_file no_file streamable_string)
        no_eof
        add_text
        (chunks-Hands plain_file no_file)
        16777216
        64
        []
        start.content
        fuel
        n
awaits_size fuel n short small reached = record {
  at = (start-IsReceiving plain_file no_file).at;
  fits = omega arith;
  short = omega (arith, length-hex_digits fuel n []);
  reached = reached;
  bound = omega arith;
}

-- "100000005" is a size of five bytes.
reads_line_example :
    (after : ContentParser (BChunks Bytes) Bytes) × (write_into_parser
        (chunks_ops plain_file)
        (parse (chunks_ops plain_file) (copy_to2 plain_file no_file streamable_string) no_eof)
        start.content
        (hex_digits 8 4294967301 [] ++ 13 ∷ 10 ∷ text "Hello")
      ≡ some (after, (true, length (hex_digits 8 4294967301 []) + 2)))
    × Answer
        (chunks_ops plain_file)
        view
        IsFresh
        chunks_stop
        65536
        (chunks-IsBuffer plain_file)
        (copy_to2 plain_file no_file streamable_string)
        no_eof
        add_text
        (chunks-Hands plain_file no_file)
        16777216
        5
        []
        after
reads_line_example =
    reads_line (chunks_ops plain_file) view IsFresh chunks_stop 65536 (chunks-IsBuffer plain_file)
      (copy_to2 plain_file no_file streamable_string) no_eof add_text
      (chunks-Hands plain_file no_file) 16777216 64 [] start.content 8 4294967301 (text "Hello")
      (awaits_size 8 4294967301 (omega arith) (omega arith) (omega arith)) (omega arith)

hex_of_wrap : hex_digits 8 4294967301 [] ≡ text "100000005"
unfolding hex_digits
hex_of_wrap = refl

-- Behind a content of twelve bytes, the next response comes in with its last piece.
receive-length_example :
    (before after : Receiver (BChunks Bytes) Bytes) × (write_all
        (content_ops (chunks_ops plain_file) (copy_to2 plain_file no_file streamable_string) no_eof)
        4096
        (text "Hello" ∷ [])
        (headed (some 12) false)
      ≡ some before)
    × (write
          (content_ops
            (chunks_ops plain_file)
            (copy_to2 plain_file no_file streamable_string)
            no_eof)
          4096
          (text ", worldHTTP/1.1")
          before
        ≡ some (record { succeed = true; finish = true; bytes_written = 7 }, after))
    × (after.content.object.out ≡ some (text "Hello, world"))
receive-length_example =
    receive-length plain_file no_file (text "Hello" ∷ []) (text ", world") (text "HTTP/1.1") 4096
      (omega arith) (omega arith) (omega arith) (omega arith)

-- A content of twelve bytes, and the next response behind it.
parse_data-Settled_example :
    (r : Parsed (Receiver (BChunks Bytes) Bytes)) × (parse_data
        (content_ops (chunks_ops plain_file) (copy_to2 plain_file no_file streamable_string) no_eof)
        10
        8
        (headed (some 12) false)
        (text "Hello, worldHTTP/1.1")
        0
        false
      ≡ some r)
    × Settled 20 r
parse_data-Settled_example =
    parse_data-Settled
      (content_ops (chunks_ops plain_file) (copy_to2 plain_file no_file streamable_string) no_eof)
      (IsRunning (chunks_ops plain_file) view IsFresh chunks_stop 65536 (chunks-IsBuffer plain_file)
        (copy_to2 plain_file no_file streamable_string) no_eof add_text
        (chunks-Hands plain_file no_file))
      (content-IsFair (chunks_ops plain_file) view IsFresh chunks_stop 65536
        (chunks-IsBuffer plain_file) (copy_to2 plain_file no_file streamable_string) no_eof add_text
        (chunks-Hands plain_file no_file))
      8 (headed (some 12) false) (text "Hello, worldHTTP/1.1") false
      (headed-IsRunning plain_file no_file 12 (omega arith) (omega arith)) (omega arith)
      (omega arith)
