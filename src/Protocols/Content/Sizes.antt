-- ===== src/Protocols/Content/Sizes.antt =====
-- parse in each mode of a chunked content: the line of a size, the data, and the end of a line.
use lib_mantids.Common.{
  ℕ, ◌%◌, ◌^◌, ◌≤◌, ◌<◌, ◌≡◌, refl, sym, ap, ◌∙◌, Bool, true, Option, some, [], ◌++◌, arith, Bytes,
  Outcome, u64_max, length, take, take_all, take_within,
}
use lib_mantids.Helpers.Numbers.{hex_digits}
use lib_mantids.Helpers.Numbers.RoundTrip.{reach, strtoul-hex_digits}
use lib_mantids.Memory.Container.{ContainerOps}
use lib_mantids.Memory.Container.Reading.{IsReadable}
use lib_mantids.Memory.Ref.{BRef}
use lib_mantids.Memory.Ref.Window.{window_text}
use lib_mantids.Memory.Ref.Handing.{Hands, append_to-window}
use lib_mantids.Memory.Subparser.{
  stat_error, get_more_data, goto_next_subparser, mode_delimiter, mode_size,
}
use lib_mantids.Protocols.Chunked.{crlf}
use lib_mantids.Protocols.Content.{
  ContentParser, chunk_size, chunk_data, chunk_crlf, u32_max, set_current_mode,
  set_parse_data_target_size, appended_out, append_parsed, end_of_stream, to_uint32_hex, parse_in,
  parse,
}

-- The first `n` bytes of a container.
abbrev pub front : ℕ → BRef
front n = record { references = true; referenced_offset = 0; referenced_max_bytes = n }

take_exact : (line rest : Bytes) → take (length line) (line ++ rest) ≡ line
take_exact line rest =
    take_within (length line) line rest (omega arith) ∙ take_all (length line) line (omega arith)

module _ {C S : Type 0} (ops : ContainerOps C) (view : C → Bytes) (Inv : C → Type 0)
    (readable : IsReadable ops view Inv) (copy : C → ℕ → ℕ → S → Option (Outcome × S))
    (write_eof : Bool → S → Option S) where
  -- A parsed line is read as a number of 64 bits, of which the low 32 are kept.
  pub to_uint32_hex-hex_digits :
      (p : ContentParser C S) (fuel n : ℕ) (rest : Bytes)
      → Inv p.unparsed_buffer.object
      → length (view p.unparsed_buffer.object) < u64_max
      → view p.unparsed_buffer.object ≡ hex_digits fuel n [] ++ rest
      → p.parsed_buffer ≡ front (length (hex_digits fuel n []))
      → n < reach fuel
      → n ≤ u64_max
      → to_uint32_hex ops copy write_eof p ≡ n % 2 ^ 32
  unfolding to_uint32_hex
  to_uint32_hex-hex_digits p fuel n rest inside small holds parsed fits bound =
      let line = hex_digits fuel n [] in
      rw
        (
          parsed,
          window_text ops view Inv readable p.unparsed_buffer (length line) inside small,
          holds,
          take_exact line rest,
          strtoul-hex_digits fuel n fits bound,
        )
        refl

  pub parse-mode :
      (p : ContentParser C S) (mode : _)
      → p.object.current_mode ≡ mode
      → parse ops copy write_eof p ≡ parse_in ops copy write_eof mode p
  unfolding parse
  parse-mode p mode e = ap (λ m. parse_in ops copy write_eof m p) e

  -- A size that is not refused: the content waits for as many bytes.
  pub parse-size :
      (p : ContentParser C S) (size : ℕ)
      → p.object.current_mode ≡ chunk_size
      → to_uint32_hex ops copy write_eof p ≡ size
      → 0 < size
      → size < u32_max
      → size ≤ p.object.security_max_http_chunk_size
      → parse ops copy write_eof p ≡ (
        set_current_mode chunk_data
            (set_parse_data_target_size size (record p { parse_mode = mode_size })),
        get_more_data,
      )
  unfolding parse_in
  parse-size p size mode e pos below allowed = parse-mode p chunk_size mode ∙ ground arith

  -- The size 0 ends the content.
  pub parse-last :
      (p : ContentParser C S) (s : S)
      → p.object.current_mode ≡ chunk_size
      → to_uint32_hex ops copy write_eof p ≡ 0
      → parse ops copy write_eof p ≡ (end_of_stream ops copy write_eof p, goto_next_subparser)
  unfolding parse_in
  parse-last p s mode e = parse-mode p chunk_size mode ∙ ground arith

  -- A size above the limit is an error.
  pub parse-refused :
      (p : ContentParser C S) (size : ℕ)
      → p.object.current_mode ≡ chunk_size
      → to_uint32_hex ops copy write_eof p ≡ size
      → p.object.security_max_http_chunk_size < size
      → parse ops copy write_eof p ≡ (p, stat_error)
  unfolding parse_in
  parse-refused p size mode e above = parse-mode p chunk_size mode ∙ ground arith

  pub appended_out-put :
      (put : Bytes → S → S)
      → Hands ops view Inv readable copy put
      → (p : ContentParser C S) (s : S) → p.object.out ≡ some s
      → p.parsed_buffer ≡ front u64_max
      → Inv p.unparsed_buffer.object
      → length (view p.unparsed_buffer.object) < u64_max
      → 0 < length (view p.unparsed_buffer.object)
      → appended_out ops copy write_eof p ≡ some (put (view p.unparsed_buffer.object) s)
  unfolding appended_out
  appended_out-put put hands p s sends parsed inside small more =
      let whole = take_all u64_max (view p.unparsed_buffer.object) (omega arith) in
      rw
        (
          sends,
          appended_out,
          parsed,
          append_to-window ops view Inv readable copy put hands p.unparsed_buffer u64_max
              (length (view p.unparsed_buffer.object)) s inside small (ap length (sym whole)) more,
        )
        (ap (λ xs. some (put xs s)) whole)

  -- The data of a chunk is handed to outStream.
  pub parse-chunk :
      (put : Bytes → S → S)
      → Hands ops view Inv readable copy put
      → (p : ContentParser C S) (s : S) → p.object.current_mode ≡ chunk_data
      → p.object.out ≡ some s
      → p.parsed_buffer ≡ front u64_max
      → Inv p.unparsed_buffer.object
      → length (view p.unparsed_buffer.object) < u64_max
      → 0 < length (view p.unparsed_buffer.object)
      → parse ops copy write_eof p ≡ (
        record p {
          unparsed_buffer = record p.unparsed_buffer { max_size = 2 };
          parse_mode = mode_size;
          object = record p.object {
            current_mode = chunk_crlf;
            out = some (put (view p.unparsed_buffer.object) s);
          };
        },
        get_more_data,
      )
  unfolding parse_in append_parsed
  parse-chunk put hands p s mode sends parsed inside small more =
      parse-mode p chunk_data mode
      ∙ ap
          (λ o. (
            record p {
              unparsed_buffer = record p.unparsed_buffer { max_size = 2 };
              parse_mode = mode_size;
              object = record p.object { current_mode = chunk_crlf; out = o };
            },
            get_more_data,
          ))
          (appended_out-put put hands
            (set_current_mode chunk_crlf
              (set_parse_data_target_size 2 (record p { parse_mode = mode_size })))
            s sends parsed inside small more)

  -- Behind the data, the next line is awaited.
  pub parse-crlf :
      (p : ContentParser C S)
      → p.object.current_mode ≡ chunk_crlf
      → parse ops copy write_eof p ≡ (
        set_current_mode chunk_size (
            set_parse_data_target_size 1024
              (record p { parse_mode = mode_delimiter; parse_delimiter = crlf })),
        get_more_data,
      )
  unfolding parse_in
  parse-crlf p mode = parse-mode p chunk_crlf mode
