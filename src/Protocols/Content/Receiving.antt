-- ===== src/Protocols/Content/Receiving.antt =====
-- The calls of writeIntoParser that a chunk takes: the line of its size, its data, and the end of the
-- line behind them.
use lib_mantids.Common.{
  ℕ, ◌+◌, ◌≤◌, ◌<◌, ◌≡◌, refl, ap, ◌∙◌, Bool, true, false, Option, none, some, ◌∷◌, ◌++◌, arith,
  Bytes, Outcome, first_index, u64_max, ◌==◌, length, take, length-append,
}
use lib_mantids.Memory.Container.{ContainerOps}
use lib_mantids.Memory.Ref.Handing.{Hands}
use lib_mantids.Memory.Subparser.{
  ParseStatus, ParseMode, get_more_data, mode_delimiter, mode_size, dispatch, write_into_parser,
}
use lib_mantids.Memory.Subparser.Lines.{IsBuffer, IsWaiting, added}
use lib_mantids.Memory.Subparser.Exact.{
  parse_by_delimiter-line, parse_by_size-whole, holding, windowed, settled, parse_window-settled,
  write_into_parser-dispatch,
}
use lib_mantids.Protocols.Chunked.{crlf}
use lib_mantids.Protocols.Content.{ContentParser, ProcessingMode, parse}

module _ {C S : Type 0} (ops : ContainerOps C) (view : C → Bytes) (Inv : C → Type 0)
    (stops : ℕ → ℕ → Bool) (capacity : ℕ) (buffer : IsBuffer ops view Inv stops capacity)
    (copy : C → ℕ → ℕ → S → Option (Outcome × S)) (write_eof : Bool → S → Option S)
    (put : Bytes → S → S) (hands : Hands ops view Inv buffer.readable copy put) where
  -- A content in one of its modes, with an empty buffer for `m` bytes and outStream in the state `s`.
  pub record IsAt (most : ℕ) (mode : ProcessingMode) (how : ParseMode) (m : ℕ) (s : S)
      (p : ContentParser C S) : Type 0 where
    pub waiting : IsWaiting ops view Inv stops capacity buffer m p
    pub gathers : p.parse_mode ≡ how
    pub delimiter : p.parse_delimiter ≡ crlf
    pub awaits : p.object.current_mode ≡ mode
    pub sends : p.object.out ≡ some s
    pub allows : p.object.security_max_http_chunk_size ≡ most

  pub set_status-IsAt :
      (most : ℕ) (mode : ProcessingMode) (how : ParseMode) (m : ℕ) (s : S) (p : ContentParser C S)
      → IsAt most mode how m s p
      → IsAt most mode how m s (record p { parse_status = get_more_data })
  set_status-IsAt most mode how m s p a = record {
    waiting = record {
      inside = a.waiting.inside;
      empty = a.waiting.empty;
      writable = a.waiting.writable;
      limit = a.waiting.limit;
    };
    gathers = a.gathers;
    delimiter = a.delimiter;
    awaits = a.awaits;
    sends = a.sends;
    allows = a.allows;
  }

  -- What a call leaves, with its answer kept and the buffer emptied.
  abbrev pub left : ContentParser C S → ParseStatus → ContentParser C S
  left q status = settled ops view Inv stops capacity buffer (parse ops copy write_eof) q status

  pub settled-IsAt :
      (most : ℕ) (mode : ProcessingMode) (how : ParseMode) (s : S) (q : ContentParser C S)
      (status : ParseStatus)
      → Inv q.unparsed_buffer.object
      → q.unparsed_buffer.read_only ≡ false
      → q.parse_mode ≡ how
      → q.parse_delimiter ≡ crlf
      → q.object.current_mode ≡ mode
      → q.object.out ≡ some s
      → q.object.security_max_http_chunk_size ≡ most
      → IsAt most mode how q.unparsed_buffer.max_size s (left q status)
  settled-IsAt most mode how s q status inside writable gathers delimiter awaits sends allows =
      let (empty_inside, empty) = buffer.clears q.unparsed_buffer.object inside in
      record {
        waiting = record {
          inside = empty_inside;
          empty = empty;
          writable = writable;
          limit = refl;
        };
        gathers = gathers;
        delimiter = delimiter;
        awaits = awaits;
        sends = sends;
        allows = allows;
      }

  -- The subparser with a line in its buffer, and its window on the line.
  abbrev pub with_line : ℕ → ContentParser C S → Bytes → Bytes → ContentParser C S
  with_line m p line rest =
      windowed ops view Inv stops capacity buffer (parse ops copy write_eof)
        (added ops view Inv stops capacity buffer p (take m (line ++ 13 ∷ 10 ∷ rest))) (length line)

  -- The subparser with the data in its buffer, and its window on them.
  abbrev pub with_data : ContentParser C S → Bytes → ContentParser C S
  with_data p buf =
      windowed ops view Inv stops capacity buffer (parse ops copy write_eof)
        (holding ops view Inv stops capacity buffer (parse ops copy write_eof) p buf) u64_max

  pub takes_line :
      (most m : ℕ) (mode : ProcessingMode) (s : S) (p : ContentParser C S) (line rest : Bytes)
      (q : ContentParser C S) (status : ParseStatus)
      → IsAt most mode mode_delimiter m s p
      → m ≤ capacity
      → first_index (λ x. x == 13) line ≡ none
      → length line + 1 < m
      → parse ops copy write_eof (with_line m p line rest) ≡ (q, status)
      → write_into_parser ops (parse ops copy write_eof) p (line ++ 13 ∷ 10 ∷ rest)
        ≡ some (left q status, (true, length line + 2))
  unfolding dispatch
  takes_line most m mode s p line rest q status a fits lacks short parsed =
      write_into_parser-dispatch ops view Inv stops capacity buffer (parse ops copy write_eof) p
        (line ++ 13 ∷ 10 ∷ rest) mode_delimiter (omega (arith, length-append line (13 ∷ 10 ∷ rest)))
        a.gathers
      ∙ parse_by_delimiter-line ops view Inv stops capacity buffer (parse ops copy write_eof) m p 13
          10 line rest a.waiting fits a.delimiter lacks short
      ∙ ap (λ t. some (t, (true, length line + 2)))
          (parse_window-settled ops view Inv stops capacity buffer (parse ops copy write_eof)
            (added ops view Inv stops capacity buffer p (take m (line ++ 13 ∷ 10 ∷ rest))) q
            (length line) status parsed)

  pub takes_data :
      (most n : ℕ) (mode : ProcessingMode) (s : S) (p : ContentParser C S) (buf rest : Bytes)
      (q : ContentParser C S) (status : ParseStatus)
      → IsAt most mode mode_size n s p
      → n ≤ capacity
      → length buf ≡ n
      → 0 < n
      → parse ops copy write_eof (with_data p buf) ≡ (q, status)
      → write_into_parser ops (parse ops copy write_eof) p (buf ++ rest)
        ≡ some (left q status, (true, n))
  unfolding dispatch
  takes_data most n mode s p buf rest q status a fits e pos parsed =
      write_into_parser-dispatch ops view Inv stops capacity buffer (parse ops copy write_eof) p
        (buf ++ rest) mode_size (omega (arith, length-append buf rest)) a.gathers
      ∙ ap some (
          parse_by_size-whole ops view Inv stops capacity buffer (parse ops copy write_eof) n p buf
            rest a.waiting fits e pos)
      ∙ ap (λ t. some (t, (true, n)))
          (parse_window-settled ops view Inv stops capacity buffer (parse ops copy write_eof)
            (holding ops view Inv stops capacity buffer (parse ops copy write_eof) p buf) q u64_max
            status parsed)
