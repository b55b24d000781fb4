-- ===== src/Protocols/LineRecv/Taking.antt =====
-- One line taken by the subparser, and what it leaves for the next one.
use lib_mantids.Common.{
  ℕ, ◌+◌, ◌-◌, ◌≤◌, ◌<◌, ◌≡◌, refl, ap, ◌∙◌, Bool, true, none, some, [], ◌∷◌, ◌++◌, arith, Bytes,
  first_index, u64_max, ◌==◌, length, take, take_all, take_within, length-append, length-take,
}
use lib_mantids.Memory.Container.{ContainerOps}
use lib_mantids.Memory.Ref.Window.{window_text}
use lib_mantids.Memory.Subparser.{
  SubParser, goto_next_subparser, mode_multi_delimiter, parse_window, parse_by_multi_delimiter,
  dispatch, write_into_parser,
}
use lib_mantids.Memory.Subparser.Lines.{
  IsBuffer, IsWaiting, added, added-view, take_line, parse_by_multi_delimiter-line,
}
use lib_mantids.Memory.Subparser.Exact.{parse_window-settled, write_into_parser-dispatch}
use lib_mantids.Protocols.LineRecv.{parse}

module _ {C : Type 0} (ops : ContainerOps C) (view : C → Bytes) (Inv : C → Type 0)
    (stops : ℕ → ℕ → Bool) (capacity : ℕ) (buffer : IsBuffer ops view Inv stops capacity) where
  -- A subparser between two lines.
  pub record IsReady (m : ℕ) (p : SubParser C Bytes) : Type 0 where
    pub waiting : IsWaiting ops view Inv stops capacity buffer m p
    pub mode : p.parse_mode ≡ mode_multi_delimiter
    pub delimiters : p.parse_multi_delimiter ≡ (10 ∷ []) ∷ (13 ∷ []) ∷ []

  -- What the parse of a window of `n` bytes leaves.
  abbrev parsed : SubParser C Bytes → ℕ → SubParser C Bytes
  parsed p n = record p {
    unparsed_buffer = record p.unparsed_buffer { object = (ops.clear2 p.unparsed_buffer.object).0 };
    parsed_buffer = record { references = true; referenced_offset = 0; referenced_max_bytes = n };
    parse_status = goto_next_subparser;
    object = take n (view p.unparsed_buffer.object);
  }

  parse_window-parsed :
      (p : SubParser C Bytes) (n : ℕ)
      → Inv p.unparsed_buffer.object
      → length (view p.unparsed_buffer.object) < u64_max
      → parse_window ops (parse ops) p n ≡ parsed p n
  unfolding parse
  parse_window-parsed p n inside small =
      parse_window-settled ops view Inv stops capacity buffer (parse ops) p
        (record p {
          parsed_buffer = record {
            references = true;
            referenced_offset = 0;
            referenced_max_bytes = n;
          };
          object = take n (view p.unparsed_buffer.object);
        })
        n goto_next_subparser
        (ap
          (λ line. (
            record p {
              parsed_buffer = record {
                references = true;
                referenced_offset = 0;
                referenced_max_bytes = n;
              };
              object = line;
            },
            goto_next_subparser,
          ))
          (window_text ops view Inv buffer.readable p.unparsed_buffer n inside small))

  -- What the parse of a line leaves is ready for the next one.
  parsed-IsReady :
      (m : ℕ) (p q : SubParser C Bytes) (n : ℕ)
      → IsReady m p
      → Inv q.unparsed_buffer.object
      → q.unparsed_buffer.read_only ≡ p.unparsed_buffer.read_only
      → q.unparsed_buffer.max_size ≡ p.unparsed_buffer.max_size
      → q.parse_mode ≡ p.parse_mode
      → q.parse_multi_delimiter ≡ p.parse_multi_delimiter
      → IsReady m (parsed q n)
  parsed-IsReady m p q n ready inside same_flag same_limit same_mode same_delimiters = record {
    waiting = record {
      inside = (buffer.clears q.unparsed_buffer.object inside).0;
      empty = (buffer.clears q.unparsed_buffer.object inside).1;
      writable = same_flag ∙ ready.waiting.writable;
      limit = same_limit ∙ ready.waiting.limit;
    };
    mode = same_mode ∙ ready.mode;
    delimiters = same_delimiters ∙ ready.delimiters;
  }

  dispatch-multi :
      (p : SubParser C Bytes) (buf : Bytes)
      → dispatch ops (parse ops) mode_multi_delimiter p buf
        ≡ parse_by_multi_delimiter ops (parse ops) p buf
  unfolding dispatch
  dispatch-multi p buf = refl

  -- A subparser takes a line and the character behind it, and is ready for the next one.
  pub record TakesLine (m : ℕ) (p : SubParser C Bytes) (line rest : Bytes) : Type 0 where
    pub after : SubParser C Bytes
    pub taken :
        write_into_parser ops (parse ops) p (line ++ 10 ∷ rest)
        ≡ some (after, (true, length line + 1))
    pub line_parsed : after.object ≡ line
    pub status : after.parse_status ≡ goto_next_subparser
    pub ready : IsReady m after

  pub write_into_parser-TakesLine :
      (m : ℕ) (p : SubParser C Bytes) (line rest : Bytes)
      → IsReady m p
      → m ≤ capacity
      → first_index (λ x. x == 10) line ≡ none
      → length line < m
      → TakesLine m p line rest
  write_into_parser-TakesLine m p line rest ready fits lacks short =
      let buf = line ++ 10 ∷ rest in
      let q = record (added ops view Inv stops capacity buffer p (take m buf)) {
        delimiter_found = 10 ∷ [];
      } in
      let long = length-append line (10 ∷ rest) in
      let bound = buffer.small in
      let cut = take_line m line rest 10 short in
      let (inside, holds) =
        added-view ops view Inv stops capacity buffer m p buf ready.waiting fits
          (omega (arith, length-take m buf)) in
      let by_line =
        parse_by_multi_delimiter-line ops view Inv stops capacity buffer (parse ops) m p 10
          ((13 ∷ []) ∷ []) line rest ready.waiting fits ready.delimiters lacks short in
      let small : length (view q.unparsed_buffer.object) < u64_max =
        omega (arith, ap length holds, length-take m buf) in
      let window_parsed = parse_window-parsed q (length line) inside small in
      record {
        after = parsed q (length line);
        taken =
            write_into_parser-dispatch ops view Inv stops capacity buffer (parse ops) p buf
              mode_multi_delimiter (omega arith) ready.mode
            ∙ dispatch-multi p buf
            ∙ by_line
            ∙ ap (λ t. some (t, (true, length line + 1))) window_parsed;
        line_parsed =
            ap (take (length line)) (holds ∙ cut)
            ∙ take_within (length line) line (10 ∷ take (m - length line - 1) rest) (omega arith)
            ∙ take_all (length line) line (omega arith);
        status = refl;
        ready = parsed-IsReady m p q (length line) ready inside refl refl refl refl;
      }
