-- ===== src/Protocols/Content/Length.antt =====
-- A content whose length is known, received in pieces of any sizes.
use lib_mantids.Common.{
  ℕ, ◌-◌, ◌≤◌, ◌<◌, ◌≡◌, refl, sym, ap, ◌∙◌, append-nil, Bool, true, Option, some, [], ◌++◌, arith,
  Bytes, Outcome, length, take, take_all, take_within, length-append, le→ltb-false,
}
use lib_mantids.Memory.Container.{ContainerOps, get_size_left}
use lib_mantids.Memory.Ref.Handing.{Hands}
use lib_mantids.Memory.Subparser.{
  ParseStatus, get_more_data, goto_next_subparser, mode_direct, dispatch, write_into_parser,
}
use lib_mantids.Memory.Subparser.Lines.{IsBuffer, IsWaiting}
use lib_mantids.Memory.Subparser.Exact.{holding-view, write_into_parser-dispatch}
use lib_mantids.Memory.Subparser.Direct.{reduced, parse_direct-cut}
use lib_mantids.Protocols.Content.{
  ContentParser, content_length, append_parsed, end_of_stream, parse_in, parse,
}
use lib_mantids.Protocols.Content.Receiving.{with_data}
use lib_mantids.Protocols.Content.Sizes.{front, parse-mode, appended_out-put}

module _ {C S : Type 0} (ops : ContainerOps C) (view : C → Bytes) (Inv : C → Type 0)
    (stops : ℕ → ℕ → Bool) (capacity : ℕ) (buffer : IsBuffer ops view Inv stops capacity)
    (copy : C → ℕ → ℕ → S → Option (Outcome × S)) (write_eof : Bool → S → Option S)
    (put : Bytes → S → S) (hands : Hands ops view Inv buffer.readable copy put) where
  -- A content that waits for `n` bytes more, with outStream in the state `s`.
  pub record IsCounting (n : ℕ) (s : S) (p : ContentParser C S) : Type 0 where
    pub waiting : IsWaiting ops view Inv stops capacity buffer n p
    pub gathers : p.parse_mode ≡ mode_direct
    pub awaits : p.object.current_mode ≡ content_length
    pub sends : p.object.out ≡ some s

  abbrev with_out : ContentParser C S → Option S → ContentParser C S
  with_out p out = record p { object = record p.object { out = out } }

  append_parsed-data :
      (n : ℕ) (s : S) (p : ContentParser C S) (buf : Bytes)
      → IsCounting n s p
      → 0 < length buf
      → length buf ≤ capacity
      → let q = with_data ops view Inv stops capacity buffer copy write_eof put hands p buf in
        append_parsed ops copy write_eof q ≡ with_out q (some (put buf s))
  unfolding append_parsed
  append_parsed-data n s p buf a more fits =
      let bound = buffer.small in
      let q = with_data ops view Inv stops capacity buffer copy write_eof put hands p buf in
      let (inside, holds) =
        holding-view ops view Inv stops capacity buffer (parse ops copy write_eof) n p buf a.waiting
          more fits in
      let long = ap length holds in
      ap (with_out q) (
        appended_out-put ops view Inv buffer.readable copy write_eof put hands q s a.sends refl
          inside (omega arith) (omega arith)
        ∙ ap (λ xs. some (put xs s)) holds)

  room :
      (n : ℕ) (s : S) (p : ContentParser C S) (buf : Bytes)
      → IsCounting n s p
      → 0 < length buf
      → length buf ≤ capacity
      → let q = with_data ops view Inv stops capacity buffer copy write_eof put hands p buf in
        get_size_left ops q.unparsed_buffer ≡ n - length buf
  unfolding get_size_left
  room n s p buf a more fits =
      let q = with_data ops view Inv stops capacity buffer copy write_eof put hands p buf in
      let (inside, holds) =
        holding-view ops view Inv stops capacity buffer (parse ops copy write_eof) n p buf a.waiting
          more fits in
      let size = buffer.readable.size_eq q.unparsed_buffer.object inside ∙ ap length holds in
      rw (size, a.waiting.limit) (ground arith)

  parse-part :
      (n : ℕ) (s : S) (p : ContentParser C S) (buf : Bytes)
      → IsCounting n s p
      → 0 < length buf
      → length buf ≤ capacity
      → length buf < n
      → let q = with_data ops view Inv stops capacity buffer copy write_eof put hands p buf in
        parse ops copy write_eof q ≡ (with_out q (some (put buf s)), get_more_data)
  unfolding parse_in
  parse-part n s p buf a more fits some_left =
      let q = with_data ops view Inv stops capacity buffer copy write_eof put hands p buf in
      parse-mode ops view Inv buffer.readable copy write_eof q content_length a.awaits
      ∙ rw (append_parsed-data n s p buf a more fits, room n s p buf a more fits) (ground arith)

  parse-whole :
      (n : ℕ) (s : S) (p : ContentParser C S) (buf : Bytes)
      → IsCounting n s p
      → 0 < length buf
      → length buf ≤ capacity
      → length buf ≡ n
      → let q = with_data ops view Inv stops capacity buffer copy write_eof put hands p buf in
        parse ops copy write_eof q ≡ (with_out q (write_eof true (put buf s)), goto_next_subparser)
  unfolding parse_in end_of_stream
  parse-whole n s p buf a more fits all =
      let q = with_data ops view Inv stops capacity buffer copy write_eof put hands p buf in
      parse-mode ops view Inv buffer.readable copy write_eof q content_length a.awaits
      ∙ rw
          (
            append_parsed-data n s p buf a more fits,
            room n s p buf a more fits,
            le→ltb-false 0 (n - length buf) (omega arith),
          )
          (ap (λ t. (end_of_stream ops copy write_eof t, goto_next_subparser))
            (append_parsed-data n s p buf a more fits))

  -- What a call leaves of a content that has taken `buf`.
  abbrev taken : ℕ → ContentParser C S → Bytes → Option S → ParseStatus → ContentParser C S
  taken n p buf out status =
      reduced ops view Inv stops capacity buffer (parse ops copy write_eof)
        (with_out (with_data ops view Inv stops capacity buffer copy write_eof put hands p buf) out)
        (n - length buf) status

  write_into_parser-taken :
      (n : ℕ) (s : S) (p : ContentParser C S) (buf rest : Bytes) (out : Option S)
      (status : ParseStatus)
      → IsCounting n s p
      → take n (buf ++ rest) ≡ buf
      → 0 < n
      → 0 < length buf
      → length buf ≤ capacity
      → let q = with_data ops view Inv stops capacity buffer copy write_eof put hands p buf in
        parse ops copy write_eof q ≡ (with_out q out, status)
        → write_into_parser ops (parse ops copy write_eof) p (buf ++ rest)
          ≡ some (taken n p buf out status, (true, length buf))
  unfolding dispatch
  write_into_parser-taken n s p buf rest out status a front pos more fits parsed =
      let q = with_data ops view Inv stops capacity buffer copy write_eof put hands p buf in
      write_into_parser-dispatch ops view Inv stops capacity buffer (parse ops copy write_eof) p
        (buf ++ rest) mode_direct (omega (arith, length-append buf rest)) a.gathers
      ∙ parse_direct-cut ops view Inv stops capacity buffer (parse ops copy write_eof) n p
          (with_out q out) (buf ++ rest) buf status a.waiting front pos more fits parsed refl

  -- A call with fewer bytes than are missing takes all of them.
  pub takes_part :
      (n : ℕ) (s : S) (p : ContentParser C S) (buf : Bytes)
      → IsCounting n s p
      → 0 < length buf
      → length buf ≤ capacity
      → length buf < n
      → (after : ContentParser C S) × (write_into_parser ops (parse ops copy write_eof) p buf
          ≡ some (after, (true, length buf)))
        × (after.parse_status ≡ get_more_data)
        × IsCounting (n - length buf) (put buf s) after
  takes_part n s p buf a more fits some_left =
      let parser = parse ops copy write_eof in
      let whole = ap (take n) (append-nil buf) ∙ take_all n buf (omega arith) in
      let q = with_data ops view Inv stops capacity buffer copy write_eof put hands p buf in
      let (inside, holds) =
        holding-view ops view Inv stops capacity buffer parser n p buf a.waiting more fits in
      let (empty_inside, empty) = buffer.clears q.unparsed_buffer.object inside in
      (
        taken n p buf (some (put buf s)) get_more_data,
        ap (write_into_parser ops parser p) (sym (append-nil buf))
            ∙ write_into_parser-taken n s p buf [] (some (put buf s)) get_more_data a whole
                (omega arith) more fits (parse-part n s p buf a more fits some_left),
        refl,
        record {
          waiting = record {
            inside = empty_inside;
            empty = empty;
            writable = a.waiting.writable;
            limit = refl;
          };
          gathers = a.gathers;
          awaits = a.awaits;
          sends = refl;
        },
      )

  -- A call with all that is missing, and more behind it, takes what is missing.
  pub takes_rest :
      (n : ℕ) (s : S) (p : ContentParser C S) (buf rest : Bytes)
      → IsCounting n s p
      → 0 < length buf
      → length buf ≤ capacity
      → length buf ≡ n
      → (after : ContentParser C S) × (write_into_parser ops
            (parse ops copy write_eof)
            p
            (buf ++ rest)
          ≡ some (after, (true, length buf)))
        × (after.parse_status ≡ goto_next_subparser)
        × (after.object.out ≡ write_eof true (put buf s))
  takes_rest n s p buf rest a more fits all = (
    taken n p buf (write_eof true (put buf s)) goto_next_subparser,
    write_into_parser-taken n s p buf rest (write_eof true (put buf s)) goto_next_subparser a
        (take_within n buf rest (omega arith) ∙ take_all n buf (omega arith)) (omega arith) more
        fits (parse-whole n s p buf a more fits all),
    refl,
    refl,
  )
