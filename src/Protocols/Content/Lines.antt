-- ===== src/Protocols/Content/Lines.antt =====
-- What the content makes of the line of a size, of the data of a chunk and of the end of its line.
use lib_mantids.Common.{
  ◌⊎◌, inl, inr, lt_or_le, ℕ, ◌+◌, ◌-◌, ◌%◌, ◌^◌, ◌≤◌, ◌<◌, ◌≡◌, refl, ap, ◌∙◌, Bool, true, Option,
  some, [], ◌∷◌, ◌++◌, arith, Bytes, Outcome, u64_max, length, take, length-append, length-take,
}
use lib_mantids.Helpers.Numbers.{hex_digits}
use lib_mantids.Helpers.Numbers.RoundTrip.{reach, first_index-hex_digits}
use lib_mantids.Memory.Container.{ContainerOps}
use lib_mantids.Memory.Ref.Handing.{Hands}
use lib_mantids.Memory.Subparser.{
  stat_error, get_more_data, goto_next_subparser, mode_delimiter, mode_size, write_into_parser,
}
use lib_mantids.Memory.Subparser.Lines.{IsBuffer, added-view}
use lib_mantids.Memory.Subparser.Exact.{take_pair, holding-view}
use lib_mantids.Protocols.Chunked.{crlf}
use lib_mantids.Protocols.Content.{
  ContentParser, chunk_size, chunk_data, chunk_crlf, u32_max, parse, to_uint32_hex, end_of_stream,
  set_current_mode, set_parse_data_target_size,
}
use lib_mantids.Protocols.Content.Sizes.{
  to_uint32_hex-hex_digits, parse-size, parse-last, parse-refused, parse-chunk, parse-crlf,
}
use lib_mantids.Protocols.Content.Receiving.{
  IsAt, left, settled-IsAt, with_line, with_data, takes_line, takes_data,
}

module _ {C S : Type 0} (ops : ContainerOps C) (view : C → Bytes) (Inv : C → Type 0)
    (stops : ℕ → ℕ → Bool) (capacity : ℕ) (buffer : IsBuffer ops view Inv stops capacity)
    (copy : C → ℕ → ℕ → S → Option (Outcome × S)) (write_eof : Bool → S → Option S)
    (put : Bytes → S → S) (hands : Hands ops view Inv buffer.readable copy put) where
  -- The content that waits for a size with a buffer of `m` bytes, and a number that fits in them.
  pub record AwaitsSize (most m : ℕ) (s : S) (p : ContentParser C S) (fuel n : ℕ) : Type 0 where
    pub at :
        IsAt ops view Inv stops capacity buffer copy write_eof put hands most chunk_size
          mode_delimiter m s p
    pub fits : m ≤ capacity
    pub short : length (hex_digits fuel n []) + 1 < m
    pub reached : n < reach fuel
    pub bound : n ≤ u64_max

  -- Line by line: what is in the buffer.
  line_inside :
      (most m : ℕ) (s : S) (p : ContentParser C S) (fuel n : ℕ) (rest : Bytes)
      → AwaitsSize most m s p fuel n
      → let line = hex_digits fuel n [] in
        let q =
          with_line ops view Inv stops capacity buffer copy write_eof put hands m p line rest in
        Inv q.unparsed_buffer.object
        × (view q.unparsed_buffer.object ≡ line ++ 13 ∷ 10 ∷ take (m - length line - 2) rest)
        × (length (view q.unparsed_buffer.object) < u64_max)
  line_inside most m s p fuel n rest a =
      let line = hex_digits fuel n [] in
      let long = length-append line (13 ∷ 10 ∷ rest) in
      let small = buffer.small in
      let below = a.fits in
      let cut = length-take m (line ++ 13 ∷ 10 ∷ rest) in
      let short = a.short in
      let (inside, holds) =
        added-view ops view Inv stops capacity buffer m p (line ++ 13 ∷ 10 ∷ rest) a.at.waiting
          a.fits (omega arith) in
      (inside, holds ∙ take_pair m line rest 13 10 a.short, omega (arith, ap length holds))

  size_read :
      (most m : ℕ) (s : S) (p : ContentParser C S) (fuel n : ℕ) (rest : Bytes)
      → AwaitsSize most m s p fuel n
      → to_uint32_hex ops copy write_eof (
          with_line ops view Inv stops capacity buffer copy write_eof put hands m p
            (hex_digits fuel n [])
            rest)
        ≡ n % 2 ^ 32
  size_read most m s p fuel n rest a =
      let line = hex_digits fuel n [] in
      let (inside, holds, small) = line_inside most m s p fuel n rest a in
      to_uint32_hex-hex_digits ops view Inv buffer.readable copy write_eof
        (with_line ops view Inv stops capacity buffer copy write_eof put hands m p line rest) fuel n
        (13 ∷ 10 ∷ take (m - length line - 2) rest) inside small holds refl a.reached a.bound

  -- The line of a size that is not refused: the content waits for as many bytes.
  pub reads_size :
      (most m : ℕ) (s : S) (p : ContentParser C S) (fuel n : ℕ) (rest : Bytes)
      → AwaitsSize most m s p fuel n
      → 0 < n % 2 ^ 32
      → n % 2 ^ 32 < u32_max
      → n % 2 ^ 32 ≤ most
      → (after : ContentParser C S) × (write_into_parser ops
            (parse ops copy write_eof)
            p
            (hex_digits fuel n [] ++ 13 ∷ 10 ∷ rest)
          ≡ some (after, (true, length (hex_digits fuel n []) + 2)))
        × (after.parse_status ≡ get_more_data)
        × IsAt ops view Inv stops capacity buffer copy write_eof put hands most chunk_data mode_size
            (n % 2 ^ 32)
            s
            after
  reads_size most m s p fuel n rest a pos below allowed =
      let line = hex_digits fuel n [] in
      let at = a.at in
      let limit = at.allows in
      let q = with_line ops view Inv stops capacity buffer copy write_eof put hands m p line rest in
      let parsed =
        parse-size ops view Inv buffer.readable copy write_eof q (n % 2 ^ 32) at.awaits
          (size_read most m s p fuel n rest a) pos below (omega arith) in
      let t : ContentParser C S =
        set_current_mode chunk_data
          (set_parse_data_target_size (n % 2 ^ 32) (record q { parse_mode = mode_size })) in
      (
        left ops view Inv stops capacity buffer copy write_eof put hands t get_more_data,
        takes_line ops view Inv stops capacity buffer copy write_eof put hands most m chunk_size s p
            line rest t get_more_data at a.fits (first_index-hex_digits fuel n) a.short parsed,
        refl,
        settled-IsAt ops view Inv stops capacity buffer copy write_eof put hands most chunk_data
            mode_size s t get_more_data (line_inside most m s p fuel n rest a).0 at.waiting.writable
            refl at.delimiter refl at.sends at.allows,
      )

  -- A size above the limit fails, with nothing handed on.
  reads_refused :
      (most m : ℕ) (s : S) (p : ContentParser C S) (fuel n : ℕ) (rest : Bytes)
      → AwaitsSize most m s p fuel n
      → most < n % 2 ^ 32
      → (after : ContentParser C S) × (write_into_parser ops
            (parse ops copy write_eof)
            p
            (hex_digits fuel n [] ++ 13 ∷ 10 ∷ rest)
          ≡ some (after, (true, length (hex_digits fuel n []) + 2)))
        × (after.parse_status ≡ stat_error)
        × (after.object.out ≡ some s)
  reads_refused most m s p fuel n rest a above =
      let line = hex_digits fuel n [] in
      let at = a.at in
      let limit = at.allows in
      let q = with_line ops view Inv stops capacity buffer copy write_eof put hands m p line rest in
      let parsed =
        parse-refused ops view Inv buffer.readable copy write_eof q (n % 2 ^ 32) at.awaits
          (size_read most m s p fuel n rest a) (omega arith) in
      (
        left ops view Inv stops capacity buffer copy write_eof put hands q stat_error,
        takes_line ops view Inv stops capacity buffer copy write_eof put hands most m chunk_size s p
            line rest q stat_error at a.fits (first_index-hex_digits fuel n) a.short parsed,
        refl,
        at.sends,
      )

  -- The size 0 ends outStream, and the content.
  pub reads_last :
      (most m : ℕ) (s : S) (p : ContentParser C S) (fuel n : ℕ) (rest : Bytes)
      → AwaitsSize most m s p fuel n
      → n % 2 ^ 32 ≡ 0
      → (after : ContentParser C S) × (write_into_parser ops
            (parse ops copy write_eof)
            p
            (hex_digits fuel n [] ++ 13 ∷ 10 ∷ rest)
          ≡ some (after, (true, length (hex_digits fuel n []) + 2)))
        × (after.parse_status ≡ goto_next_subparser)
        × (after.object.out ≡ write_eof true s)
  unfolding end_of_stream
  reads_last most m s p fuel n rest a none_left =
      let line = hex_digits fuel n [] in
      let at = a.at in
      let q = with_line ops view Inv stops capacity buffer copy write_eof put hands m p line rest in
      let parsed =
        parse-last ops view Inv buffer.readable copy write_eof q s at.awaits
          (size_read most m s p fuel n rest a ∙ none_left) in
      (
        left ops view Inv stops capacity buffer copy write_eof put hands
            (end_of_stream ops copy write_eof q) goto_next_subparser,
        takes_line ops view Inv stops capacity buffer copy write_eof put hands most m chunk_size s p
            line rest (end_of_stream ops copy write_eof q) goto_next_subparser at a.fits
            (first_index-hex_digits fuel n) a.short parsed,
        refl,
        rw (at.sends),
      )

  -- What the content answers to a size `z`: it ends, it waits for as many bytes, or it fails.
  abbrev pub Answer : ℕ → ℕ → S → ContentParser C S → Type 0
  Answer most z s after =
      ((z ≡ 0) × (after.parse_status ≡ goto_next_subparser) × (after.object.out ≡ write_eof true s))
      ⊎ (((0 < z)
            × (z ≤ most)
            × (after.parse_status ≡ get_more_data)
            × IsAt ops view Inv stops capacity buffer copy write_eof put hands most chunk_data
                mode_size z s after)
          ⊎ ((most < z) × (after.parse_status ≡ stat_error) × (after.object.out ≡ some s)))

  -- The line of a size in hexadecimal, of up to 64 bits and short enough for the buffer, is taken
  -- with its end, and the content answers as to the low 32 bits of the size, when the limit on
  -- chunks is below the largest uint32_t: to 0 it ends, to a size above the limit it fails with
  -- nothing handed to outStream, and else it waits for as many bytes.
  pub reads_line :
      (most m : ℕ) (s : S) (p : ContentParser C S) (fuel n : ℕ) (rest : Bytes)
      → AwaitsSize most m s p fuel n
      → most < u32_max
      → (after : ContentParser C S) × (write_into_parser ops
            (parse ops copy write_eof)
            p
            (hex_digits fuel n [] ++ 13 ∷ 10 ∷ rest)
          ≡ some (after, (true, length (hex_digits fuel n []) + 2)))
        × Answer most (n % 2 ^ 32) s after
  reads_line most m s p fuel n rest a limited = elim (lt_or_le most (n % 2 ^ 32)) [
    | inl above ↦
        let (after, taken, status, kept) = reads_refused most m s p fuel n rest a above in
        (after, taken, inr (inr (above, status, kept)))
    | inr within ↦ elim (lt_or_le 0 (n % 2 ^ 32)) [
      | inl more ↦
          let (after, taken, status, waits) =
            reads_size most m s p fuel n rest a more (omega arith) within in
          (after, taken, inr (inl (more, within, status, waits)))
      | inr nothing ↦
          let (after, taken, status, told) = reads_last most m s p fuel n rest a (omega arith) in
          (after, taken, inl (omega arith, status, told))
    ]
  ]

  -- The data of a chunk are handed to outStream, and the end of their line is awaited.
  pub reads_data :
      (most n : ℕ) (s : S) (p : ContentParser C S) (buf rest : Bytes)
      → IsAt ops view Inv stops capacity buffer copy write_eof put hands most chunk_data mode_size n
          s p
      → n ≤ capacity
      → length buf ≡ n
      → 0 < n
      → (after : ContentParser C S) × (write_into_parser ops
            (parse ops copy write_eof)
            p
            (buf ++ rest)
          ≡ some (after, (true, n)))
        × (after.parse_status ≡ get_more_data)
        × IsAt ops view Inv stops capacity buffer copy write_eof put hands most chunk_crlf mode_size
            2
            (put buf s)
            after
  reads_data most n s p buf rest at fits e pos =
      let bound = buffer.small in
      let q = with_data ops view Inv stops capacity buffer copy write_eof put hands p buf in
      let (inside, holds) =
        holding-view ops view Inv stops capacity buffer (parse ops copy write_eof) n p buf
          at.waiting (omega arith) (omega arith) in
      let measured = ap length holds in
      let sent : ContentParser C S = record q {
        unparsed_buffer = record q.unparsed_buffer { max_size = 2 };
        parse_mode = mode_size;
        object = record q.object {
          current_mode = chunk_crlf;
          out = some (put (view q.unparsed_buffer.object) s);
        };
      } in
      let parsed =
        parse-chunk ops view Inv buffer.readable copy write_eof put hands q s at.awaits at.sends
          refl inside (omega arith) (omega arith) in
      (
        left ops view Inv stops capacity buffer copy write_eof put hands sent get_more_data,
        takes_data ops view Inv stops capacity buffer copy write_eof put hands most n chunk_data s p
            buf rest sent get_more_data at fits e pos parsed,
        refl,
        settled-IsAt ops view Inv stops capacity buffer copy write_eof put hands most chunk_crlf
            mode_size (put buf s) sent get_more_data inside at.waiting.writable refl at.delimiter
            refl (ap (λ xs. some (put xs s)) holds) at.allows,
      )

  -- The end of the line behind the data: a size is awaited.
  pub reads_crlf :
      (most : ℕ) (s : S) (p : ContentParser C S) (buf rest : Bytes)
      → IsAt ops view Inv stops capacity buffer copy write_eof put hands most chunk_crlf mode_size 2
          s p
      → 2 ≤ capacity
      → length buf ≡ 2
      → (after : ContentParser C S) × (write_into_parser ops
            (parse ops copy write_eof)
            p
            (buf ++ rest)
          ≡ some (after, (true, 2)))
        × (after.parse_status ≡ get_more_data)
        × IsAt ops view Inv stops capacity buffer copy write_eof put hands most chunk_size
            mode_delimiter 1024 s after
  reads_crlf most s p buf rest at fits e =
      let q = with_data ops view Inv stops capacity buffer copy write_eof put hands p buf in
      let (inside, holds) =
        holding-view ops view Inv stops capacity buffer (parse ops copy write_eof) 2 p buf
          at.waiting (omega arith) (omega arith) in
      let next : ContentParser C S = set_current_mode chunk_size (
        set_parse_data_target_size 1024
          (record q { parse_mode = mode_delimiter; parse_delimiter = crlf })) in
      (
        left ops view Inv stops capacity buffer copy write_eof put hands next get_more_data,
        takes_data ops view Inv stops capacity buffer copy write_eof put hands most 2 chunk_crlf s p
            buf rest next get_more_data at fits e (omega arith)
            (parse-crlf ops view Inv buffer.readable copy write_eof q at.awaits),
        refl,
        settled-IsAt ops view Inv stops capacity buffer copy write_eof put hands most chunk_size
            mode_delimiter s next get_more_data inside at.waiting.writable refl refl refl at.sends
            at.allows,
      )
