-- ===== src/Protocols/Content/Rounds.antt =====
-- The three calls of parseData that a chunk takes.
use mathlib.Core.Path.{subst}
use lib_mantids.Common.{
  ℕ, suc, ◌+◌, ◌-◌, ◌%◌, ◌^◌, ◌≤◌, ◌<◌, ◌≡◌, refl, ap, ◌∙◌, Bool, true, false, Option, some, [],
  ◌∷◌, ◌++◌, arith, Bytes, Outcome, u64_mod, length, drop, drop_past, length-append,
}
use lib_mantids.Helpers.Numbers.{print_hex}
use lib_mantids.Helpers.Numbers.RoundTrip.{length-hex_digits}
use lib_mantids.Memory.Container.{ContainerOps}
use lib_mantids.Memory.Ref.Handing.{Hands}
use lib_mantids.Memory.Subparser.{
  get_more_data, goto_next_subparser, mode_delimiter, mode_size, write_into_parser,
}
use lib_mantids.Memory.Subparser.Lines.{IsBuffer}
use lib_mantids.Memory.Parser.{parse_data}
use lib_mantids.Memory.Parser.Steps.{ended, Stays, Stays-Steps, Ends, parse_data-rest}
use lib_mantids.Protocols.Content.{
  ContentParser, chunk_size, chunk_data, chunk_crlf, u32_max, parse, Receiver, write_content,
  change_to_next_parser, content_ops,
}
use lib_mantids.Protocols.Content.Receiving.{IsAt, set_status-IsAt}
use lib_mantids.Protocols.Content.Lines.{AwaitsSize, reads_size, reads_data, reads_crlf}

drop_line : (line rest : Bytes) → drop (length line + 2) (line ++ 13 ∷ 10 ∷ rest) ≡ rest
drop_line line rest =
    drop_past (length line + 2) line (13 ∷ 10 ∷ rest) (omega arith)
    ∙ ap (λ k. drop k (13 ∷ 10 ∷ rest)) {x = length line + 2 - length line} {y = 2} (omega arith)

drop_front : (buf rest : Bytes) → drop (length buf) (buf ++ rest) ≡ rest
drop_front buf rest =
    drop_past (length buf) buf rest (omega arith)
    ∙ ap (λ k. drop k rest) {x = length buf - length buf} {y = 0} (omega arith)

module _ {C S : Type 0} (ops : ContainerOps C) (view : C → Bytes) (Inv : C → Type 0)
    (stops : ℕ → ℕ → Bool) (capacity : ℕ) (buffer : IsBuffer ops view Inv stops capacity)
    (copy : C → ℕ → ℕ → S → Option (Outcome × S)) (write_eof : Bool → S → Option S)
    (put : Bytes → S → S) (hands : Hands ops view Inv buffer.readable copy put) where
  pub write_content-eq :
      (r : Receiver C S) (buf : Bytes) (p : ContentParser C S) (o : Outcome)
      → write_into_parser ops
          (parse ops copy write_eof)
          (record r.content { parse_status = get_more_data })
          buf
        ≡ some (p, o)
      → write_content ops copy write_eof r buf ≡ some (record r { content = p }, o)
  unfolding write_content
  write_content-eq r buf p o e = rw (e, write_content)

  pub stays :
      (r : Receiver C S) (buf : Bytes) (n : ℕ) (p : ContentParser C S)
      → r.current ≡ true
      → write_into_parser ops
          (parse ops copy write_eof)
          (record r.content { parse_status = get_more_data })
          buf
        ≡ some (p, (true, n))
      → p.parse_status ≡ get_more_data
      → Stays (content_ops ops copy write_eof) r buf n (record r { content = p })
  unfolding content_ops
  stays r buf n p current written status = record {
    current = current;
    written = write_content-eq r buf p (true, n) written;
    status = status;
  }

  pub ends :
      (r : Receiver C S) (buf : Bytes) (n : ℕ) (p : ContentParser C S)
      → r.current ≡ true
      → write_into_parser ops
          (parse ops copy write_eof)
          (record r.content { parse_status = get_more_data })
          buf
        ≡ some (p, (true, n))
      → p.parse_status ≡ goto_next_subparser
      → Ends (content_ops ops copy write_eof) r buf n (record { content = p; current = false })
  unfolding content_ops change_to_next_parser
  ends r buf n p current written status = record {
    current = current;
    middle = record r { content = p };
    written = write_content-eq r buf p (true, n) written;
    status = status;
    changed = refl;
    without = refl;
  }

  -- A receiver that waits for the line of a size, and a buffer for it.
  pub record IsReceiving (most m : ℕ) (s : S) (r : Receiver C S) : Type 0 where
    pub at :
        IsAt ops view Inv stops capacity buffer copy write_eof put hands most chunk_size
          mode_delimiter m s r.content
    pub current : r.current ≡ true
    pub wide : 11 ≤ m
    pub fits : m ≤ capacity
    pub roomy : 1024 ≤ capacity

  pub awaits :
      (most m : ℕ) (s : S) (r : Receiver C S) (n : ℕ)
      → IsReceiving most m s r
      → n < 2 ^ 32
      → AwaitsSize ops view Inv stops capacity buffer copy write_eof put hands most m s
          (record r.content { parse_status = get_more_data })
          7
          n
  awaits most m s r n receiving small =
      let wide = receiving.wide in
      record {
        at =
            set_status-IsAt ops view Inv stops capacity buffer copy write_eof put hands most
              chunk_size mode_delimiter m s r.content receiving.at;
        fits = receiving.fits;
        short = omega (arith, length-hex_digits 7 n []);
        reached = omega arith;
        bound = omega arith;
      }

  -- Three calls take one chunk, in front of more bytes.
  pub record TakesChunk (most m : ℕ) (s : S) (r : Receiver C S) (c rest : Bytes) : Type 0 where
    pub after : Receiver C S
    pub receiving : IsReceiving most 1024 (put c s) after
    pub returns :
        (fuel max_ttl ttl k ttl' : ℕ) (t : Receiver C S)
        → ttl + 2 ≤ max_ttl
        → 0 < k
        → k ≤ length rest
        → length (print_hex (length c) ++ 13 ∷ 10 ∷ (c ++ 13 ∷ 10 ∷ rest)) < u64_mod
        → parse_data
            (content_ops ops copy write_eof)
            fuel
            max_ttl
            after
            rest
            (ttl + 1 + 1 + 1)
            false
          ≡ some (ended true t ttl' k)
        → parse_data
            (content_ops ops copy write_eof)
            (suc (suc (suc fuel)))
            max_ttl
            r
            (print_hex (length c) ++ 13 ∷ 10 ∷ (c ++ 13 ∷ 10 ∷ rest))
            ttl
            false
          ≡ some (ended true t ttl' (length (print_hex (length c)) + 2 + (length c + (2 + k))))

  pub takes_chunk :
      (most m : ℕ) (s : S) (r : Receiver C S) (c rest : Bytes)
      → IsReceiving most m s r
      → 0 < length c
      → length c ≤ most
      → length c ≤ capacity
      → length c < u32_max
      → TakesChunk most m s r c rest
  unfolding print_hex
  takes_chunk most m s r c rest receiving pos allowed held small =
      let size = print_hex (length c) in
      let n = length c in
      let run = content_ops ops copy write_eof in
      let after_line = c ++ 13 ∷ 10 ∷ rest in
      let buf = size ++ 13 ∷ 10 ∷ after_line in
      let (p, p_read, p_status, p_at) =
        reads_size ops view Inv stops capacity buffer copy write_eof put hands most m s
          (record r.content { parse_status = get_more_data }) 7 n after_line
          (awaits most m s r n receiving (omega arith)) (omega arith) (omega arith) (omega arith) in
      let n_eq : n % 2 ^ 32 ≡ n = omega arith in
      let awaits_data =
        subst
          (λ j.
            IsAt ops view Inv stops capacity buffer copy write_eof put hands most chunk_data
              mode_size j s p)
          n_eq p_at in
      let (q, q_read, q_status, q_at) =
        reads_data ops view Inv stops capacity buffer copy write_eof put hands most n s
          (record p { parse_status = get_more_data }) c (13 ∷ 10 ∷ rest)
          (set_status-IsAt ops view Inv stops capacity buffer copy write_eof put hands most
            chunk_data mode_size n s p awaits_data)
          held refl pos in
      let roomy = receiving.roomy in
      let (t, t_read, t_status, t_at) =
        reads_crlf ops view Inv stops capacity buffer copy write_eof put hands most (put c s)
          (record q { parse_status = get_more_data }) (13 ∷ 10 ∷ []) rest
          (set_status-IsAt ops view Inv stops capacity buffer copy write_eof put hands most
            chunk_crlf mode_size 2 (put c s) q q_at)
          (omega arith) refl in
      let first =
        Stays-Steps run r (record r { content = p }) buf (length size + 2)
          (stays r buf (length size + 2) p receiving.current p_read p_status) in
      let second =
        Stays-Steps run (record r { content = p }) (record r { content = q }) after_line n
          (stays (record r { content = p }) after_line n q receiving.current q_read q_status) in
      let third =
        Stays-Steps run (record r { content = q }) (record r { content = t }) (13 ∷ 10 ∷ rest) 2
          (stays (record r { content = q }) (13 ∷ 10 ∷ rest) 2 t receiving.current t_read
            t_status) in
      let whole = length-append size (13 ∷ 10 ∷ after_line) in
      let part = length-append c (13 ∷ 10 ∷ rest) in
      record {
        after = record r { content = t };
        receiving = record {
          at = t_at;
          current = receiving.current;
          wide = omega arith;
          fits = receiving.roomy;
          roomy = receiving.roomy;
        };
        returns = λ fuel max_ttl ttl k ttl' u alive more inside bound next.
            parse_data-rest run (suc (suc fuel)) max_ttl ttl (length size + 2) (n + (2 + k)) r
              (record r { content = p }) u buf after_line ttl' true (omega arith) first
              (drop_line size after_line) (omega arith) (omega arith) bound
              (parse_data-rest run (suc fuel) max_ttl (ttl + 1) n (2 + k) (record r { content = p })
                (record r { content = q }) u after_line (13 ∷ 10 ∷ rest) ttl' true (omega arith)
                second (drop_front c (13 ∷ 10 ∷ rest)) (omega arith) (omega arith) (omega arith)
                (parse_data-rest run fuel max_ttl (ttl + 1 + 1) 2 k (record r { content = q })
                  (record r { content = t }) u (13 ∷ 10 ∷ rest) rest ttl' true (omega arith) third
                  refl (omega arith) more (omega arith) next));
      }
