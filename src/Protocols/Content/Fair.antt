-- ===== src/Protocols/Content/Fair.antt =====
-- The client whose content has a known length, as a parser that always returns.
use mathlib.Core.Path.{subst}
use lib_mantids.Common.{
  ℕ, ◌≤◌, ◌<◌, ◌≡◌, refl, ◌⊎◌, inl, inr, Bool, true, false, Option, some, arith, Bytes, Outcome,
  lt_or_le, length, take, drop, length-take, ◌++◌, ◌-◌, take-append-drop, length-append,
}
use lib_mantids.Memory.Container.{ContainerOps}
use lib_mantids.Memory.Ref.Handing.{Hands}
use lib_mantids.Memory.Subparser.{get_more_data, goto_next_subparser}
use lib_mantids.Memory.Subparser.Lines.{IsBuffer}
use lib_mantids.Memory.Parser.Termination.{IsFair}
use lib_mantids.Protocols.Content.{Receiver, write_content, change_to_next_parser, content_ops}
use lib_mantids.Protocols.Content.Length.{takes_part, takes_rest}
use lib_mantids.Protocols.Content.Pieces.{IsExpecting, reset}
use lib_mantids.Protocols.Content.Rounds.{write_content-eq}

module _ {C S : Type 0} (ops : ContainerOps C) (view : C → Bytes) (Inv : C → Type 0)
    (stops : ℕ → ℕ → Bool) (capacity : ℕ) (buffer : IsBuffer ops view Inv stops capacity)
    (copy : C → ℕ → ℕ → S → Option (Outcome × S)) (write_eof : Bool → S → Option S)
    (put : Bytes → S → S) (hands : Hands ops view Inv buffer.readable copy put) where
  -- The client has finished, or waits for one byte or more, which its buffer can hold at once.
  abbrev pub IsRunning : Receiver C S → Type 0
  IsRunning r =
      (r.current ≡ false)
      ⊎ ((n : ℕ) × (s : S) × (0 < n)
          × (n ≤ capacity)
          × IsExpecting ops view Inv stops capacity buffer copy write_eof put hands n s r)

  -- What the client makes of bytes.
  abbrev Answers : Receiver C S → Bytes → Type 0
  Answers r buf =
      (t : Receiver C S × Outcome) × (write_content ops copy write_eof r buf ≡ some t)
      × (t.1.1 ≤ length buf)
      × (t.0.content.parse_status ≡ get_more_data → IsRunning t.0)
      × (t.0.content.parse_status ≡ goto_next_subparser
          → IsRunning (change_to_next_parser ops copy write_eof t.0).0)

  Answers-part :
      (n : ℕ) (s : S) (r : Receiver C S) (buf : Bytes)
      → IsExpecting ops view Inv stops capacity buffer copy write_eof put hands n s r
      → n ≤ capacity
      → 0 < length buf
      → length buf < n
      → Answers r buf
  unfolding change_to_next_parser
  Answers-part n s r buf e fits pos part =
      let (p, written, status, counting) =
        takes_part ops view Inv stops capacity buffer copy write_eof put hands n s
          (record r.content { parse_status = get_more_data }) buf
          (reset ops view Inv stops capacity buffer copy write_eof put hands n s r e) pos
          (omega arith) part in
      (
        (record r { content = p }, (true, length buf)),
        write_content-eq ops view Inv stops capacity buffer copy write_eof put hands r buf p
            (true, length buf) written,
        omega arith,
        λ h. inr (
          n - length buf,
          put buf s,
          omega arith,
          omega arith,
          record { counting = counting; current = e.current },
        ),
        λ h. inl refl,
      )

  Answers-rest :
      (n : ℕ) (s : S) (r : Receiver C S) (front rest : Bytes)
      → IsExpecting ops view Inv stops capacity buffer copy write_eof put hands n s r
      → n ≤ capacity
      → 0 < n
      → length front ≡ n
      → Answers r (front ++ rest)
  unfolding change_to_next_parser
  Answers-rest n s r front rest e fits pos all =
      let (p, written, status, told) =
        takes_rest ops view Inv stops capacity buffer copy write_eof put hands n s
          (record r.content { parse_status = get_more_data }) front rest
          (reset ops view Inv stops capacity buffer copy write_eof put hands n s r e) (omega arith)
          (omega arith) all in
      (
        (record r { content = p }, (true, length front)),
        write_content-eq ops view Inv stops capacity buffer copy write_eof put hands r
            (front ++ rest) p (true, length front) written,
        omega (arith, length-append front rest),
        λ h. absurd (ground (arith, status, h)),
        λ h. inl refl,
      )

  pub content-IsFair : IsFair (content_ops ops copy write_eof) IsRunning
  unfolding content_ops
  content-IsFair = record {
    answers = λ r buf inv current pos. elim inv [
      | inl off ↦ absurd (ground (arith, off, current))
      | inr (n, s, more, fits, e) ↦ elim (lt_or_le (length buf) n) [
        | inl part ↦ Answers-part n s r buf e fits pos part
        | inr whole ↦ subst (Answers r) (take-append-drop n buf) (
            Answers-rest n s r (take n buf) (drop n buf) e fits more
              (omega (arith, length-take n buf)))
      ]
    ];
  }
