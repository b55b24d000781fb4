-- ===== src/Memory/Subparser/Exact.antt =====
-- parseByDelimiter and parseBySize on an empty buffer to which all that they wait for comes in, and
-- more bytes behind it.
use lib_mantids.Common.{
  ℕ, suc, ◌+◌, ◌-◌, ◌≤◌, ◌<◌, ◌≡◌, sym, ap, ◌∙◌, inl, inr, lt→ltb, lt_or_le, Bool, true, false,
  none, some, [], ◌∷◌, ◌++◌, arith, Bytes, Outcome, first_index, first_match, report, u64_max, ltb,
  ◌==◌, if◌then◌else◌, le→ltb-false, length, take, take_all, take_within, length-append,
  length-take,
}
use lib_mantids.Memory.Container.{ContainerOps, Container, append, get_size_left, find, clear}
use lib_mantids.Memory.Ref.{reference}
use lib_mantids.Memory.Container.Guards.{append_passed}
use lib_mantids.Memory.Container.Searching.{begins, find-first_match}
use lib_mantids.Memory.Subparser.{
  SubParser, ParseStatus, ParseMode, reference_unparsed, run_parse, clear_unparsed, dispatch,
  write_into_parser, parse_window, delimited, gather, parse_by_delimiter, parse_by_size,
}
use lib_mantids.Memory.Subparser.Lines.{
  IsBuffer, IsWaiting, positive, no_size, get_size_left-limit, has_room-true, added, added-view,
  gather-added, take_line,
}
use lib_mantids.Helpers.Mem.Compare.{all_same, same_byte}

first_match-pair :
    (c d : ℕ) (line rest : Bytes)
    → first_index (λ x. x == c) line ≡ none
    → first_match (begins (c ∷ d ∷ [])) (line ++ c ∷ d ∷ rest) ≡ some (length line)
unfolding first_match first_index begins all_same same_byte
first_match-pair c d [] rest e = ground arith
first_match-pair c d (x ∷ line) rest e = ground (arith, first_match-pair c d line rest)

pub take_pair :
    (m : ℕ) (line rest : Bytes) (c d : ℕ)
    → length line + 1 < m
    → take m (line ++ c ∷ d ∷ rest) ≡ line ++ c ∷ d ∷ take (m - length line - 2) rest
take_pair m line rest c d h =
    take_line m line (d ∷ rest) c (omega arith)
    ∙ ap (λ k. line ++ c ∷ take k (d ∷ rest)) {x = m - length line - 1}
        {y = suc (m - length line - 2)} (omega arith)

take_front : (n : ℕ) (xs rest : Bytes) → length xs ≡ n → take n (xs ++ rest) ≡ xs
take_front n xs rest e = take_within n xs rest (omega arith) ∙ take_all n xs (omega arith)

-- What is cut off at a length is the front of that length.
cut_front :
    (n : ℕ) (xs rest : Bytes)
    → length xs ≡ n
    → (if ltb n (length (xs ++ rest)) then take n (xs ++ rest) else xs ++ rest) ≡ xs
cut_front n xs rest e = elim (lt_or_le n (length (xs ++ rest))) [
  | inl more ↦ rw (lt→ltb n (length (xs ++ rest)) more) (take_front n xs rest e)
  | inr all ↦
      rw (le→ltb-false n (length (xs ++ rest)) all)
        (sym (take_all n (xs ++ rest) all) ∙ take_front n xs rest e)
]

module _ {C S : Type 0} (ops : ContainerOps C) (view : C → Bytes) (Inv : C → Type 0)
    (stops : ℕ → ℕ → Bool) (capacity : ℕ) (buffer : IsBuffer ops view Inv stops capacity)
    (parse : SubParser C S → SubParser C S × ParseStatus) where
  -- The search for a delimiter of two bytes behind a line without the first of them.
  find-pair :
      (b : Container C) (c d : ℕ) (line rest : Bytes)
      → Inv b.object
      → view b.object ≡ line ++ c ∷ d ∷ rest
      → first_index (λ x. x == c) line ≡ none
      → find ops b (c ∷ d ∷ []) true 0 0 ≡ some (true, length line)
  find-pair b c d line rest inside holds lacks =
      find-first_match ops view Inv stops buffer.searchable b (c ∷ d ∷ []) 0 inside (omega arith)
        (omega (arith, ap length holds, length-append line (c ∷ d ∷ rest)))
      ∙ ap (λ o. some (report 0 o))
          (ap (first_match (begins (c ∷ d ∷ []))) holds ∙ first_match-pair c d line rest lacks)
      ∙ ap (λ n. some (true, n)) {x = 0 + length line} {y = length line} (omega arith)

  parse_by_delimiter-found :
      (p p' : SubParser C S) (buf : Bytes) (appended : ℕ) (f : Outcome)
      → gather ops p buf ≡ (p', some appended)
      → find ops p'.unparsed_buffer p'.parse_delimiter true 0 0 ≡ some f
      → parse_by_delimiter ops parse p buf
        ≡ some (
            delimited ops parse p'
              (ops.size p.unparsed_buffer.object)
              appended
              f
              (length p'.parse_delimiter))
  unfolding parse_by_delimiter
  parse_by_delimiter-found p p' buf appended f gathered found =
      rw (gathered, parse_by_delimiter, gathered, found, gathered)

  delimited-pair :
      (p : SubParser C S) (appended n : ℕ)
      → n < u64_max - 1
      → delimited ops parse p 0 appended (true, n) 2 ≡ (parse_window ops parse p n, (true, n + 2))
  unfolding delimited
  delimited-pair p appended n h = ap (λ k. (parse_window ops parse p n, (true, k))) (omega arith)

  -- The bytes up to the delimiter are parsed, and they and the delimiter are taken.
  pub parse_by_delimiter-line :
      (m : ℕ) (p : SubParser C S) (c d : ℕ) (line rest : Bytes)
      → IsWaiting ops view Inv stops capacity buffer m p
      → m ≤ capacity
      → p.parse_delimiter ≡ c ∷ d ∷ []
      → first_index (λ x. x == c) line ≡ none
      → length line + 1 < m
      → let buf = line ++ c ∷ d ∷ rest in
        let q = added ops view Inv stops capacity buffer p (take m buf) in
        parse_by_delimiter ops parse p buf
        ≡ some (parse_window ops parse q (length line), (true, length line + 2))
  parse_by_delimiter-line m p c d line rest w fits delimiter lacks short =
      let buf = line ++ c ∷ d ∷ rest in
      let q = added ops view Inv stops capacity buffer p (take m buf) in
      let long = length-append line (c ∷ d ∷ rest) in
      let bound = buffer.small in
      let (inside, holds) =
        added-view ops view Inv stops capacity buffer m p buf w fits
          (omega (arith, length-take m buf)) in
      let found =
        find-pair q.unparsed_buffer c d line (take (m - length line - 2) rest) inside
          (holds ∙ take_pair m line rest c d short) lacks in
      parse_by_delimiter-found p q buf (length (take m buf)) (true, length line)
        (gather-added ops view Inv stops capacity buffer m p buf w (omega arith) fits (omega arith))
        (ap (λ ds. find ops q.unparsed_buffer ds true 0 0) delimiter ∙ found)
      ∙ ap
          (λ n. some (
            delimited ops parse q n (length (take m buf)) (true, length line)
              (length p.parse_delimiter)))
          (no_size ops view Inv stops capacity buffer m p w)
      ∙ ap
          (λ ds.
            some (delimited ops parse q 0 (length (take m buf)) (true, length line) (length ds)))
          delimiter
      ∙ ap some (delimited-pair q (length (take m buf)) (length line) (omega arith))

  -- The subparser with the bytes in its buffer.
  abbrev pub holding : SubParser C S → Bytes → SubParser C S
  holding p buf = record p {
    unparsed_buffer = record p.unparsed_buffer {
      object = (ops.append2 p.unparsed_buffer.object buf false).0;
    };
  }

  parse_by_size-piece :
      (p : SubParser C S) (x : ℕ) (buf rest : Bytes) (n : ℕ)
      → get_size_left ops p.unparsed_buffer ≡ n
      → length (x ∷ buf) ≡ n
      → append ops p.unparsed_buffer (x ∷ buf) ≡ ((holding p (x ∷ buf)).unparsed_buffer, (true, n))
      → get_size_left ops (holding p (x ∷ buf)).unparsed_buffer ≡ 0
      → parse_by_size ops parse p (x ∷ (buf ++ rest))
        ≡ (parse_window ops parse (holding p (x ∷ buf)) u64_max, (true, n))
  unfolding parse_by_size
  parse_by_size-piece p x buf rest n left e appended full =
      rw (left, cut_front n (x ∷ buf) rest e, appended, full)

  -- The bytes that there is room for are parsed, and no others are taken.
  pub parse_by_size-whole :
      (n : ℕ) (p : SubParser C S) (buf rest : Bytes)
      → IsWaiting ops view Inv stops capacity buffer n p
      → n ≤ capacity
      → length buf ≡ n
      → 0 < n
      → parse_by_size ops parse p (buf ++ rest)
        ≡ (parse_window ops parse (holding p buf) u64_max, (true, n))
  unfolding get_size_left
  parse_by_size-whole n p [] rest w fits e pos = absurd (omega arith)
  parse_by_size-whole n p (x ∷ buf) rest w fits e pos =
      let bound = buffer.small in
      let (outcome, inside, whole) =
        buffer.adds p.unparsed_buffer.object (x ∷ buf) w.inside (omega arith)
          (omega (arith, ap length w.empty)) in
      let now : ops.size (holding p (x ∷ buf)).unparsed_buffer.object ≡ n =
        buffer.readable.size_eq (holding p (x ∷ buf)).unparsed_buffer.object inside
        ∙ ap length (whole ∙ ap (λ l. l ++ x ∷ buf) w.empty)
        ∙ e in
      let room = has_room-true ops view Inv stops capacity buffer n p (x ∷ buf) w (omega arith) in
      parse_by_size-piece p x buf rest n
        (get_size_left-limit ops view Inv stops capacity buffer n p w) e
        (append_passed ops p.unparsed_buffer (x ∷ buf)
            (omega (arith, no_size ops view Inv stops capacity buffer n p w)) (omega arith) room
          ∙ ap (λ o. ((holding p (x ∷ buf)).unparsed_buffer, o)) (outcome ∙ ap (λ k. (true, k)) e))
        (rw (now, w.limit) (ground arith))

  pub holding-view :
      (n : ℕ) (p : SubParser C S) (buf : Bytes)
      → IsWaiting ops view Inv stops capacity buffer n p
      → 0 < length buf
      → length buf ≤ capacity
      → Inv (holding p buf).unparsed_buffer.object
        × (view (holding p buf).unparsed_buffer.object ≡ buf)
  holding-view n p buf w pos fits =
      let (outcome, inside, whole) =
        buffer.adds p.unparsed_buffer.object buf w.inside pos (omega (arith, ap length w.empty)) in
      (inside, whole ∙ ap (λ l. l ++ buf) w.empty)

  -- parsedBuffer on the first bytes of the buffer.
  abbrev pub windowed : SubParser C S → ℕ → SubParser C S
  windowed p n = record p {
    parsed_buffer = record { references = true; referenced_offset = 0; referenced_max_bytes = n };
  }

  -- What parse() leaves, with its answer kept and the buffer emptied.
  abbrev pub settled : SubParser C S → ParseStatus → SubParser C S
  settled p status = record p {
    unparsed_buffer = record p.unparsed_buffer { object = (ops.clear2 p.unparsed_buffer.object).0 };
    parse_status = status;
  }

  pub parse_window-settled :
      (p q : SubParser C S) (n : ℕ) (status : ParseStatus)
      → parse (windowed p n) ≡ (q, status)
      → parse_window ops parse p n ≡ settled q status
  unfolding parse_window reference_unparsed reference run_parse clear_unparsed clear
  parse_window-settled p q n status e =
      rw (le→ltb-false (ops.size p.unparsed_buffer.object) 0 (omega arith), e)

  pub write_into_parser-dispatch :
      (p : SubParser C S) (buf : Bytes) (mode : ParseMode)
      → 0 < length buf
      → p.parse_mode ≡ mode
      → write_into_parser ops parse p buf ≡ dispatch ops parse mode p buf
  unfolding write_into_parser
  write_into_parser-dispatch p buf mode more e =
      rw (positive (length buf) more) (ap (λ d. dispatch ops parse d p buf) e)
