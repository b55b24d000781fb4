-- ===== src/Memory/Subparser/Lines.antt =====
-- parseByMultiDelimiter on an empty buffer: the bytes in front of the first delimiter are parsed, and
-- they and the delimiter are taken.
use lib_mantids.Common.{
  ℕ, suc, ◌+◌, ◌-◌, ◌≤◌, ◌<◌, ◌≡◌, sym, ap, ◌∙◌, inl, inr, Bool, true, false, none, some, List, [],
  ◌∷◌, ◌++◌, arith, Bytes, Outcome, first_index, first_match, report, u64_max, ◌==◌, le→ltb-false,
  lt→ltb, lt_or_le, length, take, take_all, take_past, length-append, length-take,
}
use lib_mantids.Memory.Container.{ContainerOps, Container, get_size_left, find, find_any}
use lib_mantids.Memory.Container.Guards.{has_room, append_passed}
use lib_mantids.Memory.Container.Reading.{IsReadable}
use lib_mantids.Memory.Container.Searching.{IsSearchable, begins, find-first_match}
use lib_mantids.Memory.Ref.{reference}
use lib_mantids.Memory.Subparser.{
  SubParser, ParseStatus, stick, reference_unparsed, parse_window, delimited, gather,
  parse_by_multi_delimiter,
}
use lib_mantids.Helpers.Mem.Compare.{all_same, same_byte}

-- A container that takes up to `capacity` bytes at its end, and can be emptied.
pub record IsBuffer {C : Type 0} (ops : ContainerOps C) (view : C → Bytes) (Inv : C → Type 0)
    (stops : ℕ → ℕ → Bool) (capacity : ℕ) : Type 0 where
  pub searchable : IsSearchable ops view Inv stops
  pub readable : IsReadable ops view Inv
  pub small : capacity < u64_max
  pub adds :
      (c : C) (buf : Bytes)
      → Inv c
      → 0 < length buf
      → length (view c) + length buf ≤ capacity
      → ((ops.append2 c buf false).1 ≡ (true, length buf))
        × Inv (ops.append2 c buf false).0
        × (view (ops.append2 c buf false).0 ≡ view c ++ buf)
  pub clears : (c : C) → Inv c → Inv (ops.clear2 c).0 × (view (ops.clear2 c).0 ≡ [])

first_match-one :
    (c : ℕ) (line rest : Bytes)
    → first_index (λ x. x == c) line ≡ none
    → first_match (begins (c ∷ [])) (line ++ c ∷ rest) ≡ some (length line)
unfolding first_match first_index begins all_same same_byte
first_match-one c [] rest e = ground arith
first_match-one c (x ∷ line) rest e = ground (arith, first_match-one c line rest)

pub take_line :
    (m : ℕ) (line rest : Bytes) (c : ℕ)
    → length line < m
    → take m (line ++ c ∷ rest) ≡ line ++ c ∷ take (m - length line - 1) rest
take_line m line rest c h =
    take_past m line (c ∷ rest) (omega arith)
    ∙ ap (λ k. line ++ take k (c ∷ rest)) {x = m - length line} {y = suc (m - length line - 1)}
        (omega arith)

pub positive : (n : ℕ) → 0 < n → (n == 0) ≡ false
positive n h = ground arith

module _ {C : Type 0} (ops : ContainerOps C) (view : C → Bytes) (Inv : C → Type 0)
    (stops : ℕ → ℕ → Bool) (capacity : ℕ) (buffer : IsBuffer ops view Inv stops capacity) where
  -- The search for a delimiter of one byte behind a line without it.
  find-line :
      (b : Container C) (c : ℕ) (line rest : Bytes)
      → Inv b.object
      → view b.object ≡ line ++ c ∷ rest
      → first_index (λ x. x == c) line ≡ none
      → find ops b (c ∷ []) true 0 0 ≡ some (true, length line)
  find-line b c line rest inside holds lacks =
      find-first_match ops view Inv stops buffer.searchable b (c ∷ []) 0 inside (omega arith)
        (omega (arith, ap length holds, length-append line (c ∷ rest)))
      ∙ ap (λ o. some (report 0 o))
          (ap (first_match (begins (c ∷ []))) holds ∙ first_match-one c line rest lacks)
      ∙ ap (λ n. some (true, n)) {x = 0 + length line} {y = length line} (omega arith)

  find_any-line :
      (b : Container C) (c : ℕ) (line rest : Bytes) (others : List Bytes)
      → Inv b.object
      → view b.object ≡ line ++ c ∷ rest
      → first_index (λ x. x == c) line ≡ none
      → find_any ops b ((c ∷ []) ∷ others) true 0 0 ≡ some (c ∷ [], (true, length line))
  unfolding find_any
  find_any-line b c line rest others inside holds lacks =
      rw (find-line b c line rest inside holds lacks, find_any)

module _ {C S : Type 0} (ops : ContainerOps C) (view : C → Bytes) (Inv : C → Type 0)
    (stops : ℕ → ℕ → Bool) (capacity : ℕ) (buffer : IsBuffer ops view Inv stops capacity) where
  -- A subparser that waits for a line, with an empty buffer for `m` bytes.
  pub record IsWaiting (m : ℕ) (p : SubParser C S) : Type 0 where
    pub inside : Inv p.unparsed_buffer.object
    pub empty : view p.unparsed_buffer.object ≡ []
    pub writable : p.unparsed_buffer.read_only ≡ false
    pub limit : p.unparsed_buffer.max_size ≡ m

  pub no_size : (m : ℕ) (p : SubParser C S) → IsWaiting m p → ops.size p.unparsed_buffer.object ≡ 0
  no_size m p w = buffer.readable.size_eq p.unparsed_buffer.object w.inside ∙ ap length w.empty

  pub get_size_left-limit :
      (m : ℕ) (p : SubParser C S) → IsWaiting m p → get_size_left ops p.unparsed_buffer ≡ m
  unfolding get_size_left
  get_size_left-limit m p w = rw (no_size m p w, w.limit) (ground arith)

  pub stick-take :
      (m : ℕ) (p : SubParser C S) (buf : Bytes)
      → IsWaiting m p
      → 0 < m
      → stick ops p.unparsed_buffer buf ≡ take m buf
  unfolding stick
  stick-take m p buf w pos =
      let left = get_size_left-limit m p w in
      elim (lt_or_le m (length buf)) [
        | inl long ↦ rw (left, lt→ltb m (length buf) long, positive m pos)
        | inr short ↦ rw (left, le→ltb-false m (length buf) short) (sym (take_all m buf short))
      ]

  pub has_room-true :
      (m : ℕ) (p : SubParser C S) (buf : Bytes)
      → IsWaiting m p
      → length buf ≤ m
      → has_room ops p.unparsed_buffer buf ≡ true
  unfolding has_room
  has_room-true m p buf w fits = rw (no_size m p w, w.writable, w.limit) (ground arith)

  -- The subparser once it has added the bytes.
  abbrev pub added : SubParser C S → Bytes → SubParser C S
  added p buf = record p {
    unparsed_buffer = record p.unparsed_buffer {
      object = (ops.append2 p.unparsed_buffer.object buf false).0;
    };
    parsed_buffer = record {
      references = true;
      referenced_offset = 0;
      referenced_max_bytes = u64_max;
    };
  }

  pub gather-added :
      (m : ℕ) (p : SubParser C S) (buf : Bytes)
      → IsWaiting m p
      → 0 < m
      → m ≤ capacity
      → 0 < length buf
      → gather ops p buf ≡ (added p (take m buf), some (length (take m buf)))
  unfolding gather reference_unparsed reference
  gather-added m p buf w pos fits more =
      let buf' = take m buf in
      let n = length buf' in
      let some_bytes : 0 < n = omega (arith, length-take m buf) in
      let few : n ≤ m = omega (arith, length-take m buf) in
      let bound = buffer.small in
      let (outcome, inside, whole) =
        buffer.adds p.unparsed_buffer.object buf' w.inside some_bytes
          (omega (arith, ap length w.empty)) in
      let passed =
        append_passed ops p.unparsed_buffer buf' (omega (arith, no_size m p w)) some_bytes
          (has_room-true m p buf' w few) in
      rw (
        stick-take m p buf w pos,
        passed,
        positive (length buf) more,
        positive n some_bytes,
        outcome,
        positive n some_bytes,
        le→ltb-false (ops.size (ops.append2 p.unparsed_buffer.object buf' false).0) 0 (omega arith),
      )

  pub added-view :
      (m : ℕ) (p : SubParser C S) (buf : Bytes)
      → IsWaiting m p
      → m ≤ capacity
      → 0 < length (take m buf)
      → Inv (added p (take m buf)).unparsed_buffer.object
        × (view (added p (take m buf)).unparsed_buffer.object ≡ take m buf)
  added-view m p buf w fits some_bytes =
      let (outcome, inside, whole) =
        buffer.adds p.unparsed_buffer.object (take m buf) w.inside some_bytes
          (omega (arith, ap length w.empty, length-take m buf)) in
      (inside, whole ∙ ap (λ l. l ++ take m buf) w.empty)

  module _ (parse : SubParser C S → SubParser C S × ParseStatus) where
    delimited-line :
        (p : SubParser C S) (appended n : ℕ)
        → n < u64_max
        → delimited ops parse p 0 appended (true, n) 1 ≡ (parse_window ops parse p n, (true, n + 1))
    unfolding delimited
    delimited-line p appended n h = ap (λ k. (parse_window ops parse p n, (true, k))) (omega arith)

    parse_by_multi_delimiter-found :
        (p p' : SubParser C S) (buf : Bytes) (appended : ℕ) (f : Bytes × Outcome)
        → gather ops p buf ≡ (p', some appended)
        → find_any ops p'.unparsed_buffer p'.parse_multi_delimiter true 0 0 ≡ some f
        → parse_by_multi_delimiter ops parse p buf
          ≡ some (
              delimited ops parse
                (record p' { delimiter_found = f.0 })
                (ops.size p.unparsed_buffer.object)
                appended
                f.1
                (length f.0))
    unfolding parse_by_multi_delimiter
    parse_by_multi_delimiter-found p p' buf appended f gathered found =
        rw (gathered, parse_by_multi_delimiter, gathered, found, gathered)

    -- A line and the first delimiter come in, and more bytes behind them.
    pub parse_by_multi_delimiter-line :
        (m : ℕ) (p : SubParser C S) (c : ℕ) (others : List Bytes) (line rest : Bytes)
        → IsWaiting m p
        → m ≤ capacity
        → p.parse_multi_delimiter ≡ (c ∷ []) ∷ others
        → first_index (λ x. x == c) line ≡ none
        → length line < m
        → let q = added p (take m (line ++ c ∷ rest)) in
          parse_by_multi_delimiter ops parse p (line ++ c ∷ rest)
          ≡ some (
            parse_window ops parse (record q { delimiter_found = c ∷ [] }) (length line),
            (true, length line + 1),
          )
    parse_by_multi_delimiter-line m p c others line rest w fits delimiters lacks short =
        let buf = line ++ c ∷ rest in
        let cut = take_line m line rest c short in
        let long = length-append line (c ∷ rest) in
        let bound = buffer.small in
        let (inside, holds) = added-view m p buf w fits (omega (arith, length-take m buf)) in
        let found =
          find_any-line ops view Inv stops capacity buffer (added p (take m buf)).unparsed_buffer c
            line (take (m - length line - 1) rest) others inside (holds ∙ cut) lacks in
        parse_by_multi_delimiter-found p (added p (take m buf)) buf (length (take m buf))
          (c ∷ [], (true, length line)) (gather-added m p buf w (omega arith) fits (omega arith))
          (ap (λ ds. find_any ops (added p (take m buf)).unparsed_buffer ds true 0 0) delimiters
            ∙ found)
        ∙ ap
            (λ n. some (
              delimited ops parse (record (added p (take m buf)) { delimiter_found = c ∷ [] }) n
                (length (take m buf)) (true, length line) 1))
            (no_size m p w)
        ∙ ap some (
            delimited-line (record (added p (take m buf)) { delimiter_found = c ∷ [] })
              (length (take m buf)) (length line) (omega arith))
