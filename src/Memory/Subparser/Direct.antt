-- ===== src/Memory/Subparser/Direct.antt =====
-- parseDirect on an empty buffer: what there is room for is parsed at once, and the room gets smaller
-- by it.
use lib_mantids.Common.{
  ℕ, ◌-◌, ◌≤◌, ◌<◌, ◌≡◌, refl, sym, ap, ◌∙◌, Bool, true, false, not, Option, none, some, arith,
  Bytes, Outcome, if◌then◌else◌, u64_max, le→ltb-false, length, take, length-take,
}
use lib_mantids.Memory.Container.{ContainerOps, Container, append, clear, reduce_max_size_by}
use lib_mantids.Memory.Container.Guards.{append_passed}
use lib_mantids.Memory.Ref.{reference}
use lib_mantids.Memory.Subparser.{
  SubParser, ParseStatus, stick, reference_unparsed, run_parse, clear_unparsed, parse_direct, Taken,
}
use lib_mantids.Memory.Subparser.Lines.{IsBuffer, IsWaiting, no_size, has_room-true, stick-take}
use lib_mantids.Memory.Subparser.Exact.{holding, windowed, holding-view}

module _ {C S : Type 0} (ops : ContainerOps C) (view : C → Bytes) (Inv : C → Type 0)
    (stops : ℕ → ℕ → Bool) (capacity : ℕ) (buffer : IsBuffer ops view Inv stops capacity)
    (parse : SubParser C S → SubParser C S × ParseStatus) where
  -- What parse() leaves, with its answer kept, the buffer emptied and room for `m` bytes in it.
  abbrev pub reduced : SubParser C S → ℕ → ParseStatus → SubParser C S
  reduced q m status = record q {
    unparsed_buffer = record q.unparsed_buffer {
      max_size = m;
      object = (ops.clear2 q.unparsed_buffer.object).0;
    };
    parse_status = status;
  }

  append-stick :
      (m : ℕ) (p : SubParser C S) (buf buf' : Bytes)
      → IsWaiting ops view Inv stops capacity buffer m p
      → take m buf ≡ buf'
      → 0 < m
      → 0 < length buf'
      → length buf' ≤ capacity
      → append ops p.unparsed_buffer (stick ops p.unparsed_buffer buf) ≡ (
        (holding ops view Inv stops capacity buffer parse p buf').unparsed_buffer,
        (true, length buf'),
      )
  append-stick m p buf buf' w front pos more fits =
      let long = ap length (sym front) ∙ length-take m buf in
      let bound = buffer.small in
      let (outcome, inside, whole) =
        buffer.adds p.unparsed_buffer.object buf' w.inside more
          (omega (arith, ap length w.empty)) in
      ap (append ops p.unparsed_buffer)
        (stick-take ops view Inv stops capacity buffer m p buf w pos ∙ front)
      ∙ append_passed ops p.unparsed_buffer buf'
          (omega (arith, no_size ops view Inv stops capacity buffer m p w)) more
          (has_room-true ops view Inv stops capacity buffer m p buf' w (omega arith))
      ∙ ap (λ o. ((holding ops view Inv stops capacity buffer parse p buf').unparsed_buffer, o))
          outcome

  size-holding :
      (m : ℕ) (p : SubParser C S) (buf : Bytes)
      → IsWaiting ops view Inv stops capacity buffer m p
      → 0 < length buf
      → length buf ≤ capacity
      → ops.size (holding ops view Inv stops capacity buffer parse p buf).unparsed_buffer.object
        ≡ length buf
  size-holding m p buf w pos fits =
      let q = holding ops view Inv stops capacity buffer parse p buf in
      let (inside, holds) =
        holding-view ops view Inv stops capacity buffer parse m p buf w pos fits in
      buffer.readable.size_eq q.unparsed_buffer.object inside ∙ ap length holds

  run_parse-windowed :
      (p q : SubParser C S) (status : ParseStatus)
      → parse (windowed ops view Inv stops capacity buffer parse p u64_max) ≡ (q, status)
      → run_parse ops parse (reference_unparsed ops p 0 u64_max)
        ≡ record q { parse_status = status }
  unfolding reference_unparsed reference run_parse
  run_parse-windowed p q status e =
      rw (le→ltb-false (ops.size p.unparsed_buffer.object) 0 (omega arith), e)

  reduce_max_size_by-within :
      (b : Container C) (n : ℕ)
      → n ≤ b.max_size
      → reduce_max_size_by ops b n ≡ some (record b { max_size = b.max_size - n })
  unfolding reduce_max_size_by
  reduce_max_size_by-within b n h = rw (le→ltb-false b.max_size n h)

  -- parseDirect behind its call of parse().
  abbrev after_run : SubParser C S → Outcome → Option (Taken C S)
  after_run done o =
      let emptied = clear_unparsed ops done in
      elim (reduce_max_size_by ops emptied.unparsed_buffer (ops.size done.unparsed_buffer.object)) [
        | none ↦ none
        | some b ↦ some (record emptied { unparsed_buffer = b }, o)
      ]

  -- parseDirect behind its call of append.
  abbrev after_append : SubParser C S → Container C × Outcome → Option (Taken C S)
  after_append p r =
      let p' = record p { unparsed_buffer = r.0 } in
      if not r.1.0
      then some (p', (false, 0))
      else after_run (run_parse ops parse (reference_unparsed ops p' 0 u64_max)) r.1

  parse_direct-after_append :
      (p : SubParser C S) (buf : Bytes)
      → parse_direct ops parse p buf
        ≡ after_append p (append ops p.unparsed_buffer (stick ops p.unparsed_buffer buf))
  unfolding parse_direct
  parse_direct-after_append p buf = refl

  after_run-reduced :
      (q : SubParser C S) (n m : ℕ) (status : ParseStatus)
      → ops.size q.unparsed_buffer.object ≡ n
      → q.unparsed_buffer.max_size ≡ m
      → n ≤ m
      → after_run (record q { parse_status = status }) (true, n)
        ≡ some (reduced q (m - n) status, (true, n))
  unfolding clear_unparsed clear
  after_run-reduced q n m status size limit fits =
      let emptied : Container C = record q.unparsed_buffer {
        object = (ops.clear2 q.unparsed_buffer.object).0;
      } in
      rw (after_run, size, reduce_max_size_by-within emptied n (omega (arith, limit)), limit)

  -- The front of the bytes, as long as there is room, is parsed; parse() changes what it likes, but not
  -- the buffer.
  pub parse_direct-cut :
      (m : ℕ) (p q : SubParser C S) (buf buf' : Bytes) (status : ParseStatus)
      → IsWaiting ops view Inv stops capacity buffer m p
      → take m buf ≡ buf'
      → 0 < m
      → 0 < length buf'
      → length buf' ≤ capacity
      → parse (
          windowed ops view Inv stops capacity buffer parse
            (holding ops view Inv stops capacity buffer parse p buf')
            u64_max)
        ≡ (q, status)
      → q.unparsed_buffer
        ≡ (holding ops view Inv stops capacity buffer parse p buf').unparsed_buffer
      → parse_direct ops parse p buf
        ≡ some (reduced q (m - length buf') status, (true, length buf'))
  parse_direct-cut m p q buf buf' status w front pos more fits parsed kept =
      let long = ap length (sym front) ∙ length-take m buf in
      let held = holding ops view Inv stops capacity buffer parse p buf' in
      parse_direct-after_append p buf
      ∙ ap (after_append p) (append-stick m p buf buf' w front pos more fits)
      ∙ ap (λ done. after_run done (true, length buf')) (run_parse-windowed held q status parsed)
      ∙ after_run-reduced q (length buf') m status
          (ap (λ b. ops.size b.object) kept ∙ size-holding m p buf' w more fits)
          (ap (λ b. b.max_size) kept ∙ w.limit) (omega arith)
