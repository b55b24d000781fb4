-- ===== src/Memory/Subparser.antt =====
-- Memory/mdz_mem_vars/subparser.h and subparser.cpp: a part of a protocol that gathers bytes until its
-- mode says that they are complete, and then calls the virtual parse(). The container unparsedBuffer
-- is a container over `C`; the derived class keeps its own fields in `object`, and its parse() is a
-- function of the whole object. upStream, clientMode and the name are only stored. none is a
-- comparison out of bounds, or the exception of reduceMaxSizeBy.
pub mod Lines
pub mod Direct
pub mod Exact
use lib_mantids.Common.{
  ℕ, zero, suc, Bool, true, false, not, ◌&&◌, ◌||◌, Option, none, some, List, [], ◌∷◌, Bytes,
  Outcome, u64_max, add64, sub64, ltb, ◌==◌, if◌then◌else◌, length, take,
}
use lib_mantids.Helpers.Mem.{memcmp}
use lib_mantids.Memory.Container.{
  ContainerOps, Container, append, displace, copy_out, get_size_left, reduce_max_size_by, clear,
  find, find_any,
}
use lib_mantids.Memory.Ref.{BRef, reference, ref_ops, as_container}
use lib_mantids.Memory.Ref

pub data ParseStatus : Type 0 where
  stat_error get_more_data goto_next_subparser : ParseStatus

pub data ParseMode : Type 0 where
  mode_delimiter mode_size mode_validator mode_connection_end mode_direct mode_direct_delimiter
        mode_multi_delimiter mode_free_parser :
      ParseMode

pub record SubParser (C S : Type 0) : Type 0 where
  pub unparsed_buffer : Container C
  pub parsed_buffer : BRef
  pub parse_delimiter : Bytes
  pub delimiter_found : Bytes
  pub parse_multi_delimiter : List Bytes
  pub parse_mode : ParseMode
  pub parse_status : ParseStatus
  pub stream_ended : Bool
  pub object : S

-- What a function that takes bytes returns, with the object it leaves.
abbrev pub Taken : Type 0 → Type 0 → Type 0
Taken C S = SubParser C S × Outcome

module _ {C : Type 0} (ops : ContainerOps C) where
  -- What the container still has room for; all of the bytes where there is none.
  unfoldable pub stick : Container C → Bytes → Bytes
  stick unparsed buf =
      let left = get_size_left ops unparsed in
      if ltb left (length buf) && not (left == 0) then take left buf else buf

  -- The last `v` bytes of unparsedBuffer, through a window of their own.
  unfoldable pub last_bytes : Container C → ℕ → Bytes
  last_bytes unparsed v =
      let empty : BRef = record {
        references = false;
        referenced_offset = 0;
        referenced_max_bytes = 0;
      } in
      let r = (reference ops unparsed empty (sub64 (ops.size unparsed.object) v) u64_max).0 in
      (copy_out (ref_ops ops) (as_container unparsed r) (Ref.size ops (unparsed, r)) 0).1

  -- The loop of getLastBytesInCommon.
  unfoldable pub last_bytes_loop : ℕ → Container C → Bytes → Option ℕ
  last_bytes_loop zero unparsed boundary = some 0
  last_bytes_loop (suc n) unparsed boundary =
      let rest = last_bytes_loop n unparsed boundary in
      elim (memcmp (last_bytes unparsed (suc n)) boundary (suc n)) [
        | none ↦ none
        | some equal ↦ if equal then some (suc n) else rest
      ]

  unfoldable pub get_last_bytes_in_common : Container C → Bytes → Option ℕ
  get_last_bytes_in_common unparsed boundary =
      let most = sub64 (length boundary) 1 in
      let current = ops.size unparsed.object in
      last_bytes_loop (if ltb most current then most else current) unparsed boundary

-- SubParser::SubParser(), around a fresh buffer, with the fields of the derived class.
unfoldable pub new : {C S : Type 0} → Container C → S → SubParser C S
new unparsed object = record {
  unparsed_buffer = unparsed;
  parsed_buffer = record { references = false; referenced_offset = 0; referenced_max_bytes = 0 };
  parse_delimiter = 13 ∷ 10 ∷ [];
  delimiter_found = [];
  parse_multi_delimiter = [];
  parse_mode = mode_delimiter;
  parse_status = get_more_data;
  stream_ended = false;
  object = object;
}

module _ {C S : Type 0} where
  abbrev pub refused : SubParser C S → Taken C S
  refused p = (p, (false, 0))

  unfoldable pub set_parse_mode : ParseMode → SubParser C S → SubParser C S
  set_parse_mode value p = elim value [
    | mode_direct ↦ record p {
      unparsed_buffer = record p.unparsed_buffer { max_size = u64_max };
      parse_mode = mode_direct;
    }
    | other ↦ record p { parse_mode = other }
  ]

module _ {C S : Type 0} (ops : ContainerOps C) where
  -- parsedBuffer.reference(&unparsedBuffer,offset,maxBytes)
  unfoldable pub reference_unparsed : SubParser C S → ℕ → ℕ → SubParser C S
  reference_unparsed p offset max_bytes = record p {
    parsed_buffer = (reference ops p.unparsed_buffer p.parsed_buffer offset max_bytes).0;
  }

  unfoldable pub clear_unparsed : SubParser C S → SubParser C S
  clear_unparsed p = record p { unparsed_buffer = (clear ops p.unparsed_buffer).0 }

  -- The bytes are added to unparsedBuffer, before a search in it: none is the refusal.
  unfoldable pub gather : SubParser C S → Bytes → SubParser C S × Option ℕ
  gather p buf =
      let p' = if length buf == 0 then record p { stream_ended = true } else p in
      let buf' = stick ops p.unparsed_buffer buf in
      let r = append ops p.unparsed_buffer buf' in
      let added = record p' { unparsed_buffer = r.0 } in
      if length buf' == 0
      then (reference_unparsed p' 0 u64_max, some 0)
      else if not r.1.0 || r.1.1 == 0
      then (clear_unparsed added, none)
      else (reference_unparsed added 0 u64_max, some r.1.1)

  module _ (parse : SubParser C S → SubParser C S × ParseStatus) where
    -- setParseStatus(parse())
    unfoldable pub run_parse : SubParser C S → SubParser C S
    run_parse p = let (p', status) = parse p in record p' { parse_status = status }

    -- The end of the functions that parse the whole of unparsedBuffer and empty it.
    unfoldable pub parse_window : SubParser C S → ℕ → SubParser C S
    parse_window p max_bytes = clear_unparsed (run_parse (reference_unparsed p 0 max_bytes))

    -- What parseByDelimiter and parseByMultiDelimiter do with the position of a delimiter.
    unfoldable pub delimited : SubParser C S → ℕ → ℕ → Outcome → ℕ → Taken C S
    delimited p previous appended needle_pos delimiter_size =
        if needle_pos.0
        then (
          parse_window p needle_pos.1,
          (true, add64 (sub64 needle_pos.1 previous) delimiter_size),
        )
        else if p.stream_ended
        then (parse_window p u64_max, (true, appended))
        else (p, (true, appended))

    unfoldable pub parse_by_multi_delimiter : SubParser C S → Bytes → Option (Taken C S)
    parse_by_multi_delimiter p buf =
        let (p', added) = gather p buf in
        elim added [
          | none ↦ some (refused p')
          | some appended ↦
              elim (find_any ops p'.unparsed_buffer p'.parse_multi_delimiter true 0 0) [
                | none ↦ none
                | some f ↦ some (
                    delimited (record p' { delimiter_found = f.0 })
                      (ops.size p.unparsed_buffer.object) appended f.1 (length f.0))
              ]
        ]

    unfoldable pub parse_by_delimiter : SubParser C S → Bytes → Option (Taken C S)
    parse_by_delimiter p buf =
        let (p', added) = gather p buf in
        elim added [
          | none ↦ some (refused p')
          | some appended ↦ elim (find ops p'.unparsed_buffer p'.parse_delimiter true 0 0) [
            | none ↦ none
            | some f ↦ some (
                delimited p' (ops.size p.unparsed_buffer.object) appended f
                  (length p'.parse_delimiter))
          ]
        ]

    unfoldable pub parse_by_size : SubParser C S → Bytes → Taken C S
    unfolding clear_unparsed parse_window
    parse_by_size p [] = (
      clear_unparsed (record p { stream_ended = true; parse_status = goto_next_subparser }),
      (true, 0),
    )
    parse_by_size p (x ∷ buf) =
        let left = get_size_left ops p.unparsed_buffer in
        let piece = if ltb left (length (x ∷ buf)) then take left (x ∷ buf) else x ∷ buf in
        let r = append ops p.unparsed_buffer piece in
        let p' = record p { unparsed_buffer = r.0 } in
        if not r.1.0
        then (p', r.1)
        else if get_size_left ops r.0 == 0
        then (parse_window p' u64_max, (true, r.1.1))
        else (p', (true, r.1.1))

    -- The buffer is not emptied at the end.
    unfoldable pub parse_by_connection_end : SubParser C S → Bytes → Taken C S
    unfolding stick reference_unparsed run_parse
    parse_by_connection_end p buf =
        let buf' = stick ops p.unparsed_buffer buf in
        let r = append ops p.unparsed_buffer buf' in
        let p' = record p { unparsed_buffer = r.0 } in
        let done = run_parse (reference_unparsed p' 0 u64_max) in
        if not r.1.0
        then refused p'
        else if not (r.1.1 == length buf')
        then (p', (false, r.1.1))
        else if length buf' == 0
        then (
          record done { parsed_buffer = record done.parsed_buffer { references = false } },
          (true, 0),
        )
        else (p', (true, length buf'))

    unfoldable pub parse_direct : SubParser C S → Bytes → Option (Taken C S)
    unfolding stick reference_unparsed run_parse clear_unparsed
    parse_direct p buf =
        let r = append ops p.unparsed_buffer (stick ops p.unparsed_buffer buf) in
        let p' = record p { unparsed_buffer = r.0 } in
        let done = run_parse (reference_unparsed p' 0 u64_max) in
        let emptied = clear_unparsed done in
        if not r.1.0
        then some (refused p')
        else elim (reduce_max_size_by ops emptied.unparsed_buffer
            (ops.size done.unparsed_buffer.object)) [
              | none ↦ none
              | some reduced ↦ some (record emptied { unparsed_buffer = reduced }, r.1)
            ]

    -- parseDirectDelimiter where the delimiter is not in the buffer: `common` of its last bytes may be
    -- the beginning of one.
    unfoldable pub hold_back : SubParser C S → ℕ → SubParser C S
    unfolding parse_window reference_unparsed run_parse
    hold_back p common =
        let current = ops.size p.unparsed_buffer.object in
        let done = run_parse (reference_unparsed p 0 (sub64 current common)) in
        let kept =
          displace ops done.unparsed_buffer (sub64 (ops.size done.unparsed_buffer.object) common) in
        if common == 0 then parse_window p u64_max else record done { unparsed_buffer = kept.0 }

    unfoldable pub parse_direct_delimiter : SubParser C S → Bytes → Option (Taken C S)
    unfolding hold_back stick parse_window reference_unparsed run_parse clear_unparsed
    parse_direct_delimiter q buf =
        let p = record q { delimiter_found = [] } in
        let buf' = stick ops p.unparsed_buffer buf in
        let previous = ops.size p.unparsed_buffer.object in
        let r = append ops p.unparsed_buffer buf' in
        let p' = record p { unparsed_buffer = r.0 } in
        let n = length p.parse_delimiter in
        let found = record p' { delimiter_found = p.parse_delimiter } in
        if length buf' == 0
        then some (refused p)
        else if not r.1.0
        then some (refused p')
        else elim (find ops r.0 p.parse_delimiter true 0 0) [
          | none ↦ none
          | some pos ↦
              if not pos.0
              then elim (get_last_bytes_in_common ops r.0 p.parse_delimiter) [
                | none ↦ none
                | some common ↦ some (hold_back p' common, (true, r.1.1))
              ]
              else if pos.1 == 0
              then some (
                clear_unparsed (run_parse (reference_unparsed (clear_unparsed found) 0 u64_max)),
                (true, add64 (sub64 pos.1 previous) n),
              )
              else some (parse_window found pos.1, (true, add64 (sub64 pos.1 previous) n))
        ]

    -- The switch of writeIntoParser.
    unfoldable pub dispatch : ParseMode → SubParser C S → Bytes → Option (Taken C S)
    dispatch mode_delimiter p buf = parse_by_delimiter p buf
    dispatch mode_size p buf = some (parse_by_size p buf)
    dispatch mode_validator p buf = some (refused p)
    dispatch mode_direct_delimiter p buf = parse_direct_delimiter p buf
    dispatch mode_connection_end p buf = some (parse_by_connection_end p buf)
    dispatch mode_multi_delimiter p buf = parse_by_multi_delimiter p buf
    dispatch mode_direct p buf = parse_direct p buf
    dispatch mode_free_parser p buf = some (refused p)

    -- writeIntoParser
    unfoldable pub write_into_parser : SubParser C S → Bytes → Option (Taken C S)
    write_into_parser q buf =
        let p = if length buf == 0 then record q { stream_ended = true } else q in
        dispatch p.parse_mode p buf
