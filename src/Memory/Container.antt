-- ===== src/Memory/Container.antt =====
-- Memory/mdz_mem_vars/b_base.h and b_base.cpp: what the binary containers have in common. The virtual
-- operations of a container whose own state is a `C` are the record ContainerOps; a container is that
-- state with the fields readOnly and maxSize. The default number of bytes, the largest uint64_t, is
-- u64_max.
pub mod Guards
pub mod ToStream
pub mod Reading
pub mod Searching
use lib_mantids.Common.{
  ℕ, zero, suc, ◌+◌, ◌-◌, Bool, true, false, not, ◌&&◌, ◌||◌, Option, none, some, List, [], ◌∷◌,
  ◌++◌, text, Bytes, Outcome, u64_max, add64, sub64, check_uint_overflow_sum, ltb, leb, ◌==◌,
  if◌then◌else◌, length, get_or, take,
}
use lib_mantids.Memory.Streams.{Written, wrote, new_status}

-- The virtual operations. `find_char` takes the character, the offset, the search space and the
-- flag; `copy_out2` returns what it writes to the caller's buffer; none of `compare2` is a read out of
-- bounds.
pub record ContainerOps (C : Type 0) : Type 0 where
  pub size : C → ℕ
  pub append2 : C → Bytes → Bool → C × Outcome
  pub truncate2 : C → ℕ → C × Outcome
  pub displace2 : C → ℕ → C × Outcome
  pub clear2 : C → C × Bool
  pub copy_out2 : C → ℕ → ℕ → Outcome × Bytes
  pub find_char : C → ℕ → ℕ → ℕ → Bool → Outcome
  pub compare2 : C → Bytes → Bool → ℕ → Option Bool

pub record Container (C : Type 0) : Type 0 where
  pub read_only : Bool
  pub max_size : ℕ
  pub object : C

-- A call of a virtual operation that changes the object.
abbrev pub with_object : {C A : Type 0} → Container C → C × A → Container C × A
with_object b (c, a) = (record b { object = c }, a)

-- `bytes > 8192 ? 8192 : bytes`
unfoldable pub block_size : ℕ → ℕ
block_size bytes = if ltb 8192 bytes then 8192 else bytes

module _ {C : Type 0} (ops : ContainerOps C) where
  -- The guards of append and prepend.
  put_in : Bool → Container C → Bytes → Container C × Outcome
  put_in prepend_mode b buf =
      let current = ops.size b.object in
      let len = length buf in
      if b.read_only
      then (b, (false, 0))
      else if check_uint_overflow_sum len current
      then (b, (false, 0))
      else if ltb b.max_size (len + current)
      then (b, (false, 0))
      else if len == 0
      then (b, (true, 0))
      else with_object b (ops.append2 b.object buf prepend_mode)

  unfoldable pub append : Container C → Bytes → Container C × Outcome
  unfolding put_in
  append b buf = put_in false b buf

  unfoldable pub prepend : Container C → Bytes → Container C × Outcome
  unfolding put_in
  prepend b buf = put_in true b buf

  unfoldable pub displace : Container C → ℕ → Container C × Outcome
  displace b bytes =
      let current = ops.size b.object in
      with_object b (ops.displace2 b.object (if ltb current bytes then current else bytes))

  unfoldable pub truncate : Container C → ℕ → Container C × Outcome
  truncate b bytes =
      let current = ops.size b.object in
      if leb current bytes
      then (b, (false, current))
      else with_object b (ops.truncate2 b.object bytes)

  -- The bytes that a call with `bytes` and `offset` asks for: none is an offset past the end.
  unfoldable pub asked : Container C → ℕ → ℕ → Option ℕ
  asked b bytes offset =
      let current = ops.size b.object in
      if bytes == u64_max
      then if ltb current offset then none else some (current - offset)
      else some bytes

  -- The guards of copyOut, copyToString and toString on the bytes asked for: false is a refusal.
  unfoldable pub in_range : Container C → ℕ → ℕ → Bool
  in_range b bytes offset =
      not (check_uint_overflow_sum offset bytes)
      && (bytes == 0 || leb (offset + bytes) (ops.size b.object))

  unfoldable pub copy_out : Container C → ℕ → ℕ → Outcome × Bytes
  unfolding asked in_range
  copy_out b bytes offset = elim (asked b bytes offset) [
    | none ↦ ((false, 0), [])
    | some n ↦
        if not (in_range b n offset)
        then ((false, 0), [])
        else if n == 0
        then ((true, 0), [])
        else ops.copy_out2 b.object n offset
  ]

  -- The loop of toString and copyToString, in blocks of 8192 bytes: whether it went through, and the
  -- text. Each round copies a byte or more, so the number of bytes is fuel enough.
  unfoldable pub to_string_loop : ℕ → Container C → ℕ → ℕ → Bytes → Bool × Bytes
  unfolding copy_out block_size
  to_string_loop zero b bytes offset r = (bytes == 0, r)
  to_string_loop (suc fuel) b bytes offset r =
      let block = block_size bytes in
      let out = copy_out b block offset in
      let rest =
        to_string_loop fuel b (bytes - block) (add64 offset block) (r ++ take out.0.1 out.1) in
      if bytes == 0 then (true, r) else if out.0.0 then rest else (false, r)

  unfoldable pub to_string : Container C → ℕ → ℕ → Bytes
  unfolding asked in_range to_string_loop
  to_string b bytes offset = elim (asked b bytes offset) [
    | none ↦ []
    | some n ↦
        if not (in_range b n offset)
        then []
        else if n == 0
        then []
        else (to_string_loop n b n offset []).1
  ]

  -- The text `r` is appended to; the count returned is its whole length.
  unfoldable pub copy_to_string : Container C → Bytes → ℕ → ℕ → Outcome × Bytes
  unfolding asked in_range to_string_loop
  copy_to_string b r bytes offset = elim (asked b bytes offset) [
    | none ↦ ((false, 0), r)
    | some n ↦
        if not (in_range b n offset)
        then ((false, 0), r)
        else if n == 0
        then ((true, 0), r)
        else let out = to_string_loop n b n offset r in ((out.0, length out.1), out.1)
  ]

  unfoldable pub compare : Container C → Bytes → Bool → ℕ → Option Bool
  compare b buf case_sensitive offset =
      if check_uint_overflow_sum offset (length buf)
      then some false
      else if length buf == 0
      then some true
      else if ltb (ops.size b.object) (offset + length buf)
      then some false
      else ops.compare2 b.object buf case_sensitive offset

  -- The form that takes a std::string.
  unfoldable pub compare_string : Container C → Bytes → Bool → ℕ → Option Bool
  unfolding compare
  compare_string b text case_sensitive offset =
      if not (length text == ops.size b.object)
      then some false
      else compare b text case_sensitive offset

  -- The loop of find, from the search of a first character on: none is a comparison out of bounds, or
  -- a round that is still to come. Each round but the last passes a byte or more of the container, so
  -- its size is fuel enough.
  unfoldable pub find_loop : ℕ → Container C → Bytes → Bool → ℕ → ℕ → Option Outcome
  find_loop zero b needle case_sensitive current space = none
  find_loop (suc fuel) b needle case_sensitive current space =
      let pos = ops.find_char b.object (get_or needle 0 0) current space case_sensitive in
      let space' = sub64 space (sub64 pos.1 current) in
      let rest = find_loop fuel b needle case_sensitive (pos.1 + 1) (space' - 1) in
      if not pos.0
      then some (false, 0)
      else elim (ops.compare2 b.object needle case_sensitive pos.1) [
        | none ↦ none
        | some found ↦
            if found then some (true, pos.1) else if space' == 0 then some (false, 0) else rest
      ]

  unfoldable pub find_from : Container C → Bytes → Bool → ℕ → ℕ → Option Outcome
  unfolding find_loop
  find_from b needle case_sensitive offset space =
      find_loop (suc (ops.size b.object)) b needle case_sensitive offset space

  unfoldable pub find : Container C → Bytes → Bool → ℕ → ℕ → Option Outcome
  find b needle case_sensitive offset space =
      let current_size = ops.size b.object in
      let space' = if space == 0 then current_size - offset else space in
      if check_uint_overflow_sum offset (length needle)
      then some (false, u64_max)
      else if check_uint_overflow_sum offset space
      then some (false, u64_max)
      else if ltb current_size offset
      then some (false, u64_max)
      else if space' == 0
      then some (false, 0)
      else if ltb space' (length needle)
      then some (false, u64_max)
      else if length needle == 0
      then some (true, 0)
      else find_from b needle case_sensitive offset space'

  -- The form that takes a list: the needle found, and its position.
  unfoldable pub find_any : Container C → List Bytes → Bool → ℕ → ℕ → Option (Bytes × Outcome)
  find_any b [] case_sensitive offset space = some ([], (false, 0))
  find_any b (needle ∷ needles) case_sensitive offset space =
      let rest = find_any b needles case_sensitive offset space in
      elim (find b needle case_sensitive offset space) [
        | none ↦ none
        | some f ↦ if f.0 then some (needle, f) else rest
      ]

  unfoldable pub is_null : Container C → Bool
  is_null b = ops.size b.object == 0

  unfoldable pub get_size_left : Container C → ℕ
  get_size_left b = if ltb b.max_size (ops.size b.object) then 0 else b.max_size - ops.size b.object

  -- none is the runtime_error.
  unfoldable pub reduce_max_size_by : Container C → ℕ → Option (Container C)
  reduce_max_size_by b value =
      if ltb b.max_size value then none else some (record b { max_size = b.max_size - value })

  -- Here clear2 sets the counter of bytes too, which clear0 sets in the base.
  unfoldable pub clear : Container C → Container C × Bool
  clear b = with_object b (ops.clear2 b.object)

  unfoldable pub write : Bytes → Container C → Written (Container C)
  unfolding append
  write buf b =
      let r = append b buf in
      some (if r.1.0 then wrote r.1.1 else record new_status { succeed = false }, r.0)
