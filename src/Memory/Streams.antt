-- ===== src/Memory/Streams.antt =====
-- Memory/mdz_mem_vars/streamableobject.h and .cpp, and streamablestring.cpp: streams that are written
-- to. A virtual `write` is a function of the bytes (`buf` and `count`) and of the state of the object
-- and of all that stands behind it; `none` is a call that does not return. The status that a caller
-- passes by reference, wrStatUpd, is only reported back: no operation here reads it, and it is left
-- out.
pub mod FullWrite
pub mod Text
use lib_mantids.Common.{
  ℕ, zero, suc, Bool, true, false, not, ◌||◌, Option, none, some, ◌++◌, Bytes, add64, ltb,
  if◌then◌else◌, length, drop,
}

pub record Status : Type 0 where
  pub succeed : Bool
  pub finish : Bool
  pub bytes_written : ℕ

abbrev pub new_status : Status
new_status = record { succeed = true; finish = false; bytes_written = 0 }

-- Status(x): a success of `x` bytes.
abbrev pub wrote : ℕ → Status
wrote x = record { succeed = true; finish = false; bytes_written = x }

-- operator+=
unfoldable pub add_status : Status → Status → Status
add_status s x = record {
  succeed = if not x.succeed then false else s.succeed;
  finish = if x.finish then x.finish else s.finish;
  bytes_written = add64 s.bytes_written x.bytes_written;
}

abbrev pub Written : Type 0 → Type 0
Written S = Option (Status × S)

-- The virtual `write` of an object whose state is an `S`.
pub record StreamOps (S : Type 0) : Type 0 where
  pub write : Bytes → S → Written S

-- The loop of writeFullStream; `none` stands for a round that is still to come after `fuel` rounds.
unfoldable pub write_loop : {S : Type 0} → StreamOps S → ℕ → Bytes → Status → S → Written S
unfolding add_status
write_loop ops zero buf cur s = if ltb cur.bytes_written (length buf) then none else some (cur, s)
write_loop ops (suc fuel) buf cur s = elim (ltb cur.bytes_written (length buf)) [
  | false ↦ some (cur, s)
  | true ↦ elim (ops.write (drop cur.bytes_written buf) s) [
    | none ↦ none
    | some r ↦
        let cur' = add_status cur r.0 in
        let rest = write_loop ops fuel buf cur' r.1 in
        if not cur'.succeed || cur'.finish then some (cur', r.1) else rest
  ]
]

-- A round that writes no byte and succeeds is repeated by the code without an end; when every round
-- writes a byte at least, the number of bytes is fuel enough.
unfoldable pub write_full_stream : {S : Type 0} → StreamOps S → Bytes → S → Written S
unfolding write_loop
write_full_stream ops buf s = write_loop ops (length buf) buf new_status s

-- StreamableString: the state is `value`.
abbrev pub streamable_string : StreamOps Bytes
streamable_string = record { write = λ buf value. some (wrote (length buf), value ++ buf) }
