-- ===== src/Protocols/Chunked.antt =====
-- Protocols/mdz_proto_http/common_content_chunked_subparser.cpp: Content_Chunked_SubParser, the stream
-- that puts what is written to it into chunks of HTTP, in front of another stream. Its destructor
-- calls endBuffer. snprintf with %X is Helpers.Numbers.print_hex; the text has 13 characters at most,
-- and the buffer room for 32.
pub mod Sending
pub mod Cut
pub mod Framed
use lib_mantids.Common.{
  ℕ, ◌%◌, ◌^◌, Bool, false, not, Option, none, some, [], ◌∷◌, ◌++◌, Bytes, add64, ltb, ◌==◌,
  if◌then◌else◌, length,
}
use lib_mantids.Helpers.Numbers.{print_hex}
use lib_mantids.Memory.Streams.{
  Status, Written, StreamOps, new_status, add_status, write_full_stream,
}

pub record ChunkedWriter (S : Type 0) : Type 0 where
  pub failed_write_state : ℕ
  pub pos : ℕ
  pub dst : S

abbrev pub new : {S : Type 0} → S → ChunkedWriter S
new dst = record { failed_write_state = 0; pos = 0; dst = dst }

abbrev pub crlf : Bytes
crlf = 13 ∷ 10 ∷ []

-- strhex: the size as an unsigned int.
unfoldable pub strhex : ℕ → ℕ → Bytes
strhex pos count =
    let line = print_hex (count % 2 ^ 32) ++ crlf in if pos == 0 then line else crlf ++ line

-- setFailedWriteState() and the return behind it.
abbrev pub failed : {S : Type 0} → Status → ChunkedWriter S → Written (ChunkedWriter S)
failed cur w = some (record cur { succeed = false }, record w { failed_write_state = 1 })

module _ {S : Type 0} (ops : StreamOps S) where
  -- The bytes behind the line of the size.
  unfoldable pub write_data : Bytes → Status → ChunkedWriter S → Written (ChunkedWriter S)
  write_data buf cur w = elim (write_full_stream ops buf w.dst) [
    | none ↦ none
    | some (status, d) ↦
        let cur' = add_status cur status in
        let w' = record w { dst = d } in
        if not cur'.succeed
        then failed cur' w'
        else some (cur', record w' { pos = add64 w.pos (length buf) })
  ]

  unfoldable pub write : Bytes → ChunkedWriter S → Written (ChunkedWriter S)
  unfolding write_data strhex
  write buf w =
      if ltb (add64 (length buf) 64) (length buf)
      then failed new_status w
      else elim (write_full_stream ops (strhex w.pos (length buf)) w.dst) [
        | none ↦ none
        | some (status, d) ↦
            let cur = add_status new_status status in
            let w' = record w { dst = d } in
            if not cur.succeed then failed cur w' else write_data buf cur w'
      ]

  unfoldable pub end_buffer : ChunkedWriter S → Option (Bool × ChunkedWriter S)
  end_buffer w =
      let last = b'0' ∷ (crlf ++ crlf) in
      elim (write_full_stream ops (if w.pos == 0 then last else crlf ++ last) w.dst) [
        | none ↦ none
        | some (status, d) ↦ some (status.succeed, record w { dst = d })
      ]

  abbrev pub writer_ops : StreamOps (ChunkedWriter S)
  writer_ops = record { write = write }
