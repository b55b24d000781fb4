-- ===== src/Protocols/UrlDecoder.antt =====
-- Protocols/mdz_proto_http/streamdecoder_url.h and .cpp: the stream that decodes a URL.
pub mod Automaton
pub mod Chunks
use lib_mantids.Common.{ℕ, suc, not, none, some, [], ◌∷◌, Bytes, ltb, ◌==◌, if◌then◌else◌, take}
use lib_mantids.Helpers.Hex.{is_xdigit, hex_pair_to_byte}
use lib_mantids.Memory.Streams.{Written, StreamOps, wrote, new_status, write_full_stream}

-- bytes[0], bytes[1], bytes[2] and `filled`, with the state of `orig`.
pub record UrlDecoder (S : Type 0) : Type 0 where
  pub bytes0 : ℕ
  pub bytes1 : ℕ
  pub bytes2 : ℕ
  pub filled : ℕ
  pub orig : S

-- The constructor leaves the bytes as they are.
abbrev pub new : {S : Type 0} → S → UrlDecoder S
new orig = record { bytes0 = 0; bytes1 = 0; bytes2 = 0; filled = 0; orig = orig }

-- getPlainBytesSize: the number of bytes before the first '%' or '+'.
unfoldable pub get_plain_bytes_size : Bytes → ℕ
get_plain_bytes_size [] = 0
get_plain_bytes_size (c ∷ buf) =
    if c == b'%' then 0 else if c == b'+' then 0 else suc (get_plain_bytes_size buf)

-- cur.bytesWritten is set before `orig` is written to; only a failure of `orig` is taken over.
unfoldable pub hand_on :
    {S : Type 0} → StreamOps S → Bytes → ℕ → UrlDecoder S → Written (UrlDecoder S)
unfolding write_full_stream
hand_on ops out taken d = elim (write_full_stream ops out d.orig) [
  | none ↦ none
  | some r ↦ some (record (wrote taken) { succeed = r.0.succeed }, record d { orig = r.1 })
]

-- flushBytes: the first `filled` bytes go on, then `filled` is 0.
unfoldable pub flush_bytes : {S : Type 0} → StreamOps S → ℕ → UrlDecoder S → Written (UrlDecoder S)
unfolding hand_on
flush_bytes ops taken d =
    hand_on ops (take d.filled (d.bytes0 ∷ d.bytes1 ∷ d.bytes2 ∷ [])) taken
      (record d { filled = 0 })

-- case 0
unfoldable pub write_plain :
    {S : Type 0} → StreamOps S → ℕ → Bytes → UrlDecoder S → Written (UrlDecoder S)
unfolding hand_on get_plain_bytes_size
write_plain ops c buf d =
    let plain = get_plain_bytes_size (c ∷ buf) in
    if ltb 0 plain
    then hand_on ops (take plain (c ∷ buf)) plain d
    else if c == b'%'
    then some (wrote 1, record d { bytes0 = b'%'; filled = 1 })
    else hand_on ops (32 ∷ []) 1 (record d { bytes0 = 32 })

-- case 1
unfoldable pub write_first_digit :
    {S : Type 0} → StreamOps S → ℕ → UrlDecoder S → Written (UrlDecoder S)
unfolding flush_bytes
write_first_digit ops c d =
    let d' = record d { bytes1 = c; filled = 2 } in
    if not (is_xdigit c) then flush_bytes ops 1 d' else some (wrote 1, d')

-- case 2
unfoldable pub write_second_digit :
    {S : Type 0} → StreamOps S → ℕ → UrlDecoder S → Written (UrlDecoder S)
unfolding flush_bytes hand_on hex_pair_to_byte
write_second_digit ops c d =
    let d' = record d { bytes2 = c } in
    if not (is_xdigit c)
    then flush_bytes ops 1 (record d' { filled = 3 })
    else hand_on ops (hex_pair_to_byte d'.bytes1 c ∷ []) 1 (record d' { filled = 0 })

unfoldable pub write : {S : Type 0} → StreamOps S → Bytes → UrlDecoder S → Written (UrlDecoder S)
unfolding write_plain write_first_digit write_second_digit
write ops [] d = some (record new_status { succeed = d.filled == 0 }, d)
write ops (c ∷ buf) d =
    if d.filled == 0
    then write_plain ops c buf d
    else if d.filled == 1
    then write_first_digit ops c d
    else if d.filled == 2
    then write_second_digit ops c d
    else some (new_status, d)

-- writeEOF: what waits for its digits goes on as it is.
unfoldable pub write_eof : {S : Type 0} → StreamOps S → UrlDecoder S → Written (UrlDecoder S)
unfolding flush_bytes
write_eof ops d = flush_bytes ops 0 d

unfoldable pub url_decoder : {S : Type 0} → StreamOps S → StreamOps (UrlDecoder S)
unfolding write
url_decoder ops = record { write = write ops }
