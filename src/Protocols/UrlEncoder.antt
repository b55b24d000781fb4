-- ===== src/Protocols/UrlEncoder.antt =====
-- Protocols/mdz_proto_http/streamencoder_url.h and .cpp: the stream that encodes a URL.
pub mod RoundTrip
use lib_mantids.Common.{
  ℕ, zero, suc, ◌-◌, ◌/◌, ◌%◌, Bool, false, not, ◌||◌, none, some, [], ◌∷◌, is_between, Bytes,
  u64_max, ltb, if◌then◌else◌, length, take, drop,
}
use lib_mantids.Helpers.Hex.{hex_char}
use lib_mantids.Memory.Streams.{
  Status, Written, StreamOps, new_status, add_status, write_full_stream,
}

pub record UrlEncoder (S : Type 0) : Type 0 where
  pub failed_write_state : ℕ
  pub orig : S

abbrev pub new : {S : Type 0} → S → UrlEncoder S
new orig = record { failed_write_state = 0; orig = orig }

unfoldable pub should_encode_this_byte : ℕ → Bool
should_encode_this_byte c =
    not (is_between b'A' b'Z' c || is_between b'a' b'z' c || is_between b'0' b'9' c)

unfoldable pub get_plain_bytes_size : Bytes → ℕ
unfolding should_encode_this_byte
get_plain_bytes_size [] = 0
get_plain_bytes_size (c ∷ buf) =
    if should_encode_this_byte c then 0 else suc (get_plain_bytes_size buf)

-- snprintf with %%%02X writes these three characters.
abbrev pub encoded_byte : ℕ → Bytes
encoded_byte c = b'%' ∷ hex_char (c / 16) ∷ hex_char (c % 16) ∷ []

-- max / 3 - 3
abbrev pub max_stream : ℕ
max_stream = u64_max / 3 - 3

-- One round of the loop on the bytes from `pos` on: what is written, and how far `pos` moves.
unfoldable pub next_piece : Bytes → Bytes × ℕ
unfolding get_plain_bytes_size
next_piece [] = ([], 0)
next_piece (c ∷ buf) =
    let plain = get_plain_bytes_size (c ∷ buf) in
    if ltb 0 plain then (take plain (c ∷ buf), plain) else (encoded_byte c, 1)

-- The loop of write on the bytes from `pos` on: `pos` moves in each round, so the number of bytes is
-- fuel enough.
unfoldable pub encode_loop :
    {S : Type 0} → StreamOps S → ℕ → Bytes → Status → UrlEncoder S → Written (UrlEncoder S)
unfolding next_piece add_status write_full_stream
encode_loop ops fuel [] cur e = some (cur, e)
encode_loop ops zero (c ∷ buf) cur e = none
encode_loop ops (suc fuel) (c ∷ buf) cur e =
    let piece = next_piece (c ∷ buf) in
    elim (write_full_stream ops piece.0 e.orig) [
      | none ↦ none
      | some r ↦
          let cur' = add_status cur r.0 in
          let e' = record e { orig = r.1 } in
          let rest = encode_loop ops fuel (drop piece.1 (c ∷ buf)) cur' e' in
          if not cur'.succeed then some (cur', e') else rest
    ]

-- setFailedWriteState() sets the state to 1 and returns whether it is 0.
unfoldable pub write : {S : Type 0} → StreamOps S → Bytes → UrlEncoder S → Written (UrlEncoder S)
unfolding encode_loop
write ops buf e =
    if ltb max_stream (length buf)
    then some (record new_status { succeed = false }, record e { failed_write_state = 1 })
    else encode_loop ops (length buf) buf new_status e
