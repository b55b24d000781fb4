-- ===== src/Tests/Streams.antt =====
-- The streams on concrete texts, with StreamableString behind them.
use lib_mantids.Common.{
  ◌≡◌, refl, sym, some, [], ◌++◌, append-nil, append_assoc, arith, text, Bytes,
}
use lib_mantids.Memory.Streams.{wrote, streamable_string, write_full_stream}
use lib_mantids.Memory.Streams.Text.{Anything, appends}
use lib_mantids.Memory.Streams.FullWrite.{TakesAll, write_full_stream-TakesAll}
use lib_mantids.Protocols.UrlEncoder
use lib_mantids.Protocols.UrlDecoder
use lib_mantids.Protocols.UrlDecoder.{UrlDecoder, url_decoder}
use lib_mantids.Protocols.UrlDecoder.Automaton.{Reading, decode_bytes}
use lib_mantids.Protocols.UrlDecoder.Chunks.{url_decoder-TakesAll, reading, IsReading}
use lib_mantids.Protocols.UrlCodec.{decoder-encoder, RoundTrip}

encodes :
    UrlEncoder.write streamable_string (text "a b+") (UrlEncoder.new [])
    ≡ some (wrote 8, UrlEncoder.new (text "a%20b%2B"))
unfolding UrlEncoder.write
encodes = refl

decodes :
    write_full_stream (url_decoder streamable_string) (text "a%20b+c%zz") (UrlDecoder.new [])
    ≡ some (
      wrote 10,
      record (UrlDecoder.new (text "a b c%zz")) { bytes0 = b'%'; bytes1 = b'z'; bytes2 = b'0' },
    )
unfolding write_full_stream url_decoder
decodes = refl

url_decoder-TakesAll_example :
    TakesAll
      (UrlDecoder Bytes)
      Reading
      (reading streamable_string (λ v. v) Anything appends)
      decode_bytes
      (IsReading streamable_string (λ v. v) Anything appends)
      (text "b%2")
      (UrlDecoder.new (text "a"))
      (write_full_stream (url_decoder streamable_string) (text "b%2") (UrlDecoder.new (text "a")))
url_decoder-TakesAll_example =
    url_decoder-TakesAll streamable_string (λ v. v) Anything appends (text "b%2")
      (UrlDecoder.new (text "a")) (omega arith)
      record {
        at_most_two = omega arith;
        starts_percent = λ h. absurd (omega arith);
        orig_inv = tt;
      }

write_full_stream-TakesAll_example :
    TakesAll Bytes Bytes
      (λ v. v)
      ◌++◌
      Anything
      (text "cd")
      (text "ab")
      (write_full_stream streamable_string (text "cd") (text "ab"))
write_full_stream-TakesAll_example =
    write_full_stream-TakesAll streamable_string (λ v. v) ◌++◌ Anything append-nil
      (λ a xs ys. sym (append_assoc a xs ys)) appends (text "cd") (text "ab") (omega arith) tt

decoder-encoder_example :
    RoundTrip streamable_string (λ v. v) Anything appends (text "x y") (text "<") (text ">")
decoder-encoder_example =
    decoder-encoder streamable_string (λ v. v) Anything appends (text "x y") (text "<") (text ">")
      (omega arith) (omega arith) tt tt
