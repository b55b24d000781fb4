-- ===== src/Protocols/UrlCodec.antt =====
-- The two streams together: what the encoder writes, the decoder reads back.
use lib_mantids.Common.{
  ℕ, ◌+◌, ◌/◌, ◌%◌, ◌≤◌, ◌<◌, ◌≡◌, refl, sym, ap, ◌∙◌, inl, inr, true, false, some, [], ◌∷◌, ◌++◌,
  append-nil, append_assoc, arith, AllBelow, agree_below, agree_below_sound, holds_below, Bytes,
  u64_mod, ◌==◌, if◌then◌else◌, Bool-cases, length,
}
use lib_mantids.Helpers.Hex.{hex_char, is_xdigit, hex_pair_to_byte, hex_value_of_pair, hex_to_value}
use lib_mantids.Memory.Streams.{StreamOps, wrote, write_full_stream}
use lib_mantids.Memory.Streams.FullWrite.{Takes}
use lib_mantids.Protocols.UrlEncoder.{should_encode_this_byte, encoded_byte, max_stream}
use lib_mantids.Protocols.UrlEncoder.RoundTrip.{escape_bytes, length-escape_bytes, write-Encoded}
use lib_mantids.Protocols.UrlEncoder
use lib_mantids.Protocols.UrlDecoder
use lib_mantids.Protocols.UrlDecoder.{url_decoder}
use lib_mantids.Protocols.UrlDecoder.Automaton.{
  Reading, decode_bytes, decode_byte, plain, digit, phase-plain,
}
use lib_mantids.Protocols.UrlDecoder.Chunks.{url_decoder-TakesAll}

high_digit : (c : ℕ) → c < 256 → is_xdigit (hex_char (c / 16)) ≡ true
unfolding agree_below
high_digit c h = holds_below 256 (λ n. is_xdigit (hex_char (n / 16))) c refl h

low_digit : (c : ℕ) → c < 256 → is_xdigit (hex_char (c % 16)) ≡ true
unfolding agree_below
low_digit c h = holds_below 256 (λ n. is_xdigit (hex_char (n % 16))) c refl h

pair_byte : (c : ℕ) → c < 256 → hex_pair_to_byte (hex_char (c / 16)) (hex_char (c % 16)) ≡ c
unfolding agree_below hex_pair_to_byte hex_value_of_pair hex_to_value
pair_byte c h =
    agree_below_sound 256 (λ n. hex_pair_to_byte (hex_char (n / 16)) (hex_char (n % 16))) (λ n. n) c
      refl h

-- Three bytes of an escape are one byte of output.
decode_escape :
    (out rest : Bytes) (h l : ℕ)
    → is_xdigit h ≡ true
    → is_xdigit l ≡ true
    → decode_bytes (out, plain) (b'%' ∷ h ∷ l ∷ rest)
      ≡ decode_bytes (out ++ hex_pair_to_byte h l ∷ [], plain) rest
unfolding decode_bytes decode_byte
decode_escape out rest h l eh el =
    ap
      (λ t.
        decode_bytes (decode_byte (if t then (out, digit h) else (out ++ b'%' ∷ h ∷ [], plain)) l)
          rest)
      eh
    ∙ ap
        (λ t.
          decode_bytes
            (if t
              then (out ++ hex_pair_to_byte h l ∷ [], plain)
              else (out ++ b'%' ∷ h ∷ l ∷ [], plain))
            rest)
        el

no_sign :
    (c : ℕ) → should_encode_this_byte c ≡ false → ((c == b'%') ≡ false) × ((c == b'+') ≡ false)
unfolding should_encode_this_byte
no_sign c h = (ground arith, ground arith)

decode_plain :
    (out rest : Bytes) (c : ℕ)
    → (c == b'%') ≡ false
    → (c == b'+') ≡ false
    → decode_bytes (out, plain) (c ∷ rest) ≡ decode_bytes (out ++ c ∷ [], plain) rest
unfolding decode_bytes decode_byte
decode_plain out rest c e p = rw (e, p) refl

move_one :
    (out buf : Bytes) (c : ℕ)
    → ◌≡◌ {A = Reading} ((out ++ c ∷ []) ++ buf, plain) (out ++ c ∷ buf, plain)
move_one out buf c = ap (λ l. (l, plain)) (append_assoc out (c ∷ []) buf)

decode_encoded :
    (out rest : Bytes) (c : ℕ)
    → c < 256
    → decode_bytes (out, plain) (encoded_byte c ++ rest) ≡ decode_bytes (out ++ c ∷ [], plain) rest
decode_encoded out rest c h =
    decode_escape out rest (hex_char (c / 16)) (hex_char (c % 16)) (high_digit c h) (low_digit c h)
    ∙ ap (λ v. decode_bytes (out ++ v ∷ [], plain) rest) (pair_byte c h)

decode_one :
    (out rest : Bytes) (c : ℕ)
    → c < 256
    → decode_bytes
        (out, plain)
        ((if should_encode_this_byte c then encoded_byte c else c ∷ []) ++ rest)
      ≡ decode_bytes (out ++ c ∷ [], plain) rest
decode_one out rest c h = elim (Bool-cases (should_encode_this_byte c)) [
  | inl e ↦ rw e (decode_encoded out rest c h)
  | inr e ↦ let signs = no_sign c e in rw e (decode_plain out rest c signs.0 signs.1)
]

decode_bytes-escape_bytes :
    (out buf : Bytes)
    → AllBelow 256 buf
    → decode_bytes (out, plain) (escape_bytes buf) ≡ (out ++ buf, plain)
unfolding escape_bytes
decode_bytes-escape_bytes out [] h =
    unfold decode_bytes in ap (λ l. (l, plain)) (sym (append-nil out))
decode_bytes-escape_bytes out (c ∷ buf) h =
    decode_one out (escape_bytes buf) c h.0
    ∙ decode_bytes-escape_bytes (out ++ c ∷ []) buf h.1
    ∙ move_one out buf c

module _ {S : Type 0} (ops : StreamOps S) (written : S → Bytes) (InvS : S → Type 0)
    (step : (buf : Bytes) (s : S)
      → 0 < length buf
      → length buf < u64_mod
      → InvS s
      → Takes S Bytes written ◌++◌ InvS buf s (ops.write buf s)) where
  -- The states of the two streams when the bytes have gone through both.
  pub RoundTrip : Bytes → S → S → Type 0
  RoundTrip buf s t =
      (e : UrlEncoder.UrlEncoder S) × (d : UrlDecoder.UrlDecoder S) × (UrlEncoder.write ops buf
          (UrlEncoder.new s)
        ≡ some (wrote (length (escape_bytes buf)), e))
      × (written e.orig ≡ written s ++ escape_bytes buf)
      × (write_full_stream (url_decoder ops) (escape_bytes buf) (UrlDecoder.new t)
          ≡ some (wrote (length (escape_bytes buf)), d))
      × (written d.orig ≡ written t ++ buf)
      × (d.filled ≡ 0)

  -- What the URL encoder stream has written of a text of bytes, up to the encoder's limit, the URL
  -- decoder stream reads back, with no escape left open, when each call of write of the objects
  -- behind them takes one or more of the bytes it is given and passes on what it takes; both calls
  -- return with success.
  pub decoder-encoder :
      (buf : Bytes) (s t : S)
      → AllBelow 256 buf
      → length buf ≤ max_stream
      → InvS s
      → InvS t
      → RoundTrip buf s t
  unfolding RoundTrip UrlEncoder.RoundTrip.Encoded
  decoder-encoder buf s t bytes le inv_s inv_t =
      let e = write-Encoded ops written InvS step buf (UrlEncoder.new s) le inv_s in
      let d =
        url_decoder-TakesAll ops written InvS step (escape_bytes buf) (UrlDecoder.new t)
          (omega (arith, length-escape_bytes buf))
          record {
            at_most_two = omega arith;
            starts_percent = λ h. absurd (omega arith);
            orig_inv = inv_t;
          } in
      let reading = d.carried ∙ decode_bytes-escape_bytes (written t) buf bytes in
      (
        record { failed_write_state = 0; orig = e.0 },
        d.after,
        e.1
            ∙ ap (λ k. some (wrote k, record { failed_write_state = 0; orig = e.0 }))
                {x = 0 + length (escape_bytes buf)} {y = length (escape_bytes buf)} (omega arith),
        e.2,
        d.returns,
        ap (λ r. r.0) reading,
        phase-plain d.after.filled d.after.bytes1 (ap (λ r. r.1) reading),
      )
