-- ===== src/Helpers/Base64/RoundTrip.antt =====
-- fromBase64 reads back what toBase64 writes.
use mathlib.Core.Path.{ap₂}
use lib_mantids.Common.{
  ℕ, ◌+◌, ◌*◌, ◌/◌, ◌%◌, ◌<◌, ◌≡◌, refl, sym, ap, ◌∙◌, [], ◌∷◌, ◌++◌, map, ◌==◌, if◌then◌else◌,
  length, take, append_assoc, append-nil, Bytes, AllBelow, arith, Bool-cases, inl, inr,
}
use lib_mantids.Helpers.Base64.Masks.{
  mask_fc, mask_03, mask_f0, mask_0f, mask_c0, mask_3f, mask_30, mask_3c, find-char, digit-char,
}
use lib_mantids.Helpers.Base64.{
  b64_char, sextets, encode3, to_base64_loop, to_base64, find_b64, triple, decode4, decode_rest,
  from_base64_loop, from_base64,
}

-- One digit more: the buffer of four is decoded when it is full.
decode_digit :
    (cont4 : Bytes) (i : ℕ) (buf decoded : Bytes)
    → i < 64
    → from_base64_loop cont4 (b64_char i ∷ buf) decoded
      ≡ from_base64_loop
          (if length (cont4 ++ b64_char i ∷ []) == 4 then [] else cont4 ++ b64_char i ∷ [])
          buf
          (if length (cont4 ++ b64_char i ∷ []) == 4
            then decoded ++ decode4 (cont4 ++ b64_char i ∷ [])
            else decoded)
unfolding from_base64_loop
decode_digit cont4 i buf decoded h = rw (digit-char i h)

decode4_lem :
    (x0 x1 x2 x3 : ℕ)
    → decode4 (x0 ∷ x1 ∷ x2 ∷ x3 ∷ [])
      ≡ triple (find_b64 x0) (find_b64 x1) (find_b64 x2) (find_b64 x3)
unfolding decode4
decode4_lem x0 x1 x2 x3 = refl

decode4-chars :
    (d0 d1 d2 d3 : ℕ)
    → d0 < 64
    → d1 < 64
    → d2 < 64
    → d3 < 64
    → decode4 (b64_char d0 ∷ b64_char d1 ∷ b64_char d2 ∷ b64_char d3 ∷ []) ≡ triple d0 d1 d2 d3
decode4-chars d0 d1 d2 d3 h0 h1 h2 h3 =
    rw decode4_lem (rw (find-char d0 h0, find-char d1 h1, find-char d2 h2, find-char d3 h3))

decode_group :
    (d0 d1 d2 d3 : ℕ) (buf decoded : Bytes)
    → d0 < 64
    → d1 < 64
    → d2 < 64
    → d3 < 64
    → from_base64_loop [] (b64_char d0 ∷ b64_char d1 ∷ b64_char d2 ∷ b64_char d3 ∷ buf) decoded
      ≡ from_base64_loop [] buf (decoded ++ triple d0 d1 d2 d3)
decode_group d0 d1 d2 d3 buf decoded h0 h1 h2 h3 =
    decode_digit [] d0 _ decoded h0
    ∙ decode_digit (b64_char d0 ∷ []) d1 _ decoded h1
    ∙ decode_digit (b64_char d0 ∷ b64_char d1 ∷ []) d2 _ decoded h2
    ∙ decode_digit (b64_char d0 ∷ b64_char d1 ∷ b64_char d2 ∷ []) d3 buf decoded h3
    ∙ ap (λ l. from_base64_loop [] buf (decoded ++ l)) (decode4-chars d0 d1 d2 d3 h0 h1 h2 h3)

cons_eq : {x y : ℕ} {xs ys : Bytes} → x ≡ y → xs ≡ ys → x ∷ xs ≡ y ∷ ys
cons_eq p q = ap₂ ◌∷◌ p q

-- The values that three bytes are split into are put together again.
triple-sextets :
    (a b c : ℕ)
    → a < 256
    → b < 256
    → c < 256
    → triple (a / 4) (a % 4 * 16 + b / 16) (b % 16 * 4 + c / 64) (c % 64) ≡ a ∷ b ∷ c ∷ []
unfolding triple
triple-sextets a b c ha hb hc =
    let d1 : ℕ = a % 4 * 16 + b / 16 in
    let d2 : ℕ = b % 16 * 4 + c / 64 in
    rw
      (
        mask_30 d1 (omega arith),
        mask_0f d1 (omega arith),
        mask_3c d2 (omega arith),
        mask_03 d2 (omega arith),
      )
      (cons_eq (omega arith) (cons_eq (omega arith) (cons_eq (omega arith) refl)))

sextets-eq :
    (a b c : ℕ)
    → a < 256
    → b < 256
    → c < 256
    → sextets a b c ≡ a / 4 ∷ (a % 4 * 16 + b / 16) ∷ (b % 16 * 4 + c / 64) ∷ c % 64 ∷ []
unfolding sextets
sextets-eq a b c ha hb hc =
    rw (mask_fc a ha, mask_03 a ha, mask_f0 b hb, mask_0f b hb, mask_c0 c hc, mask_3f c hc)

encode_acc :
    (cont3 buf encoded : Bytes)
    → to_base64_loop cont3 buf encoded ≡ encoded ++ to_base64_loop cont3 buf []
unfolding to_base64_loop
encode_acc cont3 [] encoded = refl
encode_acc cont3 (b ∷ buf) encoded = elim (Bool-cases (length (cont3 ++ b ∷ []) == 3)) [
  | inl full ↦
      let group = encode3 (cont3 ++ b ∷ []) in
      rw full (
        encode_acc [] buf (encoded ++ group)
        ∙ append_assoc encoded group (to_base64_loop [] buf [])
        ∙ ap (◌++◌ encoded) (sym (encode_acc [] buf group)))
  | inr more ↦ rw more (encode_acc (cont3 ++ b ∷ []) buf encoded)
]

encode_group :
    (a b c : ℕ) (buf : Bytes)
    → to_base64_loop [] (a ∷ b ∷ c ∷ buf) [] ≡ encode3 (a ∷ b ∷ c ∷ []) ++ to_base64_loop [] buf []
unfolding to_base64_loop
encode_group a b c buf = encode_acc [] buf (encode3 (a ∷ b ∷ c ∷ []))

-- The four characters of three bytes, or of what the zeros complete to three bytes.
chars : ℕ → ℕ → ℕ → Bytes → Bytes
chars a b c rest =
    b64_char (a / 4)
    ∷ b64_char (a % 4 * 16 + b / 16)
    ∷ b64_char (b % 16 * 4 + c / 64)
    ∷ b64_char (c % 64)
    ∷ rest

encode3-chars :
    (a b c : ℕ) (rest : Bytes)
    → a < 256
    → b < 256
    → c < 256
    → encode3 (a ∷ b ∷ c ∷ []) ++ rest ≡ chars a b c rest
unfolding encode3 chars
encode3-chars a b c rest ha hb hc = ap (λ l. map b64_char l ++ rest) (sextets-eq a b c ha hb hc)

decode_chars :
    (a b c : ℕ) (rest decoded : Bytes)
    → a < 256
    → b < 256
    → c < 256
    → from_base64_loop [] (chars a b c rest) decoded
      ≡ from_base64_loop [] rest (decoded ++ a ∷ b ∷ c ∷ [])
unfolding chars
decode_chars a b c rest decoded ha hb hc =
    decode_group (a / 4) (a % 4 * 16 + b / 16) (b % 16 * 4 + c / 64) (c % 64) rest decoded
      (omega arith) (omega arith) (omega arith) (omega arith)
    ∙ ap (λ l. from_base64_loop [] rest (decoded ++ l)) (triple-sextets a b c ha hb hc)

-- The decoder stops at the padding, and decodes what its buffer holds.
stop :
    (cont4 buf decoded : Bytes)
    → from_base64_loop cont4 (b'=' ∷ buf) decoded ≡ decoded ++ decode_rest cont4
unfolding from_base64_loop
stop cont4 buf decoded = refl

encode_one :
    (a : ℕ)
    → a < 256
    → to_base64_loop [] (a ∷ []) []
      ≡ b64_char (a / 4) ∷ b64_char (a % 4 * 16 + 0 / 16) ∷ b'=' ∷ b'=' ∷ []
unfolding to_base64_loop
encode_one a ha =
    ap (λ l. take 2 (map b64_char l) ++ b'=' ∷ b'=' ∷ [])
      (sextets-eq a 0 0 ha (omega arith) (omega arith))

encode_two :
    (a b : ℕ)
    → a < 256
    → b < 256
    → to_base64_loop [] (a ∷ b ∷ []) []
      ≡ b64_char (a / 4)
        ∷ b64_char (a % 4 * 16 + b / 16)
        ∷ b64_char (b % 16 * 4 + 0 / 64)
        ∷ b'='
        ∷ []
unfolding to_base64_loop
encode_two a b ha hb =
    ap (λ l. take 3 (map b64_char l) ++ b'=' ∷ []) (sextets-eq a b 0 ha hb (omega arith))

decode_rest_one :
    (a b : ℕ)
    → a < 256
    → b < 256
    → decode_rest (b64_char (a / 4) ∷ b64_char (a % 4 * 16 + b / 16) ∷ []) ≡ a ∷ []
unfolding decode_rest
decode_rest_one a b ha hb =
    let d1 : ℕ = a % 4 * 16 + b / 16 in
    rw (find-char (a / 4) (omega arith), find-char d1 (omega arith), mask_30 d1 (omega arith))
      (cons_eq (omega arith) refl)

decode_rest_two :
    (a b c : ℕ)
    → a < 256
    → b < 256
    → c < 256
    → decode_rest
        (b64_char (a / 4) ∷ b64_char (a % 4 * 16 + b / 16) ∷ b64_char (b % 16 * 4 + c / 64) ∷ [])
      ≡ a ∷ b ∷ []
unfolding decode_rest
decode_rest_two a b c ha hb hc =
    let d1 : ℕ = a % 4 * 16 + b / 16 in
    let d2 : ℕ = b % 16 * 4 + c / 64 in
    rw
      (
        find-char (a / 4) (omega arith),
        find-char d1 (omega arith),
        find-char d2 (omega arith),
        mask_30 d1 (omega arith),
        mask_0f d1 (omega arith),
        mask_3c d2 (omega arith),
      )
      (cons_eq (omega arith) (cons_eq (omega arith) refl))

decode_one :
    (a : ℕ) (decoded : Bytes)
    → a < 256
    → from_base64_loop [] (to_base64_loop [] (a ∷ []) []) decoded ≡ decoded ++ a ∷ []
decode_one a decoded ha =
    let c0 = b64_char (a / 4) in
    let c1 = b64_char (a % 4 * 16 + 0 / 16) in
    ap (λ l. from_base64_loop [] l decoded) (encode_one a ha)
    ∙ decode_digit [] (a / 4) (c1 ∷ b'=' ∷ b'=' ∷ []) decoded (omega arith)
    ∙ decode_digit (c0 ∷ []) (a % 4 * 16 + 0 / 16) (b'=' ∷ b'=' ∷ []) decoded (omega arith)
    ∙ stop (c0 ∷ c1 ∷ []) (b'=' ∷ []) decoded
    ∙ ap (◌++◌ decoded) (decode_rest_one a 0 ha (omega arith))

decode_two :
    (a b : ℕ) (decoded : Bytes)
    → a < 256
    → b < 256
    → from_base64_loop [] (to_base64_loop [] (a ∷ b ∷ []) []) decoded ≡ decoded ++ a ∷ b ∷ []
decode_two a b decoded ha hb =
    let c0 = b64_char (a / 4) in
    let c1 = b64_char (a % 4 * 16 + b / 16) in
    let c2 = b64_char (b % 16 * 4 + 0 / 64) in
    ap (λ l. from_base64_loop [] l decoded) (encode_two a b ha hb)
    ∙ decode_digit [] (a / 4) (c1 ∷ c2 ∷ b'=' ∷ []) decoded (omega arith)
    ∙ decode_digit (c0 ∷ []) (a % 4 * 16 + b / 16) (c2 ∷ b'=' ∷ []) decoded (omega arith)
    ∙ decode_digit (c0 ∷ c1 ∷ []) (b % 16 * 4 + 0 / 64) (b'=' ∷ []) decoded (omega arith)
    ∙ stop (c0 ∷ c1 ∷ c2 ∷ []) [] decoded
    ∙ ap (◌++◌ decoded) (decode_rest_two a b 0 ha hb (omega arith))

round_trip :
    (buf decoded : Bytes)
    → AllBelow 256 buf
    → from_base64_loop [] (to_base64_loop [] buf []) decoded ≡ decoded ++ buf
round_trip [] decoded h =
    unfold to_base64_loop from_base64_loop in append-nil decoded ∙ sym (append-nil decoded)
round_trip (a ∷ []) decoded h = decode_one a decoded h.0
round_trip (a ∷ b ∷ []) decoded h = decode_two a b decoded h.0 h.1.0
round_trip (a ∷ b ∷ c ∷ buf) decoded h =
    ap (λ l. from_base64_loop [] l decoded)
      (encode_group a b c buf ∙ encode3-chars a b c (to_base64_loop [] buf []) h.0 h.1.0 h.1.1.0)
    ∙ decode_chars a b c (to_base64_loop [] buf []) decoded h.0 h.1.0 h.1.1.0
    ∙ round_trip buf (decoded ++ a ∷ b ∷ c ∷ []) h.1.1.1
    ∙ append_assoc decoded (a ∷ b ∷ c ∷ []) buf

-- Decoding what was encoded gives the bytes back.
pub from_base64-to_base64 : (buf : Bytes) → AllBelow 256 buf → from_base64 (to_base64 buf) ≡ buf
unfolding from_base64 to_base64
from_base64-to_base64 buf h = round_trip buf [] h
