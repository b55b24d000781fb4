-- ===== src/Helpers/Base64.antt =====
-- Helpers/mdz_hlp_functions/encoders.cpp: toBase64 and fromBase64.
-- A buffer of `x` bytes, cont3 or cont4, is the list of those bytes; what stands behind them is not
-- read before it is written.
pub mod Masks
pub mod RoundTrip
use Prim.Native.Nat.{bit_and}
use lib_mantids.Common.{
  ℕ, ◌+◌, ◌-◌, ◌*◌, ◌/◌, ◌%◌, Bool, not, ◌&&◌, ◌||◌, [], ◌∷◌, ◌++◌, map, ◌==◌, if◌then◌else◌,
  length, get_or, take, replicate, Bytes, text, is_between,
}

abbrev pub b64_chars : Bytes
b64_chars = text "ABCDEFGHIJKLMNOPQRSTUVWXYZabcdefghijklmnopqrstuvwxyz0123456789+/"

-- The four sextets of three bytes: cont4[0], …, cont4[3].
unfoldable pub sextets : ℕ → ℕ → ℕ → Bytes
sextets c0 c1 c2 =
    bit_and c0 0xfc / 4
    ∷ (bit_and c0 0x03 * 16 + bit_and c1 0xf0 / 16)
    ∷ (bit_and c1 0x0f * 4 + bit_and c2 0xc0 / 64)
    ∷ bit_and c2 0x3f
    ∷ []

abbrev pub b64_char : ℕ → ℕ
b64_char i = get_or b64_chars i 0

abbrev pub at : Bytes → ℕ → ℕ
at cont i = get_or cont i 0

-- The bytes of cont3 from `x` on are set to 0.
unfoldable pub encode3 : Bytes → Bytes
unfolding sextets
encode3 cont3 = map b64_char (sextets (at cont3 0) (at cont3 1) (at cont3 2))

-- After the loop: the characters of the bytes left over, and the padding.
unfoldable pub encode_rest : Bytes → Bytes
unfolding encode3
encode_rest cont3 =
    if length cont3 == 0
    then []
    else take (length cont3 + 1) (encode3 cont3) ++ replicate (3 - length cont3) b'='

-- The loop of toBase64 over the bytes left.
unfoldable pub to_base64_loop : Bytes → Bytes → Bytes → Bytes
unfolding encode3 encode_rest
to_base64_loop cont3 [] encoded = encoded ++ encode_rest cont3
to_base64_loop cont3 (b ∷ buf) encoded =
    let cont = cont3 ++ b ∷ [] in
    let full = length cont == 3 in
    to_base64_loop (if full then [] else cont) buf
      (if full then encoded ++ encode3 cont else encoded)

unfoldable pub to_base64 : Bytes → Bytes
unfolding to_base64_loop
to_base64 buf = to_base64_loop [] buf []

-- b64Chars.find(c), as an unsigned char: npos becomes 255.
unfoldable pub find_from : ℕ → ℕ → Bytes → ℕ
find_from i c [] = 255
find_from i c (d ∷ cs) = if d == c then i else find_from (i + 1) c cs

abbrev pub find_b64 : ℕ → ℕ
find_b64 c = find_from 0 c b64_chars

-- isalnum(c) || c == '/' || c == '+'
unfoldable pub is_b64 : ℕ → Bool
is_b64 c =
    is_between b'A' b'Z' c
    || is_between b'a' b'z' c
    || is_between b'0' b'9' c
    || c == b'/'
    || c == b'+'

-- cont3 from the four values of cont4, as unsigned chars.
unfoldable pub triple : ℕ → ℕ → ℕ → ℕ → Bytes
triple d0 d1 d2 d3 =
    (d0 * 4 + bit_and d1 0x30 / 16) % 256
    ∷ (bit_and d1 0xf * 16 + bit_and d2 0x3c / 4) % 256
    ∷ (bit_and d2 0x3 * 64 + d3) % 256
    ∷ []

-- The characters of cont4 from `x` on are set to 0, which b64Chars.find does not find.
unfoldable pub decode4 : Bytes → Bytes
unfolding triple find_from
decode4 cont4 =
    triple (find_b64 (at cont4 0)) (find_b64 (at cont4 1)) (find_b64 (at cont4 2))
      (find_b64 (at cont4 3))

unfoldable pub decode_rest : Bytes → Bytes
unfolding decode4
decode_rest cont4 = if length cont4 == 0 then [] else take (length cont4 - 1) (decode4 cont4)

-- The loop of fromBase64: it ends at the end of the text, or at a character that is no digit.
unfoldable pub from_base64_loop : Bytes → Bytes → Bytes → Bytes
unfolding is_b64 decode4 decode_rest
from_base64_loop cont4 [] decoded = decoded ++ decode_rest cont4
from_base64_loop cont4 (c ∷ buf) decoded =
    let cont = cont4 ++ c ∷ [] in
    let full = length cont == 4 in
    let rest =
      from_base64_loop (if full then [] else cont) buf
        (if full then decoded ++ decode4 cont else decoded) in
    if not (c == b'=') && is_b64 c then rest else decoded ++ decode_rest cont4

unfoldable pub from_base64 : Bytes → Bytes
unfolding from_base64_loop
from_base64 buf = from_base64_loop [] buf []
