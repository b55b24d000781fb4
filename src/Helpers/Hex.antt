-- ===== src/Helpers/Hex.antt =====
-- Helpers/mdz_hlp_functions/encoders.cpp: hexadecimal digits, toHex, fromHex and hexPairToByte.
-- A char is the code of its byte; a char of code 128 or more is negative, as on the platforms whose
-- char is signed.
use lib_mantids.Common.{
  ℕ, zero, suc, ◌+◌, ◌-◌, ◌*◌, ◌/◌, ◌%◌, Bool, not, ◌||◌, [], ◌∷◌, is_between, Bytes, ltb, leb,
  if◌then◌else◌, length,
}
pub mod RoundTrip
use Prim.Native.Nat.{bit_and}

-- <ctype.h>: isxdigit.
abbrev pub is_xdigit : ℕ → Bool
is_xdigit c = is_between b'0' b'9' c || is_between b'A' b'F' c || is_between b'a' b'f' c

-- The end of toHexPair: the digit of a value, and '0' for what is not the value of a digit.
abbrev pub hex_char : ℕ → ℕ
hex_char v = if leb v 9 then b'0' + v else if is_between 0xa 0xf v then b'A' + v - 0xa else b'0'

-- toHexPair with part 1: the quotient of a negative char is 0 or less, for which the digit is '0'.
unfoldable pub to_hex_pair_high : ℕ → ℕ
to_hex_pair_high value = if ltb value 128 then hex_char (value / 0x10) else b'0'

-- toHexPair with part 2.
unfoldable pub to_hex_pair_low : ℕ → ℕ
to_hex_pair_low value = hex_char (bit_and value 0xf)

unfoldable pub hex_to_value : ℕ → ℕ
hex_to_value v =
    if is_between b'0' b'9' v
    then v - b'0'
    else if is_between b'A' b'F' v
    then v - b'A' + 10
    else if is_between b'a' b'f' v
    then v - b'a' + 10
    else 0

-- hexToValue(h)*0x10 + hexToValue(l), stored in a char.
unfoldable pub hex_value_of_pair : ℕ → ℕ → ℕ
unfolding hex_to_value
hex_value_of_pair h l = (hex_to_value h * 0x10 + hex_to_value l) % 256

-- sprintf with %02X of a byte writes two upper-case digits.
unfoldable pub to_hex : Bytes → Bytes
to_hex [] = []
to_hex (b ∷ bytes) = hex_char (b / 16) ∷ hex_char (b % 16) ∷ to_hex bytes

-- The loop of fromHex over the pairs, `left` of them; what stands behind them in `data` stays.
unfoldable pub from_hex_loop : Bytes → Bytes → ℕ → Bytes
unfolding hex_value_of_pair
from_hex_loop hex_value bytes zero = bytes
from_hex_loop [] bytes (suc left) = bytes
from_hex_loop (h ∷ []) bytes (suc left) = bytes
from_hex_loop (h ∷ l ∷ hex_value) [] (suc left) = []
from_hex_loop (h ∷ l ∷ hex_value) (d ∷ bytes) (suc left) =
    hex_value_of_pair h l ∷ from_hex_loop hex_value bytes left

-- `data` holds at least `maxlen` bytes.
unfoldable pub from_hex : Bytes → Bytes → ℕ → Bytes
unfolding from_hex_loop
from_hex hex_value bytes maxlen =
    from_hex_loop hex_value bytes
      (if ltb (length hex_value / 2) maxlen then length hex_value / 2 else maxlen)

-- strtol in base 16 of two hexadecimal digits is the value of the pair.
unfoldable pub hex_pair_to_byte : ℕ → ℕ → ℕ
unfolding hex_value_of_pair
hex_pair_to_byte h l = if not (is_xdigit h) || not (is_xdigit l) then 0 else hex_value_of_pair h l
