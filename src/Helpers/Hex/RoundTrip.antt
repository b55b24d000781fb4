-- ===== src/Helpers/Hex/RoundTrip.antt =====
-- fromHex reads back what toHex writes.
use lib_mantids.Common.{
  ℕ, ◌*◌, ◌/◌, ◌%◌, ◌≤◌, ◌<◌, ◌≡◌, refl, ap, ◌∙◌, [], ◌∷◌, ◌++◌, arith, AllBelow, agree_below,
  agree_below_sound, Bytes, ltb, if◌then◌else◌, length, drop,
}
use lib_mantids.Helpers.Hex.{
  hex_char, hex_value_of_pair, hex_to_value, to_hex, from_hex, from_hex_loop,
}

pub value_of_digits :
    (b : ℕ) → b < 256 → hex_value_of_pair (hex_char (b / 16)) (hex_char (b % 16)) ≡ b
unfolding agree_below hex_value_of_pair hex_to_value
value_of_digits b h =
    agree_below_sound 256 (λ n. hex_value_of_pair (hex_char (n / 16)) (hex_char (n % 16))) (λ n. n)
      b refl h

length-to_hex : (bytes : Bytes) → length (to_hex bytes) ≡ 2 * length bytes
unfolding to_hex
length-to_hex [] = refl
length-to_hex (b ∷ bytes) = omega (arith, length-to_hex bytes)

from_hex_loop-to_hex :
    (bytes out : Bytes)
    → AllBelow 256 bytes
    → length bytes ≤ length out
    → from_hex_loop (to_hex bytes) out (length bytes) ≡ bytes ++ drop (length bytes) out
unfolding to_hex from_hex_loop
from_hex_loop-to_hex [] out h le = refl
from_hex_loop-to_hex (b ∷ bytes) [] h le = absurd (omega arith)
from_hex_loop-to_hex (b ∷ bytes) (d ∷ out) h le =
    ap (λ v. v ∷ from_hex_loop (to_hex bytes) out (length bytes)) (value_of_digits b h.0)
    ∙ ap (◌∷◌ b) (from_hex_loop-to_hex bytes out h.1 (omega arith))

shorter :
    (n k maxlen : ℕ) → k ≡ 2 * n → n ≤ maxlen → (if ltb (k / 2) maxlen then k / 2 else maxlen) ≡ n
shorter n k maxlen e le = ground arith

-- Into a buffer of at least `maxlen` bytes, fromHex writes back the bytes that toHex has written as
-- digits, where they are at most `maxlen`, and nothing behind them.
pub from_hex-to_hex :
    (bytes out : Bytes) (maxlen : ℕ)
    → AllBelow 256 bytes
    → length bytes ≤ maxlen
    → maxlen ≤ length out
    → from_hex (to_hex bytes) out maxlen ≡ bytes ++ drop (length bytes) out
unfolding from_hex
from_hex-to_hex bytes out maxlen h le room =
    ap (from_hex_loop (to_hex bytes) out)
      (shorter (length bytes) (length (to_hex bytes)) maxlen (length-to_hex bytes) le)
    ∙ from_hex_loop-to_hex bytes out h (omega arith)
