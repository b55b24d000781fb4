-- ===== src/Helpers/Obfuscated.antt =====
-- Helpers/mdz_hlp_functions/encoders.cpp: toBase64Obf and fromBase64Obf. `key i` is the number that
-- the i-th call of dis(gen) returns, for the generator with the seed at hand.
pub mod RoundTrip
use Prim.Native.Nat.{bit_xor}
use lib_mantids.Common.{ℕ, ◌+◌, not, ◌&&◌, [], ◌∷◌, ◌++◌, Bytes, ◌==◌, if◌then◌else◌, length}
use lib_mantids.Helpers.Base64.{to_base64, decode4, decode_rest, is_b64}

-- The bytes with the numbers from the `i`-th one on.
unfoldable pub xor_from : (ℕ → ℕ) → ℕ → Bytes → Bytes
xor_from key i [] = []
xor_from key i (b ∷ buf) = bit_xor b (key i) ∷ xor_from key (i + 1) buf

unfoldable pub to_base64_obf : (ℕ → ℕ) → Bytes → Bytes
unfolding to_base64 xor_from
to_base64_obf key buf = to_base64 (xor_from key 0 buf)

-- As the loop of fromBase64: each byte of output has taken one number.
unfoldable pub from_base64_obf_loop : (ℕ → ℕ) → Bytes → Bytes → Bytes → Bytes
unfolding is_b64 decode4 decode_rest xor_from
from_base64_obf_loop key cont4 [] decoded =
    decoded ++ xor_from key (length decoded) (decode_rest cont4)
from_base64_obf_loop key cont4 (c ∷ buf) decoded =
    let cont = cont4 ++ c ∷ [] in
    let full = length cont == 4 in
    let rest =
      from_base64_obf_loop key (if full then [] else cont) buf
        (if full then decoded ++ xor_from key (length decoded) (decode4 cont) else decoded) in
    if not (c == b'=') && is_b64 c
    then rest
    else decoded ++ xor_from key (length decoded) (decode_rest cont4)

unfoldable pub from_base64_obf : (ℕ → ℕ) → Bytes → Bytes
unfolding from_base64_obf_loop
from_base64_obf key buf = from_base64_obf_loop key [] buf []
