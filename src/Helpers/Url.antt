-- ===== src/Helpers/Url.antt =====
-- Helpers/mdz_hlp_functions/encoders.cpp: toURL, fromURL and the decision which bytes are encoded.
use lib_mantids.Common.{
  ℕ, ◌+◌, Bool, true, false, ◌&&◌, [], ◌∷◌, is_between, Bytes, ◌==◌, if◌then◌else◌, set, replicate,
}
use lib_mantids.Helpers.Hex.{to_hex_pair_high, to_hex_pair_low, is_xdigit, hex_value_of_pair}
pub mod RoundTrip

pub data UrlEncodingType : Type 0 where
  strict : UrlEncodingType
  quoteprint : UrlEncodingType

-- A byte of 128 or more is a negative char, in none of the ranges.
unfoldable pub get_if_must_be_url_encoded : ℕ → UrlEncodingType → Bool
get_if_must_be_url_encoded c quoteprint =
    if c == b'"' then true else if is_between 32 126 c then false else true
get_if_must_be_url_encoded c strict =
    if is_between b'A' b'Z' c
    then false
    else if is_between b'a' b'z' c
    then false
    else if is_between b'0' b'9' c
    then false
    else true

unfoldable pub calc_url_encoding_expanded_string_size : Bytes → UrlEncodingType → ℕ
unfolding get_if_must_be_url_encoded
calc_url_encoding_expanded_string_size [] t = 0
calc_url_encoding_expanded_string_size (c ∷ str) t =
    (if get_if_must_be_url_encoded c t then 3 else 1) + calc_url_encoding_expanded_string_size str t

-- The loop of toURL, which writes at `x` into the buffer `out`.
unfoldable pub to_url_loop : Bytes → UrlEncodingType → Bytes → ℕ → Bytes
unfolding get_if_must_be_url_encoded to_hex_pair_high to_hex_pair_low
to_url_loop [] t out x = out
to_url_loop (c ∷ str) t out x =
    let must = get_if_must_be_url_encoded c t in
    to_url_loop str t
      (if must
        then set (set (set out x b'%') (x + 1) (to_hex_pair_high c)) (x + 2) (to_hex_pair_low c)
        else set out x c)
      (if must then x + 3 else x + 1)

-- Calculated size first, then the loop. (The empty text needs no case of its own.)
unfoldable pub to_url : Bytes → UrlEncodingType → Bytes
unfolding calc_url_encoding_expanded_string_size to_url_loop
to_url str t = to_url_loop str t (replicate (calc_url_encoding_expanded_string_size str t) 32) 0

-- The loop of fromURL. `i + 3 <= size` says that two characters follow.
unfoldable pub from_url : Bytes → Bytes
unfolding hex_value_of_pair
from_url [] = []
from_url (c ∷ []) = c ∷ []
from_url (c ∷ d ∷ []) = c ∷ d ∷ []
from_url (c ∷ h ∷ l ∷ rest) = elim (c == b'%' && is_xdigit h && is_xdigit l) [
  | true ↦ hex_value_of_pair h l ∷ from_url rest
  | false ↦ c ∷ from_url (h ∷ l ∷ rest)
]
