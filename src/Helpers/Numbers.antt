-- ===== src/Helpers/Numbers.antt =====
-- The conversions of the C library that the sources use between numbers and hexadecimal text: printf
-- with %X of an unsigned int, and strtoul with base 16, where an unsigned long has 64 bits.
pub mod RoundTrip
use lib_mantids.Common.{
  ℕ, zero, suc, ◌+◌, ◌*◌, ◌/◌, ◌%◌, Bool, ◌&&◌, ◌||◌, [], ◌∷◌, is_between, Bytes, u64_max, sub64,
  ltb, ◌==◌, if◌then◌else◌,
}
use lib_mantids.Helpers.Hex.{is_xdigit, hex_char, hex_to_value}

-- The digits of a number in front of a text; each unit of fuel is a digit in front of the last.
unfoldable pub hex_digits : ℕ → ℕ → Bytes → Bytes
hex_digits zero n acc = hex_char (n % 16) ∷ acc
hex_digits (suc fuel) n acc =
    let rest = hex_digits fuel (n / 16) (hex_char (n % 16) ∷ acc) in
    if ltb n 16 then hex_char n ∷ acc else rest

-- %X; a number of 32 bits has eight digits at most.
unfoldable pub print_hex : ℕ → Bytes
print_hex n = hex_digits 7 n []

-- The value of the digits that a text begins with.
unfoldable pub digits_value : Bytes → ℕ → ℕ
unfolding hex_to_value
digits_value [] v = v
digits_value (c ∷ cs) v =
    let rest = digits_value cs (v * 16 + hex_to_value c) in if is_xdigit c then rest else v

-- <ctype.h>: isspace.
abbrev pub is_space : ℕ → Bool
is_space c = c == 32 || is_between 9 13 c

unfoldable pub skip_spaces : Bytes → Bytes
skip_spaces [] = []
skip_spaces (c ∷ cs) = let rest = skip_spaces cs in if is_space c then rest else c ∷ cs

-- 0x in front of a digit is left out.
unfoldable pub skip_prefix : Bytes → Bytes
skip_prefix (a ∷ x ∷ d ∷ cs) =
    if a == b'0' && (x == b'x' || x == b'X') && is_xdigit d then d ∷ cs else a ∷ x ∷ d ∷ cs
skip_prefix (a ∷ x ∷ []) = a ∷ x ∷ []
skip_prefix (a ∷ []) = a ∷ []
skip_prefix [] = []

abbrev pub magnitude : Bytes → ℕ
magnitude cs = digits_value (skip_prefix cs) 0

-- A value that an unsigned long cannot hold is ULONG_MAX, and a minus sign negates in its type.
unfoldable pub signed_value : Bytes → ℕ
signed_value [] = 0
signed_value (c ∷ cs) =
    let m = magnitude (if c == b'-' || c == b'+' then cs else c ∷ cs) in
    if ltb u64_max m then u64_max else if c == b'-' then sub64 0 m else m

-- strtoul(text,nullptr,16)
unfoldable pub strtoul : Bytes → ℕ
unfolding signed_value skip_spaces
strtoul cs = signed_value (skip_spaces cs)
