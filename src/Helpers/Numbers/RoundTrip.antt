-- ===== src/Helpers/Numbers/RoundTrip.antt =====
-- strtoul reads the number that %X writes.
use lib_mantids.Common.{
  ℕ, zero, suc, ◌+◌, ◌*◌, ◌/◌, ◌%◌, ◌≤◌, ◌<◌, ◌≡◌, refl, sym, ap, ◌∙◌, inl, inr, Bool, true, false,
  ◌||◌, none, [], ◌∷◌, arith, is_between, Bytes, first_index, u64_max, ◌==◌, lt→ltb, le→ltb-false,
  lt_or_le, length,
}
use lib_mantids.Helpers.Hex.{is_xdigit, hex_char, hex_to_value}
use lib_mantids.Helpers.Numbers.{
  hex_digits, digits_value, skip_spaces, skip_prefix, signed_value, strtoul,
}

-- Digits as %X writes them.
abbrev pub is_digit : ℕ → Bool
is_digit c = is_between b'0' b'9' c || is_between b'A' b'F' c

abbrev pub AllDigits : Bytes → Type 0
AllDigits [] = Unit {0}
AllDigits (c ∷ cs) = (is_digit c ≡ true) × AllDigits cs

hex_char_digit : (d : ℕ) → d < 16 → is_digit (hex_char d) ≡ true
hex_char_digit d h = ground arith

hex_char_xdigit : (d : ℕ) → d < 16 → is_xdigit (hex_char d) ≡ true
hex_char_xdigit d h = ground arith

hex_char_value : (d : ℕ) → d < 16 → hex_to_value (hex_char d) ≡ d
unfolding hex_to_value
hex_char_value d h = ground arith

hex_digits-AllDigits :
    (fuel n : ℕ) (acc : Bytes) → AllDigits acc → AllDigits (hex_digits fuel n acc)
unfolding hex_digits
hex_digits-AllDigits zero n acc all = (hex_char_digit (n % 16) (omega arith), all)
hex_digits-AllDigits (suc fuel) n acc all = elim (lt_or_le n 16) [
  | inl small ↦ rw (lt→ltb n 16 small) (hex_char_digit n small, all)
  | inr large ↦ rw (le→ltb-false n 16 large) (
      hex_digits-AllDigits fuel (n / 16) (hex_char (n % 16) ∷ acc)
        (hex_char_digit (n % 16) (omega arith), all))
]

-- 16 to the power of the digits.
abbrev pub reach : ℕ → ℕ
reach zero = 16
reach (suc fuel) = 16 * reach fuel

digits_value-step :
    (d v : ℕ) (acc : Bytes)
    → d < 16
    → digits_value (hex_char d ∷ acc) v ≡ digits_value acc (v * 16 + d)
unfolding digits_value
digits_value-step d v acc h = rw (hex_char_xdigit d h, hex_char_value d h)

digits_value-hex_digits :
    (fuel n : ℕ) (acc : Bytes)
    → n < reach fuel
    → digits_value (hex_digits fuel n acc) 0 ≡ digits_value acc n
unfolding hex_digits
digits_value-hex_digits zero n acc h =
    digits_value-step (n % 16) 0 acc (omega arith)
    ∙ ap (digits_value acc) {x = 0 * 16 + n % 16} {y = n} (omega arith)
digits_value-hex_digits (suc fuel) n acc h = elim (lt_or_le n 16) [
  | inl small ↦ rw (lt→ltb n 16 small) (
      digits_value-step n 0 acc small
      ∙ ap (digits_value acc) {x = 0 * 16 + n} {y = n} (omega arith))
  | inr large ↦ rw (le→ltb-false n 16 large) (
      digits_value-hex_digits fuel (n / 16) (hex_char (n % 16) ∷ acc) (omega arith)
      ∙ digits_value-step (n % 16) (n / 16) acc (omega arith)
      ∙ ap (digits_value acc) {x = n / 16 * 16 + n % 16} {y = n} (omega arith))
]

pub length-hex_digits :
    (fuel n : ℕ) (acc : Bytes) → length (hex_digits fuel n acc) ≤ fuel + 1 + length acc
unfolding hex_digits
length-hex_digits zero n acc = omega arith
length-hex_digits (suc fuel) n acc =
    ground (arith, length-hex_digits fuel (n / 16) (hex_char (n % 16) ∷ acc))

-- A test that no digit passes stops nowhere in the text.
first_index-digits :
    (c : ℕ) (cs : Bytes) → is_digit c ≡ false → AllDigits cs → first_index (λ x. x == c) cs ≡ none
unfolding first_index
first_index-digits c [] away all = refl
first_index-digits c (x ∷ cs) away (here, all) = ground (arith, first_index-digits c cs away all)

pub first_index-hex_digits : (fuel n : ℕ) → first_index (λ x. x == 13) (hex_digits fuel n []) ≡ none
first_index-hex_digits fuel n =
    first_index-digits 13 (hex_digits fuel n []) refl (hex_digits-AllDigits fuel n [] tt)

skip_spaces-digits : (cs : Bytes) → AllDigits cs → skip_spaces cs ≡ cs
unfolding skip_spaces
skip_spaces-digits [] all = refl
skip_spaces-digits (c ∷ cs) (here, all) = ground arith

skip_prefix-digits : (cs : Bytes) → AllDigits cs → skip_prefix cs ≡ cs
unfolding skip_prefix
skip_prefix-digits [] all = refl
skip_prefix-digits (a ∷ []) all = refl
skip_prefix-digits (a ∷ x ∷ []) all = refl
skip_prefix-digits (a ∷ x ∷ d ∷ cs) (first, (second, (third, all))) = ground arith

digits_value-nil : digits_value [] 0 ≡ 0
unfolding digits_value
digits_value-nil = refl

signed_value-digits :
    (cs : Bytes) → AllDigits cs → digits_value cs 0 ≤ u64_max → signed_value cs ≡ digits_value cs 0
unfolding signed_value
signed_value-digits [] all h = sym digits_value-nil
signed_value-digits (c ∷ cs) (here, all) h =
    let unsigned : (c == b'-' || c == b'+') ≡ false = ground arith in
    let positive : (c == b'-') ≡ false = ground arith in
    rw (
      unsigned,
      positive,
      skip_prefix-digits (c ∷ cs) (here, all),
      le→ltb-false u64_max (digits_value (c ∷ cs) 0) h,
    )

strtoul-digits :
    (cs : Bytes) → AllDigits cs → digits_value cs 0 ≤ u64_max → strtoul cs ≡ digits_value cs 0
unfolding strtoul
strtoul-digits cs all h = ap signed_value (skip_spaces-digits cs all) ∙ signed_value-digits cs all h

-- A number that its digits reach, of 64 bits at most, is read back.
pub strtoul-hex_digits :
    (fuel n : ℕ) → n < reach fuel → n ≤ u64_max → strtoul (hex_digits fuel n []) ≡ n
unfolding digits_value
strtoul-hex_digits fuel n h bound =
    let value : digits_value (hex_digits fuel n []) 0 ≡ n = digits_value-hex_digits fuel n [] h in
    strtoul-digits (hex_digits fuel n []) (hex_digits-AllDigits fuel n [] tt) (omega arith) ∙ value
