-- ===== src/Helpers/Url/RoundTrip.antt =====
-- toURL fills a buffer of the calculated size exactly, and fromURL reads it back.
use mathlib.Core.Path.{ap₂}
use lib_mantids.Common.{
  ℕ, zero, suc, ◌+◌, ◌%◌, ◌<◌, ◌≡◌, refl, sym, ap, ◌∙◌, inl, inr, true, false, ◌&&◌, [], ◌∷◌, ◌++◌,
  map, append_assoc, arith, AllBelow, agree_below, agree_below_sound, holds_below, Bytes, ltb, ◌==◌,
  if◌then◌else◌, Bool-cases, length, set, replicate, length-append,
}
use lib_mantids.Helpers.Hex.{
  to_hex_pair_high, to_hex_pair_low, is_xdigit, hex_value_of_pair, hex_to_value,
}
use lib_mantids.Helpers.Url.{
  UrlEncodingType, strict, get_if_must_be_url_encoded, calc_url_encoding_expanded_string_size,
  to_url_loop, to_url, from_url,
}

-- What one byte becomes, and what a text becomes: no buffer and no positions.
unfoldable pub escape : ℕ → UrlEncodingType → Bytes
escape c t =
    if get_if_must_be_url_encoded c t
    then b'%' ∷ to_hex_pair_high c ∷ to_hex_pair_low c ∷ []
    else c ∷ []

unfoldable pub escape_all : Bytes → UrlEncodingType → Bytes
unfolding escape
escape_all [] t = []
escape_all (c ∷ str) t = escape c t ++ escape_all str t

set_at :
    (front back : Bytes) (d v n : ℕ)
    → n ≡ length front
    → set (front ++ d ∷ back) n v ≡ (front ++ v ∷ []) ++ back
set_at [] back d v zero h = refl
set_at [] back d v (suc n) h = absurd (omega arith)
set_at (x ∷ front) back d v zero h = absurd (omega arith)
set_at (x ∷ front) back d v (suc n) h = ap (◌∷◌ x) (set_at front back d v n (omega arith))

length-snoc : (front : Bytes) (v : ℕ) → length (front ++ v ∷ []) ≡ length front + 1
length-snoc front v = omega (arith, length-append front (v ∷ []))

-- The three writes of an escape.
set_three :
    (front back : Bytes) (d e f a b c : ℕ)
    → set
        (set (set (front ++ d ∷ e ∷ f ∷ back) (length front) a) (length front + 1) b)
        (length front + 2)
        c
      ≡ (((front ++ a ∷ []) ++ b ∷ []) ++ c ∷ []) ++ back
set_three front back d e f a b c =
    let n : ℕ = length front in
    let one : Bytes = front ++ a ∷ [] in
    let two : Bytes = one ++ b ∷ [] in
    ap (λ o. set (set o (n + 1) b) (n + 2) c) (set_at front (e ∷ f ∷ back) d a n refl)
    ∙ ap (λ o. set o (n + 2) c) (set_at one (f ∷ back) e b (n + 1) (sym (length-snoc front a)))
    ∙ set_at two back f c (n + 2) (omega (arith, length-snoc one b, length-snoc front a))

snoc_three :
    (front rest : Bytes) (a b c : ℕ)
    → (((front ++ a ∷ []) ++ b ∷ []) ++ c ∷ []) ++ rest ≡ front ++ a ∷ b ∷ c ∷ rest
snoc_three [] rest a b c = refl
snoc_three (x ∷ front) rest a b c = ap (◌∷◌ x) (snoc_three front rest a b c)

blanks : Bytes → UrlEncodingType → Bytes
blanks str t = replicate (calc_url_encoding_expanded_string_size str t) 32

three_more : (n : ℕ) → replicate {A = ℕ} (3 + n) 32 ≡ 32 ∷ 32 ∷ 32 ∷ replicate n 32
three_more n = ap (λ k. replicate {A = ℕ} k 32) {x = 3 + n} {y = suc (suc (suc n))} (omega arith)

one_more : (n : ℕ) → replicate {A = ℕ} (1 + n) 32 ≡ 32 ∷ replicate n 32
one_more n = ap (λ k. replicate {A = ℕ} k 32) {x = 1 + n} {y = suc n} (omega arith)

fill :
    (str : Bytes) (t : UrlEncodingType) (front : Bytes)
    → to_url_loop str t (front ++ blanks str t) (length front) ≡ front ++ escape_all str t
unfolding to_url_loop escape_all escape blanks calc_url_encoding_expanded_string_size
fill [] t front = refl
fill (c ∷ str) t front = elim (Bool-cases (get_if_must_be_url_encoded c t)) [
  | inl must ↦
      let high = to_hex_pair_high c in
      let low = to_hex_pair_low c in
      let two : Bytes = (front ++ b'%' ∷ []) ++ high ∷ [] in
      rw must (
        ap₂ (to_url_loop str t)
          (ap
              (λ l.
                set (set (set (front ++ l) (length front) b'%') (length front + 1) high)
                  (length front + 2) low)
              (three_more (calc_url_encoding_expanded_string_size str t))
            ∙ set_three front (blanks str t) 32 32 32 b'%' high low)
          (omega (
            arith,
            length-snoc two low,
            length-snoc (front ++ b'%' ∷ []) high,
            length-snoc front b'%',
          ))
        ∙ fill str t (two ++ low ∷ [])
        ∙ snoc_three front (escape_all str t) b'%' high low)
  | inr plain ↦ rw plain (
      ap₂ (to_url_loop str t)
        (ap (λ l. set (front ++ l) (length front) c)
            (one_more (calc_url_encoding_expanded_string_size str t))
          ∙ set_at front (blanks str t) 32 c (length front) refl)
        (sym (length-snoc front c))
      ∙ fill str t (front ++ c ∷ [])
      ∙ append_assoc front (c ∷ []) (escape_all str t))
]

-- toURL, with its buffer of the size calculated first, writes the escapes of the bytes in order: it
-- neither leaves a blank of the buffer nor loses a byte at its end.
pub to_url-eq-escape_all : (str : Bytes) (t : UrlEncodingType) → to_url str t ≡ escape_all str t
unfolding to_url blanks
to_url-eq-escape_all str t = fill str t []

-- The digits written are digits, and are read back.
-- What is left of a byte that toURL escapes: toHexPair finds no first digit for a negative char.
unfoldable pub kept : ℕ → ℕ
kept c = if ltb c 128 then c else c % 16

digits_are_digits :
    (c : ℕ) → c < 256 → (is_xdigit (to_hex_pair_high c) && is_xdigit (to_hex_pair_low c)) ≡ true
unfolding agree_below to_hex_pair_high to_hex_pair_low
digits_are_digits c h =
    holds_below 256 (λ n. (is_xdigit (to_hex_pair_high n) && is_xdigit (to_hex_pair_low n))) c refl
      h

pair_value : (c : ℕ) → c < 256 → hex_value_of_pair (to_hex_pair_high c) (to_hex_pair_low c) ≡ kept c
unfolding agree_below to_hex_pair_high to_hex_pair_low hex_value_of_pair hex_to_value kept
pair_value c h =
    agree_below_sound 256 (λ n. hex_value_of_pair (to_hex_pair_high n) (to_hex_pair_low n)) kept c
      refl h

-- A byte that stands for itself is below 128, and is not the percent sign.
plain_bytes :
    (c : ℕ) → get_if_must_be_url_encoded c strict ≡ false → (c < 128) × ((c == b'%') ≡ false)
unfolding get_if_must_be_url_encoded
plain_bytes c h = (ground arith, ground arith)

from_url_plain :
    (c : ℕ) (rest : Bytes) → (c == b'%') ≡ false → from_url (c ∷ rest) ≡ c ∷ from_url rest
unfolding from_url
from_url_plain c [] h = refl
from_url_plain c (d ∷ []) h = refl
from_url_plain c (d ∷ e ∷ rest) h = rw (h, from_url) refl

from_url_escaped :
    (h l : ℕ) (rest : Bytes)
    → (is_xdigit h && is_xdigit l) ≡ true
    → from_url (b'%' ∷ h ∷ l ∷ rest) ≡ hex_value_of_pair h l ∷ from_url rest
unfolding from_url
from_url_escaped h l rest e = rw (e, from_url) refl

kept_small : (c : ℕ) → c < 128 → kept c ≡ c
unfolding kept
kept_small c h = ground arith

from_url-escape :
    (c : ℕ) (rest : Bytes) → c < 256 → from_url (escape c strict ++ rest) ≡ kept c ∷ from_url rest
unfolding escape
from_url-escape c rest lt = elim (Bool-cases (get_if_must_be_url_encoded c strict)) [
  | inl must ↦ rw must (
      from_url_escaped (to_hex_pair_high c) (to_hex_pair_low c) rest (digits_are_digits c lt)
      ∙ ap (λ v. v ∷ from_url rest) (pair_value c lt))
  | inr plain ↦
      let facts = plain_bytes c plain in
      rw plain
        (from_url_plain c rest facts.1 ∙ ap (λ v. v ∷ from_url rest) (sym (kept_small c facts.0)))
]

from_url-escape_all :
    (str : Bytes) → AllBelow 256 str → from_url (escape_all str strict) ≡ map kept str
unfolding escape_all from_url
from_url-escape_all [] h = refl
from_url-escape_all (c ∷ str) h =
    from_url-escape c (escape_all str strict) h.0 ∙ ap (◌∷◌ (kept c)) (from_url-escape_all str h.1)

-- In the strict mode, fromURL gives back each byte below 128, and of every other byte its last four
-- bits alone.
pub from_url-to_url_kept :
    (str : Bytes) → AllBelow 256 str → from_url (to_url str strict) ≡ map kept str
from_url-to_url_kept str h =
    ap from_url (to_url-eq-escape_all str strict) ∙ from_url-escape_all str h

ascii_kept : (str : Bytes) → AllBelow 128 str → map kept str ≡ str
ascii_kept [] h = refl
ascii_kept (c ∷ str) h = ap₂ ◌∷◌ (kept_small c h.0) (ascii_kept str h.1)

ascii_bytes : (str : Bytes) → AllBelow 128 str → AllBelow 256 str
ascii_bytes [] h = h
ascii_bytes (c ∷ str) h = (omega (arith, h.0), ascii_bytes str h.1)

-- fromURL gives back every ASCII text that toURL has encoded in the strict mode.
from_url-to_url : (str : Bytes) → AllBelow 128 str → from_url (to_url str strict) ≡ str
from_url-to_url str h = from_url-to_url_kept str (ascii_bytes str h) ∙ ascii_kept str h
