-- ===== src/Protocols/UrlDecoder/Automaton.antt =====
-- The automaton that decodes a URL byte by byte, and what the functions of the decoder make of the
-- front of their bytes.
use lib_mantids.Common.{
  ℕ, zero, suc, ◌≤◌, ◌<◌, ◌≡◌, refl, sym, ap, ◌∙◌, inl, inr, true, false, not, [], ◌∷◌, ◌++◌,
  append-nil, append_assoc, arith, Bytes, ◌==◌, if◌then◌else◌, Bool-cases, lt→ltb, length, take,
}
use lib_mantids.Helpers.Hex.{is_xdigit, hex_pair_to_byte}
use lib_mantids.Memory.Streams.{StreamOps}
use lib_mantids.Protocols.UrlDecoder.{
  UrlDecoder, get_plain_bytes_size, hand_on, flush_bytes, write_plain, write_second_digit,
}

-- What was read of an escape: nothing, the percent sign, or the first digit too.
pub data Phase : Type 0 where
  plain : Phase
  percent : Phase
  digit : ℕ → Phase

-- The output so far, and the phase.
abbrev pub Reading : Type 0
Reading = Bytes × Phase

unfoldable pub decode_byte : Reading → ℕ → Reading
decode_byte (out, plain) c =
    if c == b'%'
    then (out, percent)
    else if c == b'+'
    then (out ++ 32 ∷ [], plain)
    else (out ++ c ∷ [], plain)
decode_byte (out, percent) c = if is_xdigit c then (out, digit c) else (out ++ b'%' ∷ c ∷ [], plain)
decode_byte (out, digit h) c =
    if is_xdigit c
    then (out ++ hex_pair_to_byte h c ∷ [], plain)
    else (out ++ b'%' ∷ h ∷ c ∷ [], plain)

unfoldable pub decode_bytes : Reading → Bytes → Reading
unfolding decode_byte
decode_bytes r [] = r
decode_bytes r (c ∷ buf) = decode_bytes (decode_byte r c) buf

pub nothing : (r : Reading) → decode_bytes r [] ≡ r
unfolding decode_bytes
nothing r = refl

pub decode_bytes-append :
    (r : Reading) (xs ys : Bytes) → decode_bytes r (xs ++ ys) ≡ decode_bytes (decode_bytes r xs) ys
unfolding decode_bytes
decode_bytes-append r [] ys = refl
decode_bytes-append r (c ∷ xs) ys = decode_bytes-append (decode_byte r c) xs ys

-- The bytes that the decoder hands on at once are those that stand for themselves.
one_plain :
    (out : Bytes) (c : ℕ)
    → (c == b'%') ≡ false
    → (c == b'+') ≡ false
    → decode_byte (out, plain) c ≡ (out ++ c ∷ [], plain)
unfolding decode_byte
one_plain out c e p = rw (e, p) refl

pub percent_sign :
    (out : Bytes) (c : ℕ) → (c == b'%') ≡ true → decode_byte (out, plain) c ≡ (out, percent)
unfolding decode_byte
percent_sign out c e = rw e refl

pub plus_sign :
    (out : Bytes) (c : ℕ)
    → (c == b'%') ≡ false
    → (c == b'+') ≡ true
    → decode_byte (out, plain) c ≡ (out ++ 32 ∷ [], plain)
unfolding decode_byte
plus_sign out c e p = rw (e, p) refl

pub first_digit :
    (out : Bytes) (c : ℕ) → is_xdigit c ≡ true → decode_byte (out, percent) c ≡ (out, digit c)
unfolding decode_byte
first_digit out c e = rw e refl

pub no_first_digit :
    (out : Bytes) (c : ℕ)
    → is_xdigit c ≡ false
    → decode_byte (out, percent) c ≡ (out ++ b'%' ∷ c ∷ [], plain)
unfolding decode_byte
no_first_digit out c e = rw e refl

pub second_digit :
    (out : Bytes) (h c : ℕ)
    → is_xdigit c ≡ true
    → decode_byte (out, digit h) c ≡ (out ++ hex_pair_to_byte h c ∷ [], plain)
unfolding decode_byte
second_digit out h c e = rw e refl

pub no_second_digit :
    (out : Bytes) (h c : ℕ)
    → is_xdigit c ≡ false
    → decode_byte (out, digit h) c ≡ (out ++ b'%' ∷ h ∷ c ∷ [], plain)
unfolding decode_byte
no_second_digit out h c e = rw e refl

pub plain_run :
    (out buf : Bytes)
    → decode_bytes (out, plain) (take (get_plain_bytes_size buf) buf)
      ≡ (out ++ take (get_plain_bytes_size buf) buf, plain)
unfolding decode_bytes decode_byte get_plain_bytes_size
plain_run out [] = ap (λ l. (l, plain)) (sym (append-nil out))
plain_run out (c ∷ buf) = elim (Bool-cases (c == b'%')) [
  | inl e ↦ rw e (ap (λ l. (l, plain)) (sym (append-nil out)))
  | inr e ↦ elim (Bool-cases (c == b'+')) [
    | inl p ↦ rw (e, p) (ap (λ l. (l, plain)) (sym (append-nil out)))
    | inr p ↦
        rw (e, p)
          (ap (λ r. decode_bytes r (take (get_plain_bytes_size buf) buf)) (one_plain out c e p)
            ∙ plain_run (out ++ c ∷ []) buf
            ∙ ap (λ l. (l, plain))
                (append_assoc out (c ∷ []) (take (get_plain_bytes_size buf) buf)))
  ]
]

pub plain_within : (buf : Bytes) → get_plain_bytes_size buf ≤ length buf
unfolding get_plain_bytes_size
plain_within [] = omega arith
plain_within (c ∷ buf) = ground (arith, plain_within buf)

pub some_plain :
    (c : ℕ) (buf : Bytes)
    → (c == b'%') ≡ false
    → (c == b'+') ≡ false
    → 0 < get_plain_bytes_size (c ∷ buf)
unfolding get_plain_bytes_size
some_plain c buf e p = rw (e, p) (omega arith)

pub plain_calls :
    {S : Type 0} (ops : StreamOps S) (c : ℕ) (buf : Bytes) (d : UrlDecoder S)
    → 0 < get_plain_bytes_size (c ∷ buf)
    → write_plain ops c buf d
      ≡ hand_on ops
          (take (get_plain_bytes_size (c ∷ buf)) (c ∷ buf))
          (get_plain_bytes_size (c ∷ buf))
          d
unfolding write_plain
plain_calls ops c buf d h = rw (lt→ltb 0 (get_plain_bytes_size (c ∷ buf)) h, write_plain) refl

pub second_calls :
    {S : Type 0} (ops : StreamOps S) (c : ℕ) (d : UrlDecoder S)
    → is_xdigit c ≡ true
    → write_second_digit ops c d
      ≡ hand_on ops (hex_pair_to_byte d.bytes1 c ∷ []) 1 (record d { bytes2 = c; filled = 0 })
unfolding write_second_digit
second_calls ops c d e =
    ap
      (λ t.
        if not t
        then flush_bytes ops 1 (record d { bytes2 = c; filled = 3 })
        else hand_on ops (hex_pair_to_byte d.bytes1 c ∷ []) 1 (record d { bytes2 = c; filled = 0 }))
      e

abbrev pub phase : ℕ → ℕ → Phase
phase zero h = plain
phase (suc zero) h = percent
phase (suc (suc n)) h = digit h

pub waiting : Phase → ℕ
waiting plain = 0
waiting percent = 1
waiting (digit h) = 2

pub phase-plain : (n h : ℕ) → phase n h ≡ plain → n ≡ 0
unfolding waiting
phase-plain zero h e = refl
phase-plain (suc zero) h e = absurd (omega (arith, ap waiting e))
phase-plain (suc (suc n)) h e = absurd (omega (arith, ap waiting e))
