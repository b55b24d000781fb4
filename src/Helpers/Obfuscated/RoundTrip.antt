-- ===== src/Helpers/Obfuscated/RoundTrip.antt =====
-- fromBase64Obf reads back what toBase64Obf writes.
use Prim.Native.Nat.{bit_xor}
use mathlib.Core.Path.{ap₂}
use lib_mantids.Common.{
  ℕ, suc, ◌+◌, ◌/◌, ◌<◌, ◌≡◌, refl, sym, ap, ◌∙◌, inl, inr, true, not, ◌&&◌, [], ◌∷◌, ◌++◌, arith,
  AllBelow, agree_below, agree_below_sound, holds_below, Bytes, ◌==◌, Bool-cases, length,
}
use lib_mantids.Helpers.Base64.{
  to_base64, from_base64, from_base64_loop, decode4, decode_rest, is_b64,
}
use lib_mantids.Helpers.Base64.RoundTrip.{from_base64-to_base64}
use lib_mantids.Helpers.Obfuscated.{xor_from, to_base64_obf, from_base64_obf, from_base64_obf_loop}

length-xor_from : (key : ℕ → ℕ) (i : ℕ) (buf : Bytes) → length (xor_from key i buf) ≡ length buf
unfolding xor_from
length-xor_from key i [] = refl
length-xor_from key i (b ∷ buf) = ap suc (length-xor_from key (i + 1) buf)

xor_from-append :
    (key : ℕ → ℕ) (i : ℕ) (xs ys : Bytes)
    → xor_from key i (xs ++ ys) ≡ xor_from key i xs ++ xor_from key (i + length xs) ys
unfolding xor_from
xor_from-append key i [] ys = ap (λ n. xor_from key n ys) {x = i} {y = i + 0} (omega arith)
xor_from-append key i (b ∷ xs) ys = ap (◌∷◌ (bit_xor b (key i))) (
    xor_from-append key (i + 1) xs ys
    ∙ ap (λ n. xor_from key (i + 1) xs ++ xor_from key n ys) {x = i + 1 + length xs}
        {y = i + suc (length xs)} (omega arith))

-- The output of one more group.
more :
    (key : ℕ → ℕ) (out add : Bytes)
    → xor_from key 0 out ++ xor_from key (length (xor_from key 0 out)) add
      ≡ xor_from key 0 (out ++ add)
more key out add =
    ap (λ n. xor_from key 0 out ++ xor_from key n add) {x = length (xor_from key 0 out)}
      {y = 0 + length out} (omega (arith, length-xor_from key 0 out))
    ∙ sym (xor_from-append key 0 out add)

obf_loop :
    (key : ℕ → ℕ) (cont4 buf out : Bytes)
    → from_base64_obf_loop key cont4 buf (xor_from key 0 out)
      ≡ xor_from key 0 (from_base64_loop cont4 buf out)
unfolding from_base64_obf_loop from_base64_loop
obf_loop key cont4 [] out = more key out (decode_rest cont4)
obf_loop key cont4 (c ∷ buf) out = elim (Bool-cases (not (c == b'=') && is_b64 c)) [
  | inr stop ↦ rw stop (more key out (decode_rest cont4))
  | inl go ↦ elim (Bool-cases (length (cont4 ++ c ∷ []) == 4)) [
    | inr part ↦ rw (go, part) (obf_loop key (cont4 ++ c ∷ []) buf out)
    | inl full ↦
        rw (go, full)
          (ap (from_base64_obf_loop key [] buf) (more key out (decode4 (cont4 ++ c ∷ [])))
            ∙ obf_loop key [] buf (out ++ decode4 (cont4 ++ c ∷ [])))
  ]
]

back_row : (k : ℕ) → k < 256 → agree_below 256 (λ x. bit_xor (bit_xor x k) k) (λ x. x) ≡ true
unfolding agree_below
back_row k h =
    holds_below 256 (λ k. agree_below 256 (λ x. bit_xor (bit_xor x k) k) (λ x. x)) k refl h

small_row : (k : ℕ) → k < 256 → agree_below 256 (λ x. bit_xor x k / 256) (λ x. 0) ≡ true
unfolding agree_below
small_row k h = holds_below 256 (λ k. agree_below 256 (λ x. bit_xor x k / 256) (λ x. 0)) k refl h

bit_xor_back : (x k : ℕ) → x < 256 → k < 256 → bit_xor (bit_xor x k) k ≡ x
bit_xor_back x k hx hk =
    agree_below_sound 256 (λ x. bit_xor (bit_xor x k) k) (λ x. x) x (back_row k hk) hx

bit_xor_small : (x k : ℕ) → x < 256 → k < 256 → bit_xor x k < 256
bit_xor_small x k hx hk =
    omega (arith, agree_below_sound 256 (λ x. bit_xor x k / 256) (λ x. 0) x (small_row k hk) hx)

xor_from_small :
    (key : ℕ → ℕ) (i : ℕ) (buf : Bytes)
    → ((n : ℕ) → key n < 256)
    → AllBelow 256 buf
    → AllBelow 256 (xor_from key i buf)
unfolding xor_from
xor_from_small key i [] keys h = h
xor_from_small key i (b ∷ buf) keys h =
    (bit_xor_small b (key i) h.0 (keys i), xor_from_small key (i + 1) buf keys h.1)

xor_from-xor_from :
    (key : ℕ → ℕ) (i : ℕ) (buf : Bytes)
    → ((n : ℕ) → key n < 256)
    → AllBelow 256 buf
    → xor_from key i (xor_from key i buf) ≡ buf
unfolding xor_from
xor_from-xor_from key i [] keys h = refl
xor_from-xor_from key i (b ∷ buf) keys h =
    ap₂ ◌∷◌ (bit_xor_back b (key i) h.0 (keys i)) (xor_from-xor_from key (i + 1) buf keys h.1)

-- fromBase64Obf gives back every byte string that toBase64Obf has encoded, when both get the same
-- numbers from their generators, which are bytes.
pub from_base64_obf-to_base64_obf :
    (key : ℕ → ℕ) (buf : Bytes)
    → ((n : ℕ) → key n < 256)
    → AllBelow 256 buf
    → from_base64_obf key (to_base64_obf key buf) ≡ buf
unfolding from_base64_obf to_base64_obf xor_from from_base64
from_base64_obf-to_base64_obf key buf keys h =
    let hidden = xor_from key 0 buf in
    obf_loop key [] (to_base64 hidden) []
    ∙ ap (xor_from key 0) (from_base64-to_base64 hidden (xor_from_small key 0 buf keys h))
    ∙ xor_from-xor_from key 0 buf keys h
