-- ===== src/Helpers/Base64/Masks.antt =====
-- The masks and the digits of toBase64 and fromBase64, for all values that they are used on.
use Prim.Native.Nat.{bit_and}
use lib_mantids.Common.{
  ℕ, ◌/◌, ◌%◌, ◌<◌, ◌≡◌, refl, true, not, ◌&&◌, agree_below, agree_below_sound, holds_below, ◌==◌,
}
use lib_mantids.Helpers.Base64.{b64_char, find_b64, find_from, is_b64}

-- The masks of both directions, as divisions and remainders.
pub mask_fc : (x : ℕ) → x < 256 → bit_and x 0xfc / 4 ≡ x / 4
unfolding agree_below
mask_fc x h = agree_below_sound 256 (λ n. bit_and n 0xfc / 4) (λ n. n / 4) x refl h

pub mask_03 : (x : ℕ) → x < 256 → bit_and x 0x03 ≡ x % 4
unfolding agree_below
mask_03 x h = agree_below_sound 256 (λ n. bit_and n 0x03) (λ n. n % 4) x refl h

pub mask_f0 : (x : ℕ) → x < 256 → bit_and x 0xf0 / 16 ≡ x / 16
unfolding agree_below
mask_f0 x h = agree_below_sound 256 (λ n. bit_and n 0xf0 / 16) (λ n. n / 16) x refl h

pub mask_0f : (x : ℕ) → x < 256 → bit_and x 0x0f ≡ x % 16
unfolding agree_below
mask_0f x h = agree_below_sound 256 (λ n. bit_and n 0x0f) (λ n. n % 16) x refl h

pub mask_c0 : (x : ℕ) → x < 256 → bit_and x 0xc0 / 64 ≡ x / 64
unfolding agree_below
mask_c0 x h = agree_below_sound 256 (λ n. bit_and n 0xc0 / 64) (λ n. n / 64) x refl h

pub mask_3f : (x : ℕ) → x < 256 → bit_and x 0x3f ≡ x % 64
unfolding agree_below
mask_3f x h = agree_below_sound 256 (λ n. bit_and n 0x3f) (λ n. n % 64) x refl h

pub mask_30 : (x : ℕ) → x < 64 → bit_and x 0x30 / 16 ≡ x / 16
unfolding agree_below
mask_30 x h = agree_below_sound 64 (λ n. bit_and n 0x30 / 16) (λ n. n / 16) x refl h

pub mask_3c : (x : ℕ) → x < 64 → bit_and x 0x3c / 4 ≡ x / 4
unfolding agree_below
mask_3c x h = agree_below_sound 64 (λ n. bit_and n 0x3c / 4) (λ n. n / 4) x refl h

-- The 64 digits are found at their places, and the decoder's loop goes on at each.
pub find-char : (i : ℕ) → i < 64 → find_b64 (b64_char i) ≡ i
unfolding agree_below find_from
find-char i h = agree_below_sound 64 (λ n. find_b64 (b64_char n)) (λ n. n) i refl h

pub digit-char : (i : ℕ) → i < 64 → (not (b64_char i == b'=') && is_b64 (b64_char i)) ≡ true
unfolding agree_below is_b64
digit-char i h = holds_below 64 (λ n. (not (b64_char n == b'=') && is_b64 (b64_char n))) i refl h
