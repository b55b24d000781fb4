-- ===== src/Common/Texts.antt =====
-- Bytes: texts as lists of character codes, and facts about all values of a byte by evaluation.
use Prim.Native.Nat.{ℕ, zero, suc, ◌<◌}
use Prim.Native.Char.{code}
use Prim.Native.String.{String}
use mathlib.Core.Path.{◌≡◌, refl}
use mathlib.Core.Bool.{Bool, true, false, ◌&&◌}
use mathlib.Core.List.{List, [], ◌∷◌}
use native.Mathlib.Omega.{arith}
use lib_mantids.Common.Tests.{◌==◌, leb}

-- The characters of an ASCII literal.
abbrev pub text : String → List ℕ
text String.[] = []
text (String.◌∷◌ c s) = code c ∷ text s

-- Every element is the code of a byte.
abbrev pub AllBelow : ℕ → List ℕ → Type 0
AllBelow n [] = Unit {0}
AllBelow n (x ∷ xs) = (x < n) × AllBelow n xs

-- `agree_below n f g`: the two functions agree on 0, …, n - 1.
unfoldable pub agree_below : ℕ → (ℕ → ℕ) → (ℕ → ℕ) → Bool
agree_below zero f g = true
agree_below (suc n) f g = f n == g n && agree_below n f g

pub agree_below_sound : (n : ℕ) (f g : ℕ → ℕ) (x : ℕ) → agree_below n f g ≡ true → x < n → f x ≡ g x
unfolding agree_below
agree_below_sound zero f g x h lt = absurd (omega arith)
agree_below_sound (suc n) f g x h lt = ground (arith, agree_below_sound n f g x)

abbrev pub bit_flag : Bool → ℕ
bit_flag true = 1
bit_flag false = 0

bit_flag-true : (b : Bool) → bit_flag b ≡ 1 → b ≡ true
bit_flag-true true h = refl
bit_flag-true false h = absurd (omega arith)

-- A test that holds on 0, …, n - 1.
pub holds_below :
    (n : ℕ) (p : ℕ → Bool) (x : ℕ)
    → agree_below n (λ k. bit_flag (p k)) (λ k. 1) ≡ true
    → x < n
    → p x ≡ true
holds_below n p x h lt =
    bit_flag-true (p x) (agree_below_sound n (λ k. bit_flag (p k)) (λ k. 1) x h lt)

-- <ctype.h> in the C locale, on codes of characters.
abbrev pub is_between : ℕ → ℕ → ℕ → Bool
is_between lo hi c = leb lo c && leb c hi
