-- ===== src/Network/Framing/Numbers.antt =====
-- Numbers in network order are read back.
use lib_mantids.Common.{
  ℕ, ◌+◌, ◌/◌, ◌%◌, ◌^◌, ◌≤◌, ◌<◌, ◌≡◌, refl, true, false, [], ◌∷◌, ◌++◌, arith, Bytes, leb, ◌==◌,
  if◌then◌else◌, length, take, take_all,
}
use lib_mantids.Network.Framing.{
  Width, w8, w16, w32, w64, size_of, modulus, big_endian, number_of, to_network, to_host, allocated,
}

pub length-to_network : (w : Width) (n : ℕ) → length (to_network w n) ≡ size_of w
unfolding to_network
length-to_network w8 n = refl
length-to_network w16 n = refl
length-to_network w32 n = refl
length-to_network w64 n = refl

number_of-big_endian : (n : ℕ) → n < 4294967296 → number_of 0 (big_endian 4 n) ≡ n
unfolding number_of big_endian
number_of-big_endian n h = omega arith

pub to_host-to_network : (w : Width) (n : ℕ) → n < modulus w → to_host w (to_network w n) ≡ n
unfolding to_network to_host
to_host-to_network w8 n h = omega arith
to_host-to_network w16 n h = omega arith
to_host-to_network w32 n h = number_of-big_endian n h
to_host-to_network w64 n h = omega (
  arith,
  number_of-big_endian (n / 2 ^ 32) (omega arith),
  number_of-big_endian (n % 2 ^ 32) (omega arith),
)

pub allocated_enough : (w : Width) (n : ℕ) → n + 1 < modulus w → n ≤ allocated w n
allocated_enough w8 n h = omega arith
allocated_enough w16 n h = omega arith
allocated_enough w32 n h = omega arith
allocated_enough w64 n h = omega arith

pub below_modulus : (w : Width) (n : ℕ) → n < modulus w → n % modulus w ≡ n
below_modulus w8 n h = omega arith
below_modulus w16 n h = omega arith
below_modulus w32 n h = omega arith
below_modulus w64 n h = omega arith

-- A text behind its length.
unfoldable pub frame : Width → Bytes → Bytes
frame w str = to_network w (length str) ++ str

pub same_test : (n : ℕ) → (n == n) ≡ true
same_test n = ground arith

pub enough : (n m : ℕ) → n ≤ m → leb n m ≡ true
enough n m h = ground arith

pub too_few : (n m : ℕ) → m < n → leb n m ≡ false
too_few n m h = ground arith

pub whole_text : (str : Bytes) → (if length str == 0 then [] else take (length str) str) ≡ str
whole_text [] = refl
whole_text (x ∷ xs) = ground (arith, take_all (length (x ∷ xs)) (x ∷ xs))

pub positive_test : (n : ℕ) → 0 < n → (n == 0) ≡ false
positive_test n h = ground arith

pub no_bytes : (xs : Bytes) → (length xs == 0) ≡ true → xs ≡ []
no_bytes [] e = refl
no_bytes (x ∷ xs) e = absurd (ground arith)
