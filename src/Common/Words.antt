-- ===== src/Common/Words.antt =====
-- uint64_t arithmetic with its wrap, and the overflow test of Helpers/mdz_hlp_functions/mem.h.
use Prim.Native.Nat.{ℕ, ◌+◌, ◌-◌, ◌%◌, ◌^◌, ◌≤◌, ◌<◌}
use mathlib.Core.Path.{◌≡◌}
use mathlib.Core.Bool.{Bool, false, ◌||◌}
use mathlib.Core.List.{List}
use native.Mathlib.Omega.{arith}
use lib_mantids.Common.Tests.{ltb}

abbrev pub Bytes : Type 0
Bytes = List ℕ

-- std::pair<bool,uint64_t>: success, and a count of bytes or a position.
abbrev pub Outcome : Type 0
Outcome = Bool × ℕ

abbrev pub u64_mod : ℕ
u64_mod = 2 ^ 64

-- std::numeric_limits<uint64_t>::max(), which is MAX_SIZE_T too.
abbrev pub u64_max : ℕ
u64_max = 18446744073709551615

abbrev pub add64 : ℕ → ℕ → ℕ
add64 a b = (a + b) % u64_mod

abbrev pub sub64 : ℕ → ℕ → ℕ
sub64 a b = (a + u64_mod - b) % u64_mod

-- CHECK_UINT_OVERFLOW_SUM
abbrev pub check_uint_overflow_sum : ℕ → ℕ → Bool
check_uint_overflow_sum a b = ltb (add64 a b) a || ltb (add64 a b) b

pub sub64-eq : (a b : ℕ) → b ≤ a → a < u64_mod → sub64 a b ≡ a - b
sub64-eq a b h k = omega arith

pub add64-eq : (a b : ℕ) → a + b < u64_mod → add64 a b ≡ a + b
add64-eq a b h = omega arith

pub overflow-none : (a b : ℕ) → a + b < u64_mod → check_uint_overflow_sum a b ≡ false
overflow-none a b h = ground arith
