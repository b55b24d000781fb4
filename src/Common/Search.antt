-- ===== src/Common/Search.antt =====
-- Reference searches in a list of bytes, and the pairs in which a position is reported.
use Prim.Native.Nat.{ℕ, suc, ◌+◌}
use mathlib.Core.Bool.{Bool, true, false}
use mathlib.Core.List.{[], ◌∷◌}
use mathlib.Core.Option.{Option, none, some}
use lib_mantids.Common.Tests.{if◌then◌else◌}
use lib_mantids.Common.Words.{Bytes, Outcome}

-- The index of the first element that passes a test.
unfoldable pub first_index : (ℕ → Bool) → Bytes → Option ℕ
first_index test [] = none
first_index test (x ∷ xs) =
    let rest = first_index test xs in
    if test x then some 0 else elim rest [ none ↦ none | some i ↦ some (suc i) ]

-- The number of elements in front of the first place from which on a test holds.
unfoldable pub first_match : (Bytes → Bool) → Bytes → Option ℕ
first_match test [] = none
first_match test (x ∷ xs) =
    let rest = first_match test xs in
    if test (x ∷ xs) then some 0 else elim rest [ none ↦ none | some i ↦ some (suc i) ]

abbrev pub report : ℕ → Option ℕ → Outcome
report position none = (false, 0)
report position (some i) = (true, position + i)
