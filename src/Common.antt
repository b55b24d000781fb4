-- ===== src/Common.antt =====
-- The names that the modules share: the libraries', passed on, the Boolean tests, lists measured by
-- native numbers, and the 64-bit words of sizes and offsets.
mod Tests
mod Lists
mod Search
mod Words
mod Texts
pub use Tests.*
pub use Lists.*
unfoldable pub use Texts.{agree_below}
pub use Texts.{text, AllBelow, agree_below_sound, bit_flag, holds_below, is_between}
unfoldable pub use Search.{first_index, first_match}
pub use Search.{report}
pub use Words.*
pub use Prim.Native.Nat.{ℕ, zero, suc, ◌+◌, ◌-◌, ◌*◌, ◌/◌, ◌%◌, ◌^◌, ◌≤◌, ◌<◌, min}
pub use mathlib.Core.Path.{◌≡◌, refl, sym, ap, ◌∙◌}
pub use mathlib.Core.Logic.{◌≢◌, ◌↔◌, ◌⊎◌, inl, inr}
pub use mathlib.Core.Bool.{Bool, true, false, not, ◌&&◌, ◌||◌}
pub use mathlib.Core.Option.{Option, none, some}
pub use mathlib.Core.List.{List, [], ◌∷◌, ◌++◌, map, append-nil, append_assoc}
pub use native.Mathlib.Omega.{arith}
