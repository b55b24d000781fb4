-- ===== src/Threads/SafeMap.antt =====
-- Threads/mdz_thr_safecontainers/map.h: a map of elements that threads open, release and destroy. Each
-- operation holds mutex_xMap; destroyElement gives it up while it waits for the readers, so it is two
-- operations here, and what other threads do may come between them. A std::map is a function from
-- keys to entries, keys are numbers and an element is the number of its address, none being null.
pub mod Readers
pub mod Calls
pub mod Safety
use lib_mantids.Common.{
  ℕ, ◌+◌, ◌-◌, ◌%◌, ◌^◌, Bool, true, false, Option, none, some, ◌==◌, if◌then◌else◌,
}

-- sMapElement, without its condition variable
pub record Entry : Type 0 where
  pub rd_element : Option ℕ
  pub readers : ℕ

abbrev pub Entries : Type 0
Entries = ℕ → Option Entry

abbrev pub put : Entries → ℕ → Option Entry → Entries
put m k e j = if j == k then e else m j

unfoldable pub check_element : Entries → ℕ → Bool
check_element m k = elim (m k) [ none ↦ false | some e ↦ true ]

unfoldable pub add_element : Entries → ℕ → ℕ → Entries × Bool
add_element m k element = elim (m k) [
  | none ↦ (put m k (some (record { rd_element = some element; readers = 0 })), true)
  | some e ↦ (m, false)
]

-- The opened element, and the map with one reader more.
abbrev pub open_entry : Entries → ℕ → Entry → Option ℕ → Entries × Option ℕ
open_entry m k e none = (m, none)
open_entry m k e (some element) =
    (put m k (some (record e { readers = (e.readers + 1) % 2 ^ 32 })), some element)

unfoldable pub open_element : Entries → ℕ → Entries × Option ℕ
open_element m k = elim (m k) [ none ↦ (m, none) | some e ↦ open_entry m k e e.rd_element ]

-- none stands for the runtime_error of a release without a reader.
unfoldable pub release_element : Entries → ℕ → Option (Entries × Bool)
release_element m k = elim (m k) [
  | none ↦ some (m, false)
  | some e ↦
      if e.readers == 0
      then none
      else some (put m k (some (record e { readers = e.readers - 1 })), true)
]

abbrev pub take_entry : Entries → ℕ → Entry → Option ℕ → Entries × Option ℕ
take_entry m k e none = (m, none)
take_entry m k e (some element) = (put m k (some (record e { rd_element = none })), some element)

-- destroyElement up to its loop: the element to delete, which nobody opens from now on.
unfoldable pub destroy_start : Entries → ℕ → Entries × Option ℕ
destroy_start m k = elim (m k) [ none ↦ (m, none) | some e ↦ take_entry m k e e.rd_element ]

-- The test of the loop, and what follows it; none is a round that waits. (operator[] makes an entry
-- with no readers where there is none.)
unfoldable pub destroy_finish : Entries → ℕ → Option Entries
destroy_finish m k = elim (m k) [
  | none ↦ some m
  | some e ↦ if e.readers == 0 then some (put m k none) else none
]
