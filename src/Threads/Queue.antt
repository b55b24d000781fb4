-- ===== src/Threads/Queue.antt =====
-- Threads/mdz_thr_safecontainers/queue.h: Safe::Queue. An item is the number of its pointer. What push
-- and pop do while they hold the lock, from the call or a wake-up on, is one function each.
pub mod Waiting
pub mod Order
pub mod Progress
use lib_mantids.Common.{
  ℕ, Bool, true, false, Option, none, some, List, [], ◌∷◌, ◌++◌, leb, ◌==◌, if◌then◌else◌, length,
}

pub record Queue : Type 0 where
  pub max_items : ℕ
  pub items : List ℕ

-- Queue::Queue
abbrev pub new : Queue
new = record { max_items = 0xffffffff; items = [] }

-- setMaxItems
unfoldable pub set_max_items : ℕ → Queue → Queue
set_max_items n q = record q { max_items = n }

-- A call returns, or gives the lock away and waits.
pub data Answer (A : Type 0) : Type 0 where
  returns : A → Answer A
  waits : Answer A

-- push, from the test of the loop on.
unfoldable pub push_once : ℕ → ℕ → Queue → Queue × Answer Bool
push_once item tmout_msecs q =
    if leb q.max_items (length q.items)
    then (q, if tmout_msecs == 0 then returns false else waits)
    else (record q { items = q.items ++ item ∷ [] }, returns true)

-- push, from the end of wait_for on.
unfoldable pub push_woken : Bool → ℕ → ℕ → Queue → Queue × Answer Bool
unfolding push_once
push_woken timeout item tmout_msecs q =
    if timeout then (q, returns false) else push_once item tmout_msecs q

-- pop; none is the null pointer.
unfoldable pub pop_once : ℕ → Queue → Queue × Answer (Option ℕ)
pop_once tmout_msecs q = elim q.items [
  | [] ↦ (q, if tmout_msecs == 0 then returns none else waits)
  | x ∷ xs ↦ (record q { items = xs }, returns (some x))
]

unfoldable pub pop_woken : Bool → ℕ → Queue → Queue × Answer (Option ℕ)
unfolding pop_once
pop_woken timeout tmout_msecs q = if timeout then (q, returns none) else pop_once tmout_msecs q
