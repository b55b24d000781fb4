-- ===== src/Threads/Queue/Waiting.antt =====
-- The threads that use a queue, with the two condition variables. The limit stays what it is.
use lib_mantids.Common.{
  ℕ, ◌+◌, ◌-◌, ◌<◌, ◌≡◌, Bool, true, false, Option, none, some, List, [], ◌∷◌, ◌++◌, length,
}
use lib_mantids.Threads.Queue.{
  Queue, Answer, returns, waits, push_once, push_woken, pop_once, pop_woken,
}

-- The calls that wait at a condition variable, those that were woken and are to take the lock, and
-- the calls of notify_one that are still to be made, behind the unlock; then what was pushed and
-- popped with success, and how many woken calls have run out of time. A call of push is its item and
-- its timeout, a call of pop its timeout.
pub record System : Type 0 where
  pub queue : Queue
  pub pushers : List (ℕ × ℕ)
  pub woken_pushers : List (ℕ × ℕ)
  pub poppers : List ℕ
  pub woken_poppers : List ℕ
  pub not_empty : ℕ
  pub not_full : ℕ
  pub pushed : List ℕ
  pub popped : List ℕ
  pub late_pushers : ℕ
  pub late_poppers : ℕ

-- What a call of push leaves, when it gives the lock away.
unfoldable pub settle_push : System → ℕ → ℕ → Queue × Answer Bool → System
settle_push s item tmout (q, returns true) = record s {
  queue = q;
  not_empty = s.not_empty + 1;
  pushed = s.pushed ++ item ∷ [];
}
settle_push s item tmout (q, returns false) = record s { queue = q }
settle_push s item tmout (q, waits) = record s { queue = q; pushers = (item, tmout) ∷ s.pushers }

unfoldable pub settle_pop : System → ℕ → Queue × Answer (Option ℕ) → System
settle_pop s tmout (q, returns (some x)) = record s {
  queue = q;
  not_full = s.not_full + 1;
  popped = s.popped ++ x ∷ [];
}
settle_pop s tmout (q, returns none) = record s { queue = q }
settle_pop s tmout (q, waits) = record s { queue = q; poppers = tmout ∷ s.poppers }

-- What comes without a further call: a woken call takes the lock, or a notify_one that is due is made;
-- which of the waiting calls it wakes is open.
pub data Awake (s : System) : System → Type 0 where
  retries_push :
      (xs ys : List (ℕ × ℕ)) (item tmout : ℕ)
      → s.woken_pushers ≡ xs ++ (item, tmout) ∷ ys
      → Awake s (
          settle_push
            (record s { woken_pushers = xs ++ ys })
            item
            tmout
            (push_woken false item tmout s.queue))
  notifies_pusher :
      (xs ys : List (ℕ × ℕ)) (call : ℕ × ℕ)
      → 0 < s.not_full
      → s.pushers ≡ xs ++ call ∷ ys
      → Awake s (record s {
        not_full = s.not_full - 1;
        pushers = xs ++ ys;
        woken_pushers = call ∷ s.woken_pushers;
      })
  notifies_no_pusher :
      0 < s.not_full → length s.pushers ≡ 0 → Awake s (record s { not_full = s.not_full - 1 })
  retries_pop :
      (xs ys : List ℕ) (tmout : ℕ)
      → s.woken_poppers ≡ xs ++ tmout ∷ ys
      → Awake s
          (settle_pop (record s { woken_poppers = xs ++ ys }) tmout (pop_woken false tmout s.queue))
  notifies_popper :
      (xs ys : List ℕ) (call : ℕ)
      → 0 < s.not_empty
      → s.poppers ≡ xs ++ call ∷ ys
      → Awake s (record s {
        not_empty = s.not_empty - 1;
        poppers = xs ++ ys;
        woken_poppers = call ∷ s.woken_poppers;
      })
  notifies_no_popper :
      0 < s.not_empty → length s.poppers ≡ 0 → Awake s (record s { not_empty = s.not_empty - 1 })

-- One thread does one thing. A waiting call can also end by its time, or be woken without a reason. A
-- woken call, whose wait_for finds its time over, gives up without a look at the queue.
pub data Step (s : System) : System → Type 0 where
  awake : {t : System} → Awake s t → Step s t
  calls_push : (item tmout : ℕ) → Step s (settle_push s item tmout (push_once item tmout s.queue))
  gives_push_up :
      (xs ys : List (ℕ × ℕ)) (item tmout : ℕ)
      → s.pushers ≡ xs ++ (item, tmout) ∷ ys
      → Step s (
          settle_push
            (record s { pushers = xs ++ ys })
            item
            tmout
            (push_woken true item tmout s.queue))
  comes_late_to_push :
      (xs ys : List (ℕ × ℕ)) (item tmout : ℕ)
      → s.woken_pushers ≡ xs ++ (item, tmout) ∷ ys
      → Step s (
          settle_push
            (record s { woken_pushers = xs ++ ys; late_pushers = s.late_pushers + 1 })
            item
            tmout
            (push_woken true item tmout s.queue))
  wakes_pusher :
      (xs ys : List (ℕ × ℕ)) (call : ℕ × ℕ)
      → s.pushers ≡ xs ++ call ∷ ys
      → Step s (record s { pushers = xs ++ ys; woken_pushers = call ∷ s.woken_pushers })
  calls_pop : (tmout : ℕ) → Step s (settle_pop s tmout (pop_once tmout s.queue))
  gives_pop_up :
      (xs ys : List ℕ) (tmout : ℕ)
      → s.poppers ≡ xs ++ tmout ∷ ys
      → Step s (settle_pop (record s { poppers = xs ++ ys }) tmout (pop_woken true tmout s.queue))
  comes_late_to_pop :
      (xs ys : List ℕ) (tmout : ℕ)
      → s.woken_poppers ≡ xs ++ tmout ∷ ys
      → Step s (
          settle_pop
            (record s { woken_poppers = xs ++ ys; late_poppers = s.late_poppers + 1 })
            tmout
            (pop_woken true tmout s.queue))
  wakes_popper :
      (xs ys : List ℕ) (call : ℕ)
      → s.poppers ≡ xs ++ call ∷ ys
      → Step s (record s { poppers = xs ++ ys; woken_poppers = call ∷ s.woken_poppers })

-- A queue with a limit, before the first call.
abbrev pub start : ℕ → System
start n = record {
  queue = record { max_items = n; items = [] };
  pushers = [];
  woken_pushers = [];
  poppers = [];
  woken_poppers = [];
  not_empty = 0;
  not_full = 0;
  pushed = [];
  popped = [];
  late_pushers = 0;
  late_poppers = 0;
}

pub data Steps (s : System) : System → Type 0 where
  here : Steps s s
  next : {t u : System} → Steps s t → Step t u → Steps s u

pub data Awakes (s : System) : System → Type 0 where
  stay : Awakes s s
  go : {t u : System} → Awakes s t → Awake t u → Awakes s u
