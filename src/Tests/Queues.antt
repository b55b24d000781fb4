-- ===== src/Tests/Queues.antt =====
-- Threads/mdz_thr_safecontainers/queue.h: threads that use a queue.
use lib_mantids.Common.{ℕ, ◌≡◌, refl, [], ◌∷◌, ◌++◌, ◌-◌, ◌+◌, true, arith}
use lib_mantids.Threads.Queue.{push_once, pop_once, pop_woken}
use lib_mantids.Threads.Queue.Waiting.{
  System, awake, notifies_popper, comes_late_to_pop, settle_push, settle_pop, calls_push, calls_pop,
  start, Steps, here, next, Awakes,
}
use lib_mantids.Threads.Queue.Order.{IsValid, Steps-IsValid}
use lib_mantids.Threads.Queue.Progress.{pop-Progress, push-Progress}

-- A call of pop waits, and then 7 is pushed.
abbrev asleep : System
asleep = settle_pop (start 1) 100 (pop_once 100 (start 1).queue)

abbrev delivered : System
delivered = settle_push asleep 7 100 (push_once 7 100 asleep.queue)

delivered-Steps : Steps (start 1) delivered
delivered-Steps = next (next here (calls_pop 100)) (calls_push 7 100)

Steps-IsValid_example : IsValid 1 delivered
Steps-IsValid_example = Steps-IsValid delivered-Steps

pop-Progress_example : (t : System) × Awakes delivered t × (t.popped ≡ 7 ∷ [])
unfolding settle_push settle_pop pop_once push_once
pop-Progress_example = pop-Progress 7 [] delivered-Steps refl (omega arith) (omega arith)

-- A call of push waits for the one place, which a call of pop makes free.
abbrev full : System
full = settle_push (start 1) 7 100 (push_once 7 100 (start 1).queue)

abbrev crowded : System
crowded = settle_push full 8 100 (push_once 8 100 full.queue)

abbrev freed : System
freed = settle_pop crowded 0 (pop_once 0 crowded.queue)

freed-Steps : Steps (start 1) freed
freed-Steps = next (next (next here (calls_push 7 100)) (calls_push 8 100)) (calls_pop 0)

push-Progress_example :
    (t : System) × (item : ℕ) × Awakes freed t × (t.pushed ≡ freed.pushed ++ item ∷ [])
unfolding settle_push settle_pop pop_once push_once
push-Progress_example = push-Progress freed-Steps (omega arith) (omega arith)

-- Two calls of pop wait, one of them is woken for the item that is pushed, and runs out of time: the
-- item stays, the other call waits, and nothing is there to wake it.
abbrev both_asleep : System
both_asleep = settle_pop asleep 200 (pop_once 200 asleep.queue)

abbrev supplied : System
supplied = settle_push both_asleep 7 0 (push_once 7 0 both_asleep.queue)

abbrev notified : System
notified = record supplied {
  not_empty = supplied.not_empty - 1;
  poppers = 200 ∷ [];
  woken_poppers = 100 ∷ supplied.woken_poppers;
}

abbrev stranded : System
stranded =
    settle_pop (record notified { woken_poppers = []; late_poppers = notified.late_poppers + 1 })
      100 (pop_woken true 100 notified.queue)

stranded-Steps : Steps (start 1) stranded
unfolding settle_push settle_pop pop_once push_once
stranded-Steps =
    next
      (next (next (next (next here (calls_pop 100)) (calls_pop 200)) (calls_push 7 0))
        (awake (notifies_popper (200 ∷ []) [] 100 (omega arith) refl)))
      (comes_late_to_pop [] [] 100 refl)

stranded_lem :
    (stranded.queue.items ≡ 7 ∷ [])
    × (stranded.poppers ≡ 200 ∷ [])
    × (stranded.woken_poppers ≡ [])
    × (stranded.not_empty ≡ 0)
unfolding settle_push settle_pop pop_once push_once pop_woken
stranded_lem = (refl, refl, refl, refl)
