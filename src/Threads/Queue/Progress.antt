-- ===== src/Threads/Queue/Progress.antt =====
-- A call that waits is not left asleep while there is more in the queue, or more room, than the woken
-- calls that have run out of time account for.
use lib_mantids.Common.{
  ℕ, ◌-◌, ◌<◌, ◌≡◌, refl, ap, ◌⊎◌, inl, inr, false, List, [], ◌∷◌, ◌++◌, arith, leb, length,
}
use lib_mantids.Threads.Queue.{push_once, push_woken, pop_woken}
use lib_mantids.Threads.Queue.Waiting.{
  System, settle_push, settle_pop, retries_push, notifies_pusher, retries_pop, notifies_popper,
  start, Steps, Awakes, stay, go,
}
use lib_mantids.Threads.Queue.Order.{Steps-IsValid, pop_once-some}

some_or_none {ℓ} :
    {A : Type ℓ} (l : List A) → (length l ≡ 0) ⊎ ((x : A) × (xs : List A) × (l ≡ x ∷ xs))
some_or_none [] = inl refl
some_or_none (x ∷ xs) = inr (x, xs, refl)

popped_next :
    (s : System) (x : ℕ) (xs : List ℕ) (tmout : ℕ)
    → s.queue.items ≡ x ∷ xs
    → (settle_pop s tmout (pop_woken false tmout s.queue)).popped ≡ s.popped ++ x ∷ []
unfolding pop_woken settle_pop
popped_next s x xs tmout e =
    ap (λ r. (settle_pop s tmout r).popped) (pop_once-some s.queue x xs tmout e)

-- In every state that threads reach, with a call of pop that waits and with more items in the queue
-- than woken calls of pop have run out of time, the calls that are awake and the wake-ups that are
-- due can pop the next item: nobody else has to call, and no time has to run out.
pub pop-Progress :
    {n : ℕ} {s : System} (x : ℕ) (xs : List ℕ)
    → Steps (start n) s
    → s.queue.items ≡ x ∷ xs
    → 0 < length s.poppers
    → s.late_poppers < length s.queue.items
    → (t : System) × Awakes s t × (t.popped ≡ s.popped ++ x ∷ [])
pop-Progress {n} {s} x xs r e some_wait few_late =
    let due = (Steps-IsValid r).poppers_awake some_wait in
    elim (some_or_none s.woken_poppers) [
      | inr (w, ws, f) ↦ (
        settle_pop (record s { woken_poppers = [] ++ ws }) w (pop_woken false w s.queue),
        go stay (retries_pop [] ws w f),
        popped_next (record s { woken_poppers = ws }) x xs w e,
      )
      | inl nobody ↦ elim (some_or_none s.poppers) [
        | inl none_waits ↦ absurd (omega arith)
        | inr (w, ws, f) ↦
            let t : System = record s {
              not_empty = s.not_empty - 1;
              poppers = [] ++ ws;
              woken_poppers = w ∷ s.woken_poppers;
            } in
            (
              settle_pop (record t { woken_poppers = [] ++ s.woken_poppers }) w
                  (pop_woken false w t.queue),
              go (go stay (notifies_popper [] ws w (omega (arith, due, ap length e)) f))
                  (retries_pop [] s.woken_poppers w refl),
              popped_next (record t { woken_poppers = s.woken_poppers }) x xs w e,
            )
      ]
    ]

room_test : (n m : ℕ) → n < m → leb m n ≡ false
room_test n m h = ground arith

pushed_next :
    (s : System) (item tmout : ℕ)
    → length s.queue.items < s.queue.max_items
    → (settle_push s item tmout (push_woken false item tmout s.queue)).pushed
      ≡ s.pushed ++ item ∷ []
unfolding push_woken push_once settle_push
pushed_next s item tmout room = rw (room_test (length s.queue.items) s.queue.max_items room) refl

-- In every state that threads reach, with a call of push that waits and with more room in the queue
-- than woken calls of push have run out of time, the calls that are awake and the wake-ups that are
-- due can push one item more.
pub push-Progress :
    {n : ℕ} {s : System}
    → Steps (start n) s
    → 0 < length s.pushers
    → s.late_pushers < n - length s.queue.items
    → (t : System) × (item : ℕ) × Awakes s t × (t.pushed ≡ s.pushed ++ item ∷ [])
push-Progress {n} {s} r some_wait few_late =
    let valid = Steps-IsValid r in
    let due = valid.pushers_awake some_wait in
    let room : length s.queue.items < s.queue.max_items = omega (arith, valid.limit) in
    elim (some_or_none s.woken_pushers) [
      | inr ((item, w), ws, f) ↦ (
        settle_push (record s { woken_pushers = [] ++ ws }) item w
            (push_woken false item w s.queue),
        item,
        go stay (retries_push [] ws item w f),
        pushed_next (record s { woken_pushers = ws }) item w room,
      )
      | inl nobody ↦ elim (some_or_none s.pushers) [
        | inl none_waits ↦ absurd (omega arith)
        | inr ((item, w), ws, f) ↦
            let t : System = record s {
              not_full = s.not_full - 1;
              pushers = [] ++ ws;
              woken_pushers = (item, w) ∷ s.woken_pushers;
            } in
            (
              settle_push (record t { woken_pushers = [] ++ s.woken_pushers }) item w
                  (push_woken false item w t.queue),
              item,
              go (go stay (notifies_pusher [] ws (item, w) (omega (arith, due)) f))
                  (retries_push [] s.woken_pushers item w refl),
              pushed_next (record t { woken_pushers = s.woken_pushers }) item w room,
            )
      ]
    ]
