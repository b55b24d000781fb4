-- ===== src/Threads/Queue/Order.antt =====
-- What holds of a queue whatever the threads do: the order of its items, its limit, and how many
-- wake-ups can be lost.
use lib_mantids.Common.{
  ℕ, ◌+◌, ◌-◌, ◌≤◌, ◌<◌, ◌≡◌, refl, sym, ap, ◌∙◌, ◌⊎◌, inl, inr, Option, none, some, List, [], ◌∷◌,
  ◌++◌, append_assoc, arith, leb, ◌==◌, if◌then◌else◌, Bool-cases, leb→le, leb-false→lt, length,
  length-append,
}
use mathlib.Core.Path.{subst}
use lib_mantids.Threads.Queue.{
  Queue, returns, waits, push_once, push_woken, pop_once, pop_woken, Answer,
}
use lib_mantids.Threads.Queue.Waiting.{
  System, settle_push, settle_pop, Awake, Step, awake, calls_push, retries_push, gives_push_up,
  comes_late_to_push, comes_late_to_pop, wakes_pusher, notifies_pusher, notifies_no_pusher,
  calls_pop, retries_pop, gives_pop_up, wakes_popper, notifies_popper, notifies_no_popper, start,
  Steps, here, next,
}

-- `spare` more calls are awake than the lists tell.
pub record Holds (n push_spare pop_spare : ℕ) (s : System) : Type 0 where
  pub limit : s.queue.max_items ≡ n
  pub in_order : s.pushed ≡ s.popped ++ s.queue.items
  pub bounded : length s.queue.items ≤ n
  pub pushers_awake :
      0 < length s.pushers
      → n - length s.queue.items ≤ length s.woken_pushers + push_spare + s.not_full + s.late_pushers
  pub poppers_awake :
      0 < length s.poppers
      → length s.queue.items ≤ length s.woken_poppers + pop_spare + s.not_empty + s.late_poppers

abbrev pub IsValid : ℕ → System → Type 0
IsValid n s = Holds n 0 0 s

settle_push-IsValid :
    (n : ℕ) (s : System) (item tmout : ℕ)
    → Holds n 1 0 s
    → IsValid n (settle_push s item tmout (push_once item tmout s.queue))
unfolding settle_push push_once
settle_push-IsValid n s item tmout h =
    elim (Bool-cases (leb s.queue.max_items (length s.queue.items))) [
      | inr free ↦
          let room : length s.queue.items < n =
            omega (arith, h.limit, leb-false→lt s.queue.max_items (length s.queue.items) free) in
          let longer = length-append s.queue.items (item ∷ []) in
          rw (free) (record {
            limit = h.limit;
            in_order =
                ap (λ l. l ++ item ∷ []) h.in_order
                ∙ append_assoc s.popped s.queue.items (item ∷ []);
            bounded = omega arith;
            pushers_awake = λ some_wait. omega (arith, h.pushers_awake some_wait);
            poppers_awake = λ some_wait. omega (arith, h.poppers_awake some_wait);
          })
      | inl full ↦
          let none_free : n ≤ length s.queue.items =
            omega (arith, h.limit, leb→le s.queue.max_items (length s.queue.items) full) in
          elim (Bool-cases (tmout == 0)) [
            | inl now ↦
                rw (full, now)
                  (record {
                    limit = h.limit;
                    in_order = h.in_order;
                    bounded = h.bounded;
                    pushers_awake = λ some_wait. omega arith;
                    poppers_awake = h.poppers_awake;
                  })
            | inr later ↦
                rw (full, later)
                  (record {
                    limit = h.limit;
                    in_order = h.in_order;
                    bounded = h.bounded;
                    pushers_awake = λ some_wait. omega arith;
                    poppers_awake = h.poppers_awake;
                  })
          ]
    ]

-- pop on the items of a queue.
pop_items : (l : List ℕ) → (l ≡ []) ⊎ ((x : ℕ) × (xs : List ℕ) × (l ≡ x ∷ xs))
pop_items [] = inl refl
pop_items (x ∷ xs) = inr (x, xs, refl)

pub pop_once-some :
    (q : Queue) (x : ℕ) (xs : List ℕ) (tmout : ℕ)
    → q.items ≡ x ∷ xs
    → pop_once tmout q ≡ (record q { items = xs }, returns (some x))
unfolding pop_once
pop_once-some q x xs tmout e = rw (e, pop_once)

pop_once-empty :
    (q : Queue) (tmout : ℕ)
    → q.items ≡ []
    → pop_once tmout q ≡ (q, if tmout == 0 then returns none else waits)
unfolding pop_once
pop_once-empty q tmout e =
    ap {B = Queue × Answer (Option ℕ)}
      (λ l. elim l [
        | [] ↦ (q, if tmout == 0 then returns none else waits)
        | x ∷ xs ↦ (record q { items = xs }, returns (some x))
      ])
      e

settle_pop-IsValid :
    (n : ℕ) (s : System) (tmout : ℕ)
    → Holds n 0 1 s
    → IsValid n (settle_pop s tmout (pop_once tmout s.queue))
unfolding settle_pop pop_once
settle_pop-IsValid n s tmout h = elim (pop_items s.queue.items) [
  | inr (x, xs, e) ↦
      let longer = ap length e in
      subst (λ r. IsValid n (settle_pop s tmout r))
        {x = (record s.queue { items = xs }, returns (some x))}
        (sym (pop_once-some s.queue x xs tmout e))
        (record {
          limit = h.limit;
          in_order =
              h.in_order ∙ ap (λ l. s.popped ++ l) e ∙ sym (append_assoc s.popped (x ∷ []) xs);
          bounded = omega (arith, h.bounded);
          pushers_awake = λ some_wait. omega (arith, h.pushers_awake some_wait);
          poppers_awake = λ some_wait. omega (arith, h.poppers_awake some_wait);
        })
  | inl e ↦
      let empty = ap length e in
      elim (Bool-cases (tmout == 0)) [
        | inl now ↦
            subst (λ r. IsValid n (settle_pop s tmout r)) {x = (s.queue, returns none)}
              (sym (
                pop_once-empty s.queue tmout e
                ∙ ap (λ b. (s.queue, if b then returns none else waits)) now))
              (record {
                limit = h.limit;
                in_order = h.in_order;
                bounded = h.bounded;
                pushers_awake = h.pushers_awake;
                poppers_awake = λ some_wait. omega arith;
              })
        | inr later ↦
            subst (λ r. IsValid n (settle_pop s tmout r)) {x = (s.queue, waits)}
              (sym (
                pop_once-empty s.queue tmout e
                ∙ ap (λ b. (s.queue, if b then returns none else waits)) later))
              (record {
                limit = h.limit;
                in_order = h.in_order;
                bounded = h.bounded;
                pushers_awake = h.pushers_awake;
                poppers_awake = λ some_wait. omega arith;
              })
      ]
]

-- One of the calls that are waiting, or that were woken, is taken out.
one_out {ℓ} :
    {A : Type ℓ} (l xs ys : List A) (a : A) → l ≡ xs ++ a ∷ ys → length l ≡ length (xs ++ ys) + 1
one_out l xs ys a e = omega (arith, ap length e, length-append xs (a ∷ ys), length-append xs ys)

Awake-IsValid : {n : ℕ} {s t : System} → Awake s t → IsValid n s → IsValid n t
unfolding push_woken pop_woken settle_push settle_pop
Awake-IsValid {n} {s} (retries_push xs ys item tmout e) h =
    settle_push-IsValid n (record s { woken_pushers = xs ++ ys }) item tmout
      (record {
        limit = h.limit;
        in_order = h.in_order;
        bounded = h.bounded;
        pushers_awake = λ some_wait.
            omega (arith, h.pushers_awake some_wait, one_out s.woken_pushers xs ys (item, tmout) e);
        poppers_awake = h.poppers_awake;
      })
Awake-IsValid {n} {s} (notifies_pusher xs ys call pending e) h = record {
  limit = h.limit;
  in_order = h.in_order;
  bounded = h.bounded;
  pushers_awake = λ some_wait.
      let more = h.pushers_awake (omega (arith, one_out s.pushers xs ys call e)) in omega arith;
  poppers_awake = h.poppers_awake;
}
Awake-IsValid {n} {s} (notifies_no_pusher pending nobody) h = record {
  limit = h.limit;
  in_order = h.in_order;
  bounded = h.bounded;
  pushers_awake = λ some_wait. absurd (omega arith);
  poppers_awake = h.poppers_awake;
}
Awake-IsValid {n} {s} (retries_pop xs ys tmout e) h =
    settle_pop-IsValid n (record s { woken_poppers = xs ++ ys }) tmout
      (record {
        limit = h.limit;
        in_order = h.in_order;
        bounded = h.bounded;
        pushers_awake = h.pushers_awake;
        poppers_awake = λ some_wait.
            omega (arith, h.poppers_awake some_wait, one_out s.woken_poppers xs ys tmout e);
      })
Awake-IsValid {n} {s} (notifies_popper xs ys call pending e) h = record {
  limit = h.limit;
  in_order = h.in_order;
  bounded = h.bounded;
  pushers_awake = h.pushers_awake;
  poppers_awake = λ some_wait.
      let more = h.poppers_awake (omega (arith, one_out s.poppers xs ys call e)) in omega arith;
}
Awake-IsValid {n} {s} (notifies_no_popper pending nobody) h = record {
  limit = h.limit;
  in_order = h.in_order;
  bounded = h.bounded;
  pushers_awake = h.pushers_awake;
  poppers_awake = λ some_wait. absurd (omega arith);
}

Step-IsValid : {n : ℕ} {s t : System} → Step s t → IsValid n s → IsValid n t
unfolding push_woken pop_woken settle_push settle_pop
Step-IsValid (awake st) h = Awake-IsValid st h
Step-IsValid {n} {s} (calls_push item tmout) h = settle_push-IsValid n s item tmout (record {
  limit = h.limit;
  in_order = h.in_order;
  bounded = h.bounded;
  pushers_awake = λ some_wait. omega (arith, h.pushers_awake some_wait);
  poppers_awake = h.poppers_awake;
})
Step-IsValid {n} {s} (gives_push_up xs ys item tmout e) h = record {
  limit = h.limit;
  in_order = h.in_order;
  bounded = h.bounded;
  pushers_awake =
      λ some_wait. h.pushers_awake (omega (arith, one_out s.pushers xs ys (item, tmout) e));
  poppers_awake = h.poppers_awake;
}
Step-IsValid {n} {s} (comes_late_to_push xs ys item tmout e) h = record {
  limit = h.limit;
  in_order = h.in_order;
  bounded = h.bounded;
  pushers_awake = λ some_wait.
      omega (arith, h.pushers_awake some_wait, one_out s.woken_pushers xs ys (item, tmout) e);
  poppers_awake = h.poppers_awake;
}
Step-IsValid {n} {s} (wakes_pusher xs ys call e) h = record {
  limit = h.limit;
  in_order = h.in_order;
  bounded = h.bounded;
  pushers_awake = λ some_wait.
      let more = h.pushers_awake (omega (arith, one_out s.pushers xs ys call e)) in omega arith;
  poppers_awake = h.poppers_awake;
}
Step-IsValid {n} {s} (calls_pop tmout) h = settle_pop-IsValid n s tmout (record {
  limit = h.limit;
  in_order = h.in_order;
  bounded = h.bounded;
  pushers_awake = h.pushers_awake;
  poppers_awake = λ some_wait. omega (arith, h.poppers_awake some_wait);
})
Step-IsValid {n} {s} (gives_pop_up xs ys tmout e) h = record {
  limit = h.limit;
  in_order = h.in_order;
  bounded = h.bounded;
  pushers_awake = h.pushers_awake;
  poppers_awake = λ some_wait. h.poppers_awake (omega (arith, one_out s.poppers xs ys tmout e));
}
Step-IsValid {n} {s} (comes_late_to_pop xs ys tmout e) h = record {
  limit = h.limit;
  in_order = h.in_order;
  bounded = h.bounded;
  pushers_awake = h.pushers_awake;
  poppers_awake =
      λ some_wait. omega (arith, h.poppers_awake some_wait, one_out s.woken_poppers xs ys tmout e);
}
Step-IsValid {n} {s} (wakes_popper xs ys call e) h = record {
  limit = h.limit;
  in_order = h.in_order;
  bounded = h.bounded;
  pushers_awake = h.pushers_awake;
  poppers_awake = λ some_wait.
      let more = h.poppers_awake (omega (arith, one_out s.poppers xs ys call e)) in omega arith;
}

-- In every state that threads reach by pushing and popping, waiting, being woken and running out of
-- time in any order, also behind a wake-up, the items pushed are those popped and then those in the
-- queue, in this order, and the queue holds no more than its limit. While a thread waits for an
-- item or for room, there are no more items, or no more room, than calls that are awake, wake-ups
-- that are due, and woken calls that have run out of time.
pub Steps-IsValid : {n : ℕ} {s : System} → Steps (start n) s → IsValid n s
Steps-IsValid here = record {
  limit = refl;
  in_order = refl;
  bounded = omega arith;
  pushers_awake = λ h. absurd (omega arith);
  poppers_awake = λ h. absurd (omega arith);
}
Steps-IsValid (next r st) = Step-IsValid st (Steps-IsValid r)
