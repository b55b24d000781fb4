-- ===== src/Memory/Container/Searching.antt =====
-- find, over containers whose findChar and compare2 answer for the bytes they stand for.
use mathlib.Core.Bool.{true≢false}
use lib_mantids.Common.{
  ℕ, zero, suc, ◌+◌, ◌-◌, ◌≤◌, ◌<◌, ◌≡◌, refl, sym, ap, ◌∙◌, inl, inr, Bool, true, false, Option,
  none, some, [], ◌∷◌, arith, Bytes, first_index, first_match, report, u64_mod, sub64, sub64-eq,
  overflow-none, ◌==◌, Bool-cases, Option-cases, le→ltb-false, length, get_or, take, drop,
  drop-drop, length-drop,
}
use lib_mantids.Helpers.Mem.Compare.{all_same, same_byte}
use lib_mantids.Memory.Container.{ContainerOps, Container, find_loop, find_from, find}

-- What a container stands for, and that findChar, on what is left of it, and compare2 say so.
-- findChar stops at the bytes that `stops` tells, the character searched with its case among them.
pub record IsSearchable {C : Type 0} (ops : ContainerOps C) (view : C → Bytes) (Inv : C → Type 0)
    (stops : ℕ → ℕ → Bool) : Type 0 where
  pub size_eq : (c : C) → Inv c → ops.size c ≡ length (view c)
  pub bounded : (c : C) → Inv c → length (view c) < u64_mod
  pub stops_at : (x : ℕ) → stops x x ≡ true
  pub finds :
      (c : C) (x offset space : ℕ)
      → Inv c
      → offset + space ≡ length (view c)
      → ops.find_char c x offset space true
        ≡ report offset (first_index (stops x) (drop offset (view c)))
  pub compares :
      (c : C) (buf : Bytes) (offset : ℕ)
      → Inv c
      → length buf < u64_mod
      → offset < u64_mod
      → ops.compare2 c buf true offset
        ≡ some (all_same (same_byte true) (take (length buf) (drop offset (view c))) buf)

-- Whether a text begins with the needle.
unfoldable pub begins : Bytes → Bytes → Bool
begins needle xs = all_same (same_byte true) (take (length needle) xs) needle

report-suc :
    (position : ℕ) (o : Option ℕ)
    → report position (elim o [ none ↦ none | some i ↦ some (suc i) ]) ≡ report (position + 1) o
report-suc position none = refl
report-suc position (some i) = ap (λ n. (true, n)) (omega arith)

==-eq : (x y : ℕ) → (x == y) ≡ true → x ≡ y
==-eq x y e = ground arith

begins_stop :
    (stops : ℕ → Bool) (h : ℕ) (t : Bytes) (x : ℕ) (xs : Bytes)
    → stops h ≡ true
    → stops x ≡ false
    → begins (h ∷ t) (x ∷ xs) ≡ false
unfolding begins all_same same_byte
begins_stop stops h t x xs e n = elim (Bool-cases (x == h)) [
  | inl eq ↦ absurd (true≢false (sym (ap stops (==-eq x h eq) ∙ e) ∙ n))
  | inr ne ↦ rw (ne)
]

first_index-suc :
    (test : ℕ → Bool) (x : ℕ) (xs : Bytes) (j : ℕ)
    → first_index test (x ∷ xs) ≡ some (suc j)
    → (test x ≡ false) × (first_index test xs ≡ some j)
unfolding first_index
first_index-suc test x xs j e = ground arith

first_index_bound :
    (test : ℕ → Bool) (xs : Bytes) (i : ℕ) → first_index test xs ≡ some i → i < length xs
unfolding first_index
first_index_bound test [] i e = ground arith
first_index_bound test (x ∷ xs) zero e = omega arith
first_index_bound test (x ∷ xs) (suc j) e =
    let below = first_index_bound test xs j (first_index-suc test x xs j e).1 in omega arith

-- The first place where the needle stands is not before the first stop.
first_match-here :
    (stops : ℕ → Bool) (h : ℕ) (t xs : Bytes) (i : ℕ)
    → stops h ≡ true
    → first_index stops xs ≡ some i
    → begins (h ∷ t) (drop i xs) ≡ true
    → first_match (begins (h ∷ t)) xs ≡ some i
unfolding first_match first_index
first_match-here stops h t [] i e f here = ground arith
first_match-here stops h t (x ∷ xs) zero e f here = rw (here)
first_match-here stops h t (x ∷ xs) (suc j) e f here =
    let (away, later) = first_index-suc stops x xs j f in
    rw (begins_stop stops h t x xs e away, first_match-here stops h t xs j e later here)

first_match-later :
    (stops : ℕ → Bool) (h : ℕ) (t xs : Bytes) (i position : ℕ)
    → stops h ≡ true
    → first_index stops xs ≡ some i
    → begins (h ∷ t) (drop i xs) ≡ false
    → report position (first_match (begins (h ∷ t)) xs)
      ≡ report (position + suc i) (first_match (begins (h ∷ t)) (drop (suc i) xs))
unfolding first_match first_index
first_match-later stops h t [] i position e f not_here = ground arith
first_match-later stops h t (x ∷ xs) zero position e f not_here =
    rw (not_here) (report-suc position (first_match (begins (h ∷ t)) xs))
first_match-later stops h t (x ∷ xs) (suc j) position e f not_here =
    let (away, later) = first_index-suc stops x xs j f in
    rw (begins_stop stops h t x xs e away) (
      report-suc position (first_match (begins (h ∷ t)) xs)
      ∙ first_match-later stops h t xs j (position + 1) e later not_here
      ∙ ap (λ n. report n (first_match (begins (h ∷ t)) (drop (suc j) xs)))
          {x = (position + 1) + suc j} {y = position + suc (suc j)} (omega arith))

first_match-none :
    (stops : ℕ → Bool) (h : ℕ) (t xs : Bytes)
    → stops h ≡ true
    → first_index stops xs ≡ none
    → first_match (begins (h ∷ t)) xs ≡ none
unfolding first_match first_index
first_match-none stops h t [] e f = refl
first_match-none stops h t (x ∷ xs) e f =
    ground (arith, begins_stop stops h t x xs, first_match-none stops h t xs)

nonzero : (n : ℕ) → (suc n == 0) ≡ false
nonzero n = ground arith

module _ {C : Type 0} (ops : ContainerOps C) where
  find_loop-here :
      (fuel : ℕ) (b : Container C) (needle : Bytes) (current space place : ℕ)
      → ops.find_char b.object (get_or needle 0 0) current space true ≡ (true, place)
      → ops.compare2 b.object needle true place ≡ some true
      → find_loop ops (suc fuel) b needle true current space ≡ some (true, place)
  unfolding find_loop
  find_loop-here fuel b needle current space place found compared =
      rw (found, find_loop, compared, found)

  find_loop-away :
      (fuel : ℕ) (b : Container C) (needle : Bytes) (current space place left : ℕ)
      → ops.find_char b.object (get_or needle 0 0) current space true ≡ (true, place)
      → ops.compare2 b.object needle true place ≡ some false
      → sub64 space (sub64 place current) ≡ suc left
      → find_loop ops (suc fuel) b needle true current space
        ≡ find_loop ops fuel b needle true (place + 1) left
  unfolding find_loop
  find_loop-away fuel b needle current space place left found compared e =
      rw (found, find_loop, compared, found, e, nonzero left)
        (ap (find_loop ops fuel b needle true (place + 1)) {x = suc left - 1} {y = left}
          (omega arith))

module _ {C : Type 0} (ops : ContainerOps C) (view : C → Bytes) (Inv : C → Type 0)
    (stops : ℕ → ℕ → Bool) (searchable : IsSearchable ops view Inv stops) where
  -- The loop, where the space ends with the container.
  find_loop-first_match :
      (fuel : ℕ) (b : Container C) (h : ℕ) (t : Bytes) (current space : ℕ)
      → Inv b.object
      → length (h ∷ t) < u64_mod
      → current + space ≡ length (view b.object)
      → space < fuel
      → find_loop ops fuel b (h ∷ t) true current space
        ≡ some (report current (first_match (begins (h ∷ t)) (drop current (view b.object))))
  unfolding find_loop begins
  find_loop-first_match zero b h t current space inv small whole enough = absurd (omega arith)
  find_loop-first_match (suc fuel) b h t current space inv small whole enough =
      let needle = h ∷ t in
      let xs = drop current (view b.object) in
      let bounded = searchable.bounded b.object inv in
      let found = searchable.finds b.object h current space inv whole in
      elim (Option-cases (first_index (stops h) xs)) [
        | inl nowhere ↦ rw (
          found,
          find_loop,
          nowhere,
          first_match-none (stops h) h t xs (searchable.stops_at h) nowhere,
        )
        | inr (i, e) ↦
            let far = length-drop current (view b.object) in
            let within = first_index_bound (stops h) xs i e in
            let place = current + i in
            let gone : sub64 place current ≡ i =
              sub64-eq place current (omega arith) (omega arith) ∙ omega arith in
            let compared =
              searchable.compares b.object needle place inv small
                (omega (arith, length-drop current (view b.object))) in
            let standing : begins needle (drop place (view b.object)) ≡ begins needle (drop i xs) =
              ap (begins needle) (sym (drop-drop i current (view b.object))) in
            elim (Bool-cases (begins needle (drop i xs))) [
              | inl here ↦
                  find_loop-here ops fuel b needle current space place
                    (found ∙ ap (report current) e) (compared ∙ ap some (standing ∙ here))
                  ∙ ap (λ o. some (report current o))
                      (sym (first_match-here (stops h) h t xs i (searchable.stops_at h) e here))
              | inr away ↦
                  find_loop-away ops fuel b needle current space place (space - i - 1)
                    (found ∙ ap (report current) e) (compared ∙ ap some (standing ∙ away))
                    (ap (sub64 space) gone
                      ∙ sub64-eq space i (omega arith) (omega arith)
                      ∙ omega arith)
                  ∙ find_loop-first_match fuel b h t (place + 1) (space - i - 1) inv small
                      (omega arith) (omega arith)
                  ∙ ap some (
                      ap (λ k. report k (first_match (begins needle) (drop k (view b.object))))
                        {x = place + 1} {y = current + suc i} (omega arith)
                      ∙ ap (λ l. report (current + suc i) (first_match (begins needle) l))
                          (sym (drop-drop (suc i) current (view b.object)))
                      ∙ sym (
                          first_match-later (stops h) h t xs i current (searchable.stops_at h) e
                            away))
            ]
      ]

  find_from-first_match :
      (b : Container C) (h : ℕ) (t : Bytes) (offset : ℕ)
      → Inv b.object
      → length (h ∷ t) < u64_mod
      → offset ≤ length (view b.object)
      → find_from ops b (h ∷ t) true offset (length (view b.object) - offset)
        ≡ some (report offset (first_match (begins (h ∷ t)) (drop offset (view b.object))))
  unfolding find_from
  find_from-first_match b h t offset inv small within =
      find_loop-first_match (suc (ops.size b.object)) b h t offset (length (view b.object) - offset)
        inv small (omega arith) (omega (arith, searchable.size_eq b.object inv))

  -- find over the whole of the rest.
  pub find-first_match :
      (b : Container C) (needle : Bytes) (offset : ℕ)
      → Inv b.object
      → 0 < length needle
      → offset + length needle ≤ length (view b.object)
      → find ops b needle true offset 0
        ≡ some (report offset (first_match (begins needle) (drop offset (view b.object))))
  unfolding find
  find-first_match b [] offset inv pos fits = absurd (omega arith)
  find-first_match b (h ∷ t) offset inv pos fits =
      let n = length (view b.object) in
      let bounded = searchable.bounded b.object inv in
      rw
        (
          searchable.size_eq b.object inv,
          overflow-none offset (length (h ∷ t)) (omega arith),
          overflow-none offset 0 (omega arith),
          le→ltb-false n offset (omega arith),
          le→ltb-false (n - offset) (length (h ∷ t)) (omega arith),
          find_from-first_match b h t offset inv (omega arith) (omega arith),
        )
        (ground arith)
