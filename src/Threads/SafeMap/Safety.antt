-- ===== src/Threads/SafeMap/Safety.antt =====
-- No element is deleted while a thread has it open, and no release fails.
use mathlib.Core.Path.{subst}
use lib_mantids.Common.{
  ℕ, suc, ◌+◌, ◌-◌, ◌%◌, ◌^◌, ◌<◌, ◌≡◌, refl, sym, ap, ◌∙◌, inl, inr, Bool, true, false, Option,
  none, some, arith, ◌==◌, Bool-cases,
}
use lib_mantids.Threads.SafeMap.{
  Entry, Entries, put, add_element, open_element, release_element, destroy_start, destroy_finish,
}
use lib_mantids.Threads.SafeMap.Readers.{
  System, at_key, Step, adds, opens, releases, starts, finishes, Reachable, initial, later,
  IsValidAt, IsValid, one_key, unchanged,
}
use lib_mantids.Threads.SafeMap.Calls.{
  no_entry, add_cases, open_lem, start_lem, release-some, finish_busy, finish_free,
}

-- The facts of an entry that is there.
here :
    (s : System) (k : ℕ) (o : Option Entry)
    → IsValid s
    → s.x_map k ≡ o
    → IsValidAt o (s.open_refs k) (s.destroying k)
here s k o v e = subst (λ x. IsValidAt x (s.open_refs k) (s.destroying k)) e (v k)

not_both : true ≡ false → ⊥
not_both h = ground arith

busy_entry : (e : Entry) (n : ℕ) → e.readers ≡ n → 0 < n → (e.readers == 0) ≡ false
busy_entry e n h p = ground arith

free_refs : (e : Entry) (n : ℕ) → e.readers ≡ n → (e.readers == 0) ≡ true → 0 ≡ n
free_refs e n h p = ground arith

open-IsValidAt :
    (e : Entry) (n : ℕ) (d : Bool)
    → suc n < 2 ^ 32
    → IsValidAt (some e) n d
    → IsValidAt (some (record e { readers = (e.readers + 1) % 2 ^ 32 })) (suc n) d
open-IsValidAt e n d small v = record { counts = omega (arith, v.counts); taken = v.taken }

release-IsValidAt :
    (e : Entry) (n : ℕ) (d : Bool)
    → IsValidAt (some e) n d
    → IsValidAt (some (record e { readers = e.readers - 1 })) (n - 1) d
release-IsValidAt e n d v = record { counts = omega (arith, v.counts); taken = v.taken }

change_refs :
    (s : System) (m : Entries) (k : ℕ) (o : Option Entry) (n : ℕ)
    → IsValid s
    → m ≡ put s.x_map k o
    → IsValidAt o n (s.destroying k)
    → IsValid (record s { x_map = m; open_refs = at_key s.open_refs k n })
change_refs s m k o n v e h j =
    subst (λ x. IsValidAt (x j) (at_key s.open_refs k n j) (s.destroying j)) (sym e)
      (subst (IsValidAt (put s.x_map k o j) (at_key s.open_refs k n j)) (unchanged s.destroying k j)
        (one_key s.x_map s.open_refs s.destroying k o n (s.destroying k) v h j))

change_destroying :
    (s : System) (m : Entries) (k : ℕ) (o : Option Entry) (d : Bool)
    → IsValid s
    → m ≡ put s.x_map k o
    → IsValidAt o (s.open_refs k) d
    → IsValid (record s { x_map = m; destroying = at_key s.destroying k d })
change_destroying s m k o d v e h j =
    subst (λ x. IsValidAt (x j) (s.open_refs j) (at_key s.destroying k d j)) (sym e)
      (subst (λ n. IsValidAt (put s.x_map k o j) n (at_key s.destroying k d j))
        (unchanged s.open_refs k j)
        (one_key s.x_map s.open_refs s.destroying k o (s.open_refs k) d v h j))

change_entry :
    (s : System) (m : Entries) (k : ℕ) (o : Option Entry)
    → IsValid s
    → m ≡ put s.x_map k o
    → IsValidAt o (s.open_refs k) (s.destroying k)
    → IsValid (record s { x_map = m })
change_entry s m k o v e h j =
    subst (IsValidAt (m j) (s.open_refs j)) (unchanged s.destroying k j)
      (change_destroying s m k o (s.destroying k) v e h j)

map_of : Option (Entries × Bool) → Entries
map_of none = λ j. none
map_of (some r) = r.0

entries_of : Option Entries → Entries
entries_of none = λ j. none
entries_of (some m) = m

release_step :
    (s : System) (k : ℕ) (m : Entries) (found : Bool) (o : Option Entry)
    → IsValid s
    → 0 < s.open_refs k
    → release_element s.x_map k ≡ some (m, found)
    → s.x_map k ≡ o
    → IsValid (record s { x_map = m; open_refs = at_key s.open_refs k (s.open_refs k - 1) })
unfolding map_of
release_step s k m found none v held h there =
    absurd (omega (arith, (here s k none v there).counts))
release_step s k m found (some e) v held h there =
    let old = here s k (some e) v there in
    change_refs s m k (some (record e { readers = e.readers - 1 })) (s.open_refs k - 1) v
      (ap map_of
        (sym h ∙ release-some s.x_map k e there (busy_entry e (s.open_refs k) old.counts held)))
      (release-IsValidAt e (s.open_refs k) (s.destroying k) old)

finish_step :
    (s : System) (k : ℕ) (m : Entries) (o : Option Entry)
    → IsValid s
    → s.destroying k ≡ true
    → destroy_finish s.x_map k ≡ some m
    → s.x_map k ≡ o
    → IsValid (record s { x_map = m; destroying = at_key s.destroying k false })
unfolding entries_of
finish_step s k m none v busy h there = absurd (not_both (sym busy ∙ (here s k none v there).taken))
finish_step s k m (some e) v busy h there = elim (Bool-cases (e.readers == 0)) [
  | inl free ↦
      change_destroying s m k none false v
        (ap entries_of (sym h ∙ finish_free s.x_map k e there free))
        record {
          counts = free_refs e (s.open_refs k) (here s k (some e) v there).counts free;
          taken = refl;
        }
  | inr held ↦ absurd (no_entry m (sym (finish_busy s.x_map k e there held) ∙ h))
]

preserves : (s t : System) → Step s t → IsValid s → IsValid t
preserves s t (adds s' k element) v = elim (add_cases s'.x_map k element) [
  | inl e ↦ λ j. subst (λ x. IsValidAt (x j) (s'.open_refs j) (s'.destroying j)) (sym e) (v j)
  | inr (absent, e) ↦
      let old = here s' k none v absent in
      change_entry s' (add_element s'.x_map k element).0 k
        (some (record { rd_element = some element; readers = 0 })) v e
        record { counts = old.counts; taken = old.taken }
]
preserves s t (opens s' k element small h) v =
    let (e, there, el, eq) = open_lem s'.x_map k element h in
    change_refs s' (open_element s'.x_map k).0 k
      (some (record e { readers = (e.readers + 1) % 2 ^ 32 })) (suc (s'.open_refs k)) v eq
      (open-IsValidAt e (s'.open_refs k) (s'.destroying k) small (here s' k (some e) v there))
preserves s t (releases s' k m found held h) v =
    release_step s' k m found (s'.x_map k) v held h refl
preserves s t (starts s' k element h) v =
    let (e, there, eq) = start_lem s'.x_map k element h in
    change_destroying s' (destroy_start s'.x_map k).0 k (some (record e { rd_element = none })) true
      v eq record { counts = (here s' k (some e) v there).counts; taken = refl }
preserves s t (finishes s' k m busy h) v = finish_step s' k m (s'.x_map k) v busy h refl

-- The map counts its readers right, whatever the threads do in whatever order.
Reachable-IsValid : (s : System) → Reachable s → IsValid s
Reachable-IsValid s initial = λ k. record { counts = refl; taken = refl }
Reachable-IsValid s (later r t before step) = preserves r t step (Reachable-IsValid r before)

finish_or_wait :
    (s : System) (k : ℕ) (o : Option Entry)
    → IsValid s
    → s.destroying k ≡ true
    → s.x_map k ≡ o
    → (0 < s.open_refs k → destroy_finish s.x_map k ≡ none)
      × (s.open_refs k ≡ 0 → destroy_finish s.x_map k ≡ some (put s.x_map k none))
finish_or_wait s k none v busy there = absurd (not_both (sym busy ∙ (here s k none v there).taken))
finish_or_wait s k (some e) v busy there =
    let old = here s k (some e) v there in
    (
      λ p. finish_busy s.x_map k e there (busy_entry e (s.open_refs k) old.counts p),
      λ z. finish_free s.x_map k e there (ground (arith, old.counts)),
    )

-- In every state that the threads reach, a thread that destroys an element waits as long as the
-- element is open, and goes on to delete it and to remove its key when it is not.
pub destroy_finish-Reachable :
    (s : System) (k : ℕ)
    → Reachable s
    → s.destroying k ≡ true
    → (0 < s.open_refs k → destroy_finish s.x_map k ≡ none)
      × (s.open_refs k ≡ 0 → destroy_finish s.x_map k ≡ some (put s.x_map k none))
destroy_finish-Reachable s k r busy =
    finish_or_wait s k (s.x_map k) (Reachable-IsValid s r) busy refl

release_found :
    (s : System) (k : ℕ) (o : Option Entry)
    → IsValid s
    → 0 < s.open_refs k
    → s.x_map k ≡ o
    → (m : Entries) × (release_element s.x_map k ≡ some (m, true))
release_found s k none v held there = absurd (omega (arith, (here s k none v there).counts))
release_found s k (some e) v held there = (
  put s.x_map k (some (record e { readers = e.readers - 1 })),
  release-some s.x_map k e there
      (busy_entry e (s.open_refs k) (here s k (some e) v there).counts held),
)

-- In every state that the threads reach, the release of what a thread has open finds the element, and
-- does not throw: also while another thread destroys it.
pub release_element-Reachable :
    (s : System) (k : ℕ)
    → Reachable s
    → 0 < s.open_refs k
    → (m : Entries) × (release_element s.x_map k ≡ some (m, true))
release_element-Reachable s k r held =
    release_found s k (s.x_map k) (Reachable-IsValid s r) held refl
