-- ===== src/Threads/SafeMap/Readers.antt =====
-- The threads that use a map: no element is deleted while a thread has it open.
use lib_mantids.Common.{
  ℕ, suc, ◌-◌, ◌^◌, ◌<◌, ◌≡◌, refl, ap, inl, inr, Bool, true, false, Option, none, some, arith,
  ◌==◌, if◌then◌else◌, Bool-cases,
}
use lib_mantids.Threads.SafeMap.{
  Entry, Entries, put, add_element, open_element, release_element, destroy_start, destroy_finish,
}

-- How often each key is open, and by which keys a thread is in the loop of destroyElement.
pub record System : Type 0 where
  pub x_map : Entries
  pub open_refs : ℕ → ℕ
  pub destroying : ℕ → Bool

abbrev pub at_key : {A : Type 0} → (ℕ → A) → ℕ → A → ℕ → A
at_key f k a j = if j == k then a else f j

-- What the threads do to the map, in any order. A thread releases what it has opened, and a thread in
-- the loop of destroyElement ends it when it is let through. A key is open fewer than 2 ^ 32 times.
pub data Step : System → System → Type 0 where
  adds :
      (s : System) (k element : ℕ) → Step s (record s { x_map = (add_element s.x_map k element).0 })
  opens :
      (s : System) (k element : ℕ)
      → suc (s.open_refs k) < 2 ^ 32
      → (open_element s.x_map k).1 ≡ some element
      → Step s (record s {
        x_map = (open_element s.x_map k).0;
        open_refs = at_key s.open_refs k (suc (s.open_refs k));
      })
  releases :
      (s : System) (k : ℕ) (m : Entries) (found : Bool)
      → 0 < s.open_refs k
      → release_element s.x_map k ≡ some (m, found)
      → Step s (record s { x_map = m; open_refs = at_key s.open_refs k (s.open_refs k - 1) })
  starts :
      (s : System) (k element : ℕ)
      → (destroy_start s.x_map k).1 ≡ some element
      → Step s (record s {
        x_map = (destroy_start s.x_map k).0;
        destroying = at_key s.destroying k true;
      })
  finishes :
      (s : System) (k : ℕ) (m : Entries)
      → s.destroying k ≡ true
      → destroy_finish s.x_map k ≡ some m
      → Step s (record s { x_map = m; destroying = at_key s.destroying k false })

pub data Reachable : System → Type 0 where
  initial : Reachable (record { x_map = λ k. none; open_refs = λ k. 0; destroying = λ k. false })
  later : (s t : System) → Reachable s → Step s t → Reachable t

abbrev pub readers_of : Option Entry → ℕ
readers_of none = 0
readers_of (some e) = e.readers

-- An entry with no element is one that a thread is destroying.
abbrev pub is_taken : Option Entry → Bool
is_taken none = false
is_taken (some e) = elim e.rd_element [ none ↦ true | some element ↦ false ]

-- The map's count of the readers is the number of open references, at each key.
pub record IsValidAt (e : Option Entry) (refs : ℕ) (destroyed : Bool) : Type 0 where
  pub counts : readers_of e ≡ refs
  pub taken : destroyed ≡ is_taken e

abbrev pub IsValid : System → Type 0
IsValid s = (k : ℕ) → IsValidAt (s.x_map k) (s.open_refs k) (s.destroying k)

-- A step that changes one key.
pub one_key :
    (m : Entries) (refs : ℕ → ℕ) (destroying : ℕ → Bool) (k : ℕ) (e : Option Entry) (n : ℕ)
    (d : Bool)
    → ((j : ℕ) → IsValidAt (m j) (refs j) (destroying j))
    → IsValidAt e n d
    → (j : ℕ) → IsValidAt (put m k e j) (at_key refs k n j) (at_key destroying k d j)
one_key m refs destroying k e n d v h j = elim (Bool-cases (j == k)) [
  | inl x ↦ rw x h
  | inr x ↦ rw x (v j)
]

pub unchanged : {A : Type 0} (f : ℕ → A) (k j : ℕ) → at_key f k (f k) j ≡ f j
unchanged f k j = elim (Bool-cases (j == k)) [
  | inl x ↦ rw x (ap f (ground arith))
  | inr x ↦ rw x refl
]
