-- ===== src/Threads/SafeMap/Calls.antt =====
-- What each call on the map finds, and what it changes.
use lib_mantids.Common.{
  ℕ, ◌+◌, ◌-◌, ◌%◌, ◌^◌, ◌≡◌, refl, sym, ap, ◌∙◌, ◌⊎◌, inl, inr, true, false, Option, none, some,
  arith, ◌==◌, Option-cases,
}
use lib_mantids.Threads.SafeMap.{
  take_entry, open_entry, Entry, Entries, put, add_element, open_element, release_element,
  destroy_start, destroy_finish,
}

pub add_cases :
    (m : Entries) (k element : ℕ)
    → ((add_element m k element).0 ≡ m)
      ⊎ ((m k ≡ none)
          × ((add_element m k element).0
              ≡ put m k (some (record { rd_element = some element; readers = 0 }))))
unfolding add_element
add_cases m k element = elim (Option-cases (m k)) [
  | inl e ↦ inr (e, rw (e, add_element) refl)
  | inr e ↦ inl (rw (e.1, add_element) refl)
]

pub no_entry : {A : Type 0} (a : A) → none ≡ some a → ⊥
no_entry a h = ground arith

pub open-some :
    (m : Entries) (k : ℕ) (e : Entry)
    → m k ≡ some e
    → open_element m k ≡ open_entry m k e e.rd_element
unfolding open_element
open-some m k e h = rw (h, open_element) refl

pub open-none : (m : Entries) (k : ℕ) → m k ≡ none → open_element m k ≡ (m, none)
unfolding open_element
open-none m k h = rw (h, open_element) refl

pub entry_opened :
    (m : Entries) (k element : ℕ) (e : Entry) (o : Option ℕ)
    → (open_entry m k e o).1 ≡ some element
    → (o ≡ some element)
      × ((open_entry m k e o).0 ≡ put m k (some (record e { readers = (e.readers + 1) % 2 ^ 32 })))
entry_opened m k element e none h = absurd (no_entry element h)
entry_opened m k element e (some x) h = (h, refl)

-- What a call that opens an element has found, and has changed.
pub open_lem :
    (m : Entries) (k element : ℕ)
    → (open_element m k).1 ≡ some element
    → (e : Entry) × (m k ≡ some e)
      × (e.rd_element ≡ some element)
      × ((open_element m k).0 ≡ put m k (some (record e { readers = (e.readers + 1) % 2 ^ 32 })))
open_lem m k element h = elim (Option-cases (m k)) [
  | inl none_there ↦ absurd (no_entry element (sym (ap (λ r. r.1) (open-none m k none_there)) ∙ h))
  | inr (e, there) ↦
      let call = open-some m k e there in
      let facts = entry_opened m k element e e.rd_element (sym (ap (λ r. r.1) call) ∙ h) in
      (e, there, facts.0, ap (λ r. r.0) call ∙ facts.1)
]

pub start-some :
    (m : Entries) (k : ℕ) (e : Entry)
    → m k ≡ some e
    → destroy_start m k ≡ take_entry m k e e.rd_element
unfolding destroy_start
start-some m k e h = rw (h, destroy_start) refl

pub start-none : (m : Entries) (k : ℕ) → m k ≡ none → destroy_start m k ≡ (m, none)
unfolding destroy_start
start-none m k h = rw (h, destroy_start) refl

pub entry_taken :
    (m : Entries) (k element : ℕ) (e : Entry) (o : Option ℕ)
    → (take_entry m k e o).1 ≡ some element
    → (take_entry m k e o).0 ≡ put m k (some (record e { rd_element = none }))
entry_taken m k element e none h = absurd (no_entry element h)
entry_taken m k element e (some x) h = refl

pub start_lem :
    (m : Entries) (k element : ℕ)
    → (destroy_start m k).1 ≡ some element
    → (e : Entry) × (m k ≡ some e)
      × ((destroy_start m k).0 ≡ put m k (some (record e { rd_element = none })))
start_lem m k element h = elim (Option-cases (m k)) [
  | inl none_there ↦ absurd (no_entry element (sym (ap (λ r. r.1) (start-none m k none_there)) ∙ h))
  | inr (e, there) ↦
      let call = start-some m k e there in
      (
        e,
        there,
        ap (λ r. r.0) call ∙ entry_taken m k element e e.rd_element (sym (ap (λ r. r.1) call) ∙ h),
      )
]

pub release-some :
    (m : Entries) (k : ℕ) (e : Entry)
    → m k ≡ some e
    → (e.readers == 0) ≡ false
    → release_element m k ≡ some (put m k (some (record e { readers = e.readers - 1 })), true)
unfolding release_element
release-some m k e h z = rw (h, release_element, z) refl

pub finish_busy :
    (m : Entries) (k : ℕ) (e : Entry)
    → m k ≡ some e
    → (e.readers == 0) ≡ false
    → destroy_finish m k ≡ none
unfolding destroy_finish
finish_busy m k e h z = rw (h, destroy_finish, z) refl

pub finish_free :
    (m : Entries) (k : ℕ) (e : Entry)
    → m k ≡ some e
    → (e.readers == 0) ≡ true
    → destroy_finish m k ≡ some (put m k none)
unfolding destroy_finish
finish_free m k e h z = rw (h, destroy_finish, z) refl
