-- ===== src/Auth/Session/Status.antt =====
-- What an authentication changes, how it ends, and when a session is logged in.
use mathlib.Core.Path.{ap₂}
use lib_mantids.Common.{
  ℕ, ◌≡◌, refl, sym, ap, ◌∙◌, ◌≢◌, ◌&&◌, Option, none, some, List, [], ◌∷◌, arith, Bytes,
  if◌then◌else◌,
}
use lib_mantids.Auth.Reason.{Reason, expired, unauthenticated, is_password_authenticated}
use lib_mantids.Auth.Session.{
  AuthenticationPolicy, CurrentAuthentication, Session, find, assign,
  get_current_authentication_status, is_too_old, get_idx_authentication_status, register_idx,
  register_persistent_authentication,
}

find-assign_self : {A : Type 0} (k : ℕ) (a : A) (m : List (ℕ × A)) → find k (assign k a m) ≡ some a
unfolding find assign
find-assign_self k a [] = ground arith
find-assign_self k a ((i, b) ∷ m) = ground (arith, find-assign_self k a m)

find-assign_ne :
    {A : Type 0} (k j : ℕ) (a : A) (m : List (ℕ × A)) → k ≢ j → find j (assign k a m) ≡ find j m
unfolding find assign
find-assign_ne k j a [] h = ground arith
find-assign_ne k j a ((i, b) ∷ m) h = ground (arith, find-assign_ne k j a m h)

-- The status is read off one entry of each of the two maps.
abbrev entry : Option CurrentAuthentication → CurrentAuthentication
entry m = elim m [
  | none ↦ record { last_auth_status = unauthenticated; auth_time = 0 }
  | some c ↦ c
]

abbrev status_from : ℕ → Option CurrentAuthentication → Option AuthenticationPolicy → Reason
status_from later m p =
    if is_password_authenticated (entry m).last_auth_status && is_too_old later (entry m) p
    then expired
    else (entry m).last_auth_status

status-eq :
    (later : ℕ) (s : Session) (i : ℕ)
    → get_idx_authentication_status later s i
      ≡ status_from later (find i s.auth_matrix) (find i s.auth_policies)
unfolding get_idx_authentication_status get_current_authentication_status
status-eq later s i = refl

registered_matrix :
    (now : ℕ) (s : Session) (user domain : Bytes) (k : ℕ) (reason : Reason)
    → (register_persistent_authentication now s user domain k reason).auth_matrix
      ≡ assign k (record { last_auth_status = reason; auth_time = now }) s.auth_matrix
unfolding register_persistent_authentication register_idx
registered_matrix now s user domain k reason = ground arith

registered_policies :
    (now : ℕ) (s : Session) (user domain : Bytes) (k : ℕ) (reason : Reason)
    → (register_persistent_authentication now s user domain k reason).auth_policies
      ≡ s.auth_policies
unfolding register_persistent_authentication register_idx
registered_policies now s user domain k reason = ground arith

-- An authentication sets the status of its own index, which an old one of the same index does not
-- change, and of no other index: the outcome is what was registered, until the policy of the index
-- lets it expire.
pub get_idx_authentication_status-register_persistent_authentication :
    (now later : ℕ) (s : Session) (user domain : Bytes) (k : ℕ) (reason : Reason)
    → let s' = register_persistent_authentication now s user domain k reason in
      let c : CurrentAuthentication = record { last_auth_status = reason; auth_time = now } in
      (get_idx_authentication_status later s' k ≡ (
        if is_password_authenticated reason && is_too_old later c (find k s.auth_policies)
        then expired
        else reason))
      × ((j : ℕ)
          → k ≢ j
          → get_idx_authentication_status later s' j ≡ get_idx_authentication_status later s j)
get_idx_authentication_status-register_persistent_authentication now later s user domain k reason =
    let c : CurrentAuthentication = record { last_auth_status = reason; auth_time = now } in
    let s' = register_persistent_authentication now s user domain k reason in
    let matrix = registered_matrix now s user domain k reason in
    let policies = registered_policies now s user domain k reason in
    (
      status-eq later s' k
          ∙ ap₂ (status_from later) (ap (find k) matrix ∙ find-assign_self k c s.auth_matrix)
              (ap (find k) policies),
      λ j ne.
          status-eq later s' j
          ∙ ap₂ (status_from later) (ap (find j) matrix ∙ find-assign_ne k j c s.auth_matrix ne)
              (ap (find j) policies)
          ∙ sym (status-eq later s j),
    )
