-- ===== src/Auth/Session.antt =====
-- Auth/mdz_auth/session.h and session.cpp: who is logged in, with which of the passwords, and until
-- when. Each operation holds the session's mutex from its start to its end, so that a history of a
-- session is a sequence of these operations. A time is a number of seconds since the epoch, `now` is
-- what time(nullptr) returns, and sums of times are small enough for time_t. A std::map is a list of
-- keys and values in the order of the keys.
pub mod Status
pub mod Login
use lib_mantids.Common.{
  ℕ, ◌+◌, ◌-◌, ◌%◌, ◌^◌, Bool, true, false, not, ◌&&◌, Option, none, some, List, [], ◌∷◌, Bytes,
  ltb, ◌==◌, if◌then◌else◌,
}
use lib_mantids.Auth.Reason.{
  Reason, expired, unauthenticated, is_authenticated, is_password_authenticated,
}

pub data CheckMode : Type 0 where
  check_allow_expired_passwords : CheckMode
  check_disallow_expired_passwords : CheckMode

-- sAuthenticationPolicy
pub record AuthenticationPolicy : Type 0 where
  pub valid_time : ℕ

-- sCurrentAuthentication
pub record CurrentAuthentication : Type 0 where
  pub last_auth_status : Reason
  pub auth_time : ℕ

pub record Session : Type 0 where
  pub auth_user : Bytes
  pub auth_domain : Bytes
  pub app_name : Bytes
  pub session_id : Bytes
  pub required_login_idxs : List (ℕ × Bytes)
  pub auth_matrix : List (ℕ × CurrentAuthentication)
  pub auth_policies : List (ℕ × AuthenticationPolicy)
  pub first_activity : ℕ
  pub last_activity : ℕ
  pub is_persistent_session : Bool

-- std::map::find
unfoldable pub find : {A : Type 0} → ℕ → List (ℕ × A) → Option A
find k [] = none
find k ((i, a) ∷ m) = if k == i then some a else find k m

-- map[k] = a
unfoldable pub assign : {A : Type 0} → ℕ → A → List (ℕ × A) → List (ℕ × A)
assign k a [] = (k, a) ∷ []
assign k a ((i, b) ∷ m) =
    if ltb k i then (k, a) ∷ (i, b) ∷ m else if k == i then (k, a) ∷ m else (i, b) ∷ assign k a m

-- The constructor sets neither of the two times: `first` and `last` are what stands in the memory.
-- `id` is what createNewSessionIDStr returns.
abbrev pub new : Bytes → Bytes → ℕ → ℕ → Session
new app_name id first last = record {
  auth_user = [];
  auth_domain = [];
  app_name = app_name;
  session_id = id;
  required_login_idxs = [];
  auth_matrix = [];
  auth_policies = [];
  first_activity = first;
  last_activity = last;
  is_persistent_session = false;
}

-- The time of an authentication that never was is not set, and is not read.
unfoldable pub get_current_authentication_status : Session → ℕ → CurrentAuthentication
unfolding find
get_current_authentication_status s pass_index = elim (find pass_index s.auth_matrix) [
  | none ↦ record { last_auth_status = unauthenticated; auth_time = 0 }
  | some c ↦ c
]

-- The test of getIdxAuthenticationStatus_I on a policy.
unfoldable pub is_too_old : ℕ → CurrentAuthentication → Option AuthenticationPolicy → Bool
is_too_old now c none = false
is_too_old now c (some p) = ltb 0 p.valid_time && ltb (c.auth_time + p.valid_time) now

unfoldable pub get_idx_authentication_status : ℕ → Session → ℕ → Reason
unfolding get_current_authentication_status is_too_old is_password_authenticated find
get_idx_authentication_status now s pass_index =
    let c = get_current_authentication_status s pass_index in
    if is_password_authenticated c.last_auth_status
      && is_too_old now c (find pass_index s.auth_policies)
    then expired
    else c.last_auth_status

-- What both forms of registerPersistentAuthentication do.
unfoldable pub register_idx : ℕ → Session → ℕ → Reason → Session
unfolding assign is_password_authenticated
register_idx now s pass_index reason =
    let s' = record s {
      auth_matrix =
          assign pass_index (record { last_auth_status = reason; auth_time = now }) s.auth_matrix;
    } in
    if is_password_authenticated reason
    then record s' { last_activity = now; first_activity = now }
    else s'

-- registerPersistentAuthentication with an account: the main password sets the user.
unfoldable pub register_persistent_authentication :
    ℕ → Session → Bytes → Bytes → ℕ → Reason → Session
unfolding register_idx is_password_authenticated
register_persistent_authentication now s account_name account_domain pass_index reason =
    let s' = register_idx now s pass_index reason in
    if pass_index == 0 && is_password_authenticated reason
    then record s' { auth_user = account_name; auth_domain = account_domain }
    else s'

abbrev pub update_last_activity : ℕ → Session → Session
update_last_activity now s = record s { last_activity = now }

-- The difference is cut to 32 bits.
unfoldable pub is_last_activity_expired : ℕ → Session → ℕ → Bool
is_last_activity_expired now s exp_seconds =
    if ltb now s.last_activity then true else ltb exp_seconds ((now - s.last_activity) % 2 ^ 32)

-- The loop of getNextRequiredLoginIdxs.
unfoldable pub next_required : ℕ → Session → List (ℕ × Bytes) → ℕ × Bytes
unfolding get_idx_authentication_status is_password_authenticated
next_required now s [] = (0xffffffff, [])
next_required now s ((i, name) ∷ required) =
    if not (is_password_authenticated (get_idx_authentication_status now s i))
    then (i, name)
    else next_required now s required

unfoldable pub get_next_required_login_idxs : ℕ → Session → ℕ × Bytes
unfolding next_required
get_next_required_login_idxs now s = next_required now s s.required_login_idxs

abbrev pub set_required_login_idx : Session → List (ℕ × Bytes) → Session
set_required_login_idx s value = record s { required_login_idxs = value }

-- What one round of getIsFullyLoggedIn lets pass.
unfoldable pub passes : CheckMode → Reason → Bool
unfolding is_authenticated is_password_authenticated
passes check_disallow_expired_passwords r = is_authenticated r
passes check_allow_expired_passwords r = is_password_authenticated r

unfoldable pub all_pass : ℕ → Session → CheckMode → List (ℕ × Bytes) → Bool
unfolding get_idx_authentication_status passes
all_pass now s mode [] = true
all_pass now s mode ((i, name) ∷ required) =
    if not (passes mode (get_idx_authentication_status now s i))
    then false
    else all_pass now s mode required

unfoldable pub get_is_fully_logged_in : ℕ → Session → CheckMode → Bool
unfolding all_pass
get_is_fully_logged_in now s mode = elim s.required_login_idxs [
  | [] ↦ false
  | r ∷ required ↦ all_pass now s mode (r ∷ required)
]

unfoldable pub set_index_authentication_policy : Session → ℕ → AuthenticationPolicy → Session
unfolding assign
set_index_authentication_policy s pass_index policy = record s {
  auth_policies = assign pass_index policy s.auth_policies;
}
