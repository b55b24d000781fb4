-- ===== src/Auth/Manager.antt =====
-- Auth/mdz_auth/manager.cpp: the manager of accounts. The virtual operations on the accounts are the
-- record AccountsOps over their state, an `A`; Auth/mdz_auth_db has them in a database. `now` is what
-- time(nullptr) returns, and a set or a map is the list of its elements in their order.
pub mod Lockout
use lib_mantids.Common.{
  ℕ, ◌+◌, ◌%◌, ◌^◌, Bool, true, false, not, ◌&&◌, ◌||◌, Option, none, some, List, [], ◌∷◌, Bytes,
  ltb, leb, ◌==◌, if◌then◌else◌, replicate,
}
use lib_mantids.Auth.Reason.{
  Reason, bad_account, password_index_notfound, unconfirmed_account, disabled_account,
  expired_account, internal_error, is_password_authenticated,
}
use lib_mantids.Auth.Secret.{
  Crypto, Mode, fn_notfound, Secret, SecretPublicData, get_basic_data, validate_stored_secret,
}

pub record ClientDetails : Type 0 where
  pub ip_addr : Bytes
  pub tls_common_name : Bytes
  pub user_agent : Bytes
  pub extra_data : Bytes

-- retrieveSecret also tells whether the account and the index were found.
pub record AccountsOps (A : Type 0) : Type 0 where
  pub application_validate_account : A → Bytes → Bytes → Bool
  pub retrieve_secret : A → Bytes → ℕ → Secret × Bool × Bool
  pub account_last_login : A → Bytes → ℕ
  pub account_expiration_date : A → Bytes → ℕ
  pub is_account_confirmed : A → Bytes → Bool
  pub is_account_disabled : A → Bytes → Bool
  pub pass_indexes_used_by_account : A → Bytes → List ℕ
  pub pass_indexes_required_for_login : A → List ℕ
  pub pass_index_description : A → ℕ → Bytes
  pub account_disable : A → Bytes → Bool → A × Bool
  pub increment_bad_attempts : A → Bytes → ℕ → A
  pub reset_bad_attempts : A → Bytes → ℕ → A
  pub update_last_login : A → Bytes → ℕ → ClientDetails → A
  pub account_change_secret : A → Bytes → Secret → ℕ → A × Bool

-- The fields of the manager.
pub record Manager (A : Type 0) : Type 0 where
  pub accounts : A
  pub max_tries : ℕ
  pub abandoned_account_expiration_seconds : ℕ

-- The arguments of authenticate; `wants_indexes` tells whether the pointer for the indexes is given.
pub record Request : Type 0 where
  pub app_name : Bytes
  pub client_details : ClientDetails
  pub account_name : Bytes
  pub incoming_password : Bytes
  pub pass_index : ℕ
  pub auth_mode : Mode
  pub challenge_salt : Bytes
  pub wants_indexes : Bool

-- What the part under the lock comes to: an answer that is returned at once, or one that is
-- registered first.
pub data Verdict : Type 0 where
  returned : Reason → Verdict
  registered : Reason → Verdict

abbrev pub PassIndexes : Type 0
PassIndexes = List (ℕ × Bytes)

unfoldable pub contains : List ℕ → ℕ → Bool
contains [] i = false
contains (j ∷ l) i = j == i || contains l i

unfoldable pub has_key : PassIndexes → ℕ → Bool
has_key [] i = false
has_key ((j, d) ∷ l) i = j == i || has_key l i

-- Secret_PublicData::Secret_PublicData
abbrev pub no_secret : SecretPublicData
no_secret = record {
  password_function = fn_notfound;
  ssalt = replicate 4 0;
  expiration = 0;
  force_expiration = false;
  bad_attempts = 0;
  description = [];
  required_at_login = false;
  locked = false;
  nul = true;
}

module _ {A : Type 0} (ops : AccountsOps A) where
  unfoldable pub is_account_expired : A → ℕ → Bytes → Bool
  is_account_expired a now name =
      let date = ops.account_expiration_date a name in if date == 0 then false else ltb date now

  -- The loop of accountPassIndexesUsedForLogin.
  unfoldable pub used_for_login : A → List ℕ → List ℕ → PassIndexes
  unfolding contains
  used_for_login a required [] = []
  used_for_login a required (i ∷ used) =
      let rest = used_for_login a required used in
      if contains required i then (i, ops.pass_index_description a i) ∷ rest else rest

  unfoldable pub account_pass_indexes_used_for_login : A → Bytes → PassIndexes
  unfolding used_for_login
  account_pass_indexes_used_for_login a name = elim (ops.pass_indexes_required_for_login a) [
    | [] ↦ (0xffffffff, []) ∷ []
    | r ∷ rs ↦ used_for_login a (r ∷ rs) (ops.pass_indexes_used_by_account a name)
  ]

  -- The answer to a password that was validated, and the indexes for the caller.
  unfoldable pub first_login : A → Request → Reason → Verdict × Option PassIndexes
  unfolding has_key
  first_login a q ret =
      let indexes = account_pass_indexes_used_for_login a q.account_name in
      if is_password_authenticated ret && (q.wants_indexes && q.pass_index == 0)
      then if has_key indexes 0xffffffff
        then (returned internal_error, some indexes)
        else (registered ret, some indexes)
      else (registered ret, none)

  unfoldable pub judge : Crypto → ℕ → Manager A → Request → Verdict × Option PassIndexes
  judge crypto now m q =
      let a = m.accounts in
      let (secret, found, index_found) = ops.retrieve_secret a q.account_name q.pass_index in
      if not (ops.application_validate_account a q.app_name q.account_name)
      then (returned bad_account, none)
      else if not found
      then (registered bad_account, none)
      else if not index_found
      then (registered password_index_notfound, none)
      else if not (ops.is_account_confirmed a q.account_name)
      then (returned unconfirmed_account, none)
      else if ops.is_account_disabled a q.account_name
      then (returned disabled_account, none)
      else if is_account_expired a now q.account_name
      then (returned expired_account, none)
      else if ltb (ops.account_last_login a q.account_name + m.abandoned_account_expiration_seconds)
          now
      then (returned expired_account, none)
      else first_login a q (
          validate_stored_secret crypto now secret q.incoming_password q.challenge_salt q.auth_mode)

  -- The change for the maximum of attempts; badAttempts is a uint32_t, and so is its successor.
  unfoldable pub register : Manager A → Request → Reason → A
  register m q ret =
      let a = m.accounts in
      let (secret, found, index_found) = ops.retrieve_secret a q.account_name q.pass_index in
      if is_password_authenticated ret
      then ops.reset_bad_attempts
          (ops.update_last_login a q.account_name q.pass_index q.client_details) q.account_name
          q.pass_index
      else if leb m.max_tries ((secret.bad_attempts + 1) % 2 ^ 32)
      then (ops.account_disable a q.account_name true).0
      else ops.increment_bad_attempts a q.account_name q.pass_index

  abbrev pub settle : Manager A → Request → Verdict → Reason × A
  settle m q (returned r) = (r, m.accounts)
  settle m q (registered r) = (r, register m q r)

  -- authenticate: the reason, the accounts, and the indexes where they are set.
  unfoldable pub authenticate : Crypto → ℕ → Manager A → Request → (Reason × A) × Option PassIndexes
  unfolding judge
  authenticate crypto now m q =
      let (verdict, indexes) = judge crypto now m q in (settle m q verdict, indexes)

  -- accountChangeAuthenticatedSecret: a new index is authenticated by the password of index 0.
  unfoldable pub account_change_authenticated_secret :
      Crypto → ℕ → Manager A → Request → Secret → Bool × A
  unfolding authenticate
  account_change_authenticated_secret crypto now m q secret =
      let p = record q { wants_indexes = false } in
      let ((reason, a), indexes) = authenticate crypto now m p in
      let ((reason', a'), indexes') =
        authenticate crypto now (record m { accounts = a }) (record p { pass_index = 0 }) in
      let change : Reason → A → Bool × A = λ r b.
        let (c, changed) = ops.account_change_secret b q.account_name secret q.pass_index in
        if is_password_authenticated r then (changed, c) else (false, b) in
      elim reason [ password_index_notfound ↦ change reason' a' | other ↦ change other a ]

  unfoldable pub account_secret_public_data : Manager A → Bytes → ℕ → SecretPublicData
  unfolding contains
  account_secret_public_data m name i =
      let a = m.accounts in
      let (secret, found, index_found) = ops.retrieve_secret a name i in
      let b = record (get_basic_data secret) {
        description = ops.pass_index_description a i;
        required_at_login = contains (ops.pass_indexes_required_for_login a) i;
        locked = leb m.max_tries ((secret.bad_attempts + 1) % 2 ^ 32);
      } in
      if found && index_found then b else no_secret
