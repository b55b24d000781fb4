-- ===== src/Tests/Managers.antt =====
-- Auth/mdz_auth, the manager of accounts: a store of one account.
use lib_mantids.Common.{
  ℕ, ◌+◌, ◌≡◌, refl, ap, Bool, true, false, not, List, [], ◌∷◌, arith, text, Bytes, if◌then◌else◌,
}
use lib_mantids.Auth.Reason.{authenticated, disabled_account, is_password_authenticated}
use lib_mantids.Auth.Secret.{Secret, mode_plain, validate_stored_secret, create_new_secret}
use lib_mantids.Auth.Manager.{AccountsOps, Request, is_account_expired}
use lib_mantids.Auth.Manager.Lockout.{
  IsUsable, IsStore, AllWrong, Refuses, after, answer_to, answer_to-open, answer_to-locked,
  after-Refuses,
}
use lib_mantids.Tests.Accounts.{letters, salted}

record Account : Type 0 where
  disabled : Bool
  bad_attempts : ℕ

-- `stays` tells whether the account cannot be disabled.
abbrev store : Bool → AccountsOps Account
store stays = record {
  application_validate_account = λ a app name. true;
  retrieve_secret = λ a name i. (record salted { bad_attempts = a.bad_attempts }, true, true);
  account_last_login = λ a name. 0;
  account_expiration_date = λ a name. 0;
  is_account_confirmed = λ a name. true;
  is_account_disabled = λ a name. a.disabled;
  pass_indexes_used_by_account = λ a name. 0 ∷ [];
  pass_indexes_required_for_login = λ a. 0 ∷ [];
  pass_index_description = λ a i. [];
  account_disable = λ a name b. (if stays then a else record a { disabled = b }, not stays);
  increment_bad_attempts = λ a name i. record a { bad_attempts = a.bad_attempts + 1 };
  reset_bad_attempts = λ a name i. record a { bad_attempts = 0 };
  update_last_login = λ a name i d. a;
  account_change_secret = λ a name s i. (a, false);
}

abbrev request : Request
request = record {
  app_name = text "app";
  client_details = record { ip_addr = []; tls_common_name = []; user_agent = []; extra_data = [] };
  account_name = text "admin";
  incoming_password = [];
  pass_index = 0;
  auth_mode = mode_plain;
  challenge_salt = [];
  wants_indexes = false;
}

abbrev fresh : Account
fresh = record { disabled = false; bad_attempts = 1 }

abbrev tried_once : Secret
tried_once = record salted { bad_attempts = 1 }

store-IsStore : IsStore (store false) letters 50 4 100 request
unfolding is_account_expired
store-IsStore = record {
  counts = λ a s u. record {
    found = ap (λ r. (record r.0 { bad_attempts = r.0.bad_attempts + 1 }, true, true)) u.found;
    valid = refl;
    confirmed = refl;
    enabled = u.enabled;
    not_expired = u.not_expired;
    not_abandoned = u.not_abandoned;
  };
  disables = λ a s u. (u.found, refl, refl, refl);
}

fresh-IsUsable :
    (stays : Bool) (n : ℕ) → IsUsable (store stays) letters 50 n 100 request fresh tried_once
unfolding is_account_expired
fresh-IsUsable stays n = record {
  found = refl;
  valid = refl;
  confirmed = refl;
  enabled = refl;
  not_expired = refl;
  not_abandoned = refl;
}

abbrev guesses : List Bytes
guesses = text "a" ∷ text "b" ∷ []

guesses-AllWrong :
    (stays : Bool) (n : ℕ) → AllWrong (store stays) letters 50 n 100 request tried_once guesses
unfolding validate_stored_secret create_new_secret is_password_authenticated
guesses-AllWrong stays n = (refl, (refl, tt))

answer_to-open_example :
    answer_to
      (store false)
      letters
      50
      4
      100
      request
      (after (store false) letters 50 4 100 request fresh guesses)
      (text "pw")
    ≡ authenticated
unfolding validate_stored_secret create_new_secret
answer_to-open_example =
    answer_to-open (store false) letters 50 4 100 request (omega arith) store-IsStore guesses
      (text "pw") fresh tried_once (fresh-IsUsable false 4) (guesses-AllWrong false 4) (omega arith)

abbrev attempts : Account → List Bytes → Account
attempts a passwords = after (store false) letters 50 4 100 request a passwords

answer_to-locked_example :
    answer_to
      (store false)
      letters
      50
      4
      100
      request
      (attempts (attempts (attempts fresh guesses) (text "a" ∷ [])) (text "pw" ∷ []))
      (text "pw")
    ≡ disabled_account
answer_to-locked_example =
    answer_to-locked (store false) letters 50 4 100 request (omega arith) store-IsStore guesses
      (text "a") (text "pw" ∷ []) (text "pw") fresh tried_once (fresh-IsUsable false 4)
      (guesses-AllWrong false 4) ((guesses-AllWrong false 4).0, tt) refl

after-Refuses_example : after (store true) letters 50 2 100 request fresh guesses ≡ fresh
unfolding Refuses
after-Refuses_example =
    after-Refuses (store true) letters 50 2 100 request guesses fresh tried_once
      (fresh-IsUsable true 2) (guesses-AllWrong true 2) (omega arith) (omega arith) refl
