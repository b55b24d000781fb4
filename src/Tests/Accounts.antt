-- ===== src/Tests/Accounts.antt =====
-- Auth/mdz_auth on concrete secrets and sessions.
use lib_mantids.Common.{
  ℕ, ◌≡◌, refl, ◌≢◌, ◌↔◌, true, false, ◌&&◌, [], ◌∷◌, ◌++◌, text, if◌then◌else◌,
}
use lib_mantids.Auth.Reason.{
  authenticated, expired, bad_password, expired_password, is_password_authenticated,
}
use lib_mantids.Auth.Secret.{
  Crypto, Secret, fn_ssha256, mode_plain, mode_challenge, create_new_secret, validate_stored_secret,
  is_expired,
}
use lib_mantids.Auth.Secret.Validation.{
  Knows, response, validate_stored_secret-authenticated, validate_stored_secret-create_new_secret,
}
use lib_mantids.Auth.Session.{
  Session, CurrentAuthentication, check_allow_expired_passwords, check_disallow_expired_passwords,
  find, get_idx_authentication_status, is_too_old, register_persistent_authentication,
  get_is_fully_logged_in, get_next_required_login_idxs, set_index_authentication_policy,
  set_required_login_idx, passes,
}
use lib_mantids.Auth.Session
use lib_mantids.Auth.Session.Status.{
  get_idx_authentication_status-register_persistent_authentication,
}
use lib_mantids.Auth.Session.Login.{
  IsRequired, is_some_required, Answer, get_is_fully_logged_in_iff,
  get_next_required_login_idxs-Answer,
}

-- Digests that put a letter, and the salt, in front.
abbrev pub letters : Crypto
letters = record {
  calc_sha256 = λ l. b'a' ∷ l;
  calc_sha512 = λ l. b'b' ∷ l;
  calc_ssha256 = λ l salt. b'c' ∷ salt ++ l;
  calc_ssha512 = λ l salt. b'd' ∷ salt ++ l;
}

abbrev pub salted : Secret
salted = create_new_secret letters (1 ∷ 2 ∷ 3 ∷ 4 ∷ []) (text "pw") fn_ssha256 false 100 0

refuses : validate_stored_secret letters 50 salted (text "other") [] mode_plain ≡ bad_password
unfolding validate_stored_secret create_new_secret
refuses = refl

expires : validate_stored_secret letters 101 salted (text "pw") [] mode_plain ≡ expired_password
unfolding validate_stored_secret create_new_secret
expires = refl

validate_stored_secret-authenticated_example :
    (validate_stored_secret letters 50 salted (text "pw") [] mode_plain ≡ authenticated) ↔ (
      Knows letters salted salted.password_function (text "pw") [] mode_plain
      × (is_expired 50 salted ≡ false))
validate_stored_secret-authenticated_example =
    validate_stored_secret-authenticated letters 50 salted (text "pw") [] mode_plain

validate_stored_secret-create_new_secret_example :
    validate_stored_secret letters 50 salted
      (response letters salted (text "pw") (text "xyz") mode_challenge)
      (text "xyz")
      mode_challenge
    ≡ authenticated
validate_stored_secret-create_new_secret_example =
    validate_stored_secret-create_new_secret letters 50 (1 ∷ 2 ∷ 3 ∷ 4 ∷ []) (text "pw")
      (text "xyz") fn_ssha256 false 100 0 mode_challenge refl

-- Two passwords are required, and the main one lasts for ten seconds.
abbrev fresh : Session
fresh = record (Session.new (text "app") (text "id") 0 0) {
  required_login_idxs = (0, text "password") ∷ (1, text "token") ∷ [];
  auth_policies = (0, record { valid_time = 10 }) ∷ [];
}

abbrev half : Session
half = register_persistent_authentication 100 fresh (text "user") (text "domain") 0 authenticated

abbrev full : Session
full = register_persistent_authentication 105 half (text "user") (text "domain") 1 expired_password

half_asks : get_next_required_login_idxs 100 half ≡ (1, text "token")
unfolding get_next_required_login_idxs register_persistent_authentication
half_asks = refl

full_allows : get_is_fully_logged_in 110 full check_allow_expired_passwords ≡ true
unfolding get_is_fully_logged_in register_persistent_authentication
full_allows = refl

full_ends : get_is_fully_logged_in 111 full check_allow_expired_passwords ≡ false
unfolding get_is_fully_logged_in register_persistent_authentication
full_ends = refl

get_idx_authentication_status-register_persistent_authentication_example :
    (get_idx_authentication_status 111 half 0 ≡ (
      if is_password_authenticated authenticated
        && is_too_old 111
            (record { last_auth_status = authenticated; auth_time = 100 })
            (find 0 fresh.auth_policies)
      then expired
      else authenticated))
    × ((j : ℕ)
        → 0 ≢ j
        → get_idx_authentication_status 111 half j ≡ get_idx_authentication_status 111 fresh j)
get_idx_authentication_status-register_persistent_authentication_example =
    get_idx_authentication_status-register_persistent_authentication 100 111 fresh (text "user")
      (text "domain") 0 authenticated

get_is_fully_logged_in_iff_example :
    (get_is_fully_logged_in 110 full check_disallow_expired_passwords ≡ true) ↔ (
      (is_some_required full.required_login_idxs ≡ true)
      × ((i : ℕ)
          → IsRequired i full.required_login_idxs
          → get_idx_authentication_status 110 full i ≡ authenticated))
get_is_fully_logged_in_iff_example =
    get_is_fully_logged_in_iff 110 full check_disallow_expired_passwords

get_next_required_login_idxs-Answer_example :
    Answer 100 fresh fresh.required_login_idxs
      (get_is_fully_logged_in 100 fresh check_allow_expired_passwords)
      (get_next_required_login_idxs 100 fresh)
get_next_required_login_idxs-Answer_example = get_next_required_login_idxs-Answer 100 fresh refl
