-- ===== src/Auth/Secret.antt =====
-- Auth/mdz_auth/ds_auth_secret.h, ds_auth_function.h, ds_auth_mode.h and
-- accountsecret_validation.cpp: stored secrets, and the validation of what a user sends. A time is a
-- number of seconds since the epoch; `now` is what time(nullptr) returns.
pub mod Validation
use lib_mantids.Common.{
  text, ℕ, Bool, true, false, not, ◌&&◌, ◌||◌, [], ◌∷◌, ◌++◌, text, Bytes, ltb, ◌==◌, if◌then◌else◌,
  replicate,
}
use lib_mantids.Auth.Reason.{
  Reason, authenticated, internal_error, not_implemented, bad_password, expired_password,
  is_authenticated,
}

pub data Function : Type 0 where
  fn_notfound : Function
  fn_plain : Function
  fn_sha256 : Function
  fn_sha512 : Function
  fn_ssha256 : Function
  fn_ssha512 : Function
  fn_gauthtime : Function

pub data Mode : Type 0 where
  mode_plain : Mode
  mode_challenge : Mode

-- Helpers::Crypto, whose digests OpenSSL calculates.
pub record Crypto : Type 0 where
  pub calc_sha256 : Bytes → Bytes
  pub calc_sha512 : Bytes → Bytes
  pub calc_ssha256 : Bytes → Bytes → Bytes
  pub calc_ssha512 : Bytes → Bytes → Bytes

pub record Secret : Type 0 where
  pub g_auth_steps : ℕ
  pub force_expiration : Bool
  pub password_function : Function
  pub bad_attempts : ℕ
  pub expiration : ℕ
  pub hash : Bytes
  pub ssalt : Bytes

pub record SecretPublicData : Type 0 where
  pub password_function : Function
  pub ssalt : Bytes
  pub expiration : ℕ
  pub force_expiration : Bool
  pub bad_attempts : ℕ
  pub description : Bytes
  pub required_at_login : Bool
  pub locked : Bool
  pub nul : Bool

-- Secret::Secret
abbrev pub new : Secret
new = record {
  g_auth_steps = 0;
  force_expiration = false;
  password_function = fn_plain;
  bad_attempts = 0;
  expiration = 0;
  hash = [];
  ssalt = replicate 4 0xff;
}

unfoldable pub is_expired : ℕ → Secret → Bool
is_expired now s = ltb s.expiration now && not (s.expiration == 0) || s.force_expiration

-- Secret_PublicData::isExpired
unfoldable pub public_is_expired : ℕ → SecretPublicData → Bool
public_is_expired now s = ltb s.expiration now && not (s.expiration == 0) || s.force_expiration

unfoldable pub get_basic_data : Secret → SecretPublicData
get_basic_data s = record {
  password_function = s.password_function;
  ssalt = s.ssalt;
  expiration = s.expiration;
  force_expiration = s.force_expiration;
  bad_attempts = s.bad_attempts;
  description = [];
  required_at_login = false;
  locked = false;
  nul = false;
}

-- `salt` is what createRandomSalt32 writes.
unfoldable pub create_new_secret : Crypto → Bytes → Bytes → Function → Bool → ℕ → ℕ → Secret
create_new_secret crypto salt input fn force date steps =
    let r = record new { password_function = fn; force_expiration = force; expiration = date } in
    elim fn [
      | fn_notfound ↦ r
      | fn_plain ↦ record r { hash = input }
      | fn_sha256 ↦ record r { hash = crypto.calc_sha256 input }
      | fn_sha512 ↦ record r { hash = crypto.calc_sha512 input }
      | fn_ssha256 ↦ record r { ssalt = salt; hash = crypto.calc_ssha256 input salt }
      | fn_ssha512 ↦ record r { ssalt = salt; hash = crypto.calc_ssha512 input salt }
      | fn_gauthtime ↦ record r { hash = input; g_auth_steps = steps }
    ]

-- std::string's operator==
unfoldable pub same : Bytes → Bytes → Bool
same [] [] = true
same [] (y ∷ ys) = false
same (x ∷ xs) [] = false
same (x ∷ xs) (y ∷ ys) = x == y && same xs ys

unfoldable pub validate_challenge : Crypto → Bytes → Bytes → Bytes → Reason
unfolding same
validate_challenge crypto from_db input salt =
    if same input (crypto.calc_sha256 (from_db ++ salt)) then authenticated else bad_password

abbrev pub validate_g_auth : Bytes → Bytes → Reason
validate_g_auth seed token = not_implemented

-- The switch over authMode, on the text to compare.
unfoldable pub by_mode : Crypto → Secret → Bytes → Bytes → Bytes → Mode → Reason
unfolding same validate_challenge
by_mode crypto s to_compare input salt mode_plain =
    if same s.hash to_compare then authenticated else bad_password
by_mode crypto s to_compare input salt mode_challenge = validate_challenge crypto s.hash input salt

-- skipAuthMode
unfoldable pub skip_auth_mode : ℕ → Secret → Reason → Reason
unfolding is_expired is_authenticated
skip_auth_mode now s r = if is_expired now s && is_authenticated r then expired_password else r

unfoldable pub validate_stored_secret : Crypto → ℕ → Secret → Bytes → Bytes → Mode → Reason
unfolding by_mode skip_auth_mode
validate_stored_secret crypto now s input salt mode = elim s.password_function [
  | fn_notfound ↦ internal_error
  | fn_plain ↦ skip_auth_mode now s (by_mode crypto s input input salt mode)
  | fn_sha256 ↦ skip_auth_mode now s (by_mode crypto s (crypto.calc_sha256 input) input salt mode)
  | fn_sha512 ↦ skip_auth_mode now s (by_mode crypto s (crypto.calc_sha512 input) input salt mode)
  | fn_ssha256 ↦
      skip_auth_mode now s (by_mode crypto s (crypto.calc_ssha256 input s.ssalt) input salt mode)
  | fn_ssha512 ↦
      skip_auth_mode now s (by_mode crypto s (crypto.calc_ssha512 input s.ssalt) input salt mode)
  | fn_gauthtime ↦ skip_auth_mode now s (validate_g_auth s.hash input)
]

-- getAuthModeFromString: every other text is the plain mode.
unfoldable pub get_auth_mode_from_string : Bytes → Mode
unfolding same
get_auth_mode_from_string mode = if same mode (text "CHALLENGE") then mode_challenge else mode_plain

unfoldable pub get_string_from_auth_mode : Mode → Bytes
get_string_from_auth_mode mode_plain = text "PLAIN"
get_string_from_auth_mode mode_challenge = text "CHALLENGE"
