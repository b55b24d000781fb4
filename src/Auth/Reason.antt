-- ===== src/Auth/Reason.antt =====
-- Auth/mdz_auth/ds_auth_reason.h: the outcome of an authentication.
use lib_mantids.Common.{text, Bytes, Bool, true, false}

pub data Reason : Type 0 where
  authenticated : Reason
  internal_error : Reason
  not_implemented : Reason
  duplicated_session : Reason
  expired_password : Reason
  expired_account : Reason
  disabled_account : Reason
  unconfirmed_account : Reason
  bad_account : Reason
  bad_password : Reason
  password_index_notfound : Reason
  invalid_domain : Reason
  invalid_authenticator : Reason
  sessionlimits_exceeded : Reason
  answer_timedout : Reason
  expired : Reason
  unauthenticated : Reason

-- reason == REASON_AUTHENTICATED
unfoldable pub is_authenticated : Reason → Bool
is_authenticated authenticated = true
is_authenticated r = false

-- IS_PASSWORD_AUTHENTICATED
unfoldable pub is_password_authenticated : Reason → Bool
is_password_authenticated authenticated = true
is_password_authenticated expired_password = true
is_password_authenticated r = false

-- getReasonText and the texts it returns; the enumeration has no other values.
unfoldable pub get_reason_text : Reason → Bytes
get_reason_text authenticated = text "Authenticated"
get_reason_text internal_error = text "Authentication Internal Error"
get_reason_text not_implemented = text "Authentication not implemented yet"
get_reason_text duplicated_session = text "Session ID Duplicated Error"
get_reason_text expired_password = text "Password expired"
get_reason_text expired_account = text "Account expired"
get_reason_text disabled_account = text "Account disabled"
get_reason_text unconfirmed_account = text "Account unconfirmed"
get_reason_text bad_account = text "Invalid Account"
get_reason_text bad_password = text "Invalid password"
get_reason_text password_index_notfound = text "Password Index Not Found"
get_reason_text invalid_domain = text "Invalid domain name"
get_reason_text invalid_authenticator = text "Invalid or undefined authenticator"
get_reason_text sessionlimits_exceeded = text "Sessions limits exceeded"
get_reason_text answer_timedout = text "Answer timed out"
get_reason_text expired = text "Expired authentication"
get_reason_text unauthenticated = text "Not authenticated yet"
