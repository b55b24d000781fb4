-- ===== src/Auth/Manager/Lockout.antt =====
-- Wrong passwords, up to the last one that the policy allows, and beyond.
use lib_mantids.Common.{
  ℕ, ◌+◌, ◌%◌, ◌^◌, ◌≤◌, ◌<◌, ◌≡◌, refl, sym, ap, ◌∙◌, true, false, none, List, [], ◌∷◌, arith,
  Bytes, ltb, leb, if◌then◌else◌, length,
}
use lib_mantids.Auth.Reason.{Reason, disabled_account, is_password_authenticated}
use lib_mantids.Auth.Secret.{Crypto, Secret, validate_stored_secret}
use lib_mantids.Auth.Manager.{
  AccountsOps, Manager, Request, is_account_expired, first_login, judge, register, authenticate,
  registered, returned, settle,
}
use mathlib.Core.Path.{subst}

module _ {A : Type 0} (ops : AccountsOps A) (crypto : Crypto) (now : ℕ) (max_tries abandoned : ℕ)
    (q : Request) where
  -- The manager over the accounts `a`.
  abbrev pub over : A → Manager A
  over a = record {
    accounts = a;
    max_tries = max_tries;
    abandoned_account_expiration_seconds = abandoned;
  }

  -- An account that the request can log in to, and the secret of its index.
  pub record IsUsable (a : A) (s : Secret) : Type 0 where
    pub found : ops.retrieve_secret a q.account_name q.pass_index ≡ (s, true, true)
    pub valid : ops.application_validate_account a q.app_name q.account_name ≡ true
    pub confirmed : ops.is_account_confirmed a q.account_name ≡ true
    pub enabled : ops.is_account_disabled a q.account_name ≡ false
    pub not_expired : is_account_expired ops a now q.account_name ≡ false
    pub not_abandoned : ltb (ops.account_last_login a q.account_name + abandoned) now ≡ false

  -- What the store does: an attempt is counted at its secret alone, and an account that is disabled
  -- is found disabled.
  pub record IsStore : Type 0 where
    pub counts :
        (a : A) (s : Secret)
        → IsUsable a s
        → IsUsable
            (ops.increment_bad_attempts a q.account_name q.pass_index)
            (record s { bad_attempts = s.bad_attempts + 1 })
    pub disables :
        (a : A) (s : Secret)
        → IsUsable a s
        → let b = (ops.account_disable a q.account_name true).0 in
          (ops.retrieve_secret b q.account_name q.pass_index ≡ (s, true, true))
          × (ops.application_validate_account b q.app_name q.account_name ≡ true)
          × (ops.is_account_confirmed b q.account_name ≡ true)
          × (ops.is_account_disabled b q.account_name ≡ true)

  -- The request with another password.
  abbrev pub asks : Bytes → Request
  asks password = record q { incoming_password = password; wants_indexes = false }

  -- The accounts after some attempts.
  unfoldable pub after : A → List Bytes → A
  after a [] = a
  after a (password ∷ passwords) =
      after (authenticate ops crypto now (over a) (asks password)).0.1 passwords

  abbrev pub answer_to : A → Bytes → Reason
  answer_to a password = (authenticate ops crypto now (over a) (asks password)).0.0

  abbrev pub AllWrong : Secret → List Bytes → Type 0
  AllWrong s [] = Unit {0}
  AllWrong s (password ∷ passwords) =
      (is_password_authenticated
          (validate_stored_secret crypto now s password q.challenge_salt q.auth_mode)
        ≡ false)
      × AllWrong s passwords

  -- The store that refuses to disable the account, as the database does with the last superuser.
  unfoldable pub Refuses : A → Type 0
  Refuses a = (ops.account_disable a q.account_name true).0 ≡ a

  validate_uncounted :
      (s : Secret) (n : ℕ) (password : Bytes)
      → validate_stored_secret crypto now
          (record s { bad_attempts = n })
          password
          q.challenge_salt
          q.auth_mode
        ≡ validate_stored_secret crypto now s password q.challenge_salt q.auth_mode
  unfolding validate_stored_secret
  validate_uncounted s n password = refl

  AllWrong-uncounted :
      (s : Secret) (n : ℕ) (passwords : List Bytes)
      → AllWrong s passwords
      → AllWrong (record s { bad_attempts = n }) passwords
  AllWrong-uncounted s n [] h = tt
  AllWrong-uncounted s n (password ∷ passwords) (wrong, all) = (
    ap is_password_authenticated (validate_uncounted s n password) ∙ wrong,
    AllWrong-uncounted s n passwords all,
  )

  -- A usable account comes to the validation of the password.
  judge-IsUsable :
      (a : A) (s : Secret) (password : Bytes)
      → IsUsable a s
      → judge ops crypto now (over a) (asks password)
        ≡ first_login ops a
            (asks password)
            (validate_stored_secret crypto now s password q.challenge_salt q.auth_mode)
  unfolding judge
  judge-IsUsable a s password u =
      rw (u.found, judge, u.valid, u.confirmed, u.enabled, u.not_expired, u.not_abandoned)

  first_login-plain :
      (a : A) (password : Bytes) (r : Reason)
      → first_login ops a (asks password) r ≡ (registered r, none)
  unfolding first_login
  first_login-plain a password r = ground arith

  authenticate-registered :
      (a : A) (s : Secret) (password : Bytes)
      → IsUsable a s
      → let r = validate_stored_secret crypto now s password q.challenge_salt q.auth_mode in
        authenticate ops crypto now (over a) (asks password)
        ≡ ((r, register ops (over a) (asks password) r), none)
  unfolding authenticate
  authenticate-registered a s password u = rw (
    judge-IsUsable a s password u
        ∙ first_login-plain a password
            (validate_stored_secret crypto now s password q.challenge_salt q.auth_mode),
    authenticate,
  )

  register-wrong :
      (a : A) (s : Secret) (password : Bytes) (r : Reason)
      → IsUsable a s
      → is_password_authenticated r ≡ false
      → register ops (over a) (asks password) r ≡ (
          if leb max_tries ((s.bad_attempts + 1) % 2 ^ 32)
          then (ops.account_disable a q.account_name true).0
          else ops.increment_bad_attempts a q.account_name q.pass_index)
  unfolding register
  register-wrong a s password r u wrong = rw (u.found, register, wrong)

  after-wrong :
      (a : A) (s : Secret) (password : Bytes)
      → IsUsable a s
      → is_password_authenticated
          (validate_stored_secret crypto now s password q.challenge_salt q.auth_mode)
        ≡ false
      → (authenticate ops crypto now (over a) (asks password)).0.1 ≡ (
          if leb max_tries ((s.bad_attempts + 1) % 2 ^ 32)
          then (ops.account_disable a q.account_name true).0
          else ops.increment_bad_attempts a q.account_name q.pass_index)
  after-wrong a s password u wrong =
      ap (λ t. t.0.1) (authenticate-registered a s password u)
      ∙ register-wrong a s password _ u wrong

  not_yet :
      (n : ℕ) → n + 1 < max_tries → max_tries < 2 ^ 32 → leb max_tries ((n + 1) % 2 ^ 32) ≡ false
  not_yet n h small = ground arith

  at_last : (n : ℕ) → max_tries ≤ n + 1 → n + 1 < 2 ^ 32 → leb max_tries ((n + 1) % 2 ^ 32) ≡ true
  at_last n h small = ground arith

  judge-disabled :
      (b : A) (s : Secret) (password : Bytes)
      → ops.retrieve_secret b q.account_name q.pass_index ≡ (s, true, true)
      → ops.application_validate_account b q.app_name q.account_name ≡ true
      → ops.is_account_confirmed b q.account_name ≡ true
      → ops.is_account_disabled b q.account_name ≡ true
      → judge ops crypto now (over b) (asks password) ≡ (returned disabled_account, none)
  unfolding judge
  judge-disabled b s password found valid confirmed disabled =
      rw (found, judge, valid, confirmed, disabled)

  after-disabled :
      (b : A) (s : Secret) (passwords : List Bytes)
      → ops.retrieve_secret b q.account_name q.pass_index ≡ (s, true, true)
      → ops.application_validate_account b q.app_name q.account_name ≡ true
      → ops.is_account_confirmed b q.account_name ≡ true
      → ops.is_account_disabled b q.account_name ≡ true
      → after b passwords ≡ b
  unfolding after authenticate
  after-disabled b s [] found valid confirmed disabled = refl
  after-disabled b s (password ∷ passwords) found valid confirmed disabled =
      ap (λ v. after (settle ops (over b) (asks password) v.0).1 passwords)
        (judge-disabled b s password found valid confirmed disabled)
      ∙ after-disabled b s passwords found valid confirmed disabled

  answer_to-disabled :
      (b : A) (s : Secret) (password : Bytes)
      → ops.retrieve_secret b q.account_name q.pass_index ≡ (s, true, true)
      → ops.application_validate_account b q.app_name q.account_name ≡ true
      → ops.is_account_confirmed b q.account_name ≡ true
      → ops.is_account_disabled b q.account_name ≡ true
      → answer_to b password ≡ disabled_account
  unfolding authenticate
  answer_to-disabled b s password found valid confirmed disabled =
      ap (λ v. (settle ops (over b) (asks password) v.0).0)
        (judge-disabled b s password found valid confirmed disabled)

  module _ (small : max_tries < 2 ^ 32) (store : IsStore) where
    -- While wrong passwords stay below the limit, the account stays usable, and its secret counts them.
    after-IsUsable :
        (passwords : List Bytes) (a : A) (s : Secret)
        → IsUsable a s
        → AllWrong s passwords
        → s.bad_attempts + length passwords < max_tries
        → IsUsable
            (after a passwords)
            (record s { bad_attempts = s.bad_attempts + length passwords })
    unfolding after
    after-IsUsable [] a s u wrong few =
        subst (λ n. IsUsable a (record s { bad_attempts = n })) {x = s.bad_attempts}
          {y = s.bad_attempts + 0} (omega arith) u
    after-IsUsable (password ∷ passwords) a s u (wrong, all) few =
        let n = s.bad_attempts in
        let counted = store.counts a s u in
        let step =
          after-wrong a s password u wrong
          ∙ ap
              (λ t.
                if t
                then (ops.account_disable a q.account_name true).0
                else ops.increment_bad_attempts a q.account_name q.pass_index)
              (not_yet n (omega arith) small) in
        subst
          (λ b.
            IsUsable (after b passwords)
              (record s { bad_attempts = n + length (password ∷ passwords) }))
          (sym step)
          (subst
            (λ k.
              IsUsable (after (ops.increment_bad_attempts a q.account_name q.pass_index) passwords)
                (record s { bad_attempts = k }))
            {x = n + 1 + length passwords} {y = n + length (password ∷ passwords)} (omega arith)
            (after-IsUsable passwords (ops.increment_bad_attempts a q.account_name q.pass_index)
              (record s { bad_attempts = n + 1 }) counted
              (AllWrong-uncounted s (n + 1) passwords all) (omega arith)))

    -- Wrong passwords below the limit leave the account open: the next password is answered as the
    -- secret asks for.
    pub answer_to-open :
        (passwords : List Bytes) (password : Bytes) (a : A) (s : Secret)
        → IsUsable a s
        → AllWrong s passwords
        → s.bad_attempts + length passwords < max_tries
        → answer_to (after a passwords) password
          ≡ validate_stored_secret crypto now s password q.challenge_salt q.auth_mode
    answer_to-open passwords password a s u wrong few =
        let t = record s { bad_attempts = s.bad_attempts + length passwords } in
        ap (λ r. r.0.0)
          (authenticate-registered (after a passwords) t password
            (after-IsUsable passwords a s u wrong few))
        ∙ validate_uncounted s (s.bad_attempts + length passwords) password

    -- Where the store counts an attempt and disables an account when it is told to, the wrong
    -- password that reaches the limit of tries, a number below 2 ^ 32, disables a usable account:
    -- with the same clock, authenticate answers every password after it, the right one too and
    -- however many came before it, that the account is disabled.
    pub answer_to-locked :
        (passwords : List Bytes) (last : Bytes) (others : List Bytes) (password : Bytes) (a : A)
        (s : Secret)
        → IsUsable a s
        → AllWrong s passwords
        → AllWrong s (last ∷ [])
        → s.bad_attempts + length passwords + 1 ≡ max_tries
        → answer_to (after (after (after a passwords) (last ∷ [])) others) password
          ≡ disabled_account
    unfolding after
    answer_to-locked passwords last others password a s u wrong (last_wrong, _) limit =
        let n = s.bad_attempts + length passwords in
        let t = record s { bad_attempts = n } in
        let b = after a passwords in
        let v = after-IsUsable passwords a s u wrong (omega arith) in
        let (found, valid, confirmed, disabled) = store.disables b t v in
        let step =
          after-wrong b t last v
            (ap is_password_authenticated (validate_uncounted s n last) ∙ last_wrong)
          ∙ ap
              (λ c.
                if c
                then (ops.account_disable b q.account_name true).0
                else ops.increment_bad_attempts b q.account_name q.pass_index)
              (at_last n (omega arith) (omega arith)) in
        ap (λ c. answer_to (after c others) password) step
        ∙ ap (λ c. answer_to c password)
            (after-disabled (ops.account_disable b q.account_name true).0 t others found valid
              confirmed disabled)
        ∙ answer_to-disabled (ops.account_disable b q.account_name true).0 t password found valid
            confirmed disabled

  -- Where the store refuses to disable the account at its limit, wrong passwords change nothing: they
  -- may be as many as there are, and the next password is answered as before.
  pub after-Refuses :
      (passwords : List Bytes) (a : A) (s : Secret)
      → IsUsable a s
      → AllWrong s passwords
      → max_tries ≤ s.bad_attempts + 1
      → s.bad_attempts + 1 < 2 ^ 32
      → Refuses a
      → after a passwords ≡ a
  unfolding after Refuses
  after-Refuses [] a s u wrong limit small refuses = refl
  after-Refuses (password ∷ passwords) a s u (wrong, all) limit small refuses =
      ap (λ b. after b passwords)
        (after-wrong a s password u wrong
          ∙ ap
              (λ c.
                if c
                then (ops.account_disable a q.account_name true).0
                else ops.increment_bad_attempts a q.account_name q.pass_index)
              (at_last s.bad_attempts limit small)
          ∙ refuses)
      ∙ after-Refuses passwords a s u all limit small refuses
