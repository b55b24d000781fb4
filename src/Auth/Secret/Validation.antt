-- ===== src/Auth/Secret/Validation.antt =====
-- When validateStoredSecret accepts, and that a secret accepts the password it was created from.
use lib_mantids.Common.{
  ℕ, ◌≡◌, refl, ◌↔◌, inl, inr, Bool, true, false, not, ◌&&◌, ◌||◌, [], ◌∷◌, ◌++◌, arith, Bytes, ltb,
  ◌==◌, if◌then◌else◌, Bool-cases,
}
use lib_mantids.Auth.Reason.{
  Reason, authenticated, not_implemented, bad_password, expired_password, is_authenticated,
}
use lib_mantids.Auth.Secret.{
  get_auth_mode_from_string, get_string_from_auth_mode, Function, fn_notfound, fn_plain, fn_sha256,
  fn_sha512, fn_ssha256, fn_ssha512, fn_gauthtime, Mode, mode_plain, mode_challenge, Crypto, Secret,
  is_expired, create_new_secret, same, validate_challenge, by_mode, skip_auth_mode,
  validate_stored_secret,
}

same_refl : (xs : Bytes) → same xs xs ≡ true
unfolding same
same_refl [] = refl
same_refl (x ∷ xs) = ground (arith, same_refl xs)

same-true : (xs ys : Bytes) → same xs ys ≡ true → xs ≡ ys
unfolding same
same-true [] [] h = refl
same-true [] (y ∷ ys) h = absurd (ground arith)
same-true (x ∷ xs) [] h = absurd (ground arith)
same-true (x ∷ xs) (y ∷ ys) h = ground (arith, same-true xs ys)

-- The answer that the mode asks for: the stored text, or the digest of it with the challenge.
abbrev pub Answers : Crypto → Secret → Bytes → Bytes → Bytes → Mode → Type 0
Answers crypto s to_compare input salt mode_plain = s.hash ≡ to_compare
Answers crypto s to_compare input salt mode_challenge = input ≡ crypto.calc_sha256 (s.hash ++ salt)

-- What a user must know: nothing is enough for a secret with no function, or of the GAuth kind.
abbrev pub Knows : Crypto → Secret → Function → Bytes → Bytes → Mode → Type 0
Knows crypto s fn_notfound input salt mode = ⊥
Knows crypto s fn_plain input salt mode = Answers crypto s input input salt mode
Knows crypto s fn_sha256 input salt mode =
    Answers crypto s (crypto.calc_sha256 input) input salt mode
Knows crypto s fn_sha512 input salt mode =
    Answers crypto s (crypto.calc_sha512 input) input salt mode
Knows crypto s fn_ssha256 input salt mode =
    Answers crypto s (crypto.calc_ssha256 input s.ssalt) input salt mode
Knows crypto s fn_ssha512 input salt mode =
    Answers crypto s (crypto.calc_ssha512 input s.ssalt) input salt mode
Knows crypto s fn_gauthtime input salt mode = ⊥

matches :
    (a b : Bytes) → ((if same a b then authenticated else bad_password) ≡ authenticated) ↔ (a ≡ b)
matches a b = (λ h. same-true a b (ground arith), λ e. rw (e, same_refl b) refl)

by_mode-Answers :
    (crypto : Crypto) (s : Secret) (d input salt : Bytes) (mode : Mode)
    → (by_mode crypto s d input salt mode ≡ authenticated) ↔ Answers crypto s d input salt mode
unfolding by_mode validate_challenge
by_mode-Answers crypto s d input salt mode_plain = matches s.hash d
by_mode-Answers crypto s d input salt mode_challenge =
    matches input (crypto.calc_sha256 (s.hash ++ salt))

accepts :
    (now : ℕ) (s : Secret) (r : Reason)
    → (skip_auth_mode now s r ≡ authenticated) ↔ ((r ≡ authenticated) × (is_expired now s ≡ false))
unfolding skip_auth_mode is_authenticated
accepts now s r = (λ h. (ground arith, ground arith), λ h. rw (h.0, h.1) refl)

checked :
    (crypto : Crypto) (now : ℕ) (s : Secret) (d input salt : Bytes) (mode : Mode)
    → (skip_auth_mode now s (by_mode crypto s d input salt mode) ≡ authenticated)
      ↔ (Answers crypto s d input salt mode × (is_expired now s ≡ false))
checked crypto now s d input salt mode =
    let outer = accepts now s (by_mode crypto s d input salt mode) in
    let inner = by_mode-Answers crypto s d input salt mode in
    (λ h. let both = outer.0 h in (inner.0 both.0, both.1), λ h. outer.1 (inner.1 h.0, h.1))

Accepts : Crypto → ℕ → Secret → Function → Bytes → Bytes → Mode → Type 0
Accepts crypto now s fn input salt mode =
    (validate_stored_secret crypto now (record s { password_function = fn }) input salt mode
      ≡ authenticated)
    ↔ (Knows crypto (record s { password_function = fn }) fn input salt mode
        × (is_expired now (record s { password_function = fn }) ≡ false))

-- by the function of the secret
each_function :
    (crypto : Crypto) (now : ℕ) (s : Secret) (fn : Function) (input salt : Bytes) (mode : Mode)
    → Accepts crypto now s fn input salt mode
unfolding Accepts validate_stored_secret
each_function crypto now s fn_notfound input salt mode =
    (λ h. absurd (ground arith), λ h. absurd h.0)
each_function crypto now s fn_plain input salt mode =
    checked crypto now (record s { password_function = fn_plain }) input input salt mode
each_function crypto now s fn_sha256 input salt mode =
    checked crypto now (record s { password_function = fn_sha256 }) (crypto.calc_sha256 input) input
      salt mode
each_function crypto now s fn_sha512 input salt mode =
    checked crypto now (record s { password_function = fn_sha512 }) (crypto.calc_sha512 input) input
      salt mode
each_function crypto now s fn_ssha256 input salt mode =
    checked crypto now (record s { password_function = fn_ssha256 })
      (crypto.calc_ssha256 input s.ssalt) input salt mode
each_function crypto now s fn_ssha512 input salt mode =
    checked crypto now (record s { password_function = fn_ssha512 })
      (crypto.calc_ssha512 input s.ssalt) input salt mode
each_function crypto now s fn_gauthtime input salt mode =
    let outer = accepts now (record s { password_function = fn_gauthtime }) not_implemented in
    (λ h. let e = (outer.0 h).0 in absurd (ground arith), λ h. absurd h.0)

-- validateStoredSecret answers REASON_AUTHENTICATED exactly when the user knows what the secret's
-- function and the mode ask for, and the secret is not expired. (With the plain function, the text to
-- compare is the password itself.)
pub validate_stored_secret-authenticated :
    (crypto : Crypto) (now : ℕ) (s : Secret) (input salt : Bytes) (mode : Mode)
    → (validate_stored_secret crypto now s input salt mode ≡ authenticated)
      ↔ (Knows crypto s s.password_function input salt mode × (is_expired now s ≡ false))
unfolding Accepts
validate_stored_secret-authenticated crypto now s input salt mode =
    each_function crypto now s s.password_function input salt mode

-- What a user sends who has the password: the password, or the digest that answers a challenge.
abbrev pub response : Crypto → Secret → Bytes → Bytes → Mode → Bytes
response crypto s input salt mode_plain = input
response crypto s input salt mode_challenge = crypto.calc_sha256 (s.hash ++ salt)

-- The functions that store a text to compare with.
abbrev pub can_validate : Function → Bool
can_validate fn_notfound = false
can_validate fn_plain = true
can_validate fn_sha256 = true
can_validate fn_sha512 = true
can_validate fn_ssha256 = true
can_validate fn_ssha512 = true
can_validate fn_gauthtime = false

verdict :
    (now : ℕ) (s : Secret) (r : Reason)
    → r ≡ authenticated
    → skip_auth_mode now s r ≡ (if is_expired now s then expired_password else authenticated)
unfolding skip_auth_mode is_authenticated
verdict now s r e = elim (Bool-cases (is_expired now s)) [
  | inl x ↦ rw (e, x) refl
  | inr x ↦ rw (e, x) refl
]

by_mode-response :
    (crypto : Crypto) (s : Secret) (digest : Bytes → Bytes) (input chal : Bytes) (mode : Mode)
    → s.hash ≡ digest input
    → by_mode crypto s
        (digest (response crypto s input chal mode))
        (response crypto s input chal mode)
        chal
        mode
      ≡ authenticated
by_mode-response crypto s digest input chal mode_plain e =
    (by_mode-Answers crypto s (digest input) input chal mode_plain).1 e
by_mode-response crypto s digest input chal mode_challenge e =
    let r : Bytes = crypto.calc_sha256 (s.hash ++ chal) in
    (by_mode-Answers crypto s (digest r) r chal mode_challenge).1 refl

stored :
    (crypto : Crypto) (now : ℕ) (s : Secret) (digest : Bytes → Bytes) (input chal : Bytes)
    (mode : Mode)
    → s.hash ≡ digest input
    → skip_auth_mode now s (
        by_mode crypto s
          (digest (response crypto s input chal mode))
          (response crypto s input chal mode)
          chal
          mode)
      ≡ (if is_expired now s then expired_password else authenticated)
stored crypto now s digest input chal mode e =
    verdict now s
      (by_mode crypto s (digest (response crypto s input chal mode))
        (response crypto s input chal mode) chal mode)
      (by_mode-response crypto s digest input chal mode e)

-- A new secret of a function other than FN_NOTFOUND and FN_GAUTHTIME accepts what its password
-- answers, in both modes: the outcome is that the password is expired where the secret is, and
-- REASON_AUTHENTICATED otherwise.
pub validate_stored_secret-create_new_secret :
    (crypto : Crypto) (now : ℕ) (salt input chal : Bytes) (fn : Function) (force : Bool)
    (date steps : ℕ) (mode : Mode)
    → can_validate fn ≡ true
    → let s = create_new_secret crypto salt input fn force date steps in
      validate_stored_secret crypto now s (response crypto s input chal mode) chal mode
      ≡ (if ltb date now && not (date == 0) || force then expired_password else authenticated)
unfolding validate_stored_secret create_new_secret is_expired
validate_stored_secret-create_new_secret crypto now salt input chal fn_plain force date steps mode
      h =
    stored crypto now (create_new_secret crypto salt input fn_plain force date steps) (λ l. l) input
      chal mode refl
validate_stored_secret-create_new_secret crypto now salt input chal fn_sha256 force date steps mode
      h =
    stored crypto now (create_new_secret crypto salt input fn_sha256 force date steps)
      crypto.calc_sha256 input chal mode refl
validate_stored_secret-create_new_secret crypto now salt input chal fn_sha512 force date steps mode
      h =
    stored crypto now (create_new_secret crypto salt input fn_sha512 force date steps)
      crypto.calc_sha512 input chal mode refl
validate_stored_secret-create_new_secret crypto now salt input chal fn_ssha256 force date steps mode
      h =
    stored crypto now (create_new_secret crypto salt input fn_ssha256 force date steps)
      (λ l. crypto.calc_ssha256 l salt) input chal mode refl
validate_stored_secret-create_new_secret crypto now salt input chal fn_ssha512 force date steps mode
      h =
    stored crypto now (create_new_secret crypto salt input fn_ssha512 force date steps)
      (λ l. crypto.calc_ssha512 l salt) input chal mode refl
validate_stored_secret-create_new_secret crypto now salt input chal fn_notfound force date steps
      mode h =
    absurd (ground arith)
validate_stored_secret-create_new_secret crypto now salt input chal fn_gauthtime force date steps
      mode h =
    absurd (ground arith)

-- The text of a mode stands for that mode.
pub get_auth_mode_from_string-get_string_from_auth_mode :
    (mode : Mode) → get_auth_mode_from_string (get_string_from_auth_mode mode) ≡ mode
unfolding get_auth_mode_from_string get_string_from_auth_mode
get_auth_mode_from_string-get_string_from_auth_mode mode_plain = refl
get_auth_mode_from_string-get_string_from_auth_mode mode_challenge = refl
