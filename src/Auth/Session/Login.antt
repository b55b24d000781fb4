-- ===== src/Auth/Session/Login.antt =====
-- Which sessions are logged in, and which password getNextRequiredLoginIdxs asks for.
use lib_mantids.Common.{
  ℕ, ◌≡◌, refl, ap, ◌∙◌, ◌↔◌, ◌⊎◌, inl, inr, Bool, true, false, not, ◌&&◌, List, [], ◌∷◌, arith,
  Bytes, if◌then◌else◌, Bool-cases,
}
use lib_mantids.Auth.Reason.{
  Reason, authenticated, expired_password, is_authenticated, is_password_authenticated,
}
use lib_mantids.Auth.Session.{
  CheckMode, check_disallow_expired_passwords, check_allow_expired_passwords, Session,
  get_idx_authentication_status, next_required, get_next_required_login_idxs, passes, all_pass,
  get_is_fully_logged_in,
}

-- The index is one of the required ones.
abbrev pub IsRequired : ℕ → List (ℕ × Bytes) → Type 0
IsRequired i [] = ⊥
IsRequired i ((j, name) ∷ required) = (i ≡ j) ⊎ IsRequired i required

all_pass-required :
    (now : ℕ) (s : Session) (mode : CheckMode) (required : List (ℕ × Bytes))
    → all_pass now s mode required ≡ true
    → (i : ℕ) → IsRequired i required
    → passes mode (get_idx_authentication_status now s i) ≡ true
unfolding all_pass
all_pass-required now s mode [] h i r = absurd r
all_pass-required now s mode ((j, name) ∷ required) h i (inl e) =
    ap (λ k. passes mode (get_idx_authentication_status now s k)) e ∙ ground arith
all_pass-required now s mode ((j, name) ∷ required) h i (inr r) =
    all_pass-required now s mode required (ground arith) i r

required-all_pass :
    (now : ℕ) (s : Session) (mode : CheckMode) (required : List (ℕ × Bytes))
    → ((i : ℕ) → IsRequired i required → passes mode (get_idx_authentication_status now s i) ≡ true)
    → all_pass now s mode required ≡ true
unfolding all_pass
required-all_pass now s mode [] h = refl
required-all_pass now s mode ((j, name) ∷ required) h =
    rw (h j (inl refl)) (required-all_pass now s mode required (λ i r. h i (inr r)))

-- Is some password required.
abbrev pub is_some_required : List (ℕ × Bytes) → Bool
is_some_required [] = false
is_some_required (r ∷ required) = true

logged_in :
    (now : ℕ) (s : Session) (mode : CheckMode) (required : List (ℕ × Bytes))
    → s.required_login_idxs ≡ required
    → get_is_fully_logged_in now s mode
      ≡ (is_some_required required && all_pass now s mode required)
unfolding get_is_fully_logged_in
logged_in now s mode [] e = rw e refl
logged_in now s mode (r ∷ required) e = rw e refl

-- What a mode asks of the status of a required index.
abbrev pub Admits : CheckMode → Reason → Type 0
Admits check_disallow_expired_passwords r = r ≡ authenticated
Admits check_allow_expired_passwords r = (r ≡ authenticated) ⊎ (r ≡ expired_password)

passes-Admits : (mode : CheckMode) (r : Reason) → passes mode r ≡ true → Admits mode r
unfolding passes is_authenticated is_password_authenticated
passes-Admits check_disallow_expired_passwords r h = ground arith
passes-Admits check_allow_expired_passwords r h = ground arith

Admits-passes : (mode : CheckMode) (r : Reason) → Admits mode r → passes mode r ≡ true
unfolding passes is_authenticated is_password_authenticated
Admits-passes check_disallow_expired_passwords r h = ground arith
Admits-passes check_allow_expired_passwords r h = ground arith

-- A session counts as logged in exactly when some password is required and each required index has
-- the status REASON_AUTHENTICATED or, in the mode that allows expired passwords,
-- REASON_EXPIRED_PASSWORD.
pub get_is_fully_logged_in_iff :
    (now : ℕ) (s : Session) (mode : CheckMode)
    → (get_is_fully_logged_in now s mode ≡ true) ↔ (
        (is_some_required s.required_login_idxs ≡ true)
        × ((i : ℕ)
            → IsRequired i s.required_login_idxs
            → Admits mode (get_idx_authentication_status now s i)))
get_is_fully_logged_in_iff now s mode =
    let e = logged_in now s mode s.required_login_idxs refl in
    (
      λ h. (
        ground arith,
        λ i r.
            passes-Admits mode (get_idx_authentication_status now s i)
              (all_pass-required now s mode s.required_login_idxs (ground arith) i r),
      ),
      λ h.
          rw
            (
              e,
              h.0,
              required-all_pass now s mode s.required_login_idxs
                  (λ i r. Admits-passes mode (get_idx_authentication_status now s i) (h.1 i r)),
            )
            refl,
    )

-- The first required password that is missing, or the mark that none is.
unfoldable pub Answer : ℕ → Session → List (ℕ × Bytes) → Bool → ℕ × Bytes → Type 0
Answer now s required all next =
    ((all ≡ true) × (next ≡ (0xffffffff, [])))
    ⊎ ((all ≡ false)
        × IsRequired next.0 required
        × (is_password_authenticated (get_idx_authentication_status now s next.0) ≡ false))

one_more :
    (now : ℕ) (s : Session) (i : ℕ) (name : Bytes) (required : List (ℕ × Bytes)) (all : Bool)
    (next : ℕ × Bytes)
    → Answer now s required all next
    → Answer now s ((i, name) ∷ required) all next
unfolding Answer
one_more now s i name required all next (inl n) = inl n
one_more now s i name required all next (inr n) = inr (n.0, inr n.1, n.2)

all_pass-next :
    (now : ℕ) (s : Session) (i : ℕ) (name : Bytes) (required : List (ℕ × Bytes)) (b : Bool)
    → is_password_authenticated (get_idx_authentication_status now s i) ≡ b
    → all_pass now s check_allow_expired_passwords ((i, name) ∷ required)
      ≡ (if not b then false else all_pass now s check_allow_expired_passwords required)
unfolding all_pass passes
all_pass-next now s i name required b e =
    ap (λ t. if not t then false else all_pass now s check_allow_expired_passwords required) e

next_required-next :
    (now : ℕ) (s : Session) (i : ℕ) (name : Bytes) (required : List (ℕ × Bytes)) (b : Bool)
    → is_password_authenticated (get_idx_authentication_status now s i) ≡ b
    → next_required now s ((i, name) ∷ required)
      ≡ (if not b then (i, name) else next_required now s required)
unfolding next_required
next_required-next now s i name required b e =
    ap (λ t. if not t then (i, name) else next_required now s required) e

next_required-Answer :
    (now : ℕ) (s : Session) (required : List (ℕ × Bytes))
    → Answer now s required
        (all_pass now s check_allow_expired_passwords required)
        (next_required now s required)
next_required-Answer now s [] = unfold Answer next_required all_pass in inl (refl, refl)
next_required-Answer now s ((i, name) ∷ required) =
    elim (Bool-cases (is_password_authenticated (get_idx_authentication_status now s i))) [
      | inl e ↦
          rw
            (
              all_pass-next now s i name required true e,
              next_required-next now s i name required true e,
            )
            (one_more now s i name required (all_pass now s check_allow_expired_passwords required)
              (next_required now s required) (next_required-Answer now s required))
      | inr e ↦
          rw
            (
              all_pass-next now s i name required false e,
              next_required-next now s i name required false e,
            )
            (unfold Answer in inr (refl, inl refl, e))
    ]

-- Where some password is required, getNextRequiredLoginIdxs agrees with getIsFullyLoggedIn in the
-- mode that allows expired passwords: it answers its mark that no password is missing where the
-- session counts as logged in, and else a required index whose password is not authenticated.
pub get_next_required_login_idxs-Answer :
    (now : ℕ) (s : Session)
    → is_some_required s.required_login_idxs ≡ true
    → Answer now s s.required_login_idxs
        (get_is_fully_logged_in now s check_allow_expired_passwords)
        (get_next_required_login_idxs now s)
unfolding get_next_required_login_idxs
get_next_required_login_idxs-Answer now s h =
    rw (logged_in now s check_allow_expired_passwords s.required_login_idxs refl, h)
      (next_required-Answer now s s.required_login_idxs)
