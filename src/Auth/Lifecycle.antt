-- ===== src/Auth/Lifecycle.antt =====
-- From the sign-up to the first request of a session: each step succeeds on what the one before left.
pub mod Journey
use lavs_core.Prelude.{
  ℕ, ◌≡◌, refl, sym, ap, ◌∙◌, subst, ◌⊎◌, inl, inr, Bool, true, false, not, ◌||◌, ◌&&◌, Option,
  none, some, List, [], ◌∷◌, ◌++◌, String, str_eq, eq_iff, arith, any, any-append, select,
  select-append, map, ltb, if◌then◌else◌, Result, ok, err, ℤ, Bool-cases, Option-cases,
  Result-cases,
}
use lavs_core.Text.{Text, text_eq, text_eq_iff}
use lavs_core.Environ.{Environ}
use lavs_core.Database.Statements.{update_where}
use lavs_core.Database.Rows.{any-select, select_of_absent}
use lavs_core.Auth.{
  User, active, pending, Session, VerificationToken, Accounts, AuthError, is_none, is_live,
  fetchone, create_user, issue, activate_user, consume, after_seconds, get_user_by_email,
  get_user_by_id, find_active, verify, create_session, lookup_active_user_id,
}
use lavs_core.Auth.Verification.{verify-found}
use lavs_core.Auth.Sessions.{lookup_active_user_id-create_session}
use lavs_core.Auth.Settings.{
  AuthSettings, allowed_email_domains, edition, ttl_seconds, session_ttl_seconds,
}
use lavs_core.Auth.Principals.{user, Request, Principal, session_cookie, authenticate_session}
use lavs_core.Auth.Signup.{
  SignupModel, SignupError, State, CapturedEmail, CaptureMailer, subject, body, send, mailed,
  send_token, new_user, created, register_new, assert_domain_allowed, assert_email_available,
  check_signup, register,
}
use lavs_core.Auth.Routes.{
  Argon2Error, UserResponse, to_response, Cookie, set_session_cookie, LoginError, opened,
  open_session, login,
}
use lavs_core.Auth.Routes.Login.{admitted, with_session}

-- A new row is the only one that passes a test that no other passes.
module _ {A : Type 0} (p : A → Bool) (x : A) where
  select_new : (xs : List A) → any p xs ≡ false → p x ≡ true → select p (xs ++ x ∷ []) ≡ x ∷ []
  select_new xs h k = select-append p xs (x ∷ []) ∙ rw (select_of_absent p xs h, k) refl

  update_new :
      (f : A → A) (xs : List A)
      → any p xs ≡ false
      → p x ≡ true
      → update_where p f (xs ++ x ∷ []) ≡ xs ++ f x ∷ []
  update_new f [] h k = rw k refl
  update_new f (y ∷ ys) h k = ground (arith, update_new f ys (ground arith) k)

pub absent_of_none :
    {A : Type 0} (p : A → Bool) (xs : List A) → fetchone (select p xs) ≡ none → any p xs ≡ false
absent_of_none p xs e = elim (Bool-cases (any p xs)) [
  | inr h ↦ h
  | inl h ↦ let (x, rest, q) = any-select p xs h in cc (rw q at e)
]

-- The checks of a sign-up pass only if no user has the address.
pub available :
    (email : Text) (allowed : List Text) (a : Accounts)
    → check_signup email allowed a ≡ ok tt
    → any (λ u. text_eq u.email email) a.users ≡ false
unfolding check_signup assert_email_available get_user_by_email
available email allowed a e = elim (Option-cases (get_user_by_email email a)) [
  | inl q ↦ absent_of_none (λ u. text_eq u.email email) a.users q
  | inr (u, q) ↦ elim (Result-cases (assert_domain_allowed email allowed)) [
    | inl (x, d) ↦ cc (rw d at e)
    | inr (x, d) ↦
        let passed : assert_email_available email a ≡ ok tt = rw d at e in
        cc (rw (q, assert_email_available) at passed)
  ]
]

not_live :
    (at : ℕ) (h : String) (ts : List VerificationToken)
    → any (λ t. str_eq t.token_hash h) ts ≡ false
    → any (is_live at h) ts ≡ false
not_live at h [] e = refl
not_live at h (t ∷ ts) e = ground (arith, not_live at h ts)

module _ (hash_password hash_token : String → String)
    (argon2_verify : String → String → Result Argon2Error (Unit {0})) (now : ℕ)
    (user_id raw_token : String) (model : SignupModel) (label : Text) (ttl : ℤ) (s : State) where
  abbrev pub stored_user : User
  stored_user = new_user hash_password hash_token now user_id raw_token model label

  abbrev pub stored_token : VerificationToken
  stored_token = record {
    token_hash = hash_token raw_token;
    user_id = user_id;
    expires_at = after_seconds now ttl;
    consumed_at = none;
  }

  abbrev pub message : CapturedEmail
  message = record { to = model.email; subject = subject; body = body raw_token }

  abbrev pub signed_up : State
  signed_up = record {
    accounts = record s.accounts {
      users = s.accounts.users ++ stored_user ∷ [];
      tokens = s.accounts.tokens ++ stored_token ∷ [];
    };
    mailer = send message s.mailer;
  }

  abbrev pub verified_user : User
  verified_user = record stored_user { status = active }

  abbrev pub verified_accounts : ℕ → Accounts
  verified_accounts at = record s.accounts {
    users = s.accounts.users ++ verified_user ∷ [];
    tokens = s.accounts.tokens ++ record stored_token { consumed_at = some at } ∷ [];
  }

  module _ (new_id : any (λ u. str_eq u.id user_id) s.accounts.users ≡ false)
      (new_email : any (λ u. text_eq u.email model.email) s.accounts.users ≡ false)
      (new_token : any (λ t. str_eq t.token_hash (hash_token raw_token)) s.accounts.tokens
        ≡ false) where
    pub register_new-ok :
        register_new hash_password hash_token now user_id raw_token model label (some ttl) s
        ≡ (ok tt, signed_up)
    unfolding register_new create_user created send_token issue
    register_new-ok = rw (new_id, new_email) (rw new_token (rw known_pending refl))
      where
        known_pending : any (λ u. str_eq u.id user_id) (s.accounts.users ++ stored_user ∷ []) ≡ true
        known_pending =
            any-append (λ u. str_eq u.id user_id) s.accounts.users (stored_user ∷ [])
            ∙ ground (arith, eq_iff user_id user_id)

    pub known : any (λ u. str_eq u.id user_id) (s.accounts.users ++ verified_user ∷ []) ≡ true
    known =
        any-append (λ u. str_eq u.id user_id) s.accounts.users (verified_user ∷ [])
        ∙ ground (arith, eq_iff user_id user_id)

    find_active-ok :
        (at : ℕ)
        → ltb at (after_seconds now ttl) ≡ true
        → find_active at (hash_token raw_token) signed_up.accounts ≡ some stored_token
    unfolding find_active
    find_active-ok at live =
        rw
          (select_new (is_live at (hash_token raw_token)) stored_token s.accounts.tokens
            (not_live at (hash_token raw_token) s.accounts.tokens new_token)
            (ground (arith, eq_iff (hash_token raw_token) (hash_token raw_token))))
          refl

    consume-ok :
        (at : ℕ)
        → consume at (hash_token raw_token) (activate_user stored_token.user_id signed_up.accounts)
          ≡ verified_accounts at
    unfolding consume activate_user
    consume-ok at =
        rw
          (
            update_new (λ u. str_eq u.id user_id) stored_user (λ u. record u { status = active })
                s.accounts.users new_id ((eq_iff user_id user_id).1 refl),
            update_new (λ t. str_eq t.token_hash (hash_token raw_token)) stored_token
                (λ t. record t { consumed_at = some at }) s.accounts.tokens new_token
                ((eq_iff (hash_token raw_token) (hash_token raw_token)).1 refl),
          )
          refl

    pub get_user_by_id-ok :
        (at : ℕ) → get_user_by_id stored_token.user_id (verified_accounts at) ≡ some verified_user
    unfolding get_user_by_id
    get_user_by_id-ok at =
        rw
          (select_new (λ u. str_eq u.id user_id) verified_user s.accounts.users new_id
            ((eq_iff user_id user_id).1 refl))
          refl

    pub get_user_by_email-ok :
        (at : ℕ) → get_user_by_email model.email (verified_accounts at) ≡ some verified_user
    unfolding get_user_by_email
    get_user_by_email-ok at =
        rw
          (select_new (λ u. text_eq u.email model.email) verified_user s.accounts.users new_email
            ((text_eq_iff model.email model.email).1 refl))
          refl

    pub verify-ok :
        (at : ℕ)
        → ltb at (after_seconds now ttl) ≡ true
        → verify hash_token at raw_token signed_up.accounts
          ≡ (ok verified_user, verified_accounts at)
    verify-ok at live =
        verify-found hash_token at raw_token signed_up.accounts (verified_accounts at) stored_token
          verified_user (find_active-ok at live) (consume-ok at) (get_user_by_id-ok at)

    module _ (session_id token : String) (at later : ℕ) (session_ttl : ℤ)
        (new_session : any (λ t. str_eq t.id session_id) s.accounts.sessions ≡ false) where
      pub create_session-ok :
          create_session hash_token later session_id token user_id session_ttl
            (verified_accounts at)
          ≡ (
            ok token,
            with_session argon2_verify hash_token later session_id token session_ttl user_id
                (verified_accounts at),
          )
      unfolding create_session
      create_session-ok = rw (new_session, known) refl

      pub open_session-ok :
          open_session argon2_verify hash_token later session_id token
            (some session_ttl)
            verified_user
            (verified_accounts at)
          ≡ (
            ok (to_response verified_user, set_session_cookie token session_ttl),
            with_session argon2_verify hash_token later session_id token session_ttl user_id
                (verified_accounts at),
          )
      unfolding open_session
      open_session-ok = ap (opened session_ttl verified_user) create_session-ok
