-- ===== src/Auth/Routes/Login.antt =====
-- Who is let in by a login, and what a refused login shows and changes.
use lavs_core.Prelude.{
  ℕ, ◌≡◌, ◌≢◌, refl, ap, ◌∙◌, ◌⊎◌, inl, inr, Bool, true, false, Option, none, some, String, str_eq,
  arith, any, Result, ok, err, ℤ, Bool-cases, Option-cases, Result-cases, [], ◌∷◌, ◌++◌,
}
use lavs_core.Text.{Text}
use lavs_core.Environ.{Environ}
use lavs_core.Auth.{
  User, UserStatus, active, pending, disabled, Accounts, constraint, get_user_by_email,
  create_session, after_seconds,
}
use lavs_core.Auth.Settings.{AuthSettings, session_ttl_seconds}
use lavs_core.Auth.Routes.{
  Argon2Error, mismatch, invalid, UserResponse, Cookie, set_cookie, set_session_cookie, LoginError,
  unauthorized, value_error, database, is_active, verify_password, open_session, stored_hash,
  admit_login, login,
}

pub active_of : (s : UserStatus) → is_active s ≡ true → s ≡ active
active_of pending h = cc
active_of active h = refl
active_of disabled h = cc

-- The cookie of a session: for this site alone, over https alone, and not readable by scripts.
abbrev pub hardened : String → ℤ → Cookie
hardened token ttl = record {
  name = "lavs_session";
  path = "/";
  same_site = "lax";
  http_only = true;
  secure = true;
  change = set_cookie token ttl;
}

-- What a login shows of an account.
abbrev pub shown : User → UserResponse
shown row = record { id = row.id; email = row.email; status = row.status; edition = row.edition }

pub set_session_cookie_lem :
    (token : String) (ttl : ℤ) → set_session_cookie token ttl ≡ hardened token ttl
unfolding set_session_cookie
set_session_cookie_lem token ttl = refl

module _ (argon2_verify : String → String → Result Argon2Error (Unit {0}))
    (hash_token : String → String) (now : ℕ) (session_id token : String) where
  abbrev pub with_session : ℤ → String → Accounts → Accounts
  with_session ttl user_id a = record a {
    sessions =
        a.sessions
        ++ record {
          id = session_id;
          user_id = user_id;
          token_hash = hash_token token;
          expires_at = after_seconds now ttl;
        }
          ∷ [];
  }

  create_session_cases :
      (ttl : ℤ) (user_id : String) (a : Accounts)
      → (create_session hash_token now session_id token user_id ttl a
          ≡ (ok token, with_session ttl user_id a))
        ⊎ (create_session hash_token now session_id token user_id ttl a ≡ (err constraint, a))
  unfolding create_session
  create_session_cases ttl user_id a =
      elim (Bool-cases (any (λ s. str_eq s.id session_id) a.sessions)) [
        | inl taken ↦ inr (rw taken refl)
        | inr new ↦ elim (Bool-cases (any (λ u. str_eq u.id user_id) a.users)) [
          | inl known ↦ inl (rw (new, known) refl)
          | inr unknown ↦ inr (rw (new, unknown) refl)
        ]
      ]

  -- The session is stored and its cookie is set, or nothing is changed.
  open_session_cases :
      (ttl : ℤ) (row : User) (a : Accounts)
      → (open_session argon2_verify hash_token now session_id token (some ttl) row a
          ≡ (ok (shown row, hardened token ttl), with_session ttl row.id a))
        ⊎ ((e : LoginError) × (open_session argon2_verify hash_token now session_id token
                (some ttl)
                row
                a
              ≡ (err e, a)))
  unfolding open_session
  open_session_cases ttl row a = elim (create_session_cases ttl row.id a) [
    | inl stored ↦ inl (
        rw (stored, open_session)
          (ap (λ cookie. (ok (shown row, cookie), with_session ttl row.id a))
            (set_session_cookie_lem token ttl)))
    | inr refused ↦ inr (database constraint, rw (refused, open_session) refl)
  ]

  admit_false :
      (ttl : Option ℤ) (found : Option User) (a : Accounts)
      → admit_login argon2_verify hash_token now session_id token ttl found false a
        ≡ (err unauthorized, a)
  unfolding admit_login
  admit_false ttl none a = refl
  admit_false ttl (some row) a = refl

  module _ (equaliser : String) (email : Text) (password : String) (settings : AuthSettings)
      (environ : Environ) (a : Accounts) where
    abbrev pub outcome : Result LoginError (UserResponse × Cookie) × Accounts
    outcome =
        login argon2_verify hash_token now session_id token equaliser email password settings
          environ a

    -- The credentials are those of an active account.
    abbrev pub IsAdmitted : User → ℤ → Type 0
    IsAdmitted row ttl =
        (get_user_by_email email a ≡ some row)
        × (argon2_verify row.password_hash password ≡ ok tt)
        × (row.status ≡ active)
        × (session_ttl_seconds settings environ ≡ some ttl)

    pub admitted :
        (row : User) (ttl : ℤ)
        → IsAdmitted row ttl
        → outcome ≡ open_session argon2_verify hash_token now session_id token (some ttl) row a
    unfolding login verify_password admit_login stored_hash
    admitted row ttl (found, verified, is_active, lifetime) = ground arith

    -- No account, another password, or an account that is not active.
    abbrev pub IsRefused : Type 0
    IsRefused =
        (get_user_by_email email a ≡ none)
        ⊎ ((row : User) × (get_user_by_email email a ≡ some row)
            × ((argon2_verify row.password_hash password ≡ err mismatch)
                ⊎ (is_active row.status ≡ false)))

    module _ (hash : String) where
      verified :
          verify_password argon2_verify hash_token hash password ≡ ok true
          → argon2_verify hash password ≡ ok tt
      unfolding verify_password
      verified h = elim (Result-cases (argon2_verify hash password)) [
        | inl (mismatch, e) ↦ ground arith
        | inl (invalid, e) ↦ ground arith
        | inr (t, e) ↦ e
      ]

      not_verified :
          argon2_verify hash password ≡ err mismatch
          → verify_password argon2_verify hash_token hash password ≡ ok false
      unfolding verify_password
      not_verified e = ground arith

      readable_verdict :
          argon2_verify hash password ≢ err invalid
          → (b : Bool) × (verify_password argon2_verify hash_token hash password ≡ ok b)
      unfolding verify_password
      readable_verdict readable = elim (Result-cases (argon2_verify hash password)) [
        | inl (mismatch, e) ↦ (false, ground arith)
        | inl (invalid, e) ↦ absurd (readable e)
        | inr (t, e) ↦ (true, ground arith)
      ]

    refused_at :
        (b : Bool)
        → verify_password argon2_verify hash_token
            (stored_hash equaliser (get_user_by_email email a))
            password
          ≡ ok b
        → (admit_login argon2_verify hash_token now session_id token
              (session_ttl_seconds settings environ)
              (get_user_by_email email a)
              b
              a
            ≡ (err unauthorized, a))
        → outcome ≡ (err unauthorized, a)
    unfolding login
    refused_at b verdict refused = rw (verdict, login) refused

    -- A login to an address without an account, with another password or to an account that is not
    -- active gets the same error, and changes nothing, whatever the clock, the settings and the new
    -- token are, if the password hash that is checked, the stored one or that for unknown
    -- addresses, can be read.
    pub login-unauthorized :
        argon2_verify (stored_hash equaliser (get_user_by_email email a)) password ≢ err invalid
        → IsRefused
        → outcome ≡ (err unauthorized, a)
    unfolding admit_login stored_hash
    login-unauthorized readable why =
        let (b, verdict) =
          readable_verdict (stored_hash equaliser (get_user_by_email email a)) readable in
        refused_at b verdict (elim why [
          | inl nobody ↦ rw nobody refl
          | inr (row, found, inr inactive) ↦ ground arith
          | inr (row, found, inl wrong) ↦ ground (arith, not_verified row.password_hash wrong)
        ])

    failed :
        (e : LoginError)
        → verify_password argon2_verify hash_token
            (stored_hash equaliser (get_user_by_email email a))
            password
          ≡ err e
        → outcome ≡ (err e, a)
    unfolding login
    failed e unreadable = rw (unreadable, login) refl

    abbrev IsAnswered : Type 0
    IsAnswered =
        ((row : User) × (ttl : ℤ) × IsAdmitted row ttl
          × (outcome ≡ (ok (shown row, hardened token ttl), with_session ttl row.id a)))
        ⊎ ((e : LoginError) × (outcome ≡ (err e, a)))

    no_lifetime :
        (row : User)
        → get_user_by_email email a ≡ some row
        → is_active row.status ≡ true
        → session_ttl_seconds settings environ ≡ none
        → verify_password argon2_verify hash_token
            (stored_hash equaliser (get_user_by_email email a))
            password
          ≡ ok true
        → outcome ≡ (err value_error, a)
    unfolding login admit_login open_session stored_hash
    no_lifetime row found act malformed right = rw (right, login) (ground arith)

    let_in :
        (row : User)
        → get_user_by_email email a ≡ some row
        → argon2_verify row.password_hash password ≡ ok tt
        → row.status ≡ active
        → (ttl : ℤ) → session_ttl_seconds settings environ ≡ some ttl
        → IsAnswered
    let_in row found proven act ttl lifetime =
        let is : IsAdmitted row ttl = (found, proven, act, lifetime) in
        elim (open_session_cases ttl row a) [
          | inl done ↦ inl (row, ttl, is, admitted row ttl is ∙ done)
          | inr (e, refused) ↦ inr (e, admitted row ttl is ∙ refused)
        ]

    by_row :
        verify_password argon2_verify hash_token
            (stored_hash equaliser (get_user_by_email email a))
            password
          ≡ ok true
        → (get_user_by_email email a ≡ none)
          ⊎ ((row : User) × (get_user_by_email email a ≡ some row))
        → IsAnswered
    unfolding admit_login stored_hash
    by_row right (inl nobody) = inr (unauthorized, refused_at true right (ground arith))
    by_row right (inr (row, found)) = elim (Bool-cases (is_active row.status)) [
      | inr inactive ↦ inr (unauthorized, refused_at true right (ground arith))
      | inl act ↦ elim (Option-cases (session_ttl_seconds settings environ)) [
        | inl malformed ↦ inr (value_error, no_lifetime row found act malformed right)
        | inr (ttl, lifetime) ↦
            let_in row found (verified row.password_hash (rw found at right))
              (active_of row.status act) ttl lifetime
      ]
    ]

    -- A login that succeeds is to an active account with that address and password: it stores one
    -- session, of that account, that lives as long as the settings say, and sets the
    -- cookie `lavs_session` to its token for as long, on all paths of this site, over https alone
    -- and hidden from scripts. Any other login changes nothing.
    pub login_cases :
        ((row : User) × (ttl : ℤ) × IsAdmitted row ttl
          × (outcome ≡ (ok (shown row, hardened token ttl), with_session ttl row.id a)))
        ⊎ ((e : LoginError) × (outcome ≡ (err e, a)))
    login_cases =
        elim (Result-cases (
          verify_password argon2_verify hash_token
            (stored_hash equaliser (get_user_by_email email a)) password)) [
              | inl (e, unreadable) ↦ inr (e, failed e unreadable)
              | inr (false, wrong) ↦ inr (
                unauthorized,
                refused_at false wrong (
                    admit_false (session_ttl_seconds settings environ) (get_user_by_email email a)
                      a),
              )
              | inr (true, right) ↦ by_row right (Option-cases (get_user_by_email email a))
            ]
