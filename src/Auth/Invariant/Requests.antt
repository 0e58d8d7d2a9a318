-- ===== src/Auth/Invariant/Requests.antt =====
-- The invariant of the accounts under the requests of app/routers/auth.py, in any order.
use lavs_core.Prelude.{
  ℕ, ◌≡◌, refl, sym, ap, ◌∙◌, subst, ◌⊎◌, inl, inr, Bool, true, false, Option, none, some, List, [],
  ◌∷◌, String, str_eq, eq_iff, arith, select, Result, ok, err, ℤ, Bool-cases, Option-cases,
  Result-cases, eq_of_ok, eq_of_some, In,
}
use lavs_core.Text.{Text, text_eq}
use lavs_core.Environ.{Environ}
use lavs_core.Auth.{
  User, active, VerificationToken, Accounts, AuthError, is_none, is_live, fetchone, create_user,
  issue, after_seconds, get_user_by_email, find_active, verify,
}
use lavs_core.Auth.Settings.{AuthSettings, allowed_email_domains, edition, ttl_seconds}
use lavs_core.Auth.Signup.{
  SignupModel, State, send_token, new_user, created, register_new, check_signup, register,
}
use lavs_core.Auth.Routes.{Argon2Error, UserResponse, Cookie, LoginError, login, logout}
use lavs_core.Auth.Routes.Login.{login_cases}
use lavs_core.Auth.Verification.{verify-none, verify-after}
use lavs_core.Auth.Invariant.{
  IsWellFormed, create_user-IsWellFormed, issue-IsWellFormed, verified-IsWellFormed,
  session-IsWellFormed, delete_session-IsWellFormed,
}

In-fetchone :
    {A : Type 0} (p : A → Bool) (xs : List A) (x : A)
    → fetchone (select p xs) ≡ some x
    → In x xs × (p x ≡ true)
In-fetchone p [] x e = cc
In-fetchone p (y ∷ ys) x e = elim (Bool-cases (p y)) [
  | inl h ↦ (inl (sym (eq_of_some (rw h at e))), subst (λ z. p z ≡ true) (eq_of_some (rw h at e)) h)
  | inr h ↦ let (m, q) = In-fetchone p ys x (rw h at e) in (inr m, q)
]

pair_cases :
    {E A S : Type 0} (r : Result E A × S)
    → ((e : E) × (s : S) × (r ≡ (err e, s))) ⊎ ((a : A) × (s : S) × (r ≡ (ok a, s)))
pair_cases (err e, s) = inl (e, s, refl)
pair_cases (ok a, s) = inr (a, s, refl)

module _ (hash_password hash_token : String → String) (now : ℕ) (user_id raw_token : String) where
  send_token-IsWellFormed :
      (ttl : Option ℤ) (email : Text) (s : State)
      → IsWellFormed s.accounts
      → IsWellFormed
          (send_token hash_password hash_token now user_id raw_token ttl email s).1.accounts
  unfolding send_token
  send_token-IsWellFormed none email s w = w
  send_token-IsWellFormed (some ttl) email s w =
      elim (pair_cases (issue now (hash_token raw_token) user_id ttl s.accounts)) [
        | inl (e, after, is) ↦
            rw is
              (subst (λ (r : Result AuthError (Unit {0}) × Accounts). IsWellFormed r.1) is issued)
        | inr (r, after, is) ↦
            rw is
              (subst (λ (r : Result AuthError (Unit {0}) × Accounts). IsWellFormed r.1) is issued)
      ]
    where
      issued : IsWellFormed (issue now (hash_token raw_token) user_id ttl s.accounts).1
      issued = issue-IsWellFormed now (hash_token raw_token) user_id ttl s.accounts w

  register_new-IsWellFormed :
      (model : SignupModel) (label : Text) (ttl : Option ℤ) (s : State)
      → IsWellFormed s.accounts
      → IsWellFormed
          (register_new hash_password hash_token now user_id raw_token model label ttl s).1.accounts
  unfolding register_new created
  register_new-IsWellFormed model label ttl s w = elim (pair_cases (create_user user s.accounts)) [
    | inl (e, after, is) ↦
        rw is (subst (λ (r : Result AuthError User × Accounts). IsWellFormed r.1) is inserted)
    | inr (r, after, is) ↦ rw is (
        send_token-IsWellFormed ttl model.email (record { accounts = after; mailer = s.mailer })
          (subst (λ (r : Result AuthError User × Accounts). IsWellFormed r.1) is inserted))
  ]
    where
      user : User
      user = new_user hash_password hash_token now user_id raw_token model label

      inserted : IsWellFormed (create_user user s.accounts).1
      inserted = create_user-IsWellFormed user s.accounts refl w

  register-IsWellFormed :
      (model : SignupModel) (settings : AuthSettings) (given_ttl : Option ℤ) (environ : Environ)
      (s : State)
      → IsWellFormed s.accounts
      → IsWellFormed
          (register hash_password hash_token now user_id raw_token model settings given_ttl environ
            s).1.accounts
  unfolding register
  register-IsWellFormed model settings given_ttl environ s w =
      elim (Result-cases
        (check_signup model.email (allowed_email_domains settings environ) s.accounts)) [
          | inl (e, refused) ↦ rw (refused, register) w
          | inr (t, passed) ↦
              rw (passed, register)
                (register_new-IsWellFormed model (edition settings environ)
                  (ttl_seconds given_ttl environ) s w)
        ]

module _ (hash_token : String → String) where
  live_token :
      (now : ℕ) (h : String) (a : Accounts) (row : VerificationToken)
      → find_active now h a ≡ some row
      → In row a.tokens × (h ≡ row.token_hash)
  unfolding find_active
  live_token now h a row e =
      let (m, live) = In-fetchone (is_live now h) a.tokens row e in
      (m, sym ((eq_iff row.token_hash h).0 (ground arith)))

  verify-IsWellFormed :
      (now : ℕ) (token : String) (a : Accounts)
      → IsWellFormed a
      → IsWellFormed (verify hash_token now token a).1
  verify-IsWellFormed now token a w = elim (Option-cases (find_active now (hash_token token) a)) [
    | inl e ↦ rw (verify-none hash_token now token a e) w
    | inr (row, e) ↦ rw (verify-after hash_token now token a row e) (
        let (m, same) = live_token now (hash_token token) a row e in
        rw same (verified-IsWellFormed now row a m w))
  ]

  logout-IsWellFormed :
      (token : Option String) (a : Accounts)
      → IsWellFormed a
      → IsWellFormed (logout hash_token token a).0
  unfolding logout
  logout-IsWellFormed none a w = w
  logout-IsWellFormed (some token) a w = elim (Bool-cases (str_eq token "")) [
    | inl e ↦ rw e w
    | inr e ↦ rw e (delete_session-IsWellFormed hash_token token a w)
  ]

module _ (argon2_verify : String → String → Result Argon2Error (Unit {0}))
    (hash_token : String → String) (now : ℕ) (session_id token : String) (equaliser : String)
    (email : Text) (password : String) (settings : AuthSettings) (environ : Environ)
    (a : Accounts) where
  -- The user who is found has the address, and is stored.
  found_row : (row : User) → get_user_by_email email a ≡ some row → In row a.users
  unfolding get_user_by_email
  found_row row e = (In-fetchone (λ u. text_eq u.email email) a.users row e).0

  abbrev logged : Result LoginError (UserResponse × Cookie) × Accounts
  logged =
      login argon2_verify hash_token now session_id token equaliser email password settings environ
        a

  login-IsWellFormed : IsWellFormed a → IsWellFormed logged.1
  login-IsWellFormed w =
      elim (login_cases argon2_verify hash_token now session_id token equaliser email password
        settings environ a) [
          | inr (e, refused) ↦ rw refused w
          | inl (row, ttl, (found, right, act, lifetime), done) ↦ rw done (
              session-IsWellFormed
                (record {
                  id = session_id;
                  user_id = row.id;
                  token_hash = hash_token token;
                  expires_at = after_seconds now ttl;
                })
                a (row, found_row row found, refl, act) w)
        ]

  -- The user who logs in is the one of a row that is stored and active.
  login-row :
      (r : UserResponse × Cookie) (after : Accounts)
      → logged ≡ (ok r, after)
      → (row : User) × In row a.users × (row.status ≡ active) × (r.0.id ≡ row.id)
  login-row r after e =
      elim (login_cases argon2_verify hash_token now session_id token equaliser email password
        settings environ a) [
          | inr (x, refused) ↦ cc (sym refused ∙ e)
          | inl (row, ttl, (found, right, act, lifetime), done) ↦ (
            row,
            found_row row found,
            act,
            ap (λ (p : UserResponse × Cookie). p.0.id)
                (sym (
                  eq_of_ok (
                    ap (λ (q : Result LoginError (UserResponse × Cookie) × Accounts). q.0)
                      (sym done ∙ e)))),
          )
        ]

-- A request to the routes of `/auth`, with what the server draws for it.
pub data Call : Type 0 where
  signs_up : ℕ → String → String → SignupModel → Call
  verifies : ℕ → String → Call
  logs_in : ℕ → String → String → Text → String → Call
  logs_out : Option String → Call

module _ (hash_password hash_token : String → String)
    (argon2_verify : String → String → Result Argon2Error (Unit {0})) (equaliser : String)
    (settings : AuthSettings) (given_ttl : Option ℤ) where
  -- The state after a request; the environment is that of the request.
  unfoldable pub step : Environ × Call → State → State
  unfolding register verify login logout
  step (environ, signs_up now user_id raw_token model) s =
      (register hash_password hash_token now user_id raw_token model settings given_ttl environ s).1
  step (environ, verifies now token) s = record s {
    accounts = (verify hash_token now token s.accounts).1;
  }
  step (environ, logs_in now session_id token email password) s = record s {
    accounts =
        (login argon2_verify hash_token now session_id token equaliser email password settings
          environ s.accounts).1;
  }
  step (environ, logs_out token) s = record s { accounts = (logout hash_token token s.accounts).0 }

  unfoldable pub run : List (Environ × Call) → State → State
  unfolding step
  run [] s = s
  run (call ∷ calls) s = run calls (step call s)

  step-IsWellFormed :
      (call : Environ × Call) (s : State)
      → IsWellFormed s.accounts
      → IsWellFormed (step call s).accounts
  unfolding step
  step-IsWellFormed (environ, signs_up now user_id raw_token model) s w =
      register-IsWellFormed hash_password hash_token now user_id raw_token model settings given_ttl
        environ s w
  step-IsWellFormed (environ, verifies now token) s w =
      verify-IsWellFormed hash_token now token s.accounts w
  step-IsWellFormed (environ, logs_in now session_id token email password) s w =
      login-IsWellFormed argon2_verify hash_token now session_id token equaliser email password
        settings environ s.accounts w
  step-IsWellFormed (environ, logs_out token) s w =
      logout-IsWellFormed hash_token token s.accounts w

  -- Any sequence of sign-ups, verifications, logins and logouts, whatever their outcomes, keeps the
  -- accounts well formed: identifiers and addresses are unique, every session is of a stored and
  -- active user, and for every active user a verification token has been consumed.
  pub run-IsWellFormed :
      (calls : List (Environ × Call)) (s : State)
      → IsWellFormed s.accounts
      → IsWellFormed (run calls s).accounts
  unfolding run
  run-IsWellFormed [] s w = w
  run-IsWellFormed (call ∷ calls) s w =
      run-IsWellFormed calls (step call s) (step-IsWellFormed call s w)

  -- After any sequence of requests from well-formed accounts, who logs in has verified the address:
  -- a verification token of that user is stored, and has been consumed.
  pub run-login-IsVerified :
      (calls : List (Environ × Call)) (s : State) (now : ℕ) (session_id token : String)
      (email : Text) (password : String) (environ : Environ) (r : UserResponse × Cookie)
      (after : Accounts)
      → IsWellFormed s.accounts
      → login argon2_verify hash_token now session_id token equaliser email password settings
          environ
          (run calls s).accounts
        ≡ (ok r, after)
      → (t : VerificationToken) × In t (run calls s).accounts.tokens
        × (t.user_id ≡ r.0.id)
        × (is_none t.consumed_at ≡ false)
  run-login-IsVerified calls s now session_id token email password environ r after w e =
      let (row, m, act, same) =
        login-row argon2_verify hash_token now session_id token equaliser email password settings
          environ (run calls s).accounts r after e in
      let (t, i, of, c) = (run-IsWellFormed calls s w).verified row m act in
      (t, i, of ∙ sym same, c)
