-- ===== src/Auth/Lifecycle/Journey.antt =====
-- A person signs up, verifies the address, logs in, and is recognised by the session's cookie.
use lavs_core.Prelude.{
  ℕ, ◌≡◌, ◌<◌, refl, sym, ap, ◌∙◌, true, false, Option, some, String, str_eq, arith, any, ltb,
  Result, ok, ℤ,
}
use lavs_core.Text.{Text, text_eq}
use lavs_core.Environ.{Environ}
use lavs_core.Auth.{
  User, AuthError, Accounts, after_seconds, get_user_by_id, verify, lookup_active_user_id,
}
use lavs_core.Auth.Sessions.{lookup_active_user_id-create_session}
use lavs_core.Auth.Settings.{
  AuthSettings, allowed_email_domains, edition, ttl_seconds, session_ttl_seconds,
}
use lavs_core.Auth.Principals.{user, Request, session_cookie, authenticate_session}
use lavs_core.Auth.Signup.{SignupModel, SignupError, State, last_for, check_signup, register}
use lavs_core.Auth.Signup.Mailbox.{last_for-send}
use lavs_core.Auth.Routes.{
  Argon2Error, UserResponse, to_response, Cookie, set_session_cookie, LoginError, login,
}
use lavs_core.Auth.Routes.Login.{admitted, with_session, shown, hardened, set_session_cookie_lem}
use lavs_core.Auth.Lifecycle.{
  available, message, signed_up, verified_user, verified_accounts, register_new-ok, verify-ok,
  create_session-ok, open_session-ok, get_user_by_email-ok, get_user_by_id-ok, known,
}

module _ (hash_password hash_token : String → String)
    (argon2_verify : String → String → Result Argon2Error (Unit {0})) (equaliser : String)
    (settings : AuthSettings) (given_ttl : Option ℤ) (environ : Environ) (now : ℕ)
    (user_id raw_token : String) (model : SignupModel) (s : State) where
  abbrev pub registered : Result SignupError (Unit {0}) × State
  registered =
      register hash_password hash_token now user_id raw_token model settings given_ttl environ s

  abbrev pub label : Text
  label = edition settings environ

  abbrev pub pending_of : ℤ → State
  pending_of ttl =
      signed_up hash_password hash_token argon2_verify now user_id raw_token model label ttl s

  register-ok :
      (ttl : ℤ)
      → check_signup model.email (allowed_email_domains settings environ) s.accounts ≡ ok tt
      → any (λ u. str_eq u.id user_id) s.accounts.users ≡ false
      → any (λ t. str_eq t.token_hash (hash_token raw_token)) s.accounts.tokens ≡ false
      → ttl_seconds given_ttl environ ≡ some ttl
      → registered ≡ (ok tt, pending_of ttl)
  unfolding register
  register-ok ttl passed new_id new_token lifetime =
      rw (passed, register)
        (rw (lifetime, register)
          (register_new-ok hash_password hash_token argon2_verify now user_id raw_token model label
            ttl s new_id
            (available model.email (allowed_email_domains settings environ) s.accounts passed)
            new_token))

  abbrev pub verified_at : ℕ → Result AuthError User × Accounts
  verified_at at = verify hash_token at raw_token registered.1.accounts

  module _ (at later : ℕ) (session_id token : String) where
    abbrev pub logged_in : Result LoginError (UserResponse × Cookie) × Accounts
    logged_in =
        login argon2_verify hash_token later session_id token equaliser model.email model.password
          settings environ (verified_at at).1

    recognised :
        (b : Accounts) (row : User) (name : Text) (request : Request)
        → request.cookie session_cookie ≡ some token
        → str_eq token "" ≡ false
        → request.accounts ≡ some b
        → lookup_active_user_id hash_token request.now token b ≡ some user_id
        → get_user_by_id user_id b ≡ some row
        → authenticate_session hash_token name request
          ≡ ok (some (record { kind = user; id = user_id; email = some row.email; edition = name }))
    unfolding authenticate_session
    recognised b row name request cookie nonempty stored live found = ground arith

    module _ (ttl session_ttl : ℤ) where
      abbrev pub accounts_between : Accounts
      accounts_between =
          verified_accounts hash_password hash_token argon2_verify now user_id raw_token model label
            ttl s at

      abbrev pub accounts_after : Accounts
      accounts_after =
          with_session argon2_verify hash_token later session_id token session_ttl user_id (
            verified_accounts hash_password hash_token argon2_verify now user_id raw_token model
              label ttl s at)

      abbrev pub active_user : User
      active_user =
          verified_user hash_password hash_token argon2_verify now user_id raw_token model label ttl
            s

      -- The address, the identifier and the verification token are new.
      abbrev IsNew : Type 0
      IsNew =
          (any (λ u. str_eq u.id user_id) s.accounts.users ≡ false)
          × (any (λ u. text_eq u.email model.email) s.accounts.users ≡ false)
          × (any (λ t. str_eq t.token_hash (hash_token raw_token)) s.accounts.tokens ≡ false)

      activated :
          registered ≡ (ok tt, pending_of ttl)
          → IsNew
          → ltb at (after_seconds now ttl) ≡ true
          → verified_at at ≡ (ok active_user, accounts_between)
      activated signed (id, email, tok) in_time =
          ap
            (λ (r : Result SignupError (Unit {0}) × State).
              verify hash_token at raw_token r.1.accounts)
            signed
          ∙ verify-ok hash_password hash_token argon2_verify now user_id raw_token model label ttl s
              id email tok at in_time

      opened_session :
          verified_at at ≡ (ok active_user, accounts_between)
          → IsNew
          → any (λ t. str_eq t.id session_id) s.accounts.sessions ≡ false
          → argon2_verify (hash_password model.password) model.password ≡ ok tt
          → session_ttl_seconds settings environ ≡ some session_ttl
          → logged_in
            ≡ (ok (to_response active_user, set_session_cookie token session_ttl), accounts_after)
      opened_session verified (id, email, tok) new_session accepts lifetime =
          ap
            (λ (r : Result AuthError User × Accounts).
              login argon2_verify hash_token later session_id token equaliser model.email
                model.password settings environ r.1)
            verified
          ∙ admitted argon2_verify hash_token later session_id token equaliser model.email
              model.password settings environ accounts_between active_user session_ttl
              (
                get_user_by_email-ok hash_password hash_token argon2_verify now user_id raw_token
                    model label ttl s id email tok at,
                accepts,
                refl,
                lifetime,
              )
          ∙ open_session-ok hash_password hash_token argon2_verify now user_id raw_token model label
              ttl s id email tok session_id token at later session_ttl new_session

      found :
          (moment : ℕ)
          → IsNew
          → any (λ t. str_eq t.id session_id) s.accounts.sessions ≡ false
          → any (λ t. str_eq t.token_hash (hash_token token)) s.accounts.sessions ≡ false
          → ltb moment (after_seconds later session_ttl) ≡ true
          → (lookup_active_user_id hash_token moment token accounts_after ≡ some user_id)
            × (get_user_by_id user_id accounts_after ≡ some active_user)
      unfolding get_user_by_id
      found moment (id, email, tok) new_session new_hash live = (
        ap
              (λ (r : Result AuthError String × Accounts).
                lookup_active_user_id hash_token moment token r.1)
              (sym (
                create_session-ok hash_password hash_token argon2_verify now user_id raw_token model
                  label ttl s id email tok session_id token at later session_ttl new_session))
            ∙ (lookup_active_user_id-create_session hash_token later moment session_id token user_id
                session_ttl accounts_between new_session new_hash
                (known hash_password hash_token argon2_verify now user_id raw_token model label ttl
                  s id email tok)).1
            ∙ rw live refl,
        get_user_by_id-ok hash_password hash_token argon2_verify now user_id raw_token model label
            ttl s id email tok at,
      )

      -- A person who signs up with an address that passes the checks, and who presents the mailed
      -- token before it expires and then logs in with the same address and password, is registered,
      -- gets the token as the last mail to that address, is activated, and gets a cookie
      -- `lavs_session` with the session's token, over https alone and hidden from scripts; and a
      -- request that carries that cookie, before the session expires and while the accounts are as
      -- the login left them, is recognised as that person. The new identifiers and the hashes of
      -- the new tokens are not taken, the session's token is not empty, both lifetimes can be read,
      -- the mailer holds a message, and argon2 accepts a password against its own hash.
      pub journey :
          (request : Request) (name : Text)
          → ((p : String) → argon2_verify (hash_password p) p ≡ ok tt)
          → 0 < s.mailer.maxlen
          → check_signup model.email (allowed_email_domains settings environ) s.accounts ≡ ok tt
          → any (λ u. str_eq u.id user_id) s.accounts.users ≡ false
          → any (λ t. str_eq t.token_hash (hash_token raw_token)) s.accounts.tokens ≡ false
          → any (λ t. str_eq t.id session_id) s.accounts.sessions ≡ false
          → any (λ t. str_eq t.token_hash (hash_token token)) s.accounts.sessions ≡ false
          → ttl_seconds given_ttl environ ≡ some ttl
          → session_ttl_seconds settings environ ≡ some session_ttl
          → ltb at (after_seconds now ttl) ≡ true
          → str_eq token "" ≡ false
          → request.cookie "lavs_session" ≡ some token
          → request.accounts ≡ some logged_in.1
          → ltb request.now (after_seconds later session_ttl) ≡ true
          → (registered.0 ≡ ok tt)
            × (last_for model.email registered.1.mailer
                ≡ some (
                    message hash_password hash_token argon2_verify now user_id raw_token model label
                      ttl s))
            × ((verified_at at).0 ≡ ok active_user)
            × (logged_in.0 ≡ ok (shown active_user, hardened token session_ttl))
            × (authenticate_session hash_token name request
                ≡ ok (
                    some (record {
                      kind = user;
                      id = user_id;
                      email = some model.email;
                      edition = name;
                    })))
      journey request name accepts room passed new_id new_token new_session new_hash lifetime
            session_lifetime in_time nonempty cookie stored live =
          let signed = register-ok ttl passed new_id new_token lifetime in
          let new : IsNew = (
            new_id,
            available model.email (allowed_email_domains settings environ) s.accounts passed,
            new_token,
          ) in
          let verified = activated signed new in_time in
          let entered =
            opened_session verified new new_session (accepts model.password) session_lifetime in
          let (session, row) = found request.now new new_session new_hash live in
          (
            ap (λ (r : Result SignupError (Unit {0}) × State). r.0) signed,
            ap (λ (r : Result SignupError (Unit {0}) × State). last_for model.email r.1.mailer)
                  signed
                ∙ last_for-send
                    (message hash_password hash_token argon2_verify now user_id raw_token model
                      label ttl s)
                    s.mailer room,
            ap (λ (r : Result AuthError User × Accounts). r.0) verified,
            ap (λ (r : Result LoginError (UserResponse × Cookie) × Accounts). r.0) entered
                ∙ ap (λ cookie. ok (shown active_user, cookie))
                    (set_session_cookie_lem token session_ttl),
            recognised accounts_after active_user name request cookie nonempty
                (stored
                  ∙ ap (λ (r : Result LoginError (UserResponse × Cookie) × Accounts). some r.1)
                      entered)
                session row,
          )
