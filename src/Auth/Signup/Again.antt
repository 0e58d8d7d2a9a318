-- ===== src/Auth/Signup/Again.antt =====
-- A sign-up for an address that has been signed up before.
use lavs_core.Prelude.{
  ℕ, ◌≡◌, refl, ◌∙◌, inl, inr, true, Option, none, some, [], ◌∷◌, ◌++◌, String, str_eq, arith, any,
  any-append, Result, ok, err, ℤ, Bool-cases, Result-cases,
}
use lavs_core.Text.{Text, text_eq, text_eq_iff}
use lavs_core.Environ.{Environ}
use lavs_core.Database.Rows.{any-select}
use lavs_core.Auth.{User, Accounts, create_user, issue, get_user_by_email}
use lavs_core.Auth.Settings.{AuthSettings, allowed_email_domains, edition, ttl_seconds}
use lavs_core.Auth.Signup.{
  SignupModel, SignupError, conflict, State, send_token, new_user, created, register_new,
  assert_domain_allowed, assert_email_available, check_signup, register,
}

-- Some user has the address.
abbrev pub IsTaken : Text → Accounts → Type 0
IsTaken email a = any (λ u. text_eq u.email email) a.users ≡ true

module _ (hash_password hash_token : String → String) (now : ℕ) (user_id raw_token : String) where
  send_token-IsTaken :
      (ttl : Option ℤ) (email : Text) (s : State)
      → IsTaken email s.accounts
      → IsTaken email
          (send_token hash_password hash_token now user_id raw_token ttl email s).1.accounts
  unfolding send_token issue
  send_token-IsTaken none email s t = t
  send_token-IsTaken (some ttl) email s t =
      elim (Bool-cases (any (λ t. str_eq t.token_hash (hash_token raw_token)) s.accounts.tokens)) [
        | inl known ↦ rw known t
        | inr free ↦ elim (Bool-cases (any (λ u. str_eq u.id user_id) s.accounts.users)) [
          | inl there ↦ rw (free, there) t
          | inr absent ↦ rw (free, absent) t
        ]
      ]

  register_new-IsTaken :
      (model : SignupModel) (label : Text) (ttl : Option ℤ) (s : State)
      → (register_new hash_password hash_token now user_id raw_token model label ttl s).0 ≡ ok tt
      → IsTaken model.email
          (register_new hash_password hash_token now user_id raw_token model label ttl s).1.accounts
  unfolding register_new create_user created
  register_new-IsTaken model label ttl s e =
      elim (Bool-cases (any (λ u. str_eq u.id user_id) s.accounts.users)) [
        | inl known ↦ cc (rw known at e)
        | inr free ↦ elim (Bool-cases (any (λ u. text_eq u.email model.email) s.accounts.users)) [
          | inl taken ↦ cc (rw (free, taken) at e)
          | inr new ↦
              rw (free, new)
                (send_token-IsTaken ttl model.email
                  (record s {
                    accounts = record s.accounts { users = s.accounts.users ++ user ∷ [] };
                  })
                  stored)
        ]
      ]
    where
      user : User
      user = new_user hash_password hash_token now user_id raw_token model label

      stored : any (λ u. text_eq u.email model.email) (s.accounts.users ++ user ∷ []) ≡ true
      stored =
          any-append (λ u. text_eq u.email model.email) s.accounts.users (user ∷ [])
          ∙ ground (arith, text_eq_iff model.email model.email)

  module _ (settings : AuthSettings) (given_ttl : Option ℤ) (environ : Environ)
      (model : SignupModel) (s : State) where
    abbrev outcome : Result SignupError (Unit {0}) × State
    outcome =
        register hash_password hash_token now user_id raw_token model settings given_ttl environ s

    register-IsTaken : outcome.0 ≡ ok tt → IsTaken model.email outcome.1.accounts
    unfolding register
    register-IsTaken e =
        elim (Result-cases
          (check_signup model.email (allowed_email_domains settings environ) s.accounts)) [
            | inl (x, refused) ↦ cc (rw (refused, register) at e)
            | inr (x, passed) ↦
                rw (passed, register)
                  (register_new-IsTaken model (edition settings environ)
                    (ttl_seconds given_ttl environ) s (rw (passed, register) at e))
          ]

    register-conflict :
        IsTaken model.email s.accounts
        → assert_domain_allowed model.email (allowed_email_domains settings environ) ≡ ok tt
        → outcome ≡ (err conflict, s)
    unfolding register check_signup assert_email_available get_user_by_email
    register-conflict taken allowed =
        let (u, rest, found) =
          any-select (λ u. text_eq u.email model.email) s.accounts.users taken in
        rw (allowed, register) (rw (found, register) refl)

-- After a sign-up that succeeded, every further sign-up for the same address that the allow-list
-- lets through is refused as a conflict and changes nothing: whatever its clock, its password and
-- the settings are, so also when the token of the first has expired, and no new token is mailed.
pub register-again :
    (hash_password hash_token : String → String) (settings : AuthSettings) (given_ttl : Option ℤ)
    (now : ℕ) (user_id raw_token : String) (environ : Environ) (model : SignupModel) (s : State)
    (later : ℕ) (user_id' raw_token' : String) (environ' : Environ) (password : String)
    → (register hash_password hash_token now user_id raw_token model settings given_ttl environ s).0
      ≡ ok tt
    → assert_domain_allowed model.email (allowed_email_domains settings environ') ≡ ok tt
    → register hash_password hash_token later user_id' raw_token'
        (record model { password = password })
        settings
        given_ttl
        environ'
        (register hash_password hash_token now user_id raw_token model settings given_ttl environ
          s).1
      ≡ (
        err conflict,
        (register hash_password hash_token now user_id raw_token model settings given_ttl environ
            s).1,
      )
register-again hash_password hash_token settings given_ttl now user_id raw_token environ model s
      later user_id' raw_token' environ' password succeeded allowed =
    register-conflict hash_password hash_token later user_id' raw_token' settings given_ttl environ'
      (record model { password = password })
      (register hash_password hash_token now user_id raw_token model settings given_ttl environ s).1
      (register-IsTaken hash_password hash_token now user_id raw_token settings given_ttl environ
        model s succeeded)
      allowed
