-- ===== src/Auth.antt =====
-- app/auth/users, app/auth/session and app/auth/signup: users, sessions and verification tokens.
-- The hash of a token (hashlib) is a parameter; the clock's reading, new identifiers and new tokens
-- are arguments. Time is counted in seconds.
pub mod Verification
pub mod Sessions
pub mod Settings
pub mod Principals
pub mod Signup
pub mod Routes
pub mod Invariant
pub mod Lifecycle
use lavs_core.Prelude.{
  ℕ, ◌+◌, Bool, true, false, not, ◌&&◌, Option, none, some, List, [], ◌∷◌, ◌++◌, String, str_eq,
  any, select, ltb, if◌then◌else◌, Result, ok, err, suc, ◌-◌, ℤ, pos, negsuc,
}
use mathlib.Core.Option
use lavs_core.Text.{Text, text_eq}
use lavs_core.Database.Statements.{update_where}

-- app/auth/users/user_status.py
pub data UserStatus : Type 0 where
  pending active disabled : UserStatus

pub record User : Type 0 where
  pub id : String
  pub email : Text
  pub password_hash : String
  pub status : UserStatus
  pub edition : Option Text

pub record Session : Type 0 where
  pub id : String
  pub user_id : String
  pub token_hash : String
  pub expires_at : ℕ

pub record VerificationToken : Type 0 where
  pub token_hash : String
  pub user_id : String
  pub expires_at : ℕ
  pub consumed_at : Option ℕ

pub record Accounts : Type 0 where
  pub users : List User
  pub sessions : List Session
  pub tokens : List VerificationToken

-- `NotFoundError`, or a constraint of the tables.
pub data AuthError : Type 0 where
  not_found constraint : AuthError

abbrev pub is_none : Option ℕ → Bool
is_none none = true
is_none (some t) = false

-- The row, or `None`.
abbrev pub fetchone : {A : Type 0} → List A → Option A
fetchone [] = none
fetchone (x ∷ xs) = some x

-- `now + timedelta(seconds=ttl)`, the epoch if that is earlier: a row that expires then is never live.
abbrev pub after_seconds : ℕ → ℤ → ℕ
after_seconds now (pos n) = now + n
after_seconds now (negsuc n) = now - suc n

-- `UserRepository.create_user`
unfoldable pub create_user : User → Accounts → Result AuthError User × Accounts
unfolding text_eq
create_user user a =
    if any (λ u. str_eq u.id user.id) a.users
    then (err constraint, a)
    else if any (λ u. text_eq u.email user.email) a.users
    then (err constraint, a)
    else (ok user, record a { users = a.users ++ user ∷ [] })

-- `UserRepository.get_user_by_email`
unfoldable pub get_user_by_email : Text → Accounts → Option User
unfolding text_eq
get_user_by_email email a = fetchone (select (λ u. text_eq u.email email) a.users)

-- `UserRepository.get_user_by_id`
unfoldable pub get_user_by_id : String → Accounts → Option User
get_user_by_id user_id a = fetchone (select (λ u. str_eq u.id user_id) a.users)

-- `UserRepository.activate_user`
unfoldable pub activate_user : String → Accounts → Accounts
activate_user user_id a = record a {
  users = update_where (λ u. str_eq u.id user_id) (λ u. record u { status = active }) a.users;
}

-- `VerificationTokenRepository.issue`
unfoldable pub issue : ℕ → String → String → ℤ → Accounts → Result AuthError (Unit {0}) × Accounts
issue now token_hash user_id ttl_seconds a =
    if any (λ t. str_eq t.token_hash token_hash) a.tokens
    then (err constraint, a)
    else if not (any (λ u. str_eq u.id user_id) a.users)
    then (err constraint, a)
    else (
      ok tt,
      record a {
        tokens =
            a.tokens
            ++ record {
              token_hash = token_hash;
              user_id = user_id;
              expires_at = after_seconds now ttl_seconds;
              consumed_at = none;
            }
              ∷ [];
      },
    )

-- The condition of `find_active`.
abbrev pub is_live : ℕ → String → VerificationToken → Bool
is_live now token_hash t =
    str_eq t.token_hash token_hash && (is_none t.consumed_at && ltb now t.expires_at)

-- `VerificationTokenRepository.find_active`
unfoldable pub find_active : ℕ → String → Accounts → Option VerificationToken
find_active now token_hash a = fetchone (select (is_live now token_hash) a.tokens)

-- `VerificationTokenRepository.consume`
unfoldable pub consume : ℕ → String → Accounts → Accounts
consume now token_hash a = record a {
  tokens =
      update_where (λ t. str_eq t.token_hash token_hash) (λ t. record t { consumed_at = some now })
        a.tokens;
}

module _ (hash_token : String → String) where
  -- `VerificationService.verify`
  unfoldable pub verify : ℕ → String → Accounts → Result AuthError User × Accounts
  unfolding find_active activate_user consume get_user_by_id
  verify now token a = elim (find_active now (hash_token token) a) [
    | none ↦ (err not_found, a)
    | some row ↦
        let after : Accounts = consume now (hash_token token) (activate_user row.user_id a) in
        elim (get_user_by_id row.user_id after) [
          | none ↦ (err not_found, after)
          | some user ↦ (ok user, after)
        ]
  ]

  -- `SessionService.create_session`; the token is generated by the caller's random source.
  unfoldable pub create_session :
      ℕ → String → String → String → ℤ → Accounts → Result AuthError String × Accounts
  create_session now id token user_id ttl_seconds a =
      if any (λ s. str_eq s.id id) a.sessions
      then (err constraint, a)
      else if not (any (λ u. str_eq u.id user_id) a.users)
      then (err constraint, a)
      else (
        ok token,
        record a {
          sessions =
              a.sessions
              ++ record {
                id = id;
                user_id = user_id;
                token_hash = hash_token token;
                expires_at = after_seconds now ttl_seconds;
              }
                ∷ [];
        },
      )

  abbrev pub is_open : ℕ → String → Session → Bool
  is_open now token s = str_eq s.token_hash (hash_token token) && ltb now s.expires_at

  -- `SessionService.lookup_active_user_id`
  unfoldable pub lookup_active_user_id : ℕ → String → Accounts → Option String
  lookup_active_user_id now token a =
      Option.map (λ s. s.user_id) (fetchone (select (is_open now token) a.sessions))

  -- `SessionService.delete_session`
  unfoldable pub delete_session : String → Accounts → Accounts
  delete_session token a = record a {
    sessions = select (λ s. not (str_eq s.token_hash (hash_token token))) a.sessions;
  }
