-- ===== src/Auth/Routes.antt =====
-- app/routers/auth.py, app/auth/password_hasher.py and app/auth/session/session_cookie.py. The verification of
-- a password (argon2), new identifiers and new tokens are arguments. `me` is the handler behind
-- `require_principal`.
pub mod Login
use lavs_core.Prelude.{
  ℕ, Bool, true, false, not, ◌&&◌, ◌||◌, Option, none, some, String, str_eq, if◌then◌else◌, Result,
  ok, err, ℤ,
}
use mathlib.Core.Option
use lavs_core.Text.{Text, codes}
use lavs_core.Environ.{Environ}
use lavs_core.Auth.{
  User, UserStatus, active, pending, disabled, Accounts, AuthError, get_user_by_email,
  get_user_by_id, create_session, delete_session,
}
use lavs_core.Auth.Settings.{AuthSettings, session_ttl_seconds}
use lavs_core.Auth.Principals.{Principal, session_cookie}

pub record UserResponse : Type 0 where
  pub id : String
  pub email : Text
  pub status : UserStatus
  pub edition : Option Text

-- The row without its hash.
abbrev pub to_response : User → UserResponse
to_response row = record {
  id = row.id;
  email = row.email;
  status = row.status;
  edition = row.edition;
}

-- `VerifyMismatchError`, or another error of argon2.
pub data Argon2Error : Type 0 where
  mismatch invalid : Argon2Error

-- What a response does with a cookie: `set_cookie` with a value and an age, or `delete_cookie`.
pub data CookieChange : Type 0 where
  set_cookie : String → ℤ → CookieChange
  delete_cookie : CookieChange

pub record Cookie : Type 0 where
  pub name : String
  pub path : String
  pub same_site : String
  pub http_only : Bool
  pub secure : Bool
  pub change : CookieChange

-- A change of the session cookie, with its fixed attributes.
abbrev pub session_change : CookieChange → Cookie
session_change change = record {
  name = session_cookie;
  path = "/";
  same_site = "lax";
  http_only = true;
  secure = true;
  change = change;
}

-- `_set_session_cookie`
unfoldable pub set_session_cookie : String → ℤ → Cookie
set_session_cookie token ttl = session_change (set_cookie token ttl)

-- The generic 401, an error of argon2 or a ValueError of the settings that the route does not catch,
-- or a constraint.
pub data LoginError : Type 0 where
  unauthorized invalid_hash value_error : LoginError
  database : AuthError → LoginError

-- `str(user_row[3]) == UserStatus.ACTIVE.value`
abbrev pub is_active : UserStatus → Bool
is_active pending = false
is_active active = true
is_active disabled = false

-- The response to a login, once the session is stored.
abbrev pub opened :
    ℤ
    → User
    → Result AuthError String × Accounts
    → Result LoginError (UserResponse × Cookie) × Accounts
opened ttl row (err e, after) = (err (database e), after)
opened ttl row (ok raw, after) = (ok (to_response row, set_session_cookie raw ttl), after)

-- The hash that the password is checked against.
unfoldable pub stored_hash : String → Option User → String
stored_hash equaliser none = equaliser
stored_hash equaliser (some row) = row.password_hash

module _ (argon2_verify : String → String → Result Argon2Error (Unit {0}))
    (hash_token : String → String) where
  -- `PasswordHasher.verify_password`
  unfoldable pub verify_password : String → String → Result LoginError Bool
  verify_password password_hash password = elim (argon2_verify password_hash password) [
    | ok _ ↦ ok true
    | err mismatch ↦ ok false
    | err invalid ↦ err invalid_hash
  ]

  -- The session that a login opens, and its cookie.
  unfoldable pub open_session :
      ℕ
      → String
      → String
      → Option ℤ
      → User
      → Accounts
      → Result LoginError (UserResponse × Cookie) × Accounts
  unfolding create_session set_session_cookie
  open_session now session_id token none row a = (err value_error, a)
  open_session now session_id token (some ttl) row a =
      opened ttl row (create_session hash_token now session_id token row.id ttl a)

  -- What `login` does once it has the row and the verdict on the password.
  unfoldable pub admit_login :
      ℕ
      → String
      → String
      → Option ℤ
      → Option User
      → Bool
      → Accounts
      → Result LoginError (UserResponse × Cookie) × Accounts
  unfolding open_session
  admit_login now session_id token ttl none password_ok a = (err unauthorized, a)
  admit_login now session_id token ttl (some row) password_ok a =
      if not password_ok || not (is_active row.status)
      then (err unauthorized, a)
      else open_session now session_id token ttl row a

  -- `login`, for a normalised address; `equaliser` is `_TIMING_EQUALISER_HASH`.
  unfoldable pub login :
      ℕ
      → String
      → String
      → String
      → Text
      → String
      → AuthSettings
      → Environ
      → Accounts
      → Result LoginError (UserResponse × Cookie) × Accounts
  unfolding get_user_by_email stored_hash verify_password admit_login session_ttl_seconds
  login now session_id token equaliser email password settings environ a =
      let row = get_user_by_email email a in
      elim (verify_password (stored_hash equaliser row) password) [
        | err e ↦ (err e, a)
        | ok password_ok ↦
            admit_login now session_id token (session_ttl_seconds settings environ) row password_ok
              a
      ]

module _ (hash_token : String → String) where
  -- `logout`
  unfoldable pub logout : Option String → Accounts → Accounts × Cookie
  unfolding delete_session
  logout none a = (a, session_change delete_cookie)
  logout (some token) a = (
    if str_eq token "" then a else delete_session hash_token token a,
    session_change delete_cookie,
  )

-- `me`
unfoldable pub me : Principal → Accounts → UserResponse
unfolding get_user_by_id
me principal a = elim (get_user_by_id principal.id a) [
  | some row ↦ to_response row
  | none ↦ record {
    id = principal.id;
    email = Option.get_or principal.email (codes principal.id);
    status = active;
    edition = some principal.edition;
  }
]
