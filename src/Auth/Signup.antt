-- ===== src/Auth/Signup.antt =====
-- app/auth/signup/signup_service.py, signup_policy.py and verification_email.py, app/mail/capture_mailer.py and
-- captured_email.py, and the bodies of app/models/requests/signup_model.py and login_model.py. The
-- password hash (argon2) with its salt, new identifiers and new tokens are arguments.
pub mod Email
pub mod Mailbox
pub mod Again
use lavs_core.Prelude.{
  ℕ, suc, Bool, true, false, not, ◌&&◌, ◌||◌, Option, none, some, List, [], ◌∷◌, ◌++◌, String, any,
  leb, ltb, ◌==◌, if◌then◌else◌, length, find, reverse, Result, ok, err, ℤ, ◌>>=◌,
}
use Prim.Native.String.{◌++◌ as str_append}
use lavs_core.Text.{Text, codes, split, strip, lower, text_eq, is_among, is_space}
use lavs_core.Environ.{Environ, is_empty}
use lavs_core.Auth.{User, pending, Accounts, AuthError, create_user, get_user_by_email, issue}
use lavs_core.Auth.Settings.{AuthSettings, allowed_email_domains, edition, ttl_seconds}

pub record CapturedEmail : Type 0 where
  pub to : Text
  pub subject : String
  pub body : String

-- The ring buffer of the mailer, oldest first.
pub record CaptureMailer : Type 0 where
  pub maxlen : ℕ
  pub messages : List CapturedEmail

-- Drop the oldest messages of a `deque` that has more than `maxlen`.
unfoldable pub trim : ℕ → List CapturedEmail → List CapturedEmail
trim maxlen [] = []
trim maxlen (m ∷ ms) =
    let rest = trim maxlen ms in if leb (length (m ∷ ms)) maxlen then m ∷ ms else rest

unfoldable pub send : CapturedEmail → CaptureMailer → CaptureMailer
unfolding trim
send message mailer = record mailer {
  messages = trim mailer.maxlen (mailer.messages ++ message ∷ []);
}

unfoldable pub last_for : Text → CaptureMailer → Option CapturedEmail
unfolding text_eq
last_for recipient mailer = find (λ m. text_eq m.to recipient) (reverse mailer.messages)

abbrev pub subject : String
subject = "Verify your LAVS account"

-- `VerificationEmail.body`
unfoldable pub body : String → String
body token =
    str_append "Welcome to LAVS.\n\nUse the following single-use token to verify your account:\n\n"
      (str_append token "\n\nThe token expires; if it has, request a new one by signing up again.")

-- A run of one or more characters of `[^@\s]`.
abbrev pub is_word : Text → Bool
is_word word = not (is_empty word) && not (any (λ c. c == b'@' || is_space c) word)

-- `[^@\s]+\.[^@\s]+`, with the text before the dot read so far.
unfoldable pub matches_domain : Text → Text → Bool
matches_domain head [] = false
matches_domain head (c ∷ cs) =
    let rest = matches_domain (head ++ c ∷ []) cs in
    (c == b'.' && (is_word head && is_word cs)) || rest

-- The text between the signs `@`.
unfoldable pub matches_parts : List Text → Bool
unfolding matches_domain
matches_parts [] = false
matches_parts (local ∷ []) = false
matches_parts (local ∷ domain ∷ []) = is_word local && matches_domain [] domain
matches_parts (local ∷ domain ∷ more ∷ parts) = false

-- `re.fullmatch(EMAIL_PATTERN, text)`
unfoldable pub matches_email : Text → Bool
unfolding split matches_parts
matches_email text = matches_parts (split b'@' text)

pub record SignupModel : Type 0 where
  pub email : Text
  pub password : String

abbrev pub min_password_length : ℕ
min_password_length = 12

-- The normalised address, in the bodies of sign-up and login.
unfoldable pub normalize_email : Text → Text
unfolding strip lower
normalize_email value = lower (strip value)

-- The validation of the body of a sign-up; `none` is the 422.
unfoldable pub validate_signup : Text → String → Option SignupModel
unfolding normalize_email matches_email
validate_signup value password =
    if leb (length value) 320
      && (leb min_password_length (length (codes password))
          && (leb (length (codes password)) 128 && matches_email (normalize_email value)))
    then some (record { email = normalize_email value; password = password })
    else none

-- `DomainNotAllowedError`, `ConflictError`, a ValueError of the settings, or a constraint that the
-- service does not catch.
pub data SignupError : Type 0 where
  domain_not_allowed : Text → SignupError
  conflict value_error : SignupError
  database : AuthError → SignupError

-- `email.rsplit("@", 1)[-1]`
unfoldable pub after_last : ℕ → Text → Text
after_last sep [] = []
after_last sep (c ∷ cs) =
    let rest = after_last sep cs in
    if any (λ d. d == sep) cs then rest else if c == sep then cs else c ∷ cs

abbrev pub is_nil : List Text → Bool
is_nil [] = true
is_nil (x ∷ xs) = false

unfoldable pub assert_domain_allowed : Text → List Text → Result SignupError (Unit {0})
unfolding after_last is_among
assert_domain_allowed email allowed =
    if is_nil allowed
    then ok tt
    else if is_among (after_last b'@' email) allowed
    then ok tt
    else err (domain_not_allowed (after_last b'@' email))

unfoldable pub assert_email_available : Text → Accounts → Result SignupError (Unit {0})
unfolding get_user_by_email
assert_email_available email a = elim (get_user_by_email email a) [
  | none ↦ ok tt
  | some row ↦ err conflict
]

-- The two checks before anything is written.
unfoldable pub check_signup : Text → List Text → Accounts → Result SignupError (Unit {0})
unfolding assert_domain_allowed assert_email_available
check_signup email allowed a =
    assert_domain_allowed email allowed >>= λ _. assert_email_available email a

-- What the database and the mailer hold.
pub record State : Type 0 where
  pub accounts : Accounts
  pub mailer : CaptureMailer

abbrev pub mailed :
    CapturedEmail
    → Result AuthError (Unit {0}) × Accounts
    → CaptureMailer
    → Result SignupError (Unit {0}) × State
mailed message (err e, after) mailer =
    (err (database e), record { accounts = after; mailer = mailer })
mailed message (ok _, after) mailer =
    (ok tt, record { accounts = after; mailer = send message mailer })

module _ (hash_password hash_token : String → String) (now : ℕ) (user_id raw_token : String) where
  -- The verification token is issued and mailed.
  unfoldable pub send_token : Option ℤ → Text → State → Result SignupError (Unit {0}) × State
  unfolding issue send
  send_token none email s = (err value_error, s)
  send_token (some ttl) email s =
      mailed (record { to = email; subject = subject; body = body raw_token })
        (issue now (hash_token raw_token) user_id ttl s.accounts) s.mailer

  abbrev pub new_user : SignupModel → Text → User
  new_user model label = record {
    id = user_id;
    email = model.email;
    password_hash = hash_password model.password;
    status = pending;
    edition = some label;
  }

  -- What follows the insert of the user.
  unfoldable pub created :
      Text
      → Option ℤ
      → CaptureMailer
      → Result AuthError User × Accounts
      → Result SignupError (Unit {0}) × State
  unfolding send_token
  created email ttl mailer (err e, after) =
      (err conflict, record { accounts = after; mailer = mailer })
  created email ttl mailer (ok row, after) =
      send_token ttl email (record { accounts = after; mailer = mailer })

  unfoldable pub register_new :
      SignupModel → Text → Option ℤ → State → Result SignupError (Unit {0}) × State
  unfolding create_user created
  register_new model label ttl s =
      created model.email ttl s.mailer (create_user (new_user model label) s.accounts)

  -- `SignupService.register`; `given_ttl` is what the constructor of its settings was given.
  unfoldable pub register :
      SignupModel
      → AuthSettings
      → Option ℤ
      → Environ
      → State
      → Result SignupError (Unit {0}) × State
  unfolding check_signup register_new edition ttl_seconds allowed_email_domains
  register model settings given_ttl environ s =
      elim (check_signup model.email (allowed_email_domains settings environ) s.accounts) [
        | err e ↦ (err e, s)
        | ok _ ↦ register_new model (edition settings environ) (ttl_seconds given_ttl environ) s
      ]
