-- ===== src/Tests/Entry.antt =====
-- Sign-up, login and the resolution of principals at small inputs; a hash adds a letter.
use lavs_core.Prelude.{
  ◌≡◌, ◌≢◌, ◌↔◌, ◌⊎◌, refl, ap, sym, true, false, none, some, List, [], ◌∷◌, String, str_eq, eq_iff,
  arith, ok, err, Result, ℤ, pos, inl, inr, if◌then◌else◌, In,
}
use lavs_core.Text.{codes}
use lavs_core.Environ.{Environ}
use lavs_core.Auth.{User, active, VerificationToken, Accounts, is_none, get_user_by_email}
use lavs_core.Auth.Settings.{
  AuthSettings, password, edition, allowed_email_domains, session_ttl_seconds, ttl_seconds,
}
use lavs_core.Auth.Principals.{
  Principal, user, Request, anonymous_principal, api_key_principal, build_resolver, core_registry,
  resolve, authenticate_session, AuthResolver,
}
use lavs_core.Auth.Principals.Resolve.{Answers, IsOpen, resolve-ok_iff}
use lavs_core.Auth.Principals.Credentials.{
  HasKey, HasSession, IsUnconfigured, core_resolver, resolve-core,
}
use lavs_core.Auth.Signup.{
  SignupModel, State, conflict, last_for, check_signup, register, assert_domain_allowed,
  matches_email,
}
use lavs_core.Auth.Signup.Email.{IsEmail, matches_email_iff}
use lavs_core.Auth.Signup.Again.{register-again}
use lavs_core.Auth.Routes.{
  Argon2Error, mismatch, invalid, stored_hash, UserResponse, to_response, Cookie, LoginError,
  unauthorized, set_session_cookie, login,
}
use lavs_core.Auth.Routes.Login.{
  IsAdmitted, IsRefused, with_session, shown, hardened, login_cases, login-unauthorized,
}
use lavs_core.Auth.Lifecycle.{message}
use lavs_core.Auth.Lifecycle.Journey.{registered, verified_at, logged_in, active_user, journey}
use lavs_core.Auth.Invariant.{IsWellFormed}
use lavs_core.Auth.Invariant.Requests.{
  Call, signs_up, verifies, logs_in, logs_out, run, run-IsWellFormed, run-login-IsVerified,
}

abbrev hash : String → String
hash token = String.◌∷◌ "h" token

abbrev hash_password : String → String
hash_password word = String.◌∷◌ "k" word

abbrev argon2_verify : String → String → Result Argon2Error (Unit {0})
argon2_verify stored word = if str_eq stored (hash_password word) then ok tt else err mismatch

abbrev settings : AuthSettings
settings = record {
  given_modes = some (password ∷ []);
  given_email_domains = some (codes "x.y" ∷ []);
  given_session_ttl = some (pos 100);
  given_edition = some (codes "oss");
}

abbrev model : SignupModel
model = record { email = codes "a@x.y"; password = "correct horse" }

abbrev nothing : State
nothing = record {
  accounts = record { users = []; sessions = []; tokens = [] };
  mailer = record { maxlen = 100; messages = [] };
}

accepted : (p : String) → argon2_verify (hash_password p) p ≡ ok tt
accepted p = rw ((eq_iff (hash_password p) (hash_password p)).1 refl) refl

passed : check_signup model.email (allowed_email_domains settings []) nothing.accounts ≡ ok tt
unfolding check_signup allowed_email_domains
passed = refl

allowed : assert_domain_allowed model.email (allowed_email_domains settings []) ≡ ok tt
unfolding assert_domain_allowed allowed_email_domains
allowed = refl

abbrev row : User
row = record {
  id = "u";
  email = codes "a@x.y";
  password_hash = "kword";
  status = active;
  edition = none;
}

-- The account of the person after the verification.
abbrev accounts : Accounts
accounts = record {
  users = row ∷ [];
  sessions = [];
  tokens = record { token_hash = "hv"; user_id = "u"; expires_at = 9; consumed_at = some 7 } ∷ [];
}

only : (u : User) → In u accounts.users → u.id ≡ "u"
only u (inl e) = ap (λ (v : User). v.id) e
only u (inr m) = absurd m

accounts-IsWellFormed : IsWellFormed accounts
accounts-IsWellFormed = record {
  ids = (refl, tt);
  emails = (refl, tt);
  owned = λ s m. absurd m;
  verified = λ u m e. (
    record { token_hash = "hv"; user_id = "u"; expires_at = 9; consumed_at = some 7 },
    inl refl,
    sym (only u m),
    refl,
  );
}

abbrev verified_state : State
verified_state = record { accounts = accounts; mailer = nothing.mailer }

abbrev first_state : State
first_state =
    (registered hash_password hash argon2_verify "k" settings (some (pos 50)) [] 5 "u" "v" model
      nothing).1

abbrev logged : Result LoginError (UserResponse × Cookie) × Accounts
logged =
    logged_in hash_password hash argon2_verify "k" settings (some (pos 50)) [] 5 "u" "v" model
      nothing 20 30 "s" "t"

abbrev request : Request
request = record {
  header = λ name. none;
  cookie = λ name. some "t";
  environ = [];
  now = 40;
  accounts = some logged.1;
}

journey_example :
    ((registered hash_password hash argon2_verify "k" settings
        (some (pos 50))
        []
        5
        "u"
        "v"
        model
        nothing).0
      ≡ ok tt)
    × (last_for (codes "a@x.y") first_state.mailer
        ≡ some (
            message hash_password hash argon2_verify 5 "u" "v" model
              (edition settings [])
              (pos 50)
              nothing))
    × ((verified_at hash_password hash argon2_verify "k" settings
          (some (pos 50))
          []
          5
          "u"
          "v"
          model
          nothing
          20).0
        ≡ ok (
            active_user hash_password hash argon2_verify "k" settings
              (some (pos 50))
              []
              5
              "u"
              "v"
              model
              nothing
              20
              30
              "s"
              "t"
              (pos 50)
              (pos 100)))
    × (logged.0
        ≡ ok (
          shown (
              active_user hash_password hash argon2_verify "k" settings
                (some (pos 50))
                []
                5
                "u"
                "v"
                model
                nothing
                20
                30
                "s"
                "t"
                (pos 50)
                (pos 100)),
          hardened "t" (pos 100),
        ))
    × (authenticate_session hash (codes "oss") request
        ≡ ok (
            some (record {
              kind = user;
              id = "u";
              email = some (codes "a@x.y");
              edition = codes "oss";
            })))
journey_example =
    journey hash_password hash argon2_verify "k" settings (some (pos 50)) [] 5 "u" "v" model nothing
      20 30 "s" "t" (pos 50) (pos 100) request (codes "oss") accepted (omega arith) passed refl refl
      refl refl (unfold ttl_seconds in refl) (unfold session_ttl_seconds in refl) refl refl refl
      refl refl

abbrev calls : List (Environ × Call)
calls =
    ([], signs_up 5 "w" "z" (record { email = codes "b@x.y"; password = "battery staple" }))
    ∷ ([], verifies 6 "z")
    ∷ ([], logs_in 7 "s" "t" (codes "a@x.y") "word")
    ∷ ([], logs_out (some "t"))
    ∷ []

run-IsWellFormed_example :
    IsWellFormed
      (run hash_password hash argon2_verify "k" settings
        (some (pos 50))
        calls
        verified_state).accounts
run-IsWellFormed_example =
    run-IsWellFormed hash_password hash argon2_verify "k" settings (some (pos 50)) calls
      verified_state accounts-IsWellFormed

login_cases_example :
    ((row : User) × (ttl : ℤ) × IsAdmitted argon2_verify hash 7 "s" "t" "k"
        (codes "a@x.y")
        "word"
        settings
        []
        accounts
        row
        ttl
      × (login argon2_verify hash 7 "s" "t" "k" (codes "a@x.y") "word" settings [] accounts ≡ (
        ok (shown row, hardened "t" ttl),
        with_session argon2_verify hash 7 "s" "t" ttl row.id accounts,
      )))
    ⊎ ((e : LoginError) × (login argon2_verify hash 7 "s" "t" "k"
            (codes "a@x.y")
            "word"
            settings
            []
            accounts
          ≡ (err e, accounts)))
login_cases_example =
    login_cases argon2_verify hash 7 "s" "t" "k" (codes "a@x.y") "word" settings [] accounts

readable :
    argon2_verify (stored_hash "k" (get_user_by_email (codes "a@x.y") accounts)) "other"
    ≢ err invalid
unfolding get_user_by_email stored_hash
readable e = cc

refused : IsRefused argon2_verify hash 7 "s" "t" "k" (codes "a@x.y") "other" settings [] accounts
unfolding get_user_by_email
refused = inr (row, refl, inl refl)

login-unauthorized_example :
    login argon2_verify hash 7 "s" "t" "k" (codes "a@x.y") "other" settings [] accounts
    ≡ (err unauthorized, accounts)
login-unauthorized_example =
    login-unauthorized argon2_verify hash 7 "s" "t" "k" (codes "a@x.y") "other" settings [] accounts
      readable refused

first_signed :
    (register hash_password hash 5 "u" "v" model settings (some (pos 50)) [] nothing).0 ≡ ok tt
unfolding register allowed_email_domains edition ttl_seconds
first_signed = refl

register-again_example :
    register hash_password hash 900 "w" "z"
      (record model { password = "battery staple" })
      settings
      (some (pos 50))
      []
      first_state
    ≡ (err conflict, first_state)
register-again_example =
    register-again hash_password hash settings (some (pos 50)) 5 "u" "v" [] model nothing 900 "w"
      "z" [] "battery staple" first_signed allowed

matches_email_iff_example : (matches_email (codes "a@x.y") ≡ true) ↔ IsEmail (codes "a@x.y")
matches_email_iff_example = matches_email_iff (codes "a@x.y")

abbrev keyed : Request
keyed = record {
  header = λ name. if str_eq name "X-API-Key" then some (codes "key") else none;
  cookie = λ name. none;
  environ = ("LAVS_API_KEY", codes "key") ∷ [];
  now = 40;
  accounts = none;
}

abbrev principal : Principal
principal = api_key_principal (codes "oss")

abbrev resolver : AuthResolver
resolver = core_resolver hash settings keyed.environ

keyed_resolves : resolve resolver keyed ≡ ok principal
unfolding resolve build_resolver core_registry
keyed_resolves = refl

resolve-ok_iff_example :
    (resolve resolver keyed ≡ ok principal)
    ↔ (Answers resolver.registry keyed principal ⊎ IsOpen keyed principal resolver)
resolve-ok_iff_example = resolve-ok_iff keyed principal resolver

resolve-core_example :
    HasKey (edition settings keyed.environ) keyed principal
    ⊎ (HasSession (edition settings keyed.environ) keyed principal hash
        ⊎ (IsUnconfigured hash settings keyed.environ × (principal ≡ anonymous_principal resolver)))
resolve-core_example = resolve-core hash settings keyed.environ keyed principal keyed_resolves

abbrev entered : Accounts
entered = with_session argon2_verify hash 8 "s" "t" (pos 100) "u" accounts

entry :
    login argon2_verify hash 8 "s" "t" "k"
      (codes "a@x.y")
      "word"
      settings
      []
      (run hash_password hash argon2_verify "k" settings
        (some (pos 50))
        (([], logs_out none) ∷ [])
        verified_state).accounts
    ≡ (ok (to_response row, set_session_cookie "t" (pos 100)), entered)
unfolding login run
entry = refl

run-login-IsVerified_example :
    (t : VerificationToken) × In t accounts.tokens
    × (t.user_id ≡ "u")
    × (is_none t.consumed_at ≡ false)
unfolding run
run-login-IsVerified_example =
    run-login-IsVerified hash_password hash argon2_verify "k" settings (some (pos 50))
      (([], logs_out none) ∷ []) verified_state 8 "s" "t" (codes "a@x.y") "word" []
      (to_response row, set_session_cookie "t" (pos 100)) entered accounts-IsWellFormed entry
