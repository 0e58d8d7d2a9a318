-- ===== src/Auth/Principals.antt =====
-- app/auth/principal.py, auth_registry.py, auth_resolver.py, auth_resolver_factory.py, require_principal.py and
-- providers/: who a request comes from. A provider is its method `authenticate`.
pub mod Resolve
pub mod Credentials
use lavs_core.Prelude.{
  ℕ, Bool, true, false, not, ◌&&◌, ◌||◌, Option, none, some, List, [], ◌∷◌, ◌++◌, String, str_eq,
  any, leb, if◌then◌else◌, Result, ok, err, ◌>>=◌,
}
use lavs_core.Text.{Text, text_eq}
use lavs_core.Environ.{Environ, is_empty}
use lavs_core.Auth.{Accounts, get_user_by_id, lookup_active_user_id}
use lavs_core.Auth.Settings.{
  AuthSettings, AuthMode, from_environ, modes, edition, password_enabled, apikey_mode_enabled,
  get_configured_api_key, is_authentication_enabled,
}

pub data PrincipalKind : Type 0 where
  user service : PrincipalKind

pub record Principal : Type 0 where
  pub kind : PrincipalKind
  pub id : String
  pub email : Option Text
  pub edition : Text

-- The header and the cookie that the framework finds under a name, and what the process holds when
-- the request is handled: its environment, the clock, and the database of `app.state`, if any.
pub record Request : Type 0 where
  pub header : String → Option Text
  pub cookie : String → Option String
  pub environ : Environ
  pub now : ℕ
  pub accounts : Option Accounts

-- The resolver's 401, or a TypeError of `hmac.compare_digest`.
pub data Refusal : Type 0 where
  unauthorized type_error : Refusal

abbrev pub AuthProvider : Type 0
AuthProvider = Request → Result Refusal (Option Principal)

abbrev pub anonymous : String
anonymous = "anonymous"

abbrev pub api_key : String
api_key = "api-key"

-- `SessionCookie.NAME`
abbrev pub session_cookie : String
session_cookie = "lavs_session"

-- `hmac.compare_digest` on `str`, which raises unless both are ASCII.
unfoldable pub compare_digest : Text → Text → Result Refusal Bool
unfolding text_eq
compare_digest a b = if any (leb 128) a || any (leb 128) b then err type_error else ok (text_eq a b)

abbrev pub api_key_principal : Text → Principal
api_key_principal label = record { kind = service; id = api_key; email = none; edition = label }

-- `ApiKeyProvider.authenticate`
unfoldable pub authenticate_api_key : Text → AuthProvider
unfolding get_configured_api_key compare_digest
authenticate_api_key label request = elim (get_configured_api_key request.environ) [
  | none ↦ ok none
  | some key ↦ if is_empty key then ok none else elim (request.header "X-API-Key") [
    | none ↦ ok none
    | some presented ↦ do
      matches ← compare_digest presented key
      ok (if matches then some (api_key_principal label) else none)
  ]
]

module _ (hash_token : String → String) where
  -- `PasswordSessionProvider.authenticate`
  unfoldable pub authenticate_session : Text → AuthProvider
  unfolding lookup_active_user_id get_user_by_id
  authenticate_session label request = elim (request.cookie session_cookie) [
    | none ↦ ok none
    | some token ↦ if str_eq token "" then ok none else elim request.accounts [
      | none ↦ ok none
      | some a ↦ elim (lookup_active_user_id hash_token request.now token a) [
        | none ↦ ok none
        | some user_id ↦ elim (get_user_by_id user_id a) [
          | none ↦ ok none
          | some row ↦
              ok (
                some
                  (record { kind = user; id = user_id; email = some row.email; edition = label }))
        ]
      ]
    ]
  ]

-- `AuthRegistry.register`
abbrev pub register : AuthProvider → List AuthProvider → List AuthProvider
register provider registry = registry ++ provider ∷ []

pub record AuthResolver : Type 0 where
  pub registry : List AuthProvider
  pub edition : Text
  pub auth_configured : Bool

-- The loop over the providers.
unfoldable pub first_principal : List AuthProvider → AuthProvider
first_principal [] request = ok none
first_principal (provider ∷ providers) request = elim (provider request) [
  | err e ↦ err e
  | ok (some principal) ↦ ok (some principal)
  | ok none ↦ first_principal providers request
]

abbrev pub is_nil : {A : Type 0} → List A → Bool
is_nil [] = true
is_nil (x ∷ xs) = false

abbrev pub anonymous_principal : AuthResolver → Principal
anonymous_principal resolver = record {
  kind = service;
  id = anonymous;
  email = none;
  edition = resolver.edition;
}

-- `AuthResolver.resolve`
unfoldable pub resolve : AuthResolver → Request → Result Refusal Principal
unfolding first_principal
resolve resolver request = elim (first_principal resolver.registry request) [
  | err e ↦ err e
  | ok (some principal) ↦ ok principal
  | ok none ↦
      if resolver.auth_configured || not (is_nil resolver.registry)
      then err unauthorized
      else ok (anonymous_principal resolver)
]

-- `AuthResolverFactory.build_registry`
unfoldable pub build_registry : AuthSettings → Environ → List AuthProvider
unfolding is_authentication_enabled apikey_mode_enabled authenticate_api_key edition
build_registry settings environ =
    if is_authentication_enabled environ || apikey_mode_enabled settings environ
    then register (authenticate_api_key (edition settings environ)) []
    else []

-- `AuthResolverFactory.build_resolver`, on a given registry.
unfoldable pub build_resolver : AuthSettings → Environ → List AuthProvider → AuthResolver
unfolding modes is_authentication_enabled edition
build_resolver settings environ registry = record {
  registry = registry;
  edition = edition settings environ;
  auth_configured = not (is_nil (modes settings environ)) || is_authentication_enabled environ;
}

-- `require_principal`, for the resolver of `app.state`, if there is one.
unfoldable pub require_principal : Option AuthResolver → Request → Result Refusal Principal
unfolding resolve build_resolver build_registry
require_principal (some resolver) request = resolve resolver request
require_principal none request =
    resolve
      (build_resolver from_environ request.environ (build_registry from_environ request.environ))
      request

module _ (hash_token : String → String) where
  -- The registry that the lifespan of app/main.py installs, before the plugins.
  unfoldable pub core_registry : AuthSettings → Environ → List AuthProvider
  unfolding build_registry password_enabled authenticate_session edition
  core_registry settings environ =
      if password_enabled settings environ
      then register (authenticate_session hash_token (edition settings environ))
          (build_registry settings environ)
      else build_registry settings environ
