-- ===== src/Auth/Settings.antt =====
-- app/auth/auth_settings.py, app/auth/signup/verification_settings.py, app/security/api_key.py and
-- api_key_settings.py. The environment is an argument, since it is read on demand.
use lavs_core.Prelude.{
  Bool, true, false, not, Option, none, some, List, [], ◌∷◌, String, ℤ, pos, any, map, lookup,
  if◌then◌else◌,
}
use lavs_core.Text.{Text, codes, split, strip, lower, int, text_eq}
use lavs_core.Environ.{Environ, get_or_empty, given, is_empty}

-- app/auth/auth_mode.py
pub data AuthMode : Type 0 where
  password apikey : AuthMode

abbrev pub same_mode : AuthMode → AuthMode → Bool
same_mode password password = true
same_mode password apikey = false
same_mode apikey password = false
same_mode apikey apikey = true

-- What the constructor was given; `none` is left to the environment.
pub record AuthSettings : Type 0 where
  pub given_modes : Option (List AuthMode)
  pub given_email_domains : Option (List Text)
  pub given_session_ttl : Option ℤ
  pub given_edition : Option Text

-- `AuthSettings()`
abbrev pub from_environ : AuthSettings
from_environ = record {
  given_modes = none;
  given_email_domains = none;
  given_session_ttl = none;
  given_edition = none;
}

abbrev pub default_session_ttl : ℤ
default_session_ttl = pos 604800

abbrev pub default_verification_ttl : ℤ
default_verification_ttl = pos 86400

abbrev pub strip_nonempty : List Text → List Text
strip_nonempty [] = []
strip_nonempty (item ∷ items) =
    let rest = strip_nonempty items in if is_empty (strip item) then rest else strip item ∷ rest

unfoldable pub split_csv : Text → List Text
unfolding split strip
split_csv raw = strip_nonempty (split b',' raw)

-- `recognised.add(mode)`
unfoldable pub add_mode : AuthMode → List AuthMode → List AuthMode
add_mode mode modes = if any (same_mode mode) modes then modes else mode ∷ modes

-- The loop over the tokens.
unfoldable pub recognise : List Text → List AuthMode
unfolding text_eq lower add_mode
recognise [] = []
recognise (token ∷ tokens) =
    let rest = recognise tokens in
    if text_eq (lower token) (codes "password")
    then add_mode password rest
    else if text_eq (lower token) (codes "apikey")
    then add_mode apikey rest
    else rest

-- A set, as a list without repetition.
unfoldable pub modes : AuthSettings → Environ → List AuthMode
unfolding recognise split_csv get_or_empty
modes settings environ = elim settings.given_modes [
  | some given ↦ given
  | none ↦ recognise (split_csv (get_or_empty "LAVS_AUTH_MODES" environ))
]

unfoldable pub allowed_email_domains : AuthSettings → Environ → List Text
unfolding split_csv get_or_empty lower
allowed_email_domains settings environ = elim settings.given_email_domains [
  | some domains ↦ domains
  | none ↦ map lower (split_csv (get_or_empty "LAVS_ALLOWED_EMAIL_DOMAINS" environ))
]

-- A lifetime that was injected, or one of the environment, or the default; `none` is a ValueError.
unfoldable pub lifetime : Option ℤ → String → ℤ → Environ → Option ℤ
unfolding given int
lifetime (some seconds) name default environ = some seconds
lifetime none name default environ = elim (given name environ) [
  | none ↦ some default
  | some raw ↦ int raw
]

unfoldable pub session_ttl_seconds : AuthSettings → Environ → Option ℤ
unfolding lifetime
session_ttl_seconds settings =
    lifetime settings.given_session_ttl "LAVS_SESSION_TTL_SECONDS" default_session_ttl

-- `VerificationSettings.ttl_seconds`, for what its constructor was given.
unfoldable pub ttl_seconds : Option ℤ → Environ → Option ℤ
unfolding lifetime
ttl_seconds given_ttl =
    lifetime given_ttl "LAVS_EMAIL_VERIFICATION_TTL_SECONDS" default_verification_ttl

unfoldable pub edition : AuthSettings → Environ → Text
unfolding given strip
edition settings environ = elim settings.given_edition [
  | some name ↦ name
  | none ↦ elim (given "LAVS_EDITION" environ) [ none ↦ codes "oss" | some raw ↦ strip raw ]
]

unfoldable pub password_enabled : AuthSettings → Environ → Bool
unfolding modes
password_enabled settings environ = any (same_mode password) (modes settings environ)

unfoldable pub apikey_mode_enabled : AuthSettings → Environ → Bool
unfolding modes
apikey_mode_enabled settings environ = any (same_mode apikey) (modes settings environ)

-- `ApiKeySettings.configured_key`, read by `get_configured_api_key`.
unfoldable pub get_configured_api_key : Environ → Option Text
unfolding lookup
get_configured_api_key environ = lookup "LAVS_API_KEY" environ

unfoldable pub is_authentication_enabled : Environ → Bool
unfolding get_configured_api_key
is_authentication_enabled environ = elim (get_configured_api_key environ) [
  | none ↦ false
  | some key ↦ not (is_empty key)
]
