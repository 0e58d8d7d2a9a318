-- ===== src/Security/RateLimitSettings.antt =====
-- app/security/rate_limit_settings.py. The environment is an argument, since it is read on demand.
use lavs_core.Prelude.{
  ℕ, zero, suc, Bool, true, false, ◌&&◌, Option, none, some, [], ◌∷◌, String, ℤ, pos, negsuc,
}
use mathlib.Core.Option
use lavs_core.Text.{codes, strip, lower, is_among}
use lavs_core.Environ.{Environ, get_or_empty, given, int_or_default}

-- What the constructor was given; `none` is left to the environment.
pub record RateLimitSettings : Type 0 where
  pub given_limit : Option ℤ
  pub given_window_seconds : Option ℤ
  pub given_trust_forwarded_for : Option Bool
  pub given_max_tracked_clients : Option ℕ

abbrev pub default_limit : ℤ
default_limit = pos 0

abbrev pub default_window_seconds : ℤ
default_window_seconds = pos 60

abbrev pub default_max_tracked_clients : ℕ
default_max_tracked_clients = 1024

-- A value that was injected, or one of the environment, or the default.
unfoldable pub resolved : Option ℤ → String → ℤ → Environ → ℤ
unfolding given int_or_default
resolved (some value) name default environ = value
resolved none name default environ = elim (given name environ) [
  | none ↦ default
  | some raw ↦ int_or_default raw default
]

unfoldable pub limit : RateLimitSettings → Environ → ℤ
unfolding resolved
limit settings = resolved settings.given_limit "LAVS_AUTH_RATE_LIMIT" default_limit

unfoldable pub window_seconds : RateLimitSettings → Environ → ℤ
unfolding resolved
window_seconds settings =
    resolved settings.given_window_seconds "LAVS_AUTH_RATE_WINDOW_SECONDS" default_window_seconds

unfoldable pub trust_forwarded_for : RateLimitSettings → Environ → Bool
unfolding get_or_empty strip lower is_among
trust_forwarded_for settings environ = elim settings.given_trust_forwarded_for [
  | some trust ↦ trust
  | none ↦
      is_among (lower (strip (get_or_empty "LAVS_AUTH_RATE_TRUST_FORWARDED_FOR" environ)))
        (codes "1" ∷ codes "true" ∷ codes "yes" ∷ codes "on" ∷ [])
]

unfoldable pub max_tracked_clients : RateLimitSettings → ℕ
max_tracked_clients settings =
    Option.get_or settings.given_max_tracked_clients default_max_tracked_clients

-- `n > 0`
abbrev pub is_positive : ℤ → Bool
is_positive (pos zero) = false
is_positive (pos (suc n)) = true
is_positive (negsuc n) = false

unfoldable pub enabled : RateLimitSettings → Environ → Bool
unfolding limit window_seconds
enabled settings environ =
    is_positive (limit settings environ) && is_positive (window_seconds settings environ)
