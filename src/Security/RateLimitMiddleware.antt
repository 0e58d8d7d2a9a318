-- ===== src/Security/RateLimitMiddleware.antt =====
-- app/security/rate_limit_middleware.py. The application behind the middleware is not run here: a
-- call yields what is to be done with the request, and the limiter after it. A bytestring is a list
-- of numbers; a second has `ticks` ticks of the limiter's clock.
pub mod Throttle
use lavs_core.Prelude.{
  ℕ, suc, ◌*◌, ◌≡◌, Bool, true, false, not, ◌||◌, Option, none, some, List, [], ◌∷◌, String, str_eq,
  arith, ltb, if◌then◌else◌, Bool-cases, inl, inr, ℤ, pos, negsuc,
}
use mathlib.Core.Option
use Prim.Native.Char.{Char, char, IsScalar, nul}
use lavs_core.Text.{Text, codes, before, strip, lower, text_eq, starts_with}
use lavs_core.Environ.{Environ, is_empty}
use lavs_core.Security.SlidingWindowLimiter.{SlidingWindowLimiter, allow}
use lavs_core.Security.RateLimitSettings.{
  RateLimitSettings, limit, window_seconds, trust_forwarded_for, max_tracked_clients, enabled,
}

-- An ASGI connection scope.
pub record Scope : Type 0 where
  pub type : String
  pub path : Text
  pub client : Option String
  pub headers : List (Text × Text)

-- The downstream application is called, or the 429 envelope is sent with its `Retry-After`.
pub data Outcome : Type 0 where
  passed : Outcome
  rate_limited : ℤ → Outcome

pub IsScalar-of_ltb : (n : ℕ) → ltb n 55296 ≡ true → IsScalar n
IsScalar-of_ltb n h = ground arith

-- The character of a byte.
unfoldable pub char_of : ℕ → Char
char_of n = elim (Bool-cases (ltb n 55296)) [ inl h ↦ char n (IsScalar-of_ltb n h) | inr h ↦ nul ]

-- `bytes(value).decode("latin-1")`
unfoldable pub decode : Text → String
unfolding char_of
decode [] = String.[]
decode (c ∷ cs) = String.◌∷◌ (char_of c) (decode cs)

unfoldable pub forwarded_for : List (Text × Text) → Option String
unfolding lower text_eq before strip decode
forwarded_for [] = none
forwarded_for ((name, value) ∷ headers) =
    let first = strip (before b',' value) in
    let rest = forwarded_for headers in
    if text_eq (lower name) (codes "x-forwarded-for")
    then (if is_empty first then none else some (decode first))
    else rest

-- The peer's address.
unfoldable pub peer_key : Scope → String
peer_key scope = Option.get_or scope.client "unknown"

unfoldable pub client_key : RateLimitSettings → Environ → Scope → String
unfolding trust_forwarded_for forwarded_for peer_key
client_key settings environ scope =
    if trust_forwarded_for settings environ
    then Option.get_or (forwarded_for scope.headers) (peer_key scope)
    else peer_key scope

-- `__init__` without a limiter.
unfoldable pub fresh_limiter : RateLimitSettings → SlidingWindowLimiter
unfolding max_tracked_clients
fresh_limiter settings = record { max_keys = max_tracked_clients settings; admissions = [] }

-- The condition of the first pass-through.
unfoldable pub is_exempt : Scope → Bool
unfolding starts_with
is_exempt scope = not (str_eq scope.type "http") || not (starts_with (codes "/auth/") scope.path)

-- The window in ticks.
abbrev pub window_ticks : ℕ → ℤ → ℕ
window_ticks ticks (pos seconds) = seconds * ticks
window_ticks ticks (negsuc n) = 0

abbrev pub outcome_of : ℤ → Bool × SlidingWindowLimiter → Outcome × SlidingWindowLimiter
outcome_of seconds (true, limiter) = (passed, limiter)
outcome_of seconds (false, limiter) = (rate_limited seconds, limiter)

-- `__call__`; `none` is an IndexError of the limiter.
unfoldable pub call :
    ℕ
    → RateLimitSettings
    → Environ
    → ℕ
    → Scope
    → SlidingWindowLimiter
    → Option (Outcome × SlidingWindowLimiter)
unfolding is_exempt enabled allow client_key window_seconds limit
call ticks settings environ now scope limiter =
    if is_exempt scope
    then some (passed, limiter)
    else if not (enabled settings environ)
    then some (passed, limiter)
    else Option.map (outcome_of (window_seconds settings environ)) (
        allow now (window_ticks ticks (window_seconds settings environ)) (limit settings environ)
          limiter (client_key settings environ scope))
