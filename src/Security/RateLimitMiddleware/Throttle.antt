-- ===== src/Security/RateLimitMiddleware/Throttle.antt =====
-- What the middleware decides, in terms of the limiter behind it.
use lavs_core.Prelude.{
  ℕ, zero, suc, ◌*◌, ◌⊎◌, ◌++◌, ◌∙◌, ap, eq_iff, ◌≤◌, ◌≡◌, refl, inl, inr, Bool, true, false, not,
  ◌||◌, some, List, String, arith, if◌then◌else◌, Bool-cases, ℤ, pos, negsuc,
}
use mathlib.Core.Option
use lavs_core.Text.{Text, codes, starts_with, starts_with-append, starts_with-found}
use lavs_core.Environ.{Environ}
use lavs_core.Security.SlidingWindowLimiter.{SlidingWindowLimiter, allow, allow_within}
use lavs_core.Security.SlidingWindowLimiter.Capacity.{IsWellFormed}
use lavs_core.Security.SlidingWindowLimiter.Log.{
  Represents, HasRoom, has_budget, next_log, allow_within-refines,
}
use lavs_core.Security.RateLimitSettings.{
  RateLimitSettings, limit, window_seconds, trust_forwarded_for, enabled, is_positive,
}
use lavs_core.Security.RateLimitMiddleware.{
  Scope, passed, rate_limited, client_key, peer_key, forwarded_for, is_exempt, window_ticks,
  outcome_of, call,
}

positive : (n : ℤ) → is_positive n ≡ true → (m : ℕ) × (n ≡ pos (suc m))
positive (pos zero) h = cc
positive (pos (suc m)) h = (m, refl)
positive (negsuc n) h = cc

pub enabled-positive :
    (settings : RateLimitSettings) (environ : Environ)
    → enabled settings environ ≡ true
    → ((n : ℕ) × (limit settings environ ≡ pos (suc n)))
      × ((w : ℕ) × (window_seconds settings environ ≡ pos (suc w)))
unfolding enabled
enabled-positive settings environ h = (
  positive (limit settings environ) (ground arith),
  positive (window_seconds settings environ) (ground arith),
)

-- A positive number, as a natural one.
abbrev pub budget : ℤ → ℕ
budget (pos n) = n
budget (negsuc n) = 0

module _ (ticks : ℕ) (settings : RateLimitSettings) (environ : Environ) (now : ℕ)
    (scope : Scope) where
  -- The limiter is not consulted.
  abbrev pub is_free : Bool
  is_free = is_exempt scope || not (enabled settings environ)

  abbrev pub key : String
  key = client_key settings environ scope

  abbrev pub window : ℕ
  window = window_ticks ticks (window_seconds settings environ)

  -- The window in ticks.
  abbrev pub span : ℕ
  span = budget (window_seconds settings environ) * ticks

  -- The address that the connection comes from.
  abbrev peer : String
  peer = Option.get_or scope.client "unknown"

  -- The client that a request counts for.
  abbrev pub IsClient : String → Type 0
  IsClient client =
      ((trust_forwarded_for settings environ ≡ false) × (client ≡ peer))
      ⊎ ((trust_forwarded_for settings environ ≡ true)
          × (client ≡ Option.get_or (forwarded_for scope.headers) peer))

  client-key : (client : String) → IsClient client → key ≡ client
  unfolding client_key peer_key
  client-key client who = ground arith

  -- A request for a path under `/auth/`, with a positive limit and window.
  abbrev pub IsLimited : ℕ → ℕ → Text → Type 0
  IsLimited n s rest =
      (scope.type ≡ "http")
      × (scope.path ≡ codes "/auth/" ++ rest)
      × (limit settings environ ≡ pos (suc n))
      × (window_seconds settings environ ≡ pos (suc s))

  not_limited : (n s : ℕ) (rest : Text) → IsLimited n s rest → is_free ≡ true → ⊥
  unfolding is_exempt enabled
  not_limited n s rest (http, path, lim, win) free =
      let auth : starts_with (codes "/auth/") scope.path ≡ true =
        rw path (starts_with-append (codes "/auth/") rest) in
      ground
        (arith, auth, (eq_iff scope.type "http").1 http, ap is_positive lim, ap is_positive win)

  not_exempt :
      is_exempt scope ≡ false
      → (rest : Text) × (scope.type ≡ "http") × (scope.path ≡ codes "/auth/" ++ rest)
  unfolding is_exempt
  not_exempt h =
      let (rest, e) = starts_with-found (codes "/auth/") scope.path (ground arith) in
      (rest, (eq_iff scope.type "http").0 (ground arith), e)

  module _ (limiter : SlidingWindowLimiter) where
    call-free :
        is_free ≡ true → call ticks settings environ now scope limiter ≡ some (passed, limiter)
    unfolding call
    call-free h = ground arith

    call-limited :
        is_free ≡ false
        → call ticks settings environ now scope limiter
          ≡ Option.map
              (outcome_of (window_seconds settings environ))
              (allow now window (limit settings environ) limiter key)
    unfolding call
    call-limited h = ground arith

    module _ (log : String → List ℕ) where
      -- What the middleware does with a request, on behalf of a client: it lets it through, or it
      -- decides by the log and logs what it lets through.
      abbrev pub Handled : String → Type 0
      Handled client =
          (((n s : ℕ) (rest : Text) → IsLimited n s rest → ⊥)
            × (call ticks settings environ now scope limiter ≡ some (passed, limiter)))
          ⊎ ((n : ℕ) × (s : ℕ) × (rest : Text) × IsLimited n s rest
              × ((after : SlidingWindowLimiter) × (call ticks settings environ now scope limiter
                    ≡ some (
                      (if has_budget now (suc s * ticks) (suc n) client log
                          then passed
                          else rate_limited (pos (suc s))),
                      after,
                    ))
                  × Represents now (suc s * ticks) after.admissions
                      (next_log now (suc s * ticks) (suc n) client log)))

      -- From a well-formed limiter that represents the full log of admissions, at a clock that has
      -- not gone back, and where the client has a bucket or pruning leaves room for one: an http
      -- request for a path under `/auth/`, while the limit and the window are positive, passes, and
      -- is logged for the client, exactly if the client has fewer admissions inside the window than
      -- the limit, and is else refused with the window as the hint to retry; any other passes and
      -- leaves the limiter as it is. The client is the peer, or, while forwarded addresses are
      -- trusted, the address that the headers name, if they name one.
      pub call-refines :
          (before : ℕ) (client : String)
          → before ≤ now
          → IsClient client
          → IsWellFormed before limiter
          → Represents before span limiter.admissions log
          → HasRoom now span (budget (limit settings environ)) client log limiter
          → Handled client
      call-refines before client order who w r room = elim (Bool-cases is_free) [
        | inl free ↦ inl (λ n s rest h. not_limited n s rest h free, call-free free)
        | inr paid ↦
            let ((n, is_limit), (s, is_window)) =
              enabled-positive settings environ (ground arith) in
            let (rest, http, path) = not_exempt (ground arith) in
            let (after, runs, rep) =
              allow_within-refines now (suc s * ticks) (suc n) client log limiter before order w
                (rw is_window at r) (rw is_window at room) in
            inr (
              n,
              s,
              rest,
              (http, path, is_limit, is_window),
              (after, admits n s after paid is_limit is_window who runs, rep),
            )
      ]
        where
          by_verdict :
              (s : ℕ) (after : SlidingWindowLimiter) (b : Bool)
              → some (outcome_of (pos (suc s)) (b, after))
                ≡ some ((if b then passed else rate_limited (pos (suc s))), after)
          by_verdict s after true = refl
          by_verdict s after false = refl

          allow-pos :
              (n s : ℕ)
              → allow now (suc s * ticks) (pos (suc n)) limiter client
                ≡ allow_within now (suc s * ticks) (suc n) limiter client
          allow-pos n s = unfold allow in refl

          admits :
              (n s : ℕ) (after : SlidingWindowLimiter)
              → is_free ≡ false
              → limit settings environ ≡ pos (suc n)
              → window_seconds settings environ ≡ pos (suc s)
              → IsClient client
              → allow_within now (suc s * ticks) (suc n) limiter client
                ≡ some (has_budget now (suc s * ticks) (suc n) client log, after)
              → call ticks settings environ now scope limiter
                ≡ some (
                  (if has_budget now (suc s * ticks) (suc n) client log
                      then passed
                      else rate_limited (pos (suc s))),
                  after,
                )
          admits n s after paid is_limit is_window who runs =
              call-limited paid
              ∙ (ap
                    (λ k.
                      Option.map (outcome_of (window_seconds settings environ))
                        (allow now window (limit settings environ) limiter k))
                    (client-key client who)
                  ∙ rw (is_limit, is_window)
                      (ap (Option.map (outcome_of (pos (suc s)))) (allow-pos n s ∙ runs)
                        ∙ by_verdict s after (has_budget now (suc s * ticks) (suc n) client log)))

-- While forwarded addresses are not trusted, the headers of a request do not change what the
-- middleware does with it.
pub call-headers :
    (ticks : ℕ) (settings : RateLimitSettings) (environ : Environ) (now : ℕ) (scope : Scope)
    (headers : List (Text × Text)) (limiter : SlidingWindowLimiter)
    → trust_forwarded_for settings environ ≡ false
    → call ticks settings environ now (record scope { headers = headers }) limiter
      ≡ call ticks settings environ now scope limiter
unfolding call client_key is_exempt peer_key
call-headers ticks settings environ now scope headers limiter distrust = ground arith
