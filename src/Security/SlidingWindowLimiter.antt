-- ===== src/Security/SlidingWindowLimiter.antt =====
-- app/security/sliding_window_limiter.py. The clock's reading `now` is an argument, and time is
-- counted in ticks. The test `t <= now - window` is written `t + window <= now`, since the
-- subtraction of natural numbers stops at 0.
pub mod Buckets
pub mod Capacity
pub mod Log
use lavs_core.Prelude.{
  ℕ, zero, suc, ◌+◌, Bool, true, false, Option, none, some, List, [], ◌∷◌, ◌++◌, String, ltb, leb,
  if◌then◌else◌, Map, lookup, put, remove, length, ℤ, pos, negsuc,
}
use mathlib.Core.Option

pub record SlidingWindowLimiter : Type 0 where
  pub max_keys : ℕ
  pub admissions : Map (List ℕ)

unfoldable pub tracked_key_count : SlidingWindowLimiter → ℕ
tracked_key_count limiter = length limiter.admissions

-- `bucket[-1]`; `none` is an IndexError.
unfoldable pub newest : List ℕ → Option ℕ
newest [] = none
newest (t ∷ []) = some t
newest (t ∷ s ∷ ts) = newest (s ∷ ts)

-- `t <= cutoff`
abbrev pub is_stale : ℕ → ℕ → ℕ → Bool
is_stale now window t = leb (t + window) now

-- `while bucket and bucket[0] <= cutoff: bucket.popleft()`
unfoldable pub pop_stale : ℕ → ℕ → List ℕ → List ℕ
pop_stale now window [] = []
pop_stale now window (t ∷ ts) =
    let rest = pop_stale now window ts in if is_stale now window t then rest else t ∷ ts

-- `_prune_stale`
unfoldable pub prune_stale : ℕ → ℕ → Map (List ℕ) → Option (Map (List ℕ))
unfolding newest
prune_stale now window [] = some []
prune_stale now window ((key, bucket) ∷ rest) = elim (newest bucket) [
  | none ↦ none
  | some t ↦
      Option.map (λ kept. if is_stale now window t then kept else (key, bucket) ∷ kept)
        (prune_stale now window rest)
]

-- `min(self._admissions, key=self._newest_admission)`, the first of equal ones, from a best key.
unfoldable pub oldest_from : String → ℕ → Map (List ℕ) → Option String
unfolding newest
oldest_from best at [] = some best
oldest_from best at ((key, bucket) ∷ rest) = elim (newest bucket) [
  | none ↦ none
  | some t ↦ if ltb t at then oldest_from key t rest else oldest_from best at rest
]

unfoldable pub oldest_key : Map (List ℕ) → Option String
unfolding oldest_from
oldest_key [] = none
oldest_key ((key, bucket) ∷ rest) = elim (newest bucket) [
  | none ↦ none
  | some t ↦ oldest_from key t rest
]

-- `_evict_least_recent`
unfoldable pub evict_least_recent : Map (List ℕ) → Option (Map (List ℕ))
unfolding oldest_key
evict_least_recent [] = some []
evict_least_recent (entry ∷ rest) =
    Option.map (λ key. remove key (entry ∷ rest)) (oldest_key (entry ∷ rest))

-- The second test for room, after the pruning.
unfoldable pub evict_if_full : ℕ → Map (List ℕ) → Option (Map (List ℕ))
unfolding evict_least_recent
evict_if_full max_keys admissions =
    if leb max_keys (length admissions) then evict_least_recent admissions else some admissions

unfoldable pub prune_if_full : ℕ → ℕ → ℕ → Map (List ℕ) → Option (Map (List ℕ))
unfolding prune_stale
prune_if_full now window max_keys admissions =
    if leb max_keys (length admissions) then prune_stale now window admissions else some admissions

-- The test of the budget, and the admission.
unfoldable pub admit :
    ℕ → ℕ → ℕ → SlidingWindowLimiter → String → List ℕ → Bool × SlidingWindowLimiter
unfolding pop_stale
admit now window limit limiter key bucket =
    let live = pop_stale now window bucket in
    if leb limit (length live)
    then (false, record limiter { admissions = put key live limiter.admissions })
    else (true, record limiter { admissions = put key (live ++ now ∷ []) limiter.admissions })

-- `allow` with a positive limit.
unfoldable pub allow_within :
    ℕ → ℕ → ℕ → SlidingWindowLimiter → String → Option (Bool × SlidingWindowLimiter)
unfolding admit prune_if_full evict_if_full
allow_within now window limit limiter key = elim (lookup key limiter.admissions) [
  | some bucket ↦ some (admit now window limit limiter key bucket)
  | none ↦ elim (prune_if_full now window limiter.max_keys limiter.admissions) [
    | none ↦ none
    | some pruned ↦ elim (evict_if_full limiter.max_keys pruned) [
      | none ↦ none
      | some kept ↦ some (admit now window limit (record limiter { admissions = kept }) key [])
    ]
  ]
]

-- `allow`; `none` is an IndexError.
unfoldable pub allow :
    ℕ → ℕ → ℤ → SlidingWindowLimiter → String → Option (Bool × SlidingWindowLimiter)
unfolding allow_within
allow now window (pos zero) limiter key = some (true, limiter)
allow now window (negsuc n) limiter key = some (true, limiter)
allow now window (pos (suc limit)) limiter key = allow_within now window (suc limit) limiter key
