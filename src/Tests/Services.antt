-- ===== src/Tests/Services.antt =====
-- app/security/sliding_window_limiter.py and app/events/event_bus.py at small inputs.
use lavs_core.Prelude.{
  ℕ, ◌≡◌, refl, true, false, none, some, List, [], ◌∷◌, ◌++◌, foldl, String, str_eq, arith, inl,
  if◌then◌else◌, select, lookup, put, pos,
}
use lavs_core.Security.SlidingWindowLimiter.{SlidingWindowLimiter, allow_within}
use lavs_core.Text.{codes}
use lavs_core.Security.RateLimitSettings.{RateLimitSettings, window_seconds, trust_forwarded_for}
use lavs_core.Security.RateLimitMiddleware.{Scope, call}
use lavs_core.Security.RateLimitMiddleware.Throttle.{Handled, call-refines, call-headers}
use lavs_core.Security.SlidingWindowLimiter.Buckets.{IsBucket}
use lavs_core.Security.SlidingWindowLimiter.Capacity.{allow_returns}
use lavs_core.Security.SlidingWindowLimiter.Capacity
use lavs_core.Security.SlidingWindowLimiter.Log.{
  Represents, has_budget, next_log, allow_within-refines,
}
use lavs_core.Events.{DomainEvent, version_created}
use lavs_core.Events.EventBus.{EventBus, queue_maxsize, empty, has, subscribed, publish, subscribe}
use lavs_core.Events.EventBus.Queues.{last_n}
use lavs_core.Events.EventBus.Registry.{IsWellFormed, empty-IsWellFormed, subscribe-IsWellFormed}
use lavs_core.Events.EventBus.Delivery.{publish_all-queue}

-- One key with two admissions, in a limiter of two keys.
abbrev limiter : SlidingWindowLimiter
limiter = record { max_keys = 2; admissions = ("alice", 3 ∷ 5 ∷ []) ∷ [] }

alice-IsBucket : IsBucket 6 (3 ∷ 5 ∷ [])
alice-IsBucket = record { nonempty = λ e. cc; ascending = ground arith; past = ground arith }

limiter-IsWellFormed : Capacity.IsWellFormed 6 limiter
limiter-IsWellFormed = record { buckets = (alice-IsBucket, tt); capacity = omega arith }

abbrev log : String → List ℕ
log key = if str_eq "alice" key then 3 ∷ 5 ∷ [] else []

limiter-Represents : Represents 6 10 limiter.admissions log
unfolding lookup
limiter-Represents = record { distinct = (refl, tt); at = λ key later h. ground arith }

allow_within-refines_example :
    (after : SlidingWindowLimiter) × (allow_within 8 10 2 limiter "alice"
      ≡ some (has_budget 8 10 2 "alice" log, after))
    × Represents 8 10 after.admissions (next_log 8 10 2 "alice" log)
allow_within-refines_example =
    allow_within-refines 8 10 2 "alice" log limiter 6 (omega arith) limiter-IsWellFormed
      limiter-Represents (inl (3 ∷ 5 ∷ [], unfold lookup in refl))

-- A request of alice to log in, in a second of one tick, with a budget of two in ten seconds.
abbrev settings : RateLimitSettings
settings = record {
  given_limit = some (pos 2);
  given_window_seconds = some (pos 10);
  given_trust_forwarded_for = some false;
  given_max_tracked_clients = none;
}

abbrev scope : Scope
scope = record {
  type = "http";
  path = codes "/auth/login";
  client = some "alice";
  headers = (codes "X-Forwarded-For", codes "bob, carol") ∷ [];
}

call-refines_example : Handled 1 settings [] 8 scope limiter log "alice"
call-refines_example =
    call-refines 1 settings [] 8 scope limiter log 6 "alice" (omega arith)
      (unfold trust_forwarded_for in inl (refl, refl)) limiter-IsWellFormed
      (unfold window_seconds in limiter-Represents) (inl (3 ∷ 5 ∷ [], unfold lookup in refl))

call-headers_example :
    call 1 settings [] 8 (record scope { headers = [] }) limiter
    ≡ call 1 settings [] 8 scope limiter
call-headers_example =
    call-headers 1 settings [] 8 scope [] limiter (unfold trust_forwarded_for in refl)

-- One subscriber of the product `p`.
abbrev bus : EventBus String
bus = (subscribe empty "p").0

bus-IsWellFormed : IsWellFormed bus
bus-IsWellFormed = subscribe-IsWellFormed empty "p" empty-IsWellFormed

abbrev event : String → DomainEvent String
event product_id = record {
  event_type = version_created;
  product_id = product_id;
  body = "created";
}

is_subscribed : has 0 (subscribed bus "p") ≡ true
unfolding subscribe lookup put
is_subscribed = refl

publish_all-queue_example :
    (foldl publish bus (event "p" ∷ event "q" ∷ [])).queue 0
    ≡ last_n queue_maxsize
        (bus.queue 0 ++ select (λ e. str_eq "p" e.product_id) (event "p" ∷ event "q" ∷ []))
publish_all-queue_example =
    publish_all-queue bus "p" 0 (event "p" ∷ event "q" ∷ []) bus-IsWellFormed is_subscribed
