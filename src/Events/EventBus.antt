-- ===== src/Events/EventBus.antt =====
-- app/events/event_bus.py. A queue is an object that the bus and its consumer share, so the state has
-- a heap of queues, and the registry holds handles.
pub mod Queues
pub mod Registry
pub mod Delivery
use lavs_core.Prelude.{
  ℕ, zero, suc, ◌+◌, Bool, true, false, not, ◌||◌, Option, none, some, List, [], ◌∷◌, ◌++◌, foldl,
  String, leb, ◌==◌, if◌then◌else◌, Map, lookup, put, remove, length, any, select,
}
use mathlib.Core.Option
use lavs_core.Events.{DomainEvent}

-- `QUEUE_MAXSIZE`
abbrev pub queue_maxsize : ℕ
queue_maxsize = 256

module _ {A : Type 0} where
  -- `queue.put_nowait(event)`; `none` is QueueFull.
  unfoldable pub put_nowait : List A → A → Option (List A)
  put_nowait queue event =
      if leb queue_maxsize (length queue) then none else some (queue ++ event ∷ [])

  -- `queue.get_nowait()`; `none` is QueueEmpty.
  unfoldable pub get_nowait : List A → Option (A × List A)
  get_nowait [] = none
  get_nowait (event ∷ rest) = some (event, rest)

  -- `_evict_oldest_and_put`, both of its exceptions passed over
  unfoldable pub evict_oldest_and_put : List A → A → List A
  unfolding get_nowait put_nowait
  evict_oldest_and_put queue event =
      let evicted : List A = elim (get_nowait queue) [
        | none ↦ queue
        | some (oldest, rest) ↦ rest
      ] in
      elim (put_nowait evicted event) [ none ↦ evicted | some queue' ↦ queue' ]

  -- The body of the loop in `publish`.
  unfoldable pub deliver : List A → A → List A
  unfolding put_nowait evict_oldest_and_put
  deliver queue event = elim (put_nowait queue event) [
    | none ↦ evict_oldest_and_put queue event
    | some queue' ↦ queue'
  ]

-- The registry `_subscribers`, the heap of queues, and the next free handle.
pub record EventBus (Body : Type 0) : Type 0 where
  pub subscribers : Map (List ℕ)
  pub queue : ℕ → List (DomainEvent Body)
  pub next : ℕ

-- A handle in a set of handles.
abbrev pub has : ℕ → List ℕ → Bool
has h set = any (λ k. k == h) set

-- `set.add`
abbrev pub add : ℕ → List ℕ → List ℕ
add h set = if has h set then set else set ++ h ∷ []

-- `set.discard`
abbrev pub discard : ℕ → List ℕ → List ℕ
discard h set = select (λ k. not (k == h)) set

-- `_subscribers.get(product_id, ())`
abbrev pub subscribed : {Body : Type 0} → EventBus Body → String → List ℕ
subscribed bus product_id = Option.get_or (lookup product_id bus.subscribers) []

module _ {Body : Type 0} where
  abbrev pub empty : EventBus Body
  empty = record { subscribers = []; queue = λ h. []; next = 0 }

  unfoldable pub update :
      (ℕ → List (DomainEvent Body)) → ℕ → List (DomainEvent Body) → ℕ → List (DomainEvent Body)
  update queue h value k = if k == h then value else queue k

  unfoldable pub deliver_to : DomainEvent Body → EventBus Body → ℕ → EventBus Body
  unfolding update deliver
  deliver_to event bus h = record bus { queue = update bus.queue h (deliver (bus.queue h) event) }

  unfoldable pub publish : EventBus Body → DomainEvent Body → EventBus Body
  unfolding deliver_to
  publish bus event = foldl (deliver_to event) bus (subscribed bus event.product_id)

  unfoldable pub subscribe : EventBus Body → String → EventBus Body × ℕ
  unfolding update
  subscribe bus product_id = (
    record {
      subscribers = put product_id (add bus.next (subscribed bus product_id)) bus.subscribers;
      queue = update bus.queue bus.next [];
      next = bus.next + 1;
    },
    bus.next,
  )

  -- `if not subscribers: del self._subscribers[product_id]`; otherwise the set was changed in place.
  unfoldable pub store_set : EventBus Body → String → List ℕ → EventBus Body
  store_set bus product_id [] = record bus { subscribers = remove product_id bus.subscribers }
  store_set bus product_id (h ∷ set) = record bus {
    subscribers = put product_id (h ∷ set) bus.subscribers;
  }

  unfoldable pub unsubscribe : EventBus Body → String → ℕ → EventBus Body
  unfolding store_set
  unsubscribe bus product_id h = elim (lookup product_id bus.subscribers) [
    | none ↦ bus
    | some set ↦ store_set bus product_id (discard h set)
  ]

  unfoldable pub subscriber_count : EventBus Body → String → ℕ
  subscriber_count bus product_id = length (subscribed bus product_id)

  -- The consumer's `queue.get()` on a queue that is not empty.
  unfoldable pub get : EventBus Body → ℕ → Option (DomainEvent Body × EventBus Body)
  unfolding get_nowait update
  get bus h = elim (get_nowait (bus.queue h)) [
    | none ↦ none
    | some (event, rest) ↦ some (event, record bus { queue = update bus.queue h rest })
  ]
