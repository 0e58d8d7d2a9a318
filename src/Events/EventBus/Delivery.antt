-- ===== src/Events/EventBus/Delivery.antt =====
-- Who receives a published event, and what a subscriber's queue holds after many.
use lavs_core.Prelude.{
  ℕ, ◌≡◌, refl, ap, sym, ◌∙◌, true, false, List, [], ◌∷◌, ◌++◌, foldl, String, str_eq, eq_iff,
  arith, ◌==◌, if◌then◌else◌, select, Bool-cases, inl, inr, subst,
}
use mathlib.Core.List.{append_assoc, append-nil}
use lavs_core.Events.{DomainEvent}
use lavs_core.Events.EventBus.{
  EventBus, queue_maxsize, has, subscribed, deliver, deliver_to, publish,
}
use lavs_core.Events.EventBus.Queues.{last_n, last_n_short, deliver-eq-last_n, last_n-append}
use lavs_core.Events.EventBus.Registry.{NoDup, IsWellFormed, publish-IsWellFormed}

module _ {Body : Type 0} where
  queue-deliver_to :
      (event : DomainEvent Body) (bus : EventBus Body) (k h : ℕ)
      → (deliver_to event bus k).queue h
        ≡ (if h == k then deliver (bus.queue k) event else bus.queue h)
  unfolding deliver_to
  queue-deliver_to event bus k h = refl

  deliver_all-queue :
      (event : DomainEvent Body) (bus : EventBus Body) (hs : List ℕ) (h : ℕ)
      → NoDup hs
      → (foldl (deliver_to event) bus hs).queue h
        ≡ (if has h hs then deliver (bus.queue h) event else bus.queue h)
  deliver_all-queue event bus [] h d = refl
  deliver_all-queue event bus (k ∷ hs) h (new, d) =
      deliver_all-queue event (deliver_to event bus k) hs h d ∙ first
    where
      first :
          (if has h hs
            then deliver ((deliver_to event bus k).queue h) event
            else (deliver_to event bus k).queue h)
          ≡ (if has h (k ∷ hs) then deliver (bus.queue h) event else bus.queue h)
      first = elim (Bool-cases (k == h)) [
        | inl same ↦
            let e : k ≡ h = ground arith in
            ground (arith, queue-deliver_to event bus k h, ap (λ x. has x hs) e, ap bus.queue e)
        | inr other ↦ ground (arith, queue-deliver_to event bus k h)
      ]

  subscribers-deliver_all :
      (event : DomainEvent Body) (bus : EventBus Body) (hs : List ℕ)
      → (foldl (deliver_to event) bus hs).subscribers ≡ bus.subscribers
  unfolding deliver_to
  subscribers-deliver_all event bus [] = refl
  subscribers-deliver_all event bus (h ∷ hs) =
      subscribers-deliver_all event (deliver_to event bus h) hs

  pub subscribers-publish :
      (bus : EventBus Body) (event : DomainEvent Body)
      → (publish bus event).subscribers ≡ bus.subscribers
  unfolding publish
  subscribers-publish bus event =
      subscribers-deliver_all event bus (subscribed bus event.product_id)

  next-deliver_all :
      (event : DomainEvent Body) (bus : EventBus Body) (hs : List ℕ)
      → (foldl (deliver_to event) bus hs).next ≡ bus.next
  unfolding deliver_to
  next-deliver_all event bus [] = refl
  next-deliver_all event bus (h ∷ hs) = next-deliver_all event (deliver_to event bus h) hs

  pub next-publish :
      (bus : EventBus Body) (event : DomainEvent Body) → (publish bus event).next ≡ bus.next
  unfolding publish
  next-publish bus event = next-deliver_all event bus (subscribed bus event.product_id)

  -- A published event reaches every queue that is subscribed to its product, and no other; a queue
  -- that is full loses its oldest event.
  pub publish-queue :
      (bus : EventBus Body) (event : DomainEvent Body) (h : ℕ)
      → IsWellFormed bus
      → (publish bus event).queue h ≡ (
          if has h (subscribed bus event.product_id)
          then last_n queue_maxsize (bus.queue h ++ event ∷ [])
          else bus.queue h)
  unfolding publish
  publish-queue bus event h w =
      deliver_all-queue event bus (subscribed bus event.product_id) h (w.distinct event.product_id)
      ∙ ap
          (λ (q : List (DomainEvent Body)).
            if has h (subscribed bus event.product_id) then q else bus.queue h)
          (deliver-eq-last_n (bus.queue h) event (w.bounded h))

  -- From a well-formed bus, whatever events are published, the queue of a subscriber of a product
  -- then holds the last `queue_maxsize` of what it held followed by the events of that product.
  pub publish_all-queue :
      (bus : EventBus Body) (p : String) (h : ℕ) (events : List (DomainEvent Body))
      → IsWellFormed bus
      → has h (subscribed bus p) ≡ true
      → (foldl publish bus events).queue h
        ≡ last_n queue_maxsize (bus.queue h ++ select (λ e. str_eq p e.product_id) events)
  publish_all-queue bus p h [] w sub = sym (
      ap (last_n queue_maxsize) (append-nil (bus.queue h))
      ∙ last_n_short queue_maxsize (bus.queue h) (w.bounded h))
  publish_all-queue bus p h (e ∷ events) w sub =
      let sub' : has h (subscribed (publish bus e) p) ≡ true = rw (subscribers-publish bus e) sub in
      publish_all-queue (publish bus e) p h events (publish-IsWellFormed bus e w) sub'
      ∙ (ap (λ (q : List (DomainEvent Body)). last_n queue_maxsize (q ++ later))
            (publish-queue bus e h w)
          ∙ step)
    where
      later : List (DomainEvent Body)
      later = select (λ x. str_eq p x.product_id) events

      step :
          last_n queue_maxsize (
            (if has h (subscribed bus e.product_id)
              then last_n queue_maxsize (bus.queue h ++ e ∷ [])
              else bus.queue h)
            ++ later)
          ≡ last_n queue_maxsize (bus.queue h ++ select (λ x. str_eq p x.product_id) (e ∷ events))
      step = elim (Bool-cases (str_eq p e.product_id)) [
        | inl mine ↦
            let same : p ≡ e.product_id = (eq_iff p e.product_id).0 mine in
            rw mine (
              rw (subst (λ x. has h (subscribed bus x) ≡ true) same sub) (
                last_n-append queue_maxsize (bus.queue h ++ e ∷ []) later
                ∙ ap (last_n queue_maxsize) (append_assoc (bus.queue h) (e ∷ []) later)))
        | inr other ↦ rw other (rw (not_subscribed other) refl)
      ]
        where
          not_subscribed :
              str_eq p e.product_id ≡ false → has h (subscribed bus e.product_id) ≡ false
          not_subscribed other = ground (arith, w.sole p e.product_id h sub, eq_iff p e.product_id)
