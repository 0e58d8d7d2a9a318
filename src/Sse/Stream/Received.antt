-- ===== src/Sse/Stream/Received.antt =====
-- The loop of the generator, round by round, once its product has published.
use lavs_core.Prelude.{
  ℕ, zero, suc, ◌≡◌, refl, sym, ap, ◌∙◌, List, [], ◌∷◌, ◌++◌, foldl, String, eq_iff, arith, length,
}
use mathlib.Core.List.{map, append_assoc, append-nil}
use lavs_core.Events.{DomainEvent}
use lavs_core.Events.EventBus.{EventBus, queue_maxsize, subscribed, publish, subscribe, update}
use lavs_core.Events.EventBus.Queues.{last_n}
use lavs_core.Events.EventBus.Registry.{
  IsWellFormed, subscribe-IsWellFormed, has-add, subscribed-subscribe,
}
use lavs_core.Events.EventBus.Delivery.{publish_all-queue}
use lavs_core.Sse.Stream.{event_frame, Stream, open_stream, next_frame}
use lavs_core.Sse.Stream.Invariant.{own, fresh}
use lavs_core.Sse.Stream.Runs.{next_frame-sent, update-same}

module _ {Body : Type 0} where
  -- `n` rounds of the loop.
  abbrev pub rounds : ℕ → Stream Body → Stream Body
  rounds zero s = s
  rounds (suc n) s = rounds n (next_frame s)

  -- What the other users of the bus publish.
  abbrev pub after_publishing : List (DomainEvent Body) → Stream Body → Stream Body
  after_publishing events s = record s {
    bus = foldl publish s.bus events;
    published = s.published ++ events;
  }

  rounds-queue :
      (queue : List (DomainEvent Body)) (s : Stream Body)
      → s.bus.queue s.handle ≡ queue
      → (rounds (length queue) s).frames ≡ s.frames ++ map event_frame queue
  rounds-queue [] s e = sym (append-nil s.frames)
  rounds-queue (x ∷ queue) s e =
      ap (λ (t : Stream Body). (rounds (length queue) t).frames) (next_frame-sent s x queue e)
      ∙ (rounds-queue queue
            (record s {
              bus = record s.bus { queue = update s.bus.queue s.handle queue };
              frames = s.frames ++ event_frame x ∷ [];
            })
            (update-same s.bus.queue s.handle queue)
          ∙ append_assoc s.frames (event_frame x ∷ []) (map event_frame queue))

  opened-queue :
      (bus : EventBus Body) (product_id : String) (events : List (DomainEvent Body))
      → IsWellFormed bus
      → (foldl publish (subscribe bus product_id).0 events).queue bus.next
        ≡ last_n queue_maxsize (own product_id events)
  opened-queue bus product_id events w =
      publish_all-queue (subscribe bus product_id).0 product_id bus.next events
        (subscribe-IsWellFormed bus product_id w)
        (ground (
          arith,
          subscribed-subscribe bus product_id product_id,
          has-add bus.next bus.next (subscribed bus product_id),
          eq_iff product_id product_id,
        ))
      ∙ ap (λ (q : List (DomainEvent Body)). last_n queue_maxsize (q ++ own product_id events))
          (fresh bus product_id)

  -- A stream that is opened on a well-formed bus before any events are published receives, in as many
  -- rounds of its loop as there are, the last `queue_maxsize` events of its product, in the order
  -- of their publication, and no keep-alive before them.
  pub rounds-open_stream :
      (bus : EventBus Body) (product_id : String) (events : List (DomainEvent Body))
      → IsWellFormed bus
      → (rounds
          (length (last_n queue_maxsize (own product_id events)))
          (after_publishing events (open_stream bus product_id))).frames
        ≡ map event_frame (last_n queue_maxsize (own product_id events))
  rounds-open_stream bus product_id events w =
      rounds-queue (last_n queue_maxsize (own product_id events))
        (after_publishing events (open_stream bus product_id))
        (unfold open_stream in opened-queue bus product_id events w)
      ∙ (unfold open_stream in refl)
