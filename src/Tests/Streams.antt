-- ===== src/Tests/Streams.antt =====
-- app/sse and app/connections/param_style.py at small inputs: a stream of one product beside the events
-- of another, a statement with a percent sign; and app/models/requests/create_version_model.py.
use lavs_core.Prelude.{◌≡◌, refl, true, false, some, [], ◌∷◌, ◌++◌, String, length, lookup, put}
use mathlib.Core.List.{Sublist, map}
use lavs_core.Events.{DomainEvent, version_created}
use lavs_core.Events.EventBus.{EventBus, queue_maxsize, empty, has, subscribed, publish}
use lavs_core.Events.EventBus.Queues.{last_n}
use lavs_core.Events.EventBus.Registry.{empty-IsWellFormed}
use lavs_core.Text.{codes}
use lavs_core.Connections.{pyformat, render}
use lavs_core.Connections.Reading.{tokens, canonical, tokens-render}
use lavs_core.Domain.ProductVersion.{Core}
use lavs_core.Requests.{validate_version, number_then, dot_then, matches_suffix, matches_label}
use lavs_core.Requests.Accepted.{HasCore, validate_version-HasCore}
use lavs_core.Sse.Stream.{
  Stream, event_frame, open_stream, next_frame, close_stream, Reach, here, next, publishes,
  continues, closes,
}
use lavs_core.Sse.Stream.Invariant.{events_of, own}
use lavs_core.Sse.Stream.Runs.{Reach-own}
use lavs_core.Sse.Stream.Received.{rounds, after_publishing, rounds-open_stream}

abbrev quiet : EventBus String
quiet = empty

abbrev told : String → DomainEvent String
told product_id = record { event_type = version_created; product_id = product_id; body = "created" }

abbrev opened_p : Stream String
opened_p = open_stream quiet "p"

-- An event is published and received, and the consumer closes the stream.
abbrev received_p : Stream String
received_p = next_frame (after_publishing (told "p" ∷ []) opened_p)

received_p-open : received_p.is_open ≡ true
unfolding open_stream next_frame publish lookup put
received_p-open = refl

closed_p-closed : (close_stream received_p).is_open ≡ false
unfolding close_stream
closed_p-closed = refl

opened_p-Reach : Reach opened_p (close_stream received_p)
unfolding open_stream
opened_p-Reach =
    next (next (next here (publishes (told "p") refl)) (continues refl refl))
      (closes received_p-open refl)

Reach-own_example :
    Sublist
      (events_of (close_stream received_p).frames
        ++ (close_stream received_p).bus.queue (close_stream received_p).handle)
      (own "p" (close_stream received_p).published)
    × ((close_stream received_p).is_open ≡ false
        → (p : String)
        → has (close_stream received_p).handle (subscribed (close_stream received_p).bus p) ≡ false)
Reach-own_example = Reach-own quiet "p" (close_stream received_p) empty-IsWellFormed opened_p-Reach

rounds-open_stream_example :
    (rounds
      (length (last_n queue_maxsize (own "p" (told "q" ∷ told "p" ∷ []))))
      (after_publishing (told "q" ∷ told "p" ∷ []) (open_stream quiet "p"))).frames
    ≡ map event_frame (last_n queue_maxsize (own "p" (told "q" ∷ told "p" ∷ [])))
rounds-open_stream_example =
    rounds-open_stream quiet "p" (told "q" ∷ told "p" ∷ []) empty-IsWellFormed

tokens-render_example :
    tokens pyformat true (render pyformat (codes "LIKE 'a%' AND id = ?"))
    ≡ some (canonical (codes "LIKE 'a%' AND id = ?"))
tokens-render_example = tokens-render pyformat true (codes "LIKE 'a%' AND id = ?") (λ without. cc)

validate_version-HasCore_example : (core : Core) × HasCore (codes "1.20.3-rc.1") core
validate_version-HasCore_example =
    validate_version-HasCore (codes "1.20.3-rc.1")
      (unfold validate_version number_then dot_then matches_suffix matches_label in refl)
