-- ===== src/Sse/Stream.antt =====
-- app/sse/sse_event_stream.py between the events of its surroundings: the loop's `queue.get()` with a
-- timeout either takes an event or times out, and the consumer may close the generator. `published`
-- is no variable of the program: it records what was published since the stream was opened.
pub mod Invariant
pub mod Runs
pub mod Received
use lavs_core.Prelude.{
  ℕ, ◌≡◌, Bool, true, false, Option, none, some, List, [], ◌∷◌, ◌++◌, String, ◌==◌,
}
use lavs_core.Text.{Text}
use lavs_core.Events.{DomainEvent}
use lavs_core.Events.EventBus.{EventBus, publish, subscribe, unsubscribe, get}
use lavs_core.Sse.{format_sse_frame, keep_alive_frame}

-- What the generator yields.
pub data Frame (Body : Type 0) : Type 0 where
  event_frame : DomainEvent Body → Frame Body
  keep_alive : Frame Body

module _ {Body : Type 0} where
  unfoldable pub wire : (Body → Text) → Frame Body → Text
  unfolding format_sse_frame keep_alive_frame
  wire dumps (event_frame event) = format_sse_frame dumps event
  wire dumps keep_alive = keep_alive_frame

pub record Stream (Body : Type 0) : Type 0 where
  pub bus : EventBus Body
  pub product_id : String
  pub handle : ℕ
  pub frames : List (Frame Body)
  pub is_open : Bool
  pub published : List (DomainEvent Body)

module _ {Body : Type 0} where
  -- `queue = event_bus.subscribe(product_id)`
  unfoldable pub open_stream : EventBus Body → String → Stream Body
  unfolding subscribe
  open_stream bus product_id =
      let (after, handle) = subscribe bus product_id in
      record {
        bus = after;
        product_id = product_id;
        handle = handle;
        frames = [];
        is_open = true;
        published = [];
      }

  -- One round of the loop, with an event in the queue or with none before the timeout.
  unfoldable pub next_frame : Stream Body → Stream Body
  unfolding get
  next_frame s = elim (get s.bus s.handle) [
    | some (event, after) ↦ record s { bus = after; frames = s.frames ++ event_frame event ∷ [] }
    | none ↦ record s { frames = s.frames ++ keep_alive ∷ [] }
  ]

  -- The `finally` block.
  unfoldable pub close_stream : Stream Body → Stream Body
  unfolding unsubscribe
  close_stream s = record s { bus = unsubscribe s.bus s.product_id s.handle; is_open = false }

  -- What happens next: a round of the loop or its end, or a call of the bus by others.
  pub data Step (s t : Stream Body) : Type 0 where
    continues : s.is_open ≡ true → t ≡ next_frame s → Step s t
    closes : s.is_open ≡ true → t ≡ close_stream s → Step s t
    publishes :
        (event : DomainEvent Body)
        → t ≡ record s { bus = publish s.bus event; published = s.published ++ event ∷ [] }
        → Step s t
    joins : (product_id : String) → t ≡ record s { bus = (subscribe s.bus product_id).0 } → Step s t
    leaves :
        (product_id : String) (handle : ℕ)
        → (handle == s.handle) ≡ false
        → t ≡ record s { bus = unsubscribe s.bus product_id handle }
        → Step s t
    takes :
        (handle : ℕ) (event : DomainEvent Body) (after : EventBus Body)
        → (handle == s.handle) ≡ false
        → get s.bus handle ≡ some (event, after)
        → t ≡ record s { bus = after }
        → Step s t

  pub data Reach (s : Stream Body) : Stream Body → Type 0 where
    here : Reach s s
    next : {t u : Stream Body} → Reach s t → Step t u → Reach s u
