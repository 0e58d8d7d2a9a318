-- ===== src/Sse/Stream/Runs.antt =====
-- Runs of a stream: what its consumer receives, and what is left when it is closed.
use lavs_core.Prelude.{
  ℕ, ◌-◌, ◌≡◌, refl, sym, ap, ◌∙◌, subst, inl, inr, true, false, some, List, [], ◌∷◌, ◌++◌, String,
  str_eq, eq_iff, arith, ◌==◌, select-append, Bool-cases, List-cases, length,
}
use mathlib.Core.List.{Sublist, append_assoc, append-nil, sublist-append_left}
use mathlib.Core.List.Sublist
use lavs_core.Events.{DomainEvent}
use lavs_core.Events.EventBus.{EventBus, queue_maxsize, has, subscribed, publish, get, update}
use lavs_core.Events.EventBus.Queues.{last_n}
use lavs_core.Events.EventBus.Registry.{
  IsWellFormed, publish-IsWellFormed, get-IsWellFormed, get_lem, get-empty,
}
use lavs_core.Events.EventBus.Delivery.{subscribers-publish, next-publish, publish-queue}
use lavs_core.Sse.Stream.{
  event_frame, keep_alive, Stream, open_stream, next_frame, close_stream, Step, continues, closes,
  publishes, joins, leaves, takes, Reach, here, next,
}
use lavs_core.Sse.Stream.Invariant.{
  events_of, events_of-append, drop-Sublist, own, IsSound, open_stream-IsSound, close-IsSound,
  join-IsSound, leave-IsSound,
}

module _ {Body : Type 0} where
  grow :
      (fs queue past : List (DomainEvent Body)) (n : ℕ) (event : DomainEvent Body)
      → Sublist (fs ++ queue) past
      → Sublist (fs ++ last_n n (queue ++ event ∷ [])) (past ++ event ∷ [])
  grow fs queue past n event sub =
      Sublist.trans
        (Sublist.append (Sublist.refl fs)
          (drop-Sublist (length (queue ++ event ∷ []) - n) (queue ++ event ∷ [])))
        (subst (λ (l : List (DomainEvent Body)). Sublist l (past ++ event ∷ []))
          (append_assoc fs queue (event ∷ [])) (Sublist.append sub (Sublist.refl (event ∷ []))))

  pub update-same :
      (heap : ℕ → List (DomainEvent Body)) (h : ℕ) (queue : List (DomainEvent Body))
      → update heap h queue h ≡ queue
  unfolding update
  update-same heap h queue = ground arith

  update-other :
      (heap : ℕ → List (DomainEvent Body)) (k h : ℕ) (queue : List (DomainEvent Body))
      → (k == h) ≡ false
      → update heap k queue h ≡ heap h
  unfolding update
  update-other heap k h queue other = ground arith

  own-add :
      (p : String) (event : DomainEvent Body) (past : List (DomainEvent Body))
      → str_eq p event.product_id ≡ true
      → own p (past ++ event ∷ []) ≡ own p past ++ event ∷ []
  own-add p event past mine =
      select-append (λ e. str_eq p e.product_id) past (event ∷ []) ∙ rw mine refl

  own-grows :
      (p : String) (event : DomainEvent Body) (past : List (DomainEvent Body))
      → Sublist (own p past) (own p (past ++ event ∷ []))
  own-grows p event past =
      subst (Sublist (own p past))
        (sym (select-append (λ e. str_eq p e.product_id) past (event ∷ [])))
        (sublist-append_left (own p past) (own p (event ∷ [])))

  pub next_frame-sent :
      (s : Stream Body) (x : DomainEvent Body) (rest : List (DomainEvent Body))
      → s.bus.queue s.handle ≡ x ∷ rest
      → next_frame s ≡ record s {
        bus = record s.bus { queue = update s.bus.queue s.handle rest };
        frames = s.frames ++ event_frame x ∷ [];
      }
  unfolding next_frame
  next_frame-sent s x rest there = rw (get_lem s.bus s.handle x rest there, next_frame) refl

  next_frame-idle :
      (s : Stream Body)
      → s.bus.queue s.handle ≡ []
      → next_frame s ≡ record s { frames = s.frames ++ keep_alive ∷ [] }
  unfolding next_frame
  next_frame-idle s nothing = rw (get-empty s.bus s.handle nothing, next_frame) refl

  module _ (s : Stream Body) (i : IsSound s) where
    publish-IsSound :
        (event : DomainEvent Body)
        → IsSound (record s { bus = publish s.bus event; published = s.published ++ event ∷ [] })
    publish-IsSound event = record {
      bus = publish-IsWellFormed s.bus event i.bus;
      issued = rw (next-publish s.bus event) i.issued;
      held = λ e. rw (subscribers-publish s.bus event) (i.held e);
      freed = λ e q. rw (subscribers-publish s.bus event) (i.freed e q);
      order = elim (Bool-cases (has s.handle (subscribed s.bus event.product_id))) [
        | inl theirs ↦
            subst (Sublist (events_of s.frames ++ (publish s.bus event).queue s.handle))
              (sym (own-add s.product_id event s.published (addressed theirs)))
              (subst
                (λ (q : List (DomainEvent Body)).
                  Sublist (events_of s.frames ++ q) (own s.product_id s.published ++ event ∷ []))
                (sym (publish-queue s.bus event s.handle i.bus ∙ ground (arith, theirs)))
                (grow (events_of s.frames) (s.bus.queue s.handle) (own s.product_id s.published)
                  queue_maxsize event i.order))
        | inr not_theirs ↦
            Sublist.trans
              (subst
                (λ (q : List (DomainEvent Body)).
                  Sublist (events_of s.frames ++ q) (own s.product_id s.published))
                (sym (publish-queue s.bus event s.handle i.bus ∙ ground (arith, not_theirs)))
                i.order)
              (own-grows s.product_id event s.published)
      ];
    }
      where
        addressed :
            has s.handle (subscribed s.bus event.product_id) ≡ true
            → str_eq s.product_id event.product_id ≡ true
        addressed theirs = elim (Bool-cases s.is_open) [
          | inl up ↦
              (eq_iff s.product_id event.product_id).1
                (i.bus.sole s.product_id event.product_id s.handle (i.held up) theirs)
          | inr down ↦ cc (theirs, i.freed down event.product_id)
        ]

    take-IsSound :
        (k : ℕ) (event : DomainEvent Body) (after : EventBus Body)
        → (k == s.handle) ≡ false
        → get s.bus k ≡ some (event, after)
        → IsSound (record s { bus = after })
    take-IsSound k event after other e = elim (List-cases (s.bus.queue k)) [
      | inl nothing ↦ cc (e, get-empty s.bus k nothing)
      | inr (x, rest, there) ↦
          let same : record s.bus { queue = update s.bus.queue k rest } ≡ after =
            cc (e, get_lem s.bus k x rest there) in
          subst (λ (b : EventBus Body). IsSound (record s { bus = b })) same
            (record {
              bus =
                  get-IsWellFormed s.bus (record s.bus { queue = update s.bus.queue k rest }) k x
                    (get_lem s.bus k x rest there) i.bus;
              issued = i.issued;
              held = i.held;
              freed = i.freed;
              order =
                  subst
                    (λ (q : List (DomainEvent Body)).
                      Sublist (events_of s.frames ++ q) (own s.product_id s.published))
                    (sym (update-other s.bus.queue k s.handle rest other)) i.order;
            })
    ]

    idle : s.bus.queue s.handle ≡ [] → IsSound (record s { frames = s.frames ++ keep_alive ∷ [] })
    idle nothing = record {
      bus = i.bus;
      issued = i.issued;
      held = i.held;
      freed = i.freed;
      order =
          subst
            (λ (fs : List (DomainEvent Body)).
              Sublist (fs ++ s.bus.queue s.handle) (own s.product_id s.published))
            (sym (events_of-append s.frames (keep_alive ∷ []) ∙ append-nil (events_of s.frames)))
            i.order;
    }

    sent :
        (x : DomainEvent Body) (rest : List (DomainEvent Body))
        → s.bus.queue s.handle ≡ x ∷ rest
        → IsSound (record s {
          bus = record s.bus { queue = update s.bus.queue s.handle rest };
          frames = s.frames ++ event_frame x ∷ [];
        })
    sent x rest there = record {
      bus =
          get-IsWellFormed s.bus (record s.bus { queue = update s.bus.queue s.handle rest })
            s.handle x (get_lem s.bus s.handle x rest there) i.bus;
      issued = i.issued;
      held = i.held;
      freed = i.freed;
      order =
          subst
            (λ (q : List (DomainEvent Body)).
              Sublist (events_of (s.frames ++ event_frame x ∷ []) ++ q)
                (own s.product_id s.published))
            (sym (update-same s.bus.queue s.handle rest))
            (subst (λ (l : List (DomainEvent Body)). Sublist l (own s.product_id s.published)) moved
              i.order);
    }
      where
        moved :
            events_of s.frames ++ s.bus.queue s.handle
            ≡ events_of (s.frames ++ event_frame x ∷ []) ++ rest
        moved =
            ap (λ (q : List (DomainEvent Body)). events_of s.frames ++ q) there
            ∙ (sym (append_assoc (events_of s.frames) (x ∷ []) rest)
                ∙ ap (λ (fs : List (DomainEvent Body)). fs ++ rest)
                    (sym (events_of-append s.frames (event_frame x ∷ []))))

    next_frame-IsSound : IsSound (next_frame s)
    next_frame-IsSound = elim (List-cases (s.bus.queue s.handle)) [
      | inl nothing ↦ subst IsSound (sym (next_frame-idle s nothing)) (idle nothing)
      | inr (x, rest, there) ↦
          subst IsSound (sym (next_frame-sent s x rest there)) (sent x rest there)
    ]

  Step-IsSound : (s t : Stream Body) → IsSound s → Step s t → IsSound t
  Step-IsSound s t i (continues up e) = subst IsSound (sym e) (next_frame-IsSound s i)
  Step-IsSound s t i (closes up e) = subst IsSound (sym e) (close-IsSound s i up)
  Step-IsSound s t i (publishes event e) = subst IsSound (sym e) (publish-IsSound s i event)
  Step-IsSound s t i (joins p e) = subst IsSound (sym e) (join-IsSound s i p)
  Step-IsSound s t i (leaves p k other e) = subst IsSound (sym e) (leave-IsSound s i p k other)
  Step-IsSound s t i (takes k event after other got e) =
      subst IsSound (sym e) (take-IsSound s i k event after other got)

  Reach-IsSound : (s t : Stream Body) → IsSound s → Reach s t → IsSound t
  Reach-IsSound s t i here = i
  Reach-IsSound s t i (next {t = u} r step) = Step-IsSound u t (Reach-IsSound s u i r) step

  product_id-next_frame : (s : Stream Body) → (next_frame s).product_id ≡ s.product_id
  product_id-next_frame s = elim (List-cases (s.bus.queue s.handle)) [
    | inl nothing ↦ ap (λ (t : Stream Body). t.product_id) (next_frame-idle s nothing)
    | inr (x, rest, there) ↦ ap (λ (t : Stream Body). t.product_id) (next_frame-sent s x rest there)
  ]

  Step-product_id : (s t : Stream Body) → Step s t → t.product_id ≡ s.product_id
  unfolding close_stream
  Step-product_id s t (continues up e) =
      ap (λ (t : Stream Body). t.product_id) e ∙ product_id-next_frame s
  Step-product_id s t (closes up e) = ap (λ (t : Stream Body). t.product_id) e
  Step-product_id s t (publishes event e) = ap (λ (t : Stream Body). t.product_id) e
  Step-product_id s t (joins p e) = ap (λ (t : Stream Body). t.product_id) e
  Step-product_id s t (leaves p k other e) = ap (λ (t : Stream Body). t.product_id) e
  Step-product_id s t (takes k event after other got e) = ap (λ (t : Stream Body). t.product_id) e

  Reach-product_id : (s t : Stream Body) → Reach s t → t.product_id ≡ s.product_id
  Reach-product_id s t here = refl
  Reach-product_id s t (next {t = u} r step) = Step-product_id u t step ∙ Reach-product_id s u r

  -- However a stream on a well-formed bus interleaves with the other users of the bus: the events
  -- its consumer has received, with those still in its queue, are events of its product that were
  -- published after it was opened, in the order of their publication and each at most once; and
  -- once it has been closed, its queue is registered under no product.
  pub Reach-own :
      (bus : EventBus Body) (product_id : String) (t : Stream Body)
      → IsWellFormed bus
      → Reach (open_stream bus product_id) t
      → Sublist (events_of t.frames ++ t.bus.queue t.handle) (own product_id t.published)
        × (t.is_open ≡ false → (p : String) → has t.handle (subscribed t.bus p) ≡ false)
  Reach-own bus product_id t w r =
      let i =
        Reach-IsSound (open_stream bus product_id) t (open_stream-IsSound bus product_id w) r in
      (
        subst (λ p. Sublist (events_of t.frames ++ t.bus.queue t.handle) (own p t.published))
            (Reach-product_id (open_stream bus product_id) t r ∙ (unfold open_stream in refl))
            i.order,
        i.freed,
      )
