-- ===== src/Sse/Stream/Invariant.antt =====
-- What holds along every run of a stream and its surroundings.
use lavs_core.Prelude.{
  ℕ, zero, suc, ◌+◌, ◌≡◌, ◌<◌, refl, sym, ap, ◌∙◌, subst, inl, inr, true, false, List, [], ◌∷◌,
  ◌++◌, String, str_eq, eq_iff, arith, ◌==◌, if◌then◌else◌, select, Bool-cases,
}
use mathlib.Core.List.{Sublist}
use mathlib.Core.List.Sublist
use lavs_core.Events.{DomainEvent}
use lavs_core.Events.EventBus.{EventBus, has, subscribed, subscribe, unsubscribe, update}
use lavs_core.Events.EventBus.Queues.{drop}
use lavs_core.Events.EventBus.Registry.{
  IsWellFormed, has-discard, has-add, subscribed-subscribe, subscribed-unsubscribe,
  queue-unsubscribe, next-unsubscribe, subscribe-IsWellFormed, unsubscribe-IsWellFormed,
}
use lavs_core.Sse.Stream.{Frame, event_frame, keep_alive, Stream, open_stream, close_stream}

module _ {Body : Type 0} where
  -- The events among the frames.
  abbrev pub events_of : List (Frame Body) → List (DomainEvent Body)
  events_of [] = []
  events_of (event_frame e ∷ fs) = e ∷ events_of fs
  events_of (keep_alive ∷ fs) = events_of fs

  pub events_of-append :
      (fs gs : List (Frame Body)) → events_of (fs ++ gs) ≡ events_of fs ++ events_of gs
  events_of-append [] gs = refl
  events_of-append (event_frame e ∷ fs) gs =
      ap (λ (es : List (DomainEvent Body)). e ∷ es) (events_of-append fs gs)
  events_of-append (keep_alive ∷ fs) gs = events_of-append fs gs

  pub drop-Sublist : (n : ℕ) (xs : List (DomainEvent Body)) → Sublist (drop n xs) xs
  drop-Sublist zero xs = Sublist.refl xs
  drop-Sublist (suc n) [] = Sublist.refl []
  drop-Sublist (suc n) (x ∷ xs) = Sublist.cons x (drop-Sublist n xs)

  -- The events of the stream's product.
  abbrev pub own : String → List (DomainEvent Body) → List (DomainEvent Body)
  own product_id events = select (λ e. str_eq product_id e.product_id) events

  pub record IsSound (s : Stream Body) : Type 0 where
    pub bus : IsWellFormed s.bus
    pub issued : s.handle < s.bus.next
    pub held : s.is_open ≡ true → has s.handle (subscribed s.bus s.product_id) ≡ true
    pub freed : s.is_open ≡ false → (p : String) → has s.handle (subscribed s.bus p) ≡ false
    pub order : Sublist (events_of s.frames ++ s.bus.queue s.handle) (own s.product_id s.published)

  subscribe-next : (bus : EventBus Body) (p : String) → (subscribe bus p).0.next ≡ bus.next + 1
  unfolding subscribe
  subscribe-next bus p = refl

  subscribe-queue :
      (bus : EventBus Body) (p : String) (h : ℕ)
      → (subscribe bus p).0.queue h ≡ (if h == bus.next then [] else bus.queue h)
  unfolding subscribe update
  subscribe-queue bus p h = refl

  pub fresh : (bus : EventBus Body) (p : String) → (subscribe bus p).0.queue bus.next ≡ []
  fresh bus p = subscribe-queue bus p bus.next ∙ ground arith

  pub open_stream-IsSound :
      (bus : EventBus Body) (p : String) → IsWellFormed bus → IsSound (open_stream bus p)
  unfolding open_stream
  open_stream-IsSound bus p w = record {
    bus = subscribe-IsWellFormed bus p w;
    issued = unfold subscribe in omega arith;
    held = λ e. ground (
      arith,
      subscribed-subscribe bus p p,
      has-add bus.next bus.next (subscribed bus p),
      eq_iff p p,
    );
    freed = λ e q. cc;
    order =
        subst (λ (q : List (DomainEvent Body)). Sublist q []) (sym (fresh bus p)) (Sublist.refl []);
  }

  module _ (s : Stream Body) (i : IsSound s) where
    pub close-IsSound : s.is_open ≡ true → IsSound (close_stream s)
    unfolding close_stream
    close-IsSound open_ = record {
      bus = unsubscribe-IsWellFormed s.bus s.product_id s.handle i.bus;
      issued = rw (next-unsubscribe s.bus s.product_id s.handle) i.issued;
      held = λ e. cc;
      freed = λ e q. released q;
      order = rw (queue-unsubscribe s.bus s.product_id s.handle) i.order;
    }
      where
        elsewhere :
            (q : String) → str_eq s.product_id q ≡ false → has s.handle (subscribed s.bus q) ≡ false
        elsewhere q other = elim (Bool-cases (has s.handle (subscribed s.bus q))) [
          | inr h ↦ h
          | inl h ↦ cc (
            (eq_iff s.product_id q).1 (i.bus.sole s.product_id q s.handle (i.held open_) h),
            other,
          )
        ]

        released :
            (q : String)
            → has s.handle (subscribed (unsubscribe s.bus s.product_id s.handle) q) ≡ false
        released q = elim (Bool-cases (str_eq s.product_id q)) [
          | inl same ↦ rw (subscribed-unsubscribe s.bus s.product_id q s.handle) (
              rw same
                (ground (arith, has-discard s.handle s.handle (subscribed s.bus s.product_id))))
          | inr other ↦
              rw (subscribed-unsubscribe s.bus s.product_id q s.handle)
                (rw other (elsewhere q other))
        ]

    pub join-IsSound : (p : String) → IsSound (record s { bus = (subscribe s.bus p).0 })
    join-IsSound p = record {
      bus = subscribe-IsWellFormed s.bus p i.bus;
      issued = omega (arith, subscribe-next s.bus p, i.issued);
      held = λ e. joined s.product_id ∙ i.held e;
      freed = λ e q. joined q ∙ i.freed e q;
      order =
          subst
            (λ (q : List (DomainEvent Body)).
              Sublist (events_of s.frames ++ q) (own s.product_id s.published))
            (sym kept) i.order;
    }
      where
        kept : (subscribe s.bus p).0.queue s.handle ≡ s.bus.queue s.handle
        kept = subscribe-queue s.bus p s.handle ∙ ground (arith, i.issued)

        joined :
            (q : String)
            → has s.handle (subscribed (subscribe s.bus p).0 q) ≡ has s.handle (subscribed s.bus q)
        joined q = ground (
          arith,
          subscribed-subscribe s.bus p q,
          has-add s.handle s.bus.next (subscribed s.bus p),
          eq_iff p q,
          i.issued,
        )

    pub leave-IsSound :
        (p : String) (k : ℕ)
        → (k == s.handle) ≡ false
        → IsSound (record s { bus = unsubscribe s.bus p k })
    leave-IsSound p k other = record {
      bus = unsubscribe-IsWellFormed s.bus p k i.bus;
      issued = rw (next-unsubscribe s.bus p k) i.issued;
      held = λ e. left s.product_id ∙ i.held e;
      freed = λ e q. left q ∙ i.freed e q;
      order = rw (queue-unsubscribe s.bus p k) i.order;
    }
      where
        left :
            (q : String)
            → has s.handle (subscribed (unsubscribe s.bus p k) q)
              ≡ has s.handle (subscribed s.bus q)
        left q = ground (
          arith,
          subscribed-unsubscribe s.bus p q k,
          has-discard s.handle k (subscribed s.bus p),
          eq_iff p q,
          other,
        )
