-- ===== src/Events/EventBus/Registry.antt =====
-- The registry: who is subscribed after each operation, and what every operation keeps.
use lavs_core.Prelude.{
  ℕ, ◌+◌, ◌<◌, ◌≤◌, ◌≡◌, ◌≢◌, refl, ap, sym, true, false, not, ◌&&◌, ◌||◌, none, some, List, [],
  ◌∷◌, ◌++◌, foldl, String, str_eq, eq_iff, arith, ◌==◌, if◌then◌else◌, lookup, lookup-put,
  lookup-remove, lookup-nil, length, any-append, Option-cases, List-cases, subst, inl, inr,
}
use lavs_core.Events.{DomainEvent}
use lavs_core.Events.EventBus.{
  EventBus, queue_maxsize, has, add, discard, subscribed, empty, deliver_to, publish, subscribe,
  unsubscribe, get, store_set, get_nowait, update,
}
use lavs_core.Events.EventBus.Queues.{length-deliver}

abbrev pub NoDup : List ℕ → Type 0
NoDup [] = Unit
NoDup (h ∷ hs) = (has h hs ≡ false) × NoDup hs

pub has-discard : (k h : ℕ) (set : List ℕ) → has k (discard h set) ≡ (has k set && not (k == h))
has-discard k h [] = refl
has-discard k h (x ∷ set) = ground (arith, has-discard k h set)

NoDup-discard : (h : ℕ) (set : List ℕ) → NoDup set → NoDup (discard h set)
NoDup-discard h [] d = tt
NoDup-discard h (x ∷ set) d = ground (arith, has-discard x h set, NoDup-discard h set d.1)

NoDup-append : (h : ℕ) (set : List ℕ) → has h set ≡ false → NoDup set → NoDup (set ++ h ∷ [])
NoDup-append h [] n d = (refl, tt)
NoDup-append h (x ∷ set) n d =
    ground (arith, any-append (λ k. k == x) set (h ∷ []), NoDup-append h set)

pub has-add : (k h : ℕ) (set : List ℕ) → has k (add h set) ≡ (has k set || h == k)
has-add k h set = ground (arith, any-append (λ x. x == k) set (h ∷ []), has_of_eq k h set)
  where
    has_of_eq : (k h : ℕ) (set : List ℕ) → h ≡ k → has k set ≡ has h set
    has_of_eq k h set e = ap (λ x. has x set) (sym e)

add-ne-nil : (h : ℕ) (set : List ℕ) → add h set ≢ []
add-ne-nil h [] e = cc
add-ne-nil h (x ∷ set) e = ground arith

NoDup-add : (h : ℕ) (set : List ℕ) → NoDup set → NoDup (add h set)
NoDup-add h set d = ground (arith, NoDup-append h set)

module _ {Body : Type 0} (bus : EventBus Body) where
  pub subscribed-subscribe :
      (p q : String)
      → subscribed (subscribe bus p).0 q
        ≡ (if str_eq p q then add bus.next (subscribed bus p) else subscribed bus q)
  unfolding subscribe
  subscribed-subscribe p q =
      ground (arith, lookup-put p q (add bus.next (subscribed bus p)) bus.subscribers)

  subscribed-store_set :
      (p q : String) (set : List ℕ)
      → subscribed (store_set bus p set) q ≡ (if str_eq p q then set else subscribed bus q)
  unfolding store_set
  subscribed-store_set p q [] = ground (arith, lookup-remove p q bus.subscribers)
  subscribed-store_set p q (h ∷ set) = ground (arith, lookup-put p q (h ∷ set) bus.subscribers)

  no_leak-store_set :
      (p q : String) (set : List ℕ)
      → lookup q bus.subscribers ≢ some []
      → lookup q (store_set bus p set).subscribers ≢ some []
  unfolding store_set
  no_leak-store_set p q [] h e = ground (arith, lookup-remove p q bus.subscribers)
  no_leak-store_set p q (k ∷ set) h e = ground (arith, lookup-put p q (k ∷ set) bus.subscribers)

  queue-store_set : (p : String) (set : List ℕ) → (store_set bus p set).queue ≡ bus.queue
  unfolding store_set
  queue-store_set p [] = refl
  queue-store_set p (k ∷ set) = refl

  next-store_set : (p : String) (set : List ℕ) → (store_set bus p set).next ≡ bus.next
  unfolding store_set
  next-store_set p [] = refl
  next-store_set p (k ∷ set) = refl

  pub subscribed-unsubscribe :
      (p q : String) (h : ℕ)
      → subscribed (unsubscribe bus p h) q
        ≡ (if str_eq p q then discard h (subscribed bus p) else subscribed bus q)
  unfolding unsubscribe
  subscribed-unsubscribe p q h = elim (Option-cases (lookup p bus.subscribers)) [
    | inl none_there ↦ rw (none_there, unsubscribe) (ground (arith, eq_iff p q))
    | inr (set, there) ↦ rw (there, unsubscribe) (subscribed-store_set p q (discard h set))
  ]

  no_leak-unsubscribe :
      (p q : String) (h : ℕ)
      → lookup q bus.subscribers ≢ some []
      → lookup q (unsubscribe bus p h).subscribers ≢ some []
  unfolding unsubscribe
  no_leak-unsubscribe p q h k = elim (Option-cases (lookup p bus.subscribers)) [
    | inl none_there ↦ rw (none_there, unsubscribe) k
    | inr (set, there) ↦ rw (there, unsubscribe) (no_leak-store_set p q (discard h set) k)
  ]

  pub queue-unsubscribe : (p : String) (h : ℕ) → (unsubscribe bus p h).queue ≡ bus.queue
  unfolding unsubscribe
  queue-unsubscribe p h = elim (Option-cases (lookup p bus.subscribers)) [
    | inl none_there ↦ rw (none_there, unsubscribe) refl
    | inr (set, there) ↦ rw (there, unsubscribe) (queue-store_set p (discard h set))
  ]

  pub next-unsubscribe : (p : String) (h : ℕ) → (unsubscribe bus p h).next ≡ bus.next
  unfolding unsubscribe
  next-unsubscribe p h = elim (Option-cases (lookup p bus.subscribers)) [
    | inl none_there ↦ rw (none_there, unsubscribe) refl
    | inr (set, there) ↦ rw (there, unsubscribe) (next-store_set p (discard h set))
  ]

  pub record IsWellFormed : Type 0 where
    pub bounded : (h : ℕ) → length (bus.queue h) ≤ queue_maxsize
    pub distinct : (p : String) → NoDup (subscribed bus p)
    pub sole :
        (p q : String) (h : ℕ)
        → has h (subscribed bus p) ≡ true
        → has h (subscribed bus q) ≡ true
        → p ≡ q
    pub issued : (p : String) (h : ℕ) → has h (subscribed bus p) ≡ true → h < bus.next
    pub no_leak : (p : String) → lookup p bus.subscribers ≢ some []

module _ {Body : Type 0} where
  pub empty-IsWellFormed : IsWellFormed (empty {Body = Body})
  empty-IsWellFormed = record {
    bounded = λ h. omega arith;
    distinct = λ p. rw (lookup-nil {V = List ℕ} p) tt;
    sole = λ p q h a b. cc (a, lookup-nil {V = List ℕ} p);
    issued = λ p h a. absurd_lookup p h a;
    no_leak = λ p e. cc (e, lookup-nil {V = List ℕ} p);
  }
    where
      absurd_lookup :
          (p : String) (h : ℕ) → has h (subscribed (empty {Body = Body}) p) ≡ true → h < 0
      absurd_lookup p h a = ground (arith, lookup-nil {V = List ℕ} p)

  -- Subscribing to a well-formed bus keeps it so: queues are bounded, a handle is under one
  -- product and once, handles are issued, and no product has an empty set.
  pub subscribe-IsWellFormed :
      (bus : EventBus Body) (p : String) → IsWellFormed bus → IsWellFormed (subscribe bus p).0
  subscribe-IsWellFormed bus p w = record {
    bounded = λ h. unfold subscribe in ground (arith, w.bounded h);
    distinct = λ q.
        rw (subscribed-subscribe bus p q)
          (ground (arith, NoDup-add bus.next (subscribed bus p) (w.distinct p), w.distinct q));
    sole = λ a b h x y. ground (
      arith,
      subscribed-subscribe bus p a,
      subscribed-subscribe bus p b,
      has-add h bus.next (subscribed bus p),
      eq_iff p a,
      eq_iff p b,
      w.sole a b h,
      w.issued a h,
      w.issued b h,
      w.sole p b h,
      w.sole a p h,
    );
    issued = λ q h x.
        let next : (subscribe bus p).0.next ≡ bus.next + 1 = unfold subscribe in refl in
        ground (
          arith,
          next,
          subscribed-subscribe bus p q,
          has-add h bus.next (subscribed bus p),
          w.issued p h,
          w.issued q h,
        );
    no_leak = λ q.
        unfold subscribe in
        (λ e. ground (
          arith,
          lookup-put p q (add bus.next (subscribed bus p)) bus.subscribers,
          w.no_leak q,
          add-ne-nil bus.next (subscribed bus p),
        ));
  }

  -- Unsubscribing from a well-formed bus keeps it so, also for a handle or a product that is
  -- unknown: no product is left with an empty set.
  pub unsubscribe-IsWellFormed :
      (bus : EventBus Body) (p : String) (h : ℕ)
      → IsWellFormed bus
      → IsWellFormed (unsubscribe bus p h)
  unsubscribe-IsWellFormed bus p h w = record {
    bounded = λ k. rw (queue-unsubscribe bus p h) (w.bounded k);
    distinct = λ q.
        rw (subscribed-unsubscribe bus p q h)
          (ground (arith, NoDup-discard h (subscribed bus p) (w.distinct p), w.distinct q));
    sole = λ a b k x y. ground (
      arith,
      subscribed-unsubscribe bus p a h,
      subscribed-unsubscribe bus p b h,
      has-discard k h (subscribed bus p),
      eq_iff p a,
      eq_iff p b,
      w.sole a b k,
      w.sole p b k,
      w.sole a p k,
    );
    issued = λ q k x. ground (
      arith,
      next-unsubscribe bus p h,
      subscribed-unsubscribe bus p q h,
      has-discard k h (subscribed bus p),
      w.issued p k,
      w.issued q k,
    );
    no_leak = λ q. no_leak-unsubscribe bus p q h (w.no_leak q);
  }

  pub deliver_to-IsWellFormed :
      (event : DomainEvent Body) (bus : EventBus Body) (h : ℕ)
      → IsWellFormed bus
      → IsWellFormed (deliver_to event bus h)
  unfolding deliver_to
  deliver_to-IsWellFormed event bus h w = record {
    bounded = λ k. ground (arith, w.bounded k, length-deliver (bus.queue h) event (w.bounded h));
    distinct = w.distinct;
    sole = w.sole;
    issued = w.issued;
    no_leak = w.no_leak;
  }

  deliver_all-IsWellFormed :
      (event : DomainEvent Body) (bus : EventBus Body) (hs : List ℕ)
      → IsWellFormed bus
      → IsWellFormed (foldl (deliver_to event) bus hs)
  deliver_all-IsWellFormed event bus [] w = w
  deliver_all-IsWellFormed event bus (h ∷ hs) w =
      deliver_all-IsWellFormed event (deliver_to event bus h) hs
        (deliver_to-IsWellFormed event bus h w)

  pub publish-IsWellFormed :
      (bus : EventBus Body) (event : DomainEvent Body)
      → IsWellFormed bus
      → IsWellFormed (publish bus event)
  unfolding publish
  publish-IsWellFormed bus event w =
      deliver_all-IsWellFormed event bus (subscribed bus event.product_id) w

  taken-IsWellFormed :
      (bus : EventBus Body) (h : ℕ) (rest : List (DomainEvent Body))
      → length rest ≤ queue_maxsize
      → IsWellFormed bus
      → IsWellFormed (record bus { queue = update bus.queue h rest })
  unfolding update
  taken-IsWellFormed bus h rest short w = record {
    bounded = λ k. ground (arith, w.bounded k);
    distinct = w.distinct;
    sole = w.sole;
    issued = w.issued;
    no_leak = w.no_leak;
  }

  pub get_lem :
      (bus : EventBus Body) (h : ℕ) (x : DomainEvent Body) (rest : List (DomainEvent Body))
      → bus.queue h ≡ x ∷ rest
      → get bus h ≡ some (x, record bus { queue = update bus.queue h rest })
  unfolding get get_nowait
  get_lem bus h x rest e = rw (e, get) refl

  pub get-empty : (bus : EventBus Body) (h : ℕ) → bus.queue h ≡ [] → get bus h ≡ none
  unfolding get get_nowait
  get-empty bus h e = rw (e, get) refl

  pub get-IsWellFormed :
      (bus bus' : EventBus Body) (h : ℕ) (event : DomainEvent Body)
      → get bus h ≡ some (event, bus')
      → IsWellFormed bus
      → IsWellFormed bus'
  get-IsWellFormed bus bus' h event e w = elim (List-cases (bus.queue h)) [
    | inl nothing ↦ cc (e, get-empty bus h nothing)
    | inr (x, rest, there) ↦
        subst IsWellFormed (cc (e, get_lem bus h x rest there))
          (taken-IsWellFormed bus h rest (omega (arith, w.bounded h, ap length there)) w)
  ]
