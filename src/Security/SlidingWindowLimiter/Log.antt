-- ===== src/Security/SlidingWindowLimiter/Log.antt =====
-- The limiter against the full log of admissions: as long as no live bucket is evicted, it admits a
-- request exactly when the log has fewer than `limit` admissions of the key inside the window.
use lavs_core.Prelude.{
  ℕ, ◌+◌, ◌≤◌, ◌<◌, ◌≡◌, refl, ap, sym, ◌∙◌, ◌⊎◌, Bool, true, false, none, some, List, [], ◌∷◌,
  ◌++◌, String, str_eq, eq_iff, arith, ltb, leb, if◌then◌else◌, Map, lookup, length, select-append,
  Bool-cases, Option-cases, eq_of_some, subst, inl, inr, lookup-put, Distinct, Distinct-put,
  AllValues, AllValues-lookup, AllValues-mono,
}
use mathlib.Core.Option
use lavs_core.Security.SlidingWindowLimiter.{
  SlidingWindowLimiter, is_stale, pop_stale, prune_stale, evict_if_full, prune_if_full, admit,
  allow_within,
}
use lavs_core.Security.SlidingWindowLimiter.Buckets.{
  IsBucket, Ascending, live, pop_stale-eq-live, newest-some, live-stale,
}
use lavs_core.Security.SlidingWindowLimiter.Capacity.{IsWellFormed, IsBucket-later}

-- The bucket of a key, empty if there is none.
abbrev pub bucket_of : Map (List ℕ) → String → List ℕ
bucket_of d key = Option.get_or (lookup key d) []

-- At every reading of the clock from `now` on, a bucket has the admissions inside the window that
-- the key's log has.
pub record Represents (now window : ℕ) (d : Map (List ℕ)) (log : String → List ℕ) : Type 0 where
  pub distinct : Distinct d
  pub at :
      (key : String) (later : ℕ)
      → now ≤ later
      → live later window (bucket_of d key) ≡ live later window (log key)

pub Represents-later :
    (now later window : ℕ) (d : Map (List ℕ)) (log : String → List ℕ)
    → now ≤ later
    → Represents now window d log
    → Represents later window d log
Represents-later now later window d log h r = record {
  distinct = r.distinct;
  at = λ key t k. r.at key t (omega arith);
}

-- The log with one more admission of a key.
unfoldable pub logged : (String → List ℕ) → String → ℕ → String → List ℕ
logged log key now k = if str_eq key k then log k ++ now ∷ [] else log k

live-live :
    (now later window : ℕ) (ts : List ℕ)
    → now ≤ later
    → live later window (live now window ts) ≡ live later window ts
live-live now later window [] h = refl
live-live now later window (t ∷ ts) h = ground (arith, live-live now later window ts h)

-- Pruning drops only buckets that have nothing inside the window any more.
record Pruned (now window : ℕ) (d : Map (List ℕ)) : Type 0 where
  kept : Map (List ℕ)
  runs : prune_stale now window d ≡ some kept
  distinct : Distinct kept
  absent : (key : String) → lookup key d ≡ none → lookup key kept ≡ none
  same :
      (key : String) (later : ℕ)
      → now ≤ later
      → live later window (bucket_of kept key) ≡ live later window (bucket_of d key)

module _ (now window : ℕ) where
  prune : (d : Map (List ℕ)) → AllValues (IsBucket now) d → Distinct d → Pruned now window d
  unfolding prune_stale lookup
  prune [] h u = record {
    kept = [];
    runs = refl;
    distinct = tt;
    absent = λ key n. n;
    same = λ key later k. refl;
  }
  prune ((j, bucket) ∷ d) (b, h) (new, u) =
      let (t, newest_is) = newest-some bucket b.nonempty in
      let tail = prune d h u in
      elim (Bool-cases (is_stale now window t)) [
        | inl stale ↦ record {
          kept = tail.kept;
          runs = rw (newest_is, prune_stale) (rw (tail.runs, prune_stale) (rw stale refl));
          distinct = tail.distinct;
          absent = λ key n. tail.absent key (ground arith);
          same = λ key later k. ground (
            arith,
            tail.same key later k,
            tail.absent j new,
            eq_iff j key,
            new,
            live-stale now later window t bucket b.ascending newest_is,
            live_none later j,
          );
        }
        | inr fresh ↦ record {
          kept = (j, bucket) ∷ tail.kept;
          runs = rw (newest_is, prune_stale) (rw (tail.runs, prune_stale) (rw fresh refl));
          distinct = (tail.absent j new, tail.distinct);
          absent = λ key n. ground (arith, tail.absent key);
          same = λ key later k. ground (arith, tail.same key later k);
        }
      ]
    where
      live_none :
          (later : ℕ) (key : String)
          → lookup key d ≡ none
          → live later window (bucket_of d key) ≡ []
      live_none later key n = rw n refl

  -- Pruning when the dictionary is full, as a step between two states of it.
  prune_if_full-Pruned :
      (max_keys : ℕ) (d : Map (List ℕ))
      → AllValues (IsBucket now) d
      → Distinct d
      → (kept : Map (List ℕ)) × (prune_if_full now window max_keys d ≡ some kept)
        × Distinct kept
        × ((key : String) → lookup key d ≡ none → lookup key kept ≡ none)
        × ((key : String) (later : ℕ)
            → now ≤ later
            → live later window (bucket_of kept key) ≡ live later window (bucket_of d key))
  unfolding prune_if_full
  prune_if_full-Pruned max_keys d h u =
      let p = prune d h u in
      elim (Bool-cases (leb max_keys (length d))) [
        | inl full ↦ (p.kept, rw full p.runs, p.distinct, p.absent, p.same)
        | inr room ↦ (d, rw room refl, u, λ key n. n, λ key later k. refl)
      ]

  Represents-step :
      (before : ℕ) (d d' : Map (List ℕ)) (log : String → List ℕ)
      → before ≤ now
      → Distinct d'
      → ((key : String) (later : ℕ)
          → now ≤ later
          → live later window (bucket_of d' key) ≡ live later window (bucket_of d key))
      → Represents before window d log
      → Represents now window d' log
  Represents-step before d d' log k u same r = record {
    distinct = u;
    at = λ key later l. same key later l ∙ r.at key later (omega arith);
  }

  module _ (limit : ℕ) (key : String) (log : String → List ℕ) where
    -- The specification: the log has room for one more admission inside the window.
    abbrev pub has_budget : Bool
    has_budget = ltb (length (live now window (log key))) limit

    abbrev pub next_log : String → List ℕ
    next_log = if has_budget then logged log key now else log

    admit-refines :
        (limiter : SlidingWindowLimiter) (bucket : List ℕ)
        → bucket_of limiter.admissions key ≡ bucket
        → Ascending bucket
        → Represents now window limiter.admissions log
        → ((admit now window limit limiter key bucket).0 ≡ has_budget)
          × Represents now window (admit now window limit limiter key bucket).1.admissions next_log
    unfolding admit logged
    admit-refines limiter bucket is_bucket a r =
        let popped : pop_stale now window bucket ≡ live now window (log key) =
          pop_stale-eq-live now window bucket a
          ∙ (ap (live now window) (sym is_bucket) ∙ r.at key now (omega arith)) in
        rw popped (elim (Bool-cases (leb limit (length (live now window (log key))))) [
          | inl full ↦
              let spent : has_budget ≡ false = ground arith in
              rw full (
                rw spent (
                  refl,
                  record {
                    distinct =
                        Distinct-put key (live now window (log key)) limiter.admissions r.distinct;
                    at = λ k later l. ground (
                      arith,
                      lookup-put key k (live now window (log key)) limiter.admissions,
                      r.at k later l,
                      live-live now later window (log key) l,
                      eq_iff key k,
                    );
                  },
                ))
          | inr room ↦
              let left : has_budget ≡ true = ground arith in
              rw room (
                rw left (
                  refl,
                  record {
                    distinct =
                        Distinct-put key (live now window (log key) ++ now ∷ []) limiter.admissions
                          r.distinct;
                    at = λ k later l. ground (
                      arith,
                      lookup-put key k (live now window (log key) ++ now ∷ []) limiter.admissions,
                      r.at k later l,
                      live-live now later window (log key) l,
                      eq_iff key k,
                      select-append (λ t. ltb later (t + window)) (live now window (log key))
                          (now ∷ []),
                      select-append (λ t. ltb later (t + window)) (log key) (now ∷ []),
                    );
                  },
                ))
        ])

    module _ (limiter : SlidingWindowLimiter) where
      -- No live bucket has to make way: the key is known, or there is room after the pruning.
      abbrev pub HasRoom : Type 0
      HasRoom =
          ((bucket : List ℕ) × (lookup key limiter.admissions ≡ some bucket))
          ⊎ ((kept : Map (List ℕ)) × (prune_if_full now window limiter.max_keys limiter.admissions
                ≡ some kept)
              × (length kept < limiter.max_keys))

      room_after_prune :
          lookup key limiter.admissions ≡ none
          → HasRoom
          → (kept : Map (List ℕ))
          → prune_if_full now window limiter.max_keys limiter.admissions ≡ some kept
          → length kept < limiter.max_keys
      room_after_prune new (inl (bucket, known)) kept runs = cc
      room_after_prune new (inr (k, runs', room)) kept runs =
          subst (λ (d : Map (List ℕ)). length d < limiter.max_keys) (eq_of_some (sym runs' ∙ runs))
            room

      not_evicted :
          (kept : Map (List ℕ))
          → length kept < limiter.max_keys
          → evict_if_full limiter.max_keys kept ≡ some kept
      unfolding evict_if_full
      not_evicted kept room = ground arith

      -- From a well-formed limiter that represents the full log of admissions, at a clock that has
      -- not gone back, and where the key has a bucket or pruning leaves room for one, `allow`
      -- decides by the log: it admits exactly if the key has fewer than `limit` logged admissions
      -- inside the window, and the limiter then represents the log, to which an admission is added
      -- and a refusal is not.
      pub allow_within-refines :
          (before : ℕ)
          → before ≤ now
          → IsWellFormed before limiter
          → Represents before window limiter.admissions log
          → HasRoom
          → (after : SlidingWindowLimiter) × (allow_within now window limit limiter key
              ≡ some (has_budget, after))
            × Represents now window after.admissions next_log
      unfolding allow_within
      allow_within-refines before order w r room =
          elim (Option-cases (lookup key limiter.admissions)) [
            | inr (bucket, known) ↦
                let b =
                  AllValues-lookup (IsBucket before) key bucket limiter.admissions w.buckets
                    known in
                let (verdict, rep) = admit-refines limiter bucket (rw known refl) b.ascending (
                  Represents-step before limiter.admissions limiter.admissions log order r.distinct
                    (λ k later l. refl) r) in
                (
                  (admit now window limit limiter key bucket).1,
                  rw (known, allow_within)
                      (ap (λ v. some (v, (admit now window limit limiter key bucket).1)) verdict),
                  rep,
                )
            | inl new ↦
                let all =
                  AllValues-mono (IsBucket before) (IsBucket now) (IsBucket-later before now order)
                    limiter.admissions w.buckets in
                let (kept, runs, distinct, absent, same) =
                  prune_if_full-Pruned limiter.max_keys limiter.admissions all r.distinct in
                let trimmed = record limiter { admissions = kept } in
                let (verdict, rep) =
                  admit-refines trimmed [] (rw (absent key new) refl) tt
                    (Represents-step before limiter.admissions kept log order distinct same r) in
                (
                  (admit now window limit trimmed key []).1,
                  rw (new, allow_within)
                      (rw (runs, allow_within)
                        (rw (not_evicted kept (room_after_prune new room kept runs), allow_within)
                          (ap (λ v. some (v, (admit now window limit trimmed key []).1)) verdict))),
                  rep,
                )
          ]
