-- ===== src/Security/SlidingWindowLimiter/Capacity.antt =====
-- The limiter never fails, and tracks a bounded number of keys.
use lavs_core.Prelude.{
  ℕ, zero, suc, ◌-◌, ◌≤◌, ◌<◌, ◌≡◌, refl, Bool, true, none, some, List, [], ◌∷◌, ◌++◌, String,
  arith, ltb, leb, Map, lookup, remove, keys, length, All, All-map_of, Bool-cases, Option-cases,
  inl, inr, ⊎_elim, In, ℤ, pos, negsuc, length-put, length-remove-lt, AllValues, AllValues-put,
  AllValues-remove, AllValues-lookup, AllValues-mono,
}
use lavs_core.Security.SlidingWindowLimiter.{
  SlidingWindowLimiter, tracked_key_count, is_stale, pop_stale, prune_stale, oldest_from,
  oldest_key, evict_least_recent, evict_if_full, prune_if_full, admit, allow_within, allow,
}
use lavs_core.Security.SlidingWindowLimiter.Buckets.{
  IsBucket, Ascending, admitted-IsBucket, refused-IsBucket, newest-some,
}

-- What holds between two calls, the last of which read the clock at `now`.
pub record IsWellFormed (now : ℕ) (limiter : SlidingWindowLimiter) : Type 0 where
  pub buckets : AllValues (IsBucket now) limiter.admissions
  pub capacity : length limiter.admissions ≤ limiter.max_keys

pub IsBucket-later :
    (now later : ℕ) → now ≤ later → (bucket : List ℕ) → IsBucket now bucket → IsBucket later bucket
IsBucket-later now later h bucket b = record {
  nonempty = b.nonempty;
  ascending = b.ascending;
  past = All-map_of (λ t p. omega arith) bucket b.past;
}

pub IsWellFormed-later :
    (now later : ℕ)
    → now ≤ later
    → (limiter : SlidingWindowLimiter) → IsWellFormed now limiter
    → IsWellFormed later limiter
IsWellFormed-later now later h limiter w = record {
  buckets =
      AllValues-mono (IsBucket now) (IsBucket later) (IsBucket-later now later h) limiter.admissions
        w.buckets;
  capacity = w.capacity;
}

module _ (now window : ℕ) where
  pub prune_stale_returns :
      (d : Map (List ℕ))
      → AllValues (IsBucket now) d
      → (kept : Map (List ℕ)) × (prune_stale now window d ≡ some kept)
        × AllValues (IsBucket now) kept
        × (length kept ≤ length d)
  unfolding prune_stale
  prune_stale_returns [] h = ([], refl, tt, omega arith)
  prune_stale_returns ((key, bucket) ∷ d) (b, h) =
      let (t, e) = newest-some bucket b.nonempty in
      let (kept, runs, all, short) = prune_stale_returns d h in
      elim (Bool-cases (is_stale now window t)) [
        | inl stale ↦
            (kept, rw (e, prune_stale) (rw (runs, prune_stale) (rw stale refl)), all, omega arith)
        | inr fresh ↦ (
          (key, bucket) ∷ kept,
          rw (e, prune_stale) (rw (runs, prune_stale) (rw fresh refl)),
          (b, all),
          omega arith,
        )
      ]

  oldest_from_returns :
      (best : String) (at : ℕ) (d : Map (List ℕ))
      → AllValues (IsBucket now) d
      → (key : String) × (oldest_from best at d ≡ some key) × In key (best ∷ keys d)
  unfolding oldest_from
  oldest_from_returns best at [] h = (best, refl, inl refl)
  oldest_from_returns best at ((key, bucket) ∷ d) (b, h) =
      let (t, e) = newest-some bucket b.nonempty in
      elim (Bool-cases (ltb t at)) [
        | inl older ↦
            let (k, runs, m) = oldest_from_returns key t d h in
            (k, rw (e, oldest_from) (rw older runs), inr m)
        | inr newer ↦
            let (k, runs, m) = oldest_from_returns best at d h in
            (k, rw (e, oldest_from) (rw newer runs), ⊎_elim inl (λ q. inr (inr q)) m)
      ]

  evict_least_recent_returns :
      (d : Map (List ℕ))
      → AllValues (IsBucket now) d
      → (kept : Map (List ℕ)) × (evict_least_recent d ≡ some kept)
        × AllValues (IsBucket now) kept
        × (length kept ≤ length d - 1)
  unfolding evict_least_recent
  evict_least_recent_returns [] h = ([], refl, tt, omega arith)
  evict_least_recent_returns ((key, bucket) ∷ d) (b, h) =
      let (t, e) = newest-some bucket b.nonempty in
      let (k, runs, m) = oldest_from_returns key t d h in
      (
        remove k ((key, bucket) ∷ d),
        rw (e, oldest_key) (rw (runs, oldest_key) refl),
        AllValues-remove (IsBucket now) k ((key, bucket) ∷ d) (b, h),
        omega (arith, length-remove-lt k ((key, bucket) ∷ d) m),
      )

  -- After the two tests for room, there is room.
  room_returns :
      (max_keys : ℕ) (d : Map (List ℕ))
      → 0 < max_keys
      → length d ≤ max_keys
      → AllValues (IsBucket now) d
      → (pruned kept : Map (List ℕ)) × (prune_if_full now window max_keys d ≡ some pruned)
        × (evict_if_full max_keys pruned ≡ some kept)
        × AllValues (IsBucket now) kept
        × (length kept < max_keys)
  unfolding prune_if_full evict_if_full
  room_returns max_keys d positive fits h =
      let (pruned, runs, all, short) = prune_stale_returns d h in
      let (evicted, runs', all', less) = evict_least_recent_returns pruned all in
      elim (Bool-cases (leb max_keys (length d))) [
        | inr room ↦ (d, d, rw room refl, rw room refl, h, ground arith)
        | inl full ↦ elim (Bool-cases (leb max_keys (length pruned))) [
          | inr room ↦ (pruned, pruned, rw full runs, rw room refl, all, ground arith)
          | inl still_full ↦ (pruned, evicted, rw full runs, rw still_full runs', all', omega arith)
        ]
      ]

  admit_keeps :
      (limit : ℕ) (limiter : SlidingWindowLimiter) (key : String) (bucket : List ℕ)
      → 0 < limit
      → Ascending bucket
      → All (λ t. t ≤ now) bucket
      → AllValues (IsBucket now) limiter.admissions
      → AllValues (IsBucket now) (admit now window limit limiter key bucket).1.admissions
        × ((admit now window limit limiter key bucket).1.max_keys ≡ limiter.max_keys)
        × (length (admit now window limit limiter key bucket).1.admissions
            ≤ elim (lookup key limiter.admissions) [
              | none ↦ suc (length limiter.admissions)
              | some _ ↦ length limiter.admissions
            ])
  unfolding admit
  admit_keeps limit limiter key bucket positive a p = λ h.
      elim (Bool-cases (leb limit (length (pop_stale now window bucket)))) [
        | inl full ↦ rw full (
          AllValues-put (IsBucket now) key (pop_stale now window bucket) limiter.admissions
              (refused-IsBucket now window limit bucket positive (ground arith) a p) h,
          refl,
          le_of_eq (length-put key (pop_stale now window bucket) limiter.admissions),
        )
        | inr room ↦ rw room (
          AllValues-put (IsBucket now) key (pop_stale now window bucket ++ now ∷ [])
              limiter.admissions (admitted-IsBucket now window bucket a p) h,
          refl,
          le_of_eq (length-put key (pop_stale now window bucket ++ now ∷ []) limiter.admissions),
        )
      ]
    where
      le_of_eq : {m n : ℕ} → m ≡ n → m ≤ n
      le_of_eq e = omega arith

  allow_within_returns :
      (limit : ℕ) (limiter : SlidingWindowLimiter) (key : String)
      → 0 < limit
      → 0 < limiter.max_keys
      → IsWellFormed now limiter
      → (admitted : Bool) × (after : SlidingWindowLimiter) × (allow_within now window limit limiter
            key
          ≡ some (admitted, after))
        × IsWellFormed now after
        × (after.max_keys ≡ limiter.max_keys)
  unfolding allow_within
  allow_within_returns limit limiter key positive some_room w =
      elim (Option-cases (lookup key limiter.admissions)) [
        | inr (bucket, known) ↦
            let b = AllValues-lookup (IsBucket now) key bucket limiter.admissions w.buckets known in
            let (all, same, size) =
              admit_keeps limit limiter key bucket positive b.ascending b.past w.buckets in
            (
              (admit now window limit limiter key bucket).0,
              (admit now window limit limiter key bucket).1,
              rw (known, allow_within) refl,
              record { buckets = all; capacity = omega (arith, w.capacity, rw known at size) },
              same,
            )
        | inl new ↦
            let (pruned, kept, runs, runs', all, room) =
              room_returns limiter.max_keys limiter.admissions some_room w.capacity w.buckets in
            let trimmed = record limiter { admissions = kept } in
            let (all', same, size) = admit_keeps limit trimmed key [] positive tt tt all in
            (
              (admit now window limit trimmed key []).0,
              (admit now window limit trimmed key []).1,
              rw (new, allow_within) (rw (runs, allow_within) (rw (runs', allow_within) refl)),
              record { buckets = all'; capacity = ground (arith, size, room) },
              same,
            )
      ]

-- From a well-formed state with room for at least one key, and at a clock that has not gone back,
-- `allow` never raises, and the state stays well formed: no more than `max_keys` keys are tracked,
-- and no bucket is empty.
pub allow_returns :
    (before now window : ℕ) (limit : ℤ) (limiter : SlidingWindowLimiter) (key : String)
    → before ≤ now
    → 0 < limiter.max_keys
    → IsWellFormed before limiter
    → (admitted : Bool) × (after : SlidingWindowLimiter) × (allow now window limit limiter key
        ≡ some (admitted, after))
      × IsWellFormed now after
      × (tracked_key_count after ≤ limiter.max_keys)
unfolding allow tracked_key_count
allow_returns before now window limit limiter key later some_room w = by_limit limit
  where
    w' : IsWellFormed now limiter
    w' = IsWellFormed-later before now later limiter w

    by_limit :
        (limit : ℤ)
        → (admitted : Bool) × (after : SlidingWindowLimiter) × (allow now window limit limiter key
            ≡ some (admitted, after))
          × IsWellFormed now after
          × (tracked_key_count after ≤ limiter.max_keys)
    by_limit (negsuc n) = (true, limiter, refl, w', w'.capacity)
    by_limit (pos zero) = (true, limiter, refl, w', w'.capacity)
    by_limit (pos (suc n)) =
        let (b, after, runs, wf, same) =
          allow_within_returns now window (suc n) limiter key (omega arith) some_room w' in
        (b, after, runs, wf, omega (arith, wf.capacity, same))
