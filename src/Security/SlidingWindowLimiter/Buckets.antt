-- ===== src/Security/SlidingWindowLimiter/Buckets.antt =====
-- One bucket: its times ascend, so dropping the stale ones in front drops all of them.
use lavs_core.Prelude.{
  ℕ, ◌+◌, ◌≤◌, ◌<◌, ◌≡◌, ◌≢◌, refl, ap, Bool, some, List, [], ◌∷◌, ◌++◌, arith, ltb, length, select,
  All, All-append, Bool-cases, inl, inr, eq_of_some,
}
use lavs_core.Security.SlidingWindowLimiter.{newest, pop_stale}

-- Times in ascending order, none after `now`.
abbrev pub Ascending : List ℕ → Type 0
Ascending [] = Unit
Ascending (t ∷ ts) = All (λ s. t ≤ s) ts × Ascending ts

pub record IsBucket (now : ℕ) (bucket : List ℕ) : Type 0 where
  pub nonempty : bucket ≢ []
  pub ascending : Ascending bucket
  pub past : All (λ t. t ≤ now) bucket

-- The admissions inside the window that ends at `now`.
abbrev pub live : ℕ → ℕ → List ℕ → List ℕ
live now window bucket = select (λ t. ltb now (t + window)) bucket

live-fresh :
    (now window t : ℕ) (ts : List ℕ)
    → now < t + window
    → All (λ s. t ≤ s) ts
    → live now window ts ≡ ts
live-fresh now window t [] h a = refl
live-fresh now window t (s ∷ ts) h a = ground (arith, live-fresh now window t ts h a.1)

pub pop_stale-eq-live :
    (now window : ℕ) (bucket : List ℕ)
    → Ascending bucket
    → pop_stale now window bucket ≡ live now window bucket
unfolding pop_stale
pop_stale-eq-live now window [] a = refl
pop_stale-eq-live now window (t ∷ ts) a =
    ground (arith, pop_stale-eq-live now window ts a.1, live-fresh now window t ts)

All-select : (P : ℕ → Type 0) (p : ℕ → Bool) (ts : List ℕ) → All P ts → All P (select p ts)
All-select P p [] h = tt
All-select P p (t ∷ ts) h = elim (Bool-cases (p t)) [
  | inl e ↦ rw e (h.0, All-select P p ts h.1)
  | inr e ↦ rw e (All-select P p ts h.1)
]

Ascending-select : (p : ℕ → Bool) (ts : List ℕ) → Ascending ts → Ascending (select p ts)
Ascending-select p [] a = tt
Ascending-select p (t ∷ ts) a = elim (Bool-cases (p t)) [
  | inl e ↦ rw e (All-select (λ s. t ≤ s) p ts a.0, Ascending-select p ts a.1)
  | inr e ↦ rw e (Ascending-select p ts a.1)
]

Ascending-snoc :
    (now : ℕ) (ts : List ℕ) → Ascending ts → All (λ t. t ≤ now) ts → Ascending (ts ++ now ∷ [])
Ascending-snoc now [] a p = (tt, tt)
Ascending-snoc now (t ∷ ts) a p =
    (All-append (λ s. t ≤ s) ts (now ∷ []) a.0 (p.0, tt), Ascending-snoc now ts a.1 p.1)

append-ne-nil : (ts : List ℕ) (t : ℕ) → ts ++ t ∷ [] ≢ []
append-ne-nil [] t e = cc
append-ne-nil (x ∷ ts) t e = cc

-- The bucket after an admission, from any bucket of ascending past times.
pub admitted-IsBucket :
    (now window : ℕ) (bucket : List ℕ)
    → Ascending bucket
    → All (λ t. t ≤ now) bucket
    → IsBucket now (pop_stale now window bucket ++ now ∷ [])
admitted-IsBucket now window bucket a p =
    let e = pop_stale-eq-live now window bucket a in
    record {
      nonempty = append-ne-nil (pop_stale now window bucket) now;
      ascending = rw e (
          Ascending-snoc now (live now window bucket)
            (Ascending-select (λ t. ltb now (t + window)) bucket a)
            (All-select (λ t. t ≤ now) (λ t. ltb now (t + window)) bucket p));
      past = rw e (
          All-append (λ t. t ≤ now) (live now window bucket) (now ∷ [])
            (All-select (λ t. t ≤ now) (λ t. ltb now (t + window)) bucket p) (omega arith));
    }

pub refused-IsBucket :
    (now window limit : ℕ) (bucket : List ℕ)
    → 0 < limit
    → limit ≤ length (pop_stale now window bucket)
    → Ascending bucket
    → All (λ t. t ≤ now) bucket
    → IsBucket now (pop_stale now window bucket)
refused-IsBucket now window limit bucket positive full a p =
    let e = pop_stale-eq-live now window bucket a in
    record {
      nonempty = λ none_left. omega (arith, ap length none_left);
      ascending = rw e (Ascending-select (λ t. ltb now (t + window)) bucket a);
      past = rw e (All-select (λ t. t ≤ now) (λ t. ltb now (t + window)) bucket p);
    }

pub newest-some : (bucket : List ℕ) → bucket ≢ [] → (t : ℕ) × (newest bucket ≡ some t)
unfolding newest
newest-some [] h = absurd (h refl)
newest-some (t ∷ []) h = (t, refl)
newest-some (t ∷ s ∷ ts) h = newest-some (s ∷ ts) (λ e. cc)

-- If the newest time is stale, every time is, now and at any later reading of the clock.
pub live-stale :
    (now later window t : ℕ) (bucket : List ℕ)
    → Ascending bucket
    → newest bucket ≡ some t
    → t + window ≤ now
    → now ≤ later
    → live later window bucket ≡ []
unfolding newest
live-stale now later window t [] a e h k = refl
live-stale now later window t (s ∷ []) a e h k = ground (arith, eq_of_some e)
live-stale now later window t (s ∷ r ∷ ts) a e h k =
    let rest = live-stale now later window t (r ∷ ts) a.1 e h k in ground (arith, rest, a.0.0)
