-- ===== src/Domain/BumpLevel.antt =====
-- app/models/enums/bump_level.py and the level arithmetic of app/domain/bump_propagation.py.
use lavs_core.Prelude.{
  In, inl, inr, ◌++◌, ◌↔◌, ℕ, zero, suc, ◌≤◌, max, ◌≡◌, refl, sym, ap, ◌∙◌, Option, List, [], ◌∷◌,
  foldl, arith,
}
use mathlib.Core.Option

pub data BumpLevel : Type 0 where
  none patch minor major : BumpLevel

-- `_ORDER`
unfoldable pub order : BumpLevel → ℕ
order none = 0
order patch = 1
order minor = 2
order major = 3

-- `_BY_ORDINAL`; a number that is no key is a KeyError.
unfoldable pub by_ordinal : ℕ → Option BumpLevel
by_ordinal zero = Option.some none
by_ordinal (suc zero) = Option.some patch
by_ordinal (suc (suc zero)) = Option.some minor
by_ordinal (suc (suc (suc zero))) = Option.some major
by_ordinal _ = Option.none

-- `_PROPAGATION`
unfoldable pub propagate : BumpLevel → BumpLevel
propagate none = none
propagate patch = patch
propagate minor = patch
propagate major = minor

-- The loop of `max_level`, from a given highest ordinal.
unfoldable pub highest_from : ℕ → List BumpLevel → ℕ
unfolding order
highest_from highest levels = foldl (λ h level. max h (order level)) highest levels

-- `max_level`. The lookup never misses: `max_level_lem`.
unfoldable pub max_level : List BumpLevel → BumpLevel
unfolding by_ordinal highest_from
max_level levels = Option.get_or (by_ordinal (highest_from 0 levels)) none

pub order-le : (l : BumpLevel) → order l ≤ 3
unfolding order
order-le l = ground arith

pub order-injective : (a b : BumpLevel) → order a ≡ order b → a ≡ b
unfolding order
order-injective a b h = ground arith

pub order-propagate-le : (l : BumpLevel) → order (propagate l) ≤ order l
unfolding order propagate
order-propagate-le l = ground arith

highest_from-le :
    (h : ℕ) (levels : List BumpLevel) (bound : ℕ)
    → h ≤ bound
    → ((l : BumpLevel) → order l ≤ bound)
    → highest_from h levels ≤ bound
unfolding highest_from
highest_from-le h [] bound p q = p
highest_from-le h (l ∷ ls) bound p q =
    highest_from-le (max h (order l)) ls bound (omega (arith, q l)) q

by_ordinal-order : (n : ℕ) → n ≤ 3 → by_ordinal n ≡ Option.some (Option.get_or (by_ordinal n) none)
unfolding by_ordinal
by_ordinal-order zero h = refl
by_ordinal-order (suc zero) h = refl
by_ordinal-order (suc (suc zero)) h = refl
by_ordinal-order (suc (suc (suc zero))) h = refl
by_ordinal-order (suc (suc (suc (suc n)))) h = absurd (omega arith)

order-get_or : (n : ℕ) → n ≤ 3 → order (Option.get_or (by_ordinal n) none) ≡ n
unfolding by_ordinal order
order-get_or zero h = refl
order-get_or (suc zero) h = refl
order-get_or (suc (suc zero)) h = refl
order-get_or (suc (suc (suc zero))) h = refl
order-get_or (suc (suc (suc (suc n)))) h = absurd (omega arith)

-- The ordinal that `max_level` looks up is a key of `_BY_ORDINAL`.
pub max_level_lem :
    (levels : List BumpLevel) → by_ordinal (highest_from 0 levels) ≡ Option.some (max_level levels)
unfolding max_level
max_level_lem levels =
    by_ordinal-order (highest_from 0 levels) (highest_from-le 0 levels 3 (omega arith) order-le)

pub order-max_level : (levels : List BumpLevel) → order (max_level levels) ≡ highest_from 0 levels
unfolding max_level
order-max_level levels =
    order-get_or (highest_from 0 levels) (highest_from-le 0 levels 3 (omega arith) order-le)

highest_from-max :
    (h k : ℕ) (levels : List BumpLevel)
    → highest_from (max h k) levels ≡ max h (highest_from k levels)
unfolding highest_from
highest_from-max h k [] = refl
highest_from-max h k (l ∷ ls) =
    (ap (λ (n : ℕ). highest_from n ls) (max_assoc h k (order l)))
    ∙ highest_from-max h (max k (order l)) ls
  where
    max_assoc : (a b c : ℕ) → max (max a b) c ≡ max a (max b c)
    max_assoc a b c = omega arith

-- The maximum of a list with one more level in front.
pub order-max_level-cons :
    (l : BumpLevel) (ls : List BumpLevel)
    → order (max_level (l ∷ ls)) ≡ max (order l) (order (max_level ls))
unfolding highest_from
order-max_level-cons l ls =
    order-max_level (l ∷ ls)
    ∙ (ap (λ (n : ℕ). highest_from n ls) (omega arith)
        ∙ (highest_from-max (order l) 0 ls ∙ ap (max (order l)) (sym (order-max_level ls))))

pub order-max_level-nil : order (max_level []) ≡ 0
unfolding highest_from
order-max_level-nil = order-max_level []

pub order-le-max_level :
    (l : BumpLevel) (ls : List BumpLevel) → In l ls → order l ≤ order (max_level ls)
order-le-max_level l [] h = absurd h
order-le-max_level l (x ∷ ls) (inl e) = omega (arith, order-max_level-cons x ls, ap order e)
order-le-max_level l (x ∷ ls) (inr m) =
    omega (arith, order-max_level-cons x ls, order-le-max_level l ls m)

pub order-max_level-append :
    (xs ys : List BumpLevel)
    → order (max_level (xs ++ ys)) ≡ max (order (max_level xs)) (order (max_level ys))
order-max_level-append [] ys = omega (arith, order-max_level-nil)
order-max_level-append (x ∷ xs) ys = omega (
  arith,
  order-max_level-cons x xs,
  order-max_level-cons x (xs ++ ys),
  order-max_level-append xs ys,
)

-- No level of the list is above `none` exactly when the maximum is `none`.
pub max_level-eq-none_iff :
    (l : BumpLevel) (ls : List BumpLevel)
    → (max_level (l ∷ ls) ≡ none) ↔ (l ≡ none) × (max_level ls ≡ none)
unfolding order
max_level-eq-none_iff l ls = ground (arith, order-max_level-cons l ls)

pub propagate-eq-none_iff : (l : BumpLevel) → (propagate l ≡ none) ↔ (l ≡ none)
unfolding propagate
propagate-eq-none_iff l = ground arith

pub order-propagate_of_major :
    (l : BumpLevel) → order major ≤ order l → order minor ≤ order (propagate l)
unfolding order propagate
order-propagate_of_major l h = ground arith
