-- ===== src/Prelude/Maps.antt =====
-- Python's `dict` with string keys: an association list in insertion order. A write to a key that
-- is there keeps its place.
use mathlib.Core.Path.{◌≡◌, refl, sym, subst}
use mathlib.Core.Logic.{inl, inr}
use mathlib.Core.Bool.{false}
use mathlib.Core.Option.{Option, none, some}
use mathlib.Core.List.{List, [], ◌∷◌}
use native.Mathlib.Omega.{arith}
use text.Mathlib.Text.{◌==◌ as str_eq}
use text.Mathlib.TextEquality.{eq_iff}
use Prim.Native.String.{String}
use lavs_core.Prelude.Tests.{if◌then◌else◌, Bool-cases, eq_of_some}
use Prim.Native.Nat.{suc, ◌≤◌, ◌<◌}
use lavs_core.Prelude.Lists.{In, length}

abbrev pub Map {ℓ} : Type ℓ → Type ℓ
Map V = List (String × V)

module _ {ℓ} {V : Type ℓ} where
  -- d.get(k)
  unfoldable pub lookup : String → Map V → Option V
  lookup k [] = none
  lookup k ((j, v) ∷ d) = if str_eq j k then some v else lookup k d

  -- d[k] = v
  unfoldable pub put : String → V → Map V → Map V
  put k v [] = (k, v) ∷ []
  put k v ((j, w) ∷ d) = if str_eq j k then (k, v) ∷ d else (j, w) ∷ put k v d

  -- d.pop(k, None)
  unfoldable pub remove : String → Map V → Map V
  remove k [] = []
  remove k ((j, v) ∷ d) = let rest = remove k d in if str_eq j k then rest else (j, v) ∷ rest

  pub lookup-put :
      (k j : String) (v : V) (d : Map V)
      → lookup j (put k v d) ≡ (if str_eq k j then some v else lookup j d)
  unfolding lookup put
  lookup-put k j v [] = refl
  lookup-put k j v ((i, w) ∷ d) =
      ground (arith, eq_iff k j, eq_iff i k, eq_iff i j, lookup-put k j v d)

  pub lookup-remove :
      (k j : String) (d : Map V) → lookup j (remove k d) ≡ (if str_eq k j then none else lookup j d)
  unfolding lookup remove
  lookup-remove k j [] = ground arith
  lookup-remove k j ((i, w) ∷ d) =
      ground (arith, eq_iff k j, eq_iff i k, eq_iff i j, lookup-remove k j d)

  -- list(d)
  abbrev pub keys : Map V → List String
  keys [] = []
  keys ((k, v) ∷ d) = k ∷ keys d

  pub In-keys_of_lookup : (k : String) (v : V) (d : Map V) → lookup k d ≡ some v → In k (keys d)
  unfolding lookup
  In-keys_of_lookup k v [] h = cc
  In-keys_of_lookup k v ((j, w) ∷ d) h = ground (arith, eq_iff j k, In-keys_of_lookup k v d)

  pub lookup_of_In-keys : (k : String) (d : Map V) → In k (keys d) → (v : V) × (lookup k d ≡ some v)
  unfolding lookup
  lookup_of_In-keys k [] h = absurd h
  lookup_of_In-keys k ((j, w) ∷ d) (inl e) = (w, rw ((eq_iff j k).1 (sym e)))
  lookup_of_In-keys k ((j, w) ∷ d) (inr m) = elim (Bool-cases (str_eq j k)) [
    | inl e ↦ (w, rw e)
    | inr n ↦ let (v, e) = lookup_of_In-keys k d m in (v, rw n e)
  ]

  pub lookup-nil : (k : String) → ◌≡◌ {A = Option V} (lookup k []) none
  unfolding lookup
  lookup-nil k = refl

  pub length-put :
      (k : String) (v : V) (d : Map V)
      → length (put k v d) ≡ elim (lookup k d) [ none ↦ suc (length d) | some _ ↦ length d ]
  unfolding put lookup
  length-put k v [] = refl
  length-put k v ((j, w) ∷ d) = ground (arith, length-put k v d)

  pub length-remove-le : (k : String) (d : Map V) → length (remove k d) ≤ length d
  unfolding remove
  length-remove-le k [] = omega arith
  length-remove-le k ((j, w) ∷ d) = ground (arith, length-remove-le k d)

  pub length-remove-lt : (k : String) (d : Map V) → In k (keys d) → length (remove k d) < length d
  unfolding remove
  length-remove-lt k [] m = absurd m
  length-remove-lt k ((j, w) ∷ d) (inl e) = ground (arith, eq_iff j k, length-remove-le k d)
  length-remove-lt k ((j, w) ∷ d) (inr m) = ground (arith, length-remove-lt k d m)

  -- Every value of a dictionary.
  abbrev pub AllValues {κ} : (V → Type κ) → Map V → Type κ
  AllValues P [] = Unit
  AllValues P ((k, v) ∷ d) = P v × AllValues P d

  pub AllValues-put {κ} :
      (P : V → Type κ) (k : String) (v : V) (d : Map V)
      → P v
      → AllValues P d
      → AllValues P (put k v d)
  unfolding put
  AllValues-put P k v [] p h = (p, tt)
  AllValues-put P k v ((j, w) ∷ d) p h = elim (Bool-cases (str_eq j k)) [
    | inl e ↦ rw e (p, h.1)
    | inr n ↦ rw n (h.0, AllValues-put P k v d p h.1)
  ]

  pub AllValues-remove {κ} :
      (P : V → Type κ) (k : String) (d : Map V) → AllValues P d → AllValues P (remove k d)
  unfolding remove
  AllValues-remove P k [] h = tt
  AllValues-remove P k ((j, w) ∷ d) h = elim (Bool-cases (str_eq j k)) [
    | inl e ↦ rw e (AllValues-remove P k d h.1)
    | inr n ↦ rw n (h.0, AllValues-remove P k d h.1)
  ]

  pub AllValues-lookup {κ} :
      (P : V → Type κ) (k : String) (v : V) (d : Map V) → AllValues P d → lookup k d ≡ some v → P v
  unfolding lookup
  AllValues-lookup P k v [] h e = cc
  AllValues-lookup P k v ((j, w) ∷ d) h e = elim (Bool-cases (str_eq j k)) [
    | inl y ↦ subst P (eq_of_some (rw y at e)) h.0
    | inr n ↦ AllValues-lookup P k v d h.1 (rw n at e)
  ]

  pub AllValues-mono {κ λ'} :
      (P : V → Type κ) (Q : V → Type λ')
      → ((v : V) → P v → Q v)
      → (d : Map V) → AllValues P d
      → AllValues Q d
  AllValues-mono P Q f [] h = tt
  AllValues-mono P Q f ((k, v) ∷ d) h = (f v h.0, AllValues-mono P Q f d h.1)

  -- No key stands twice.
  abbrev pub Distinct : Map V → Type ℓ
  Distinct [] = Unit
  Distinct ((k, v) ∷ d) = (lookup k d ≡ none) × Distinct d

  pub Distinct-put : (k : String) (v : V) (d : Map V) → Distinct d → Distinct (put k v d)
  unfolding put
  Distinct-put k v [] h = (lookup-nil k, tt)
  Distinct-put k v ((j, w) ∷ d) (new, h) = elim (Bool-cases (str_eq j k)) [
    | inl e ↦ rw e (subst (λ x. lookup x d ≡ none) ((eq_iff j k).0 e) new, h)
    | inr n ↦ rw n (put_other n, Distinct-put k v d h)
  ]
    where
      put_other : str_eq j k ≡ false → lookup j (put k v d) ≡ none
      put_other n = ground (arith, lookup-put k j v d, eq_iff k j, eq_iff j k, new)
