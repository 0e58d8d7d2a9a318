-- ===== src/Prelude/Sorting.antt =====
-- `ORDER BY`: an insertion sort by a test `before`, under which tied rows come in the reverse order of
-- insertion, and the head of the result.
pub mod Strict
use Prim.Native.Nat.{suc}
use mathlib.Core.Path.{◌≡◌, refl}
use mathlib.Core.Logic.{◌⊎◌, inl, inr, ⊎_elim}
use mathlib.Core.Bool.{Bool, true, false}
use mathlib.Core.List.{List, [], ◌∷◌}
use native.Mathlib.Omega.{arith}
use lavs_core.Prelude.Tests.{if◌then◌else◌, Bool-cases}
use lavs_core.Prelude.Lists.{In, All, All-map_of, length}

module _ {A : Type 0} (before : A → A → Bool) where
  -- Behind every row that is not after the new one.
  abbrev pub insert_by : A → List A → List A
  insert_by x [] = x ∷ []
  insert_by x (y ∷ ys) = let rest = y ∷ insert_by x ys in if before x y then x ∷ y ∷ ys else rest

  unfoldable pub sort_by : List A → List A
  sort_by [] = []
  sort_by (x ∷ xs) = insert_by x (sort_by xs)

  In-insert_by : (a x : A) (ys : List A) → In a (insert_by x ys) → (a ≡ x) ⊎ In a ys
  In-insert_by a x [] m = m
  In-insert_by a x (y ∷ ys) m = elim (Bool-cases (before x y)) [
    | inl e ↦ rw e at m
    | inr n ↦
        ⊎_elim (λ q. inr (inl q)) (λ q. ⊎_elim inl (λ r. inr (inr r)) (In-insert_by a x ys q))
          (rw n at m)
  ]

  pub In-sort_by : (a : A) (xs : List A) → In a (sort_by xs) → In a xs
  unfolding sort_by
  In-sort_by a [] m = m
  In-sort_by a (x ∷ xs) m =
      ⊎_elim inl (λ q. inr (In-sort_by a xs q)) (In-insert_by a x (sort_by xs) m)

  In-insert_by_new : (x : A) (ys : List A) → In x (insert_by x ys)
  In-insert_by_new x [] = inl refl
  In-insert_by_new x (y ∷ ys) = elim (Bool-cases (before x y)) [
    | inl e ↦ rw e (inl refl)
    | inr n ↦ rw n (inr (In-insert_by_new x ys))
  ]

  In-insert_by_old : (a x : A) (ys : List A) → In a ys → In a (insert_by x ys)
  In-insert_by_old a x [] m = inr m
  In-insert_by_old a x (y ∷ ys) m = elim (Bool-cases (before x y)) [
    | inl e ↦ rw e (inr m)
    | inr n ↦ rw n (⊎_elim inl (λ q. inr (In-insert_by_old a x ys q)) m)
  ]

  pub In-to_sort_by : (a : A) (xs : List A) → In a xs → In a (sort_by xs)
  unfolding sort_by
  In-to_sort_by a [] m = m
  In-to_sort_by a (x ∷ xs) (inl e) = rw e (In-insert_by_new x (sort_by xs))
  In-to_sort_by a (x ∷ xs) (inr m) = In-insert_by_old a x (sort_by xs) (In-to_sort_by a xs m)

  length-insert_by : (x : A) (ys : List A) → length (insert_by x ys) ≡ suc (length ys)
  length-insert_by x [] = refl
  length-insert_by x (y ∷ ys) = ground (arith, length-insert_by x ys)

  pub length-sort_by : (xs : List A) → length (sort_by xs) ≡ length xs
  unfolding sort_by
  length-sort_by [] = refl
  length-sort_by (x ∷ xs) = omega (arith, length-insert_by x (sort_by xs), length-sort_by xs)

  -- Under a transitive and asymmetric test nothing comes before the head.
  abbrev pub IsFirst : List A → Type 0
  IsFirst [] = Unit
  IsFirst (y ∷ ys) = All (λ z. before z y ≡ false) ys

  module _ (asym : (x y : A) → before x y ≡ true → before y x ≡ false)
      (negative : (x y z : A) → before x y ≡ true → before z y ≡ false → before z x ≡ false) where
    pub All-insert_by :
        (P : A → Type 0) (x : A) (ys : List A) → P x → All P ys → All P (insert_by x ys)
    All-insert_by P x [] p h = (p, tt)
    All-insert_by P x (y ∷ ys) p h = elim (Bool-cases (before x y)) [
      | inl e ↦ rw e (p, h)
      | inr n ↦ rw n (h.0, All-insert_by P x ys p h.1)
    ]

    IsFirst-insert_by : (x : A) (ys : List A) → IsFirst ys → IsFirst (insert_by x ys)
    IsFirst-insert_by x [] h = tt
    IsFirst-insert_by x (y ∷ ys) h = elim (Bool-cases (before x y)) [
      | inl e ↦ rw e (asym x y e, All-map_of (λ z q. negative x y z e q) ys h)
      | inr n ↦ rw n (All-insert_by (λ z. before z y ≡ false) x ys n h)
    ]

    pub sort_by-IsFirst : (xs : List A) → IsFirst (sort_by xs)
    unfolding sort_by
    sort_by-IsFirst [] = tt
    sort_by-IsFirst (x ∷ xs) = IsFirst-insert_by x (sort_by xs) (sort_by-IsFirst xs)
