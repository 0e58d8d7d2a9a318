-- ===== src/Prelude/Sorting/Strict.antt =====
-- Sorting by a strict weak order.
use mathlib.Core.Path.{◌≡◌, refl, ◌∙◌}
use mathlib.Core.Logic.{inl, inr}
use mathlib.Core.Bool.{Bool, true, false}
use mathlib.Core.List.{List, [], ◌∷◌, Perm}
use mathlib.Core.List.Perm
use native.Mathlib.Omega.{arith}
use lavs_core.Prelude.Tests.{if◌then◌else◌, Bool-cases}
use lavs_core.Prelude.Lists.{All, All-map_of, select}
use lavs_core.Prelude.Sorting.{insert_by, sort_by, All-insert_by}

module _ {A : Type 0} (before : A → A → Bool) where
  -- No row comes before one that it stands behind.
  abbrev pub IsSorted : List A → Type 0
  IsSorted [] = Unit
  IsSorted (y ∷ ys) = All (λ z. before z y ≡ false) ys × IsSorted ys

  insert_by-Perm : (x : A) (ys : List A) → Perm (insert_by before x ys) (x ∷ ys)
  insert_by-Perm x [] = Perm.refl (x ∷ [])
  insert_by-Perm x (y ∷ ys) = elim (Bool-cases (before x y)) [
    | inl e ↦ rw e (Perm.refl (x ∷ y ∷ ys))
    | inr n ↦ rw n (Perm.trans (Perm.cons y (insert_by-Perm x ys)) (Perm.swap x y ys))
  ]

  pub sort_by-Perm : (xs : List A) → Perm (sort_by before xs) xs
  unfolding sort_by
  sort_by-Perm [] = Perm.refl []
  sort_by-Perm (x ∷ xs) =
      Perm.trans (insert_by-Perm x (sort_by before xs)) (Perm.cons x (sort_by-Perm xs))

module _ {A : Type 0} (before : A → A → Bool)
    (asym : (x y : A) → before x y ≡ true → before y x ≡ false)
    (weak : (x y z : A) → before x y ≡ true → before z y ≡ false → before x z ≡ true) where
  negative : (x y z : A) → before x y ≡ true → before z y ≡ false → before z x ≡ false
  negative x y z e n = asym x z (weak x y z e n)

  IsSorted-insert_by :
      (x : A) (ys : List A) → IsSorted before ys → IsSorted before (insert_by before x ys)
  IsSorted-insert_by x [] s = (tt, tt)
  IsSorted-insert_by x (y ∷ ys) (h, s) = elim (Bool-cases (before x y)) [
    | inl e ↦ rw e ((asym x y e, All-map_of (λ z q. negative x y z e q) ys h), (h, s))
    | inr n ↦ rw n (
      All-insert_by before asym negative (λ z. before z y ≡ false) x ys n h,
      IsSorted-insert_by x ys s,
    )
  ]

  pub IsSorted-sort_by : (xs : List A) → IsSorted before (sort_by before xs)
  unfolding sort_by
  IsSorted-sort_by [] = tt
  IsSorted-sort_by (x ∷ xs) = IsSorted-insert_by x (sort_by before xs) (IsSorted-sort_by xs)

  insert_by_front :
      (x : A) (ys : List A) → All (λ z. before x z ≡ true) ys → insert_by before x ys ≡ x ∷ ys
  insert_by_front x [] h = refl
  insert_by_front x (y ∷ ys) h = rw h.0 refl

  All-select : (P : A → Type 0) (p : A → Bool) (xs : List A) → All P xs → All P (select p xs)
  All-select P p [] h = tt
  All-select P p (x ∷ xs) h = elim (Bool-cases (p x)) [
    | inl e ↦ rw e (h.0, All-select P p xs h.1)
    | inr n ↦ rw n (All-select P p xs h.1)
  ]

  select-insert_by :
      (p : A → Bool) (x : A) (ys : List A)
      → IsSorted before ys
      → select p (insert_by before x ys)
        ≡ (if p x then insert_by before x (select p ys) else select p ys)
  select-insert_by p x [] s = refl
  select-insert_by p x (y ∷ ys) (h, s) = elim (Bool-cases (before x y)) [
    | inl e ↦
        let front : All (λ z. before x z ≡ true) (select p (y ∷ ys)) =
          All-select (λ z. before x z ≡ true) p (y ∷ ys)
            (e, All-map_of (λ z q. weak x y z e q) ys h) in
        ground (arith, insert_by_front x (select p (y ∷ ys)) front)
    | inr n ↦ ground (arith, select-insert_by p x ys s)
  ]

  -- A selection of sorted rows is the sorted selection.
  pub select-sort_by :
      (p : A → Bool) (xs : List A) → select p (sort_by before xs) ≡ sort_by before (select p xs)
  unfolding sort_by
  select-sort_by p [] = refl
  select-sort_by p (x ∷ xs) =
      select-insert_by p x (sort_by before xs) (IsSorted-sort_by xs)
      ∙ ground (arith, select-sort_by p xs)
