-- ===== src/Database/Rows.antt =====
-- Lists of rows: selections through an update, and rows that a key identifies.
use lavs_core.Prelude.{
  ◌≤◌, ◌≡◌, refl, ap, sym, ◌∙◌, Bool, true, false, List, [], ◌∷◌, ◌++◌, map, String, str_eq, eq_iff,
  arith, length, any, select, In, inl, inr, ⊎_elim, Bool-cases, any-append, subst,
}

module _ {A : Type 0} where
  pub select-map :
      {B : Type 0} (p : B → Bool) (f : A → B) (xs : List A)
      → select p (map f xs) ≡ map f (select (λ x. p (f x)) xs)
  select-map p f [] = refl
  select-map p f (x ∷ xs) = elim (Bool-cases (p (f x))) [
    | inl e ↦ rw e (ap (λ ys. f x ∷ ys) (select-map p f xs))
    | inr e ↦ rw e (select-map p f xs)
  ]

  pub select_congr :
      (p q : A → Bool) (xs : List A) → ((x : A) → In x xs → p x ≡ q x) → select p xs ≡ select q xs
  select_congr p q [] h = refl
  select_congr p q (x ∷ xs) h =
      ground (arith, h x (inl refl), select_congr p q xs (λ y m. h y (inr m)))

  pub select_none :
      (p : A → Bool) (xs : List A) → ((x : A) → In x xs → p x ≡ false) → select p xs ≡ []
  select_none p [] h = refl
  select_none p (x ∷ xs) h = rw (h x (inl refl)) (select_none p xs (λ y m. h y (inr m)))

  pub length-select_mono :
      (p q : A → Bool) (xs : List A)
      → ((x : A) → In x xs → p x ≡ true → q x ≡ true)
      → length (select p xs) ≤ length (select q xs)
  length-select_mono p q [] h = omega arith
  length-select_mono p q (x ∷ xs) h =
      ground (arith, h x (inl refl), length-select_mono p q xs (λ y m. h y (inr m)))

  pub In-select : (p : A → Bool) (x : A) (xs : List A) → In x (select p xs) → In x xs × (p x ≡ true)
  In-select p x [] m = absurd m
  In-select p x (y ∷ xs) m = elim (Bool-cases (p y)) [
    | inl e ↦
        ⊎_elim (λ q. (inl q, rw q e))
          (λ q. let (there, passes) = In-select p x xs q in (inr there, passes)) (rw e at m)
    | inr e ↦ let (there, passes) = In-select p x xs (rw e at m) in (inr there, passes)
  ]

  pub In-to_select :
      (p : A → Bool) (x : A) (xs : List A) → In x xs → p x ≡ true → In x (select p xs)
  In-to_select p x [] m h = absurd m
  In-to_select p x (y ∷ xs) (inl e) h = rw (subst (λ z. p z ≡ true) e h) (inl e)
  In-to_select p x (y ∷ xs) (inr m) h = elim (Bool-cases (p y)) [
    | inl e ↦ rw e (inr (In-to_select p x xs m h))
    | inr e ↦ rw e (In-to_select p x xs m h)
  ]

  pub any-false : (p : A → Bool) (xs : List A) → any p xs ≡ false → (x : A) → In x xs → p x ≡ false
  any-false p [] h x m = absurd m
  any-false p (y ∷ xs) h x (inl e) = rw e (ground arith)
  any-false p (y ∷ xs) h x (inr m) = any-false p xs (ground arith) x m

  pub any-true : (p : A → Bool) (x : A) (xs : List A) → In x xs → p x ≡ true → any p xs ≡ true
  any-true p x [] m h = absurd m
  any-true p x (y ∷ xs) (inl e) h = rw (subst (λ z. p z ≡ true) e h) refl
  any-true p x (y ∷ xs) (inr m) h = ground (arith, any-true p x xs m h)

  -- The rows that have a key are identified by it.
  module _ (key : A → String) where
    abbrev pub Unique : List A → Type 0
    Unique [] = Unit
    Unique (x ∷ xs) = (any (λ y. str_eq (key y) (key x)) xs ≡ false) × Unique xs

    pub Unique-append :
        (xs : List A) (y : A)
        → any (λ x. str_eq (key x) (key y)) xs ≡ false
        → Unique xs
        → Unique (xs ++ y ∷ [])
    Unique-append [] y h u = (refl, tt)
    Unique-append (x ∷ xs) y h u = (
      any-append (λ z. str_eq (key z) (key x)) xs (y ∷ [])
          ∙ ground (arith, u.0, eq_iff (key x) (key y), eq_iff (key y) (key x)),
      Unique-append xs y (ground arith) u.1,
    )

    pub any-map :
        (f : A → A) (k : String) (xs : List A)
        → ((x : A) → key (f x) ≡ key x)
        → any (λ x. str_eq (key x) k) (map f xs) ≡ any (λ x. str_eq (key x) k) xs
    any-map f k [] same = refl
    any-map f k (x ∷ xs) same = ground (arith, same x, any-map f k xs same)

    pub Unique-map :
        (f : A → A) (xs : List A) → ((x : A) → key (f x) ≡ key x) → Unique xs → Unique (map f xs)
    Unique-map f [] same u = tt
    Unique-map f (x ∷ xs) same u = (
      any-map f (key (f x)) xs same ∙ ap (λ k. any (λ y. str_eq (key y) k) xs) (same x) ∙ u.0,
      Unique-map f xs same u.1,
    )

    pub Unique-select : (p : A → Bool) (xs : List A) → Unique xs → Unique (select p xs)
    Unique-select p [] u = tt
    Unique-select p (x ∷ xs) u = elim (Bool-cases (p x)) [
      | inl e ↦ rw e (no_more (select_sub xs), Unique-select p xs u.1)
      | inr e ↦ rw e (Unique-select p xs u.1)
    ]
      where
        select_sub :
            (ys : List A)
            → any (λ y. str_eq (key y) (key x)) ys ≡ false
            → any (λ y. str_eq (key y) (key x)) (select p ys) ≡ false
        select_sub [] h = refl
        select_sub (y ∷ ys) h = ground (arith, select_sub ys)

        no_more :
            (any (λ y. str_eq (key y) (key x)) xs ≡ false
              → any (λ y. str_eq (key y) (key x)) (select p xs) ≡ false)
            → any (λ y. str_eq (key y) (key x)) (select p xs) ≡ false
        no_more f = f u.0

    -- A row is the only one with its key.
    pub select-key :
        (x : A) (xs : List A)
        → Unique xs
        → In x xs
        → select (λ y. str_eq (key y) (key x)) xs ≡ x ∷ []
    select-key x [] u m = absurd m
    select-key x (y ∷ xs) u (inl e) =
        rw (subst (λ z. str_eq (key y) (key z) ≡ true) (sym e) ((eq_iff (key y) (key y)).1 refl)) (
          rw
            (select_none (λ z. str_eq (key z) (key x)) xs
              (λ z m. rw e (any-false (λ w. str_eq (key w) (key y)) xs u.0 z m)))
            (ap (λ z. z ∷ []) (sym e)))
    select-key x (y ∷ xs) u (inr m) = elim (Bool-cases (str_eq (key y) (key x))) [
      | inl e ↦ cc (
        any-false (λ w. str_eq (key w) (key y)) xs u.0 x m,
        (eq_iff (key x) (key y)).1 (sym ((eq_iff (key y) (key x)).0 e)),
      )
      | inr n ↦ rw n (select-key x xs u.1 m)
    ]

    pub eq_of_key : (x y : A) (xs : List A) → Unique xs → In x xs → In y xs → key x ≡ key y → x ≡ y
    eq_of_key x y xs u mx my e = head_eq (
        sym (select-key x xs u mx)
        ∙ (ap (λ k. select (λ z. str_eq (key z) k) xs) e ∙ select-key y xs u my))
      where
        head_eq : x ∷ [] ≡ y ∷ [] → x ≡ y
        head_eq h = cc

pub any-select :
    {A : Type 0} (p : A → Bool) (xs : List A)
    → any p xs ≡ true
    → (x : A) × (rest : List A) × (select p xs ≡ x ∷ rest)
any-select p [] h = cc
any-select p (x ∷ xs) h = elim (Bool-cases (p x)) [
  | inl e ↦ (x, select p xs, rw e refl)
  | inr e ↦ let (y, rest, q) = any-select p xs (ground arith) in (y, rest, rw e q)
]

pub any_of_select :
    {A : Type 0} (p : A → Bool) (xs : List A) (x : A) (rest : List A)
    → select p xs ≡ x ∷ rest
    → any p xs ≡ true
any_of_select p [] x rest h = cc
any_of_select p (y ∷ ys) x rest h = elim (Bool-cases (p y)) [
  | inl e ↦ rw e refl
  | inr e ↦ rw e (any_of_select p ys x rest (rw e at h))
]

pub select_of_absent :
    {A : Type 0} (p : A → Bool) (xs : List A) → any p xs ≡ false → select p xs ≡ []
select_of_absent p xs h = select_none p xs (any-false p xs h)
