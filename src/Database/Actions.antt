-- ===== src/Database/Actions.antt =====
-- Actions in sequence: those that only read, and what a result says of the steps.
use lavs_core.Prelude.{◌≡◌, refl, ◌∙◌, Option, none, some, List, [], ◌∷◌, Result, ok, err}
use lavs_core.Database.Tables.{World, Error}
use lavs_core.Database.Statements.{Action, ◌>>=◌, first_or, from_option, continue}

-- The action leaves the world as it was, whatever its result.
abbrev pub IsReader : {A : Type 0} → Action A → Type 0
IsReader m = (w : World) → (m w).1 ≡ w

module _ {A B : Type 0} where
  reads_on :
      (f : A → Action B)
      → ((a : A) → IsReader (f a))
      → (r : Result Error A) → IsReader (continue r f)
  reads_on f g (ok a) w = g a w
  reads_on f g (err e) w = refl

  pub IsReader-bind :
      (m : Action A) (f : A → Action B)
      → IsReader m
      → ((a : A) → IsReader (f a))
      → IsReader (m >>= f)
  IsReader-bind m f h g w = reads_on f g (m w).0 (m w).1 ∙ h w

  goes_on :
      (f : A → Action B) (r : Result Error A) (w : World) (b : B)
      → (continue r f w).0 ≡ ok b
      → (a : A) × (r ≡ ok a) × ((f a w).0 ≡ ok b)
  goes_on f (ok a) w b h = (a, refl, h)
  goes_on f (err e) w b h = cc

  -- A sequence that succeeds has succeeded in its first step, and then in the second.
  pub ok-bind :
      (m : Action A) (f : A → Action B) (w : World) (b : B)
      → ((m >>= f) w).0 ≡ ok b
      → (a : A) × ((m w).0 ≡ ok a) × ((f a (m w).1).0 ≡ ok b)
  ok-bind m f w b h = goes_on f (m w).0 (m w).1 b h

pub IsReader-first_or : {A : Type 0} (e : Error) (xs : List A) → IsReader (first_or e xs)
IsReader-first_or e [] w = refl
IsReader-first_or e (x ∷ xs) w = refl

pub IsReader-from_option : {A : Type 0} (e : Error) (o : Option A) → IsReader (from_option e o)
IsReader-from_option e none w = refl
IsReader-from_option e (some a) w = refl

pub ok-first_or :
    {A : Type 0} (e : Error) (xs : List A) (w : World) (a : A)
    → (first_or e xs w).0 ≡ ok a
    → (rest : List A) × (xs ≡ a ∷ rest)
ok-first_or e [] w a h = cc
ok-first_or e (x ∷ xs) w a h = (xs, cc)

pub ok-from_option :
    {A : Type 0} (e : Error) (o : Option A) (w : World) (a : A)
    → (from_option e o w).0 ≡ ok a
    → o ≡ some a
ok-from_option e none w a h = cc
ok-from_option e (some x) w a h = cc
