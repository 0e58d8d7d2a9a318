-- ===== src/Database/StringOrder.antt =====
-- The order of texts by code points, in which the rows are sorted.
use lavs_core.Prelude.{
  ◌≡◌, refl, ap, ◌∙◌, Bool, true, false, ◌&&◌, ◌||◌, String, str_eq, eq_iff, arith, ltb, ◌==◌,
}
use Prim.Native.Nat.{Ordering, compare as compare_ℕ}
use Prim.Native.String.{compare, then, ◌∷◌, []}
use Prim.Native.String.compare
use Prim.Native.Char.{Char, code}
use text.Mathlib.TextPositions.{compare_refl}
use text.Mathlib.TextEquality.{codes_equal}
use lavs_core.Database.Statements.{str_ltb}

lex_lem :
    (o p : Ordering)
    → elim (then o p) as (λ x. Bool) [ Ordering.lt ↦ true | _ ↦ false ] ≡ (
        (elim o as (λ x. Bool) [ Ordering.lt ↦ true | _ ↦ false ])
        || ((elim o as (λ x. Bool) [ Ordering.eq ↦ true | _ ↦ false ])
            && (elim p as (λ x. Bool) [ Ordering.lt ↦ true | _ ↦ false ])))
lex_lem Ordering.lt p = refl
lex_lem Ordering.eq p = refl
lex_lem Ordering.gt p = refl

str_ltb-cons :
    (c d : Char) (s t : String)
    → str_ltb (c ∷ s) (d ∷ t) ≡ (ltb (code c) (code d) || (code c == code d && str_ltb s t))
str_ltb-cons c d s t =
    ap (λ o. elim o as (λ x. Bool) [ Ordering.lt ↦ true | _ ↦ false ]) (compare.cons-cons c d s t)
    ∙ lex_lem (compare_ℕ (code c) (code d)) (compare s t)

str_ltb_of_nil : (c : Char) (s : String) → str_ltb (c ∷ s) [] ≡ false
str_ltb_of_nil c s =
    ap (λ o. elim o as (λ x. Bool) [ Ordering.lt ↦ true | _ ↦ false ]) (compare.cons-nil c s)

str_ltb-nil : (c : Char) (s : String) → str_ltb [] (c ∷ s) ≡ true
str_ltb-nil c s =
    ap (λ o. elim o as (λ x. Bool) [ Ordering.lt ↦ true | _ ↦ false ]) (compare.nil-cons c s)

pub str_ltb_refl : (s : String) → str_ltb s s ≡ false
str_ltb_refl s = ap (λ o. elim o as (λ x. Bool) [ Ordering.lt ↦ true | _ ↦ false ]) (compare_refl s)

not-str_ltb-nil : (s : String) → str_ltb s [] ≡ false
not-str_ltb-nil [] = str_ltb_refl []
not-str_ltb-nil (c ∷ s) = str_ltb_of_nil c s

pub str_ltb_asym : (s t : String) → str_ltb s t ≡ true → str_ltb t s ≡ false
str_ltb_asym [] [] h = str_ltb_refl []
str_ltb_asym [] (d ∷ t) h = str_ltb_of_nil d t
str_ltb_asym (c ∷ s) [] h = cc (h, str_ltb_of_nil c s)
str_ltb_asym (c ∷ s) (d ∷ t) h =
    ground (arith, str_ltb-cons c d s t, str_ltb-cons d c t s, str_ltb_asym s t)

-- A text before another is before all that are not before the other.
pub str_ltb_weak : (s t u : String) → str_ltb s t ≡ true → str_ltb u t ≡ false → str_ltb s u ≡ true
str_ltb_weak s [] u h k = cc (h, not-str_ltb-nil s)
str_ltb_weak s (d ∷ t) [] h k = cc (k, str_ltb-nil d t)
str_ltb_weak [] (d ∷ t) (e ∷ u) h k = str_ltb-nil e u
str_ltb_weak (c ∷ s) (d ∷ t) (e ∷ u) h k =
    ground
      (arith, str_ltb-cons c d s t, str_ltb-cons e d u t, str_ltb-cons c e s u, str_ltb_weak s t u)

eq_of_codes : (c d : Char) → (code c == code d) ≡ true → c ≡ d
eq_of_codes c d h = codes_equal c d (equal (compare_ℕ (code c) (code d)) h)
  where
    equal :
        (o : Ordering)
        → elim o as (λ x. Bool) [ Ordering.eq ↦ true | _ ↦ false ] ≡ true
        → o ≡ Ordering.eq
    equal Ordering.lt h = cc
    equal Ordering.eq h = refl
    equal Ordering.gt h = cc

pub str_ltb_total : (s t : String) → str_ltb s t ≡ false → str_eq s t ≡ false → str_ltb t s ≡ true
str_ltb_total [] [] h k = cc (k, (eq_iff [] []).1 refl)
str_ltb_total [] (d ∷ t) h k = cc (h, str_ltb-nil d t)
str_ltb_total (c ∷ s) [] h k = str_ltb-nil c s
str_ltb_total (c ∷ s) (d ∷ t) h k = ground (
  arith,
  str_ltb-cons c d s t,
  str_ltb-cons d c t s,
  str_ltb_total s t,
  eq_iff s t,
  eq_iff (c ∷ s) (d ∷ t),
  eq_of_codes c d,
)

-- By a first text, and by a second one among equals.
abbrev pub before_by : (String × String) → (String × String) → Bool
before_by (a, x) (b, y) = str_ltb a b || (str_eq a b && str_ltb x y)

pub before_by_asym : (p q : String × String) → before_by p q ≡ true → before_by q p ≡ false
before_by_asym (a, x) (b, y) h =
    ground (arith, str_ltb_asym a b, str_ltb_asym x y, eq_iff a b, eq_iff b a, str_ltb_refl a)

pub before_by_weak :
    (p q r : String × String) → before_by p q ≡ true → before_by r q ≡ false → before_by p r ≡ true
before_by_weak (a, x) (b, y) (c, z) h k = ground (
  arith,
  str_ltb_weak a b c,
  str_ltb_weak x y z,
  str_ltb_total c b,
  eq_iff a b,
  eq_iff c b,
  eq_iff a c,
)
