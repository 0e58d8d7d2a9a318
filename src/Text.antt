-- ===== src/Text.antt =====
-- Python's `str` where the program takes one apart: a list of code points, with the methods that the
-- program calls. `int` is modelled for ASCII digits; other decimal digits of Unicode are left out.
pub mod Decimal
pub mod Split
pub mod Numeral
use lavs_core.Prelude.{
  ℕ, zero, suc, ◌+◌, ◌-◌, ◌*◌, ◌/◌, ◌%◌, Bool, true, false, ◌&&◌, ◌||◌, Option, none, some, List,
  [], ◌∷◌, ◌++◌, reverse, String, ltb, leb, ◌==◌, if◌then◌else◌, ℤ, pos, negsuc, ◌≡◌, ◌↔◌, refl,
  arith, any,
}
use mathlib.Core.Option
use Prim.Native.Char.{code}

abbrev pub Text : Type 0
Text = List ℕ

-- The code points of a literal.
abbrev pub codes : String → Text
codes String.[] = []
codes (String.◌∷◌ c s) = code c ∷ codes s

-- `text.split(sep, 1)[0]`
unfoldable pub before : ℕ → Text → Text
before sep [] = []
before sep (c ∷ cs) = let rest = c ∷ before sep cs in if c == sep then [] else rest

abbrev pub cons_first : ℕ → List Text → List Text
cons_first c [] = (c ∷ []) ∷ []
cons_first c (word ∷ words) = (c ∷ word) ∷ words

-- `text.split(sep)`
unfoldable pub split : ℕ → Text → List Text
split sep [] = [] ∷ []
split sep (c ∷ cs) = let rest = split sep cs in if c == sep then [] ∷ rest else cons_first c rest

-- `str.isspace`
abbrev pub is_space : ℕ → Bool
is_space c =
    (leb 9 c && leb c 13)
    || ((leb 28 c && leb c 32)
        || (c == 133
            || (c == 160
                || (c == 5760
                    || ((leb 8192 c && leb c 8202)
                        || (c == 8232
                            || (c == 8233 || (c == 8239 || (c == 8287 || c == 12288)))))))))

-- `text.lstrip()`
unfoldable pub lstrip : Text → Text
lstrip [] = []
lstrip (c ∷ cs) = let rest = lstrip cs in if is_space c then rest else c ∷ cs

-- `text.strip()`
unfoldable pub strip : Text → Text
unfolding lstrip
strip text = reverse (lstrip (reverse (lstrip text)))

abbrev pub is_digit : ℕ → Bool
is_digit c = leb 48 c && leb c 57

-- The digits of an `int` literal: a single `_` may stand between two digits.
unfoldable pub digits_from : ℕ → Bool → Text → Option ℕ
digits_from acc after_digit [] = if after_digit then some acc else none
digits_from acc after_digit (c ∷ cs) =
    let digit = digits_from (acc * 10 + (c - 48)) true cs in
    let underscore = digits_from acc false cs in
    if is_digit c then digit else if c == b'_' && after_digit then underscore else none

abbrev pub negate : ℕ → ℤ
negate zero = pos 0
negate (suc n) = negsuc n

-- An optional sign, and digits.
unfoldable pub signed : Text → Option ℤ
unfolding digits_from
signed [] = none
signed (c ∷ cs) =
    if c == b'-'
    then Option.map negate (digits_from 0 false cs)
    else if c == b'+'
    then Option.map pos (digits_from 0 false cs)
    else Option.map pos (digits_from 0 false (c ∷ cs))

-- `int(text)`; `none` is a ValueError.
unfoldable pub int : Text → Option ℤ
unfolding strip signed
int text = signed (strip text)

decimal_fuel : ℕ → ℕ → Text
decimal_fuel zero n = []
decimal_fuel (suc fuel) n =
    let rest = decimal_fuel fuel (n / 10) ++ (48 + n % 10) ∷ [] in
    if ltb n 10 then (48 + n) ∷ [] else rest

-- `str(n)`
unfoldable pub decimal : ℕ → Text
unfolding decimal_fuel
decimal n = decimal_fuel (suc n) n

-- `s == t`
unfoldable pub text_eq : Text → Text → Bool
text_eq [] [] = true
text_eq [] (d ∷ ds) = false
text_eq (c ∷ cs) [] = false
text_eq (c ∷ cs) (d ∷ ds) = c == d && text_eq cs ds

pub text_eq_iff : (s t : Text) → (text_eq s t ≡ true) ↔ (s ≡ t)
unfolding text_eq
text_eq_iff [] [] = (λ e. refl, λ e. refl)
text_eq_iff [] (d ∷ ds) = (λ e. cc, λ e. cc)
text_eq_iff (c ∷ cs) [] = (λ e. cc, λ e. cc)
text_eq_iff (c ∷ cs) (d ∷ ds) =
    (λ e. ground (arith, text_eq_iff cs ds), λ e. ground (arith, text_eq_iff cs ds, e))

abbrev pub lower_char : ℕ → ℕ
lower_char c = if leb b'A' c && leb c b'Z' then c + 32 else c

-- `text.lower()`, where the letters outside ASCII are left as they are.
unfoldable pub lower : Text → Text
lower [] = []
lower (c ∷ cs) = lower_char c ∷ lower cs

-- `text.startswith(prefix)`
unfoldable pub starts_with : Text → Text → Bool
starts_with [] text = true
starts_with (c ∷ prefix) [] = false
starts_with (c ∷ prefix) (d ∷ text) = c == d && starts_with prefix text

-- `text in texts`
unfoldable pub is_among : Text → List Text → Bool
unfolding text_eq
is_among text = any (text_eq text)

pub starts_with-append : (prefix rest : Text) → starts_with prefix (prefix ++ rest) ≡ true
unfolding starts_with
starts_with-append [] rest = refl
starts_with-append (c ∷ prefix) rest = ground (arith, starts_with-append prefix rest)

pub starts_with-found :
    (prefix t : Text) → starts_with prefix t ≡ true → (rest : Text) × (t ≡ prefix ++ rest)
unfolding starts_with
starts_with-found [] t h = (t, refl)
starts_with-found (c ∷ prefix) [] h = cc
starts_with-found (c ∷ prefix) (d ∷ t) h =
    let (rest, e) = starts_with-found prefix t (ground arith) in (rest, ground arith)
