-- ===== src/Text/Decimal.antt =====
-- `int` reads back what `str` prints.
use lavs_core.Prelude.{
  ℕ, zero, suc, ◌+◌, ◌-◌, ◌*◌, ◌/◌, ◌%◌, ◌<◌, ◌≡◌, refl, ap, sym, ◌∙◌, Bool, true, false, some, [],
  ◌∷◌, ◌++◌, reverse, arith, ltb, pos, All, All-append, Bool-cases, inl, inr, subst,
}
use mathlib.Core.Option
use mathlib.Core.List.{append_assoc, append-nil, reverse-reverse, reverse-cons}
use lavs_core.Text.{
  Text, is_space, lstrip, strip, is_digit, digits_from, signed, int, decimal_fuel, decimal,
}

abbrev pub Digits : Text → Type 0
Digits = All (λ c. is_digit c ≡ true)

is_digit-add : (d : ℕ) → d < 10 → is_digit (48 + d) ≡ true
is_digit-add d h = ground arith

Digits-decimal_fuel : (fuel n : ℕ) → Digits (decimal_fuel fuel n)
unfolding decimal_fuel
Digits-decimal_fuel zero n = tt
Digits-decimal_fuel (suc fuel) n = elim (Bool-cases (ltb n 10)) [
  | inl small ↦ rw small (ground arith, tt)
  | inr large ↦ rw large (
      All-append (λ c. is_digit c ≡ true) (decimal_fuel fuel (n / 10)) ((48 + n % 10) ∷ [])
        (Digits-decimal_fuel fuel (n / 10)) (ground arith, tt))
]

pub Digits-decimal : (n : ℕ) → Digits (decimal n)
unfolding decimal
Digits-decimal n = Digits-decimal_fuel (suc n) n

digits_from-decimal_fuel :
    (fuel n : ℕ) (b : Bool) (rest : Text)
    → n < fuel
    → digits_from 0 b (decimal_fuel fuel n ++ rest) ≡ digits_from n true rest
unfolding decimal_fuel digits_from
digits_from-decimal_fuel zero n b rest h = absurd (omega arith)
digits_from-decimal_fuel (suc fuel) n b rest h = elim (Bool-cases (ltb n 10)) [
  | inl small ↦ rw small (ground arith)
  | inr large ↦ rw large (
      rw (append_assoc (decimal_fuel fuel (n / 10)) ((48 + n % 10) ∷ []) rest) (
        digits_from-decimal_fuel fuel (n / 10) b ((48 + n % 10) ∷ rest) (ground arith)
        ∙ digit_step (ground arith)))
]
  where
    digit_step :
        n / 10 * 10 + (48 + n % 10 - 48) ≡ n
        → digits_from (n / 10) true ((48 + n % 10) ∷ rest) ≡ digits_from n true rest
    digit_step e = rw (is_digit-add (n % 10) (omega arith)) (rw e refl)

pub lstrip_id : (t : Text) → Digits t → lstrip t ≡ t
unfolding lstrip
lstrip_id [] h = refl
lstrip_id (c ∷ cs) h = rw (not_space c h.0) refl
  where
    not_space : (c : ℕ) → is_digit c ≡ true → is_space c ≡ false
    not_space c h = ground arith

pub All-reverse : (t : Text) → Digits t → Digits (reverse t)
All-reverse [] h = tt
All-reverse (c ∷ cs) h =
    rw (reverse-cons c cs)
      (All-append (λ c. is_digit c ≡ true) (reverse cs) (c ∷ []) (All-reverse cs h.1) (h.0, tt))

pub strip_id : (t : Text) → Digits t → strip t ≡ t
unfolding strip
strip_id t h = rw (lstrip_id t h) (rw (lstrip_id (reverse t) (All-reverse t h)) (reverse-reverse t))

-- Text of digits has no sign.
pub signed-Digits :
    (c : ℕ) (cs : Text)
    → Digits (c ∷ cs)
    → signed (c ∷ cs) ≡ Option.map pos (digits_from 0 false (c ∷ cs))
unfolding signed
signed-Digits c cs h = ground arith

decimal_fuel-cons : (fuel n : ℕ) → n < fuel → (c : ℕ) × (cs : Text) × (decimal_fuel fuel n ≡ c ∷ cs)
unfolding decimal_fuel
decimal_fuel-cons zero n h = absurd (omega arith)
decimal_fuel-cons (suc fuel) n h = elim (Bool-cases (ltb n 10)) [
  | inl small ↦ (48 + n, [], rw small)
  | inr large ↦
      let (c, cs, e) = decimal_fuel-cons fuel (n / 10) (ground arith) in
      (c, cs ++ (48 + n % 10) ∷ [], rw large (rw e refl))
]

-- Reading back a printed number gives the number.
pub int-decimal : (n : ℕ) → int (decimal n) ≡ some (pos n)
unfolding int
int-decimal n =
    rw (strip_id (decimal n) (Digits-decimal n))
      (by_cons (decimal_fuel-cons (suc n) n (omega arith)))
  where
    by_cons :
        (c : ℕ) × (cs : Text) × (decimal_fuel (suc n) n ≡ c ∷ cs)
        → signed (decimal n) ≡ some (pos n)
    by_cons (c, cs, e) =
        (ap signed (shape ∙ e))
        ∙ (signed-Digits c cs (subst Digits (shape ∙ e) (Digits-decimal n))
            ∙ (ap (λ t. Option.map pos (digits_from 0 false t))
                  (sym e ∙ sym (append-nil (decimal_fuel (suc n) n)))
                ∙ ap (Option.map pos)
                    (digits_from-decimal_fuel (suc n) n false [] (omega arith) ∙ done)))
      where
        shape : decimal n ≡ decimal_fuel (suc n) n
        shape = unfold decimal in refl

        done : digits_from n true [] ≡ some n
        done = unfold digits_from in refl
