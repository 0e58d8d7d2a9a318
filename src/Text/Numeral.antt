-- ===== src/Text/Numeral.antt =====
-- `int` on digits, and on digits before a line feed.
use lavs_core.Prelude.{
  ℕ, ◌+◌, ◌-◌, ◌*◌, ◌≡◌, refl, ap, sym, ◌∙◌, true, false, some, [], ◌∷◌, ◌++◌, reverse, pos, arith,
}
use mathlib.Core.Option
use mathlib.Core.List.{reverse-append, reverse-reverse}
use lavs_core.Text.{Text, is_space, lstrip, strip, is_digit, digits_from, signed, int}
use lavs_core.Text.Decimal.{Digits, lstrip_id, strip_id, All-reverse, signed-Digits}

digits_from-Digits : (acc : ℕ) (t : Text) → Digits t → (n : ℕ) × (digits_from acc true t ≡ some n)
unfolding digits_from
digits_from-Digits acc [] h = (acc, refl)
digits_from-Digits acc (c ∷ cs) h =
    let (n, e) = digits_from-Digits (acc * 10 + (c - 48)) cs h.1 in (n, rw h.0 e)

digits_from-first :
    (acc : ℕ) (c : ℕ) (cs : Text)
    → is_digit c ≡ true
    → digits_from acc false (c ∷ cs) ≡ digits_from (acc * 10 + (c - 48)) true cs
unfolding digits_from
digits_from-first acc c cs h = rw h refl

pub int-Digits : (c : ℕ) (cs : Text) → Digits (c ∷ cs) → (n : ℕ) × (int (c ∷ cs) ≡ some (pos n))
unfolding int
int-Digits c cs h =
    let (n, e) = digits_from-Digits (0 * 10 + (c - 48)) cs h.1 in
    (
      n,
      ap signed (strip_id (c ∷ cs) h)
          ∙ (signed-Digits c cs h ∙ ap (Option.map pos) (digits_from-first 0 c cs h.0 ∙ e)),
    )

lstrip-line : (c : ℕ) (cs : Text) → is_digit c ≡ true → lstrip (c ∷ cs) ≡ c ∷ cs
unfolding lstrip
lstrip-line c cs h = rw (not_space h) refl
  where
    not_space : is_digit c ≡ true → is_space c ≡ false
    not_space h = ground arith

lstrip_after_line : (cs : Text) → lstrip (10 ∷ cs) ≡ lstrip cs
unfolding lstrip
lstrip_after_line cs = refl

strip-line : (c : ℕ) (cs : Text) → Digits (c ∷ cs) → strip ((c ∷ cs) ++ 10 ∷ []) ≡ c ∷ cs
unfolding strip
strip-line c cs h =
    ap (λ (t : Text). reverse (lstrip (reverse t))) (lstrip-line c (cs ++ 10 ∷ []) h.0)
    ∙ (ap (λ (t : Text). reverse (lstrip t)) (reverse-append (c ∷ cs) (10 ∷ []))
        ∙ (ap reverse (
              lstrip_after_line (reverse (c ∷ cs))
              ∙ lstrip_id (reverse (c ∷ cs)) (All-reverse (c ∷ cs) h))
            ∙ reverse-reverse (c ∷ cs)))

pub int-line : (c : ℕ) (cs : Text) → Digits (c ∷ cs) → int ((c ∷ cs) ++ 10 ∷ []) ≡ int (c ∷ cs)
unfolding int
int-line c cs h = ap signed (strip-line c cs h ∙ sym (strip_id (c ∷ cs) h))
