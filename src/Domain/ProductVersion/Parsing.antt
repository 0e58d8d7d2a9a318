-- ===== src/Domain/ProductVersion/Parsing.antt =====
-- The core of a version is read back from what is printed.
use lavs_core.Prelude.{
  ℕ, ◌≡◌, ◌≢◌, refl, ap, ◌∙◌, none, some, List, [], ◌∷◌, ◌++◌, ok, err, pos, negsuc, false, arith,
  ◌==◌, All, All-append, inl, inr, ◌⊎◌, ⊎_elim, Option-cases, ℤ,
}
use mathlib.Core.List.{append-nil}
use lavs_core.Text.{Text, before, split, int, signed, strip, decimal, is_digit}
use lavs_core.Text.Decimal.{Digits, Digits-decimal, int-decimal}
use lavs_core.Text.Split.{
  Lacks, before-append, before-sep, before-nil, split-word, split-append, Lacks-before, Lacks-split,
  Lacks-strip,
}
use lavs_core.Domain.ProductVersion.{
  negative, not_integers, check_sign, part_to_int, parse_parts, parse_core, dotted,
}

-- Nothing, or `-` and any text.
abbrev pub IsSuffix : Text → Type 0
IsSuffix suffix = (suffix ≡ []) ⊎ ((label : Text) × (suffix ≡ b'-' ∷ label))

pub Lacks-of_Digits : (a : ℕ) → is_digit a ≡ false → (t : Text) → Digits t → Lacks a t
Lacks-of_Digits a nd [] h = tt
Lacks-of_Digits a nd (c ∷ cs) h = (ground arith, Lacks-of_Digits a nd cs h.1)

before-suffix : (suffix : Text) → IsSuffix suffix → before b'-' suffix ≡ []
before-suffix suffix (inl e) = rw e (before-nil b'-')
before-suffix suffix (inr (label, e)) = rw e (before-sep b'-' label)

Lacks-dotted : (a b c : ℕ) → Lacks b'-' (dotted a b c)
unfolding dotted
Lacks-dotted a b c =
    All-append (λ x. (x == b'-') ≡ false) (decimal a) (b'.' ∷ (decimal b ++ b'.' ∷ decimal c))
      (dash a)
      (
        refl,
        All-append (λ x. (x == b'-') ≡ false) (decimal b) (b'.' ∷ decimal c) (dash b)
            (refl, dash c),
      )
  where
    dash : (n : ℕ) → Lacks b'-' (decimal n)
    dash n = Lacks-of_Digits b'-' refl (decimal n) (Digits-decimal n)

split-dotted : (a b c : ℕ) → split b'.' (dotted a b c) ≡ decimal a ∷ decimal b ∷ decimal c ∷ []
unfolding dotted
split-dotted a b c =
    split-append b'.' (decimal a) (decimal b ++ b'.' ∷ decimal c) (dot a)
    ∙ ap (λ (ws : List Text). decimal a ∷ ws)
        (split-append b'.' (decimal b) (decimal c) (dot b)
          ∙ ap (λ (ws : List Text). decimal b ∷ ws) (split-word b'.' (decimal c) (dot c)))
  where
    dot : (n : ℕ) → Lacks b'.' (decimal n)
    dot n = Lacks-of_Digits b'.' refl (decimal n) (Digits-decimal n)

part_to_int-decimal : (n : ℕ) → part_to_int (decimal n) ≡ ok (pos n)
unfolding part_to_int
part_to_int-decimal n = rw (int-decimal n, part_to_int)

-- Printed numbers, followed by nothing or by a `-` and any text, are parsed into the three
-- numbers.
pub parse_core-dotted :
    (a b c : ℕ) (suffix : Text)
    → IsSuffix suffix
    → parse_core (dotted a b c ++ suffix) ≡ ok (record { major = a; minor = b; patch = c })
unfolding parse_core
parse_core-dotted a b c suffix h =
    ap (λ t. parse_parts (split b'.' t))
      (before-append b'-' (dotted a b c) suffix (Lacks-dotted a b c)
        ∙ (ap (λ t. dotted a b c ++ t) (before-suffix suffix h) ∙ append-nil (dotted a b c)))
    ∙ (ap parse_parts (split-dotted a b c)
        ∙ (unfold parse_parts in
            rw (part_to_int-decimal a, part_to_int-decimal b, part_to_int-decimal c)
              (unfold check_sign in refl)))

signed-nonnegative : (t : Text) → Lacks b'-' t → (n : ℕ) → signed t ≢ some (negsuc n)
unfolding signed
signed-nonnegative [] h n e = cc
signed-nonnegative (c ∷ cs) h n e = ground (arith, h.0)

int-nonnegative : (t : Text) → Lacks b'-' t → (n : ℕ) → int t ≢ some (negsuc n)
unfolding int
int-nonnegative t h = signed-nonnegative (strip t) (Lacks-strip b'-' t h)

int-form : (t : Text) → Lacks b'-' t → (int t ≡ none) ⊎ ((n : ℕ) × (int t ≡ some (pos n)))
int-form t h = ⊎_elim inl (λ (z, e). of_sign z e) (Option-cases (int t))
  where
    of_sign : (z : ℤ) → int t ≡ some z → (int t ≡ none) ⊎ ((n : ℕ) × (int t ≡ some (pos n)))
    of_sign (pos n) e = inr (n, e)
    of_sign (negsuc n) e = absurd (int-nonnegative t h n e)

part-form :
    (t : Text)
    → Lacks b'-' t
    → (part_to_int t ≡ err not_integers) ⊎ ((n : ℕ) × (part_to_int t ≡ ok (pos n)))
unfolding part_to_int
part-form t h = of_int (int-form t h)
  where
    of_int :
        (int t ≡ none) ⊎ ((n : ℕ) × (int t ≡ some (pos n)))
        → (part_to_int t ≡ err not_integers) ⊎ ((n : ℕ) × (part_to_int t ≡ ok (pos n)))
    of_int (inl e) = inl (rw (e, part_to_int))
    of_int (inr (n, e)) = inr (n, rw (e, part_to_int))

parse_parts-nonnegative :
    (parts : List Text) → All (Lacks b'-') parts → parse_parts parts ≢ err negative
unfolding parse_parts
parse_parts-nonnegative (a ∷ b ∷ c ∷ []) h e =
    unfold check_sign in ground (arith, part-form a h.0, part-form b h.1.0, part-form c h.1.1.0)
parse_parts-nonnegative _ h e = cc

-- Parsing never fails with the error for negative components.
pub parse_core-not_negative : (version : Text) → parse_core version ≢ err negative
unfolding parse_core
parse_core-not_negative version =
    parse_parts-nonnegative (split b'.' (before b'-' version))
      (Lacks-split b'-' b'.' (before b'-' version) (Lacks-before b'-' version))
