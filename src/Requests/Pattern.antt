-- ===== src/Requests/Pattern.antt =====
-- What a match of the pattern of a version, or of a part of it, says of the text.
use lavs_core.Prelude.{
  ℕ, ◌≡◌, refl, ap, Bool, true, [], ◌∷◌, ◌++◌, ◌==◌, arith, Bool-cases, inl, inr, ◌⊎◌,
}
use lavs_core.Text.{Text}
use lavs_core.Text.Decimal.{Digits}
use lavs_core.Requests.{at_end, matches_suffix, number_then, dot_then}

-- Digits, at least one, and what follows them.
abbrev pub Number : (Text → Bool) → Text → Type 0
Number follows t =
    (c : ℕ) × (cs : Text) × (rest : Text) × (t ≡ (c ∷ cs) ++ rest)
    × Digits (c ∷ cs)
    × (follows rest ≡ true)

pub number_then-found :
    (follows : Text → Bool) (t : Text) → number_then follows t ≡ true → Number follows t
unfolding number_then
number_then-found follows [] h = cc
number_then-found follows (c ∷ cs) h = elim (Bool-cases (number_then follows cs)) [
  | inl more ↦
      let (d, ds, rest, is, digits, next) = number_then-found follows cs more in
      (c, d ∷ ds, rest, ap (λ (t : Text). c ∷ t) is, (ground arith, digits), next)
  | inr last ↦ (c, [], cs, refl, (ground arith, tt), ground arith)
]

pub dot_then-found :
    (follows : Text → Bool) (t : Text)
    → dot_then follows t ≡ true
    → (rest : Text) × (t ≡ b'.' ∷ rest) × (follows rest ≡ true)
unfolding dot_then
dot_then-found follows [] h = cc
dot_then-found follows (c ∷ cs) h = (cs, dot (ground arith), ground arith)
  where
    dot : c ≡ b'.' → c ∷ cs ≡ b'.' ∷ cs
    dot e = ap (λ (x : ℕ). x ∷ cs) e

-- Nothing, a line feed, or `-` and any text.
pub matches_suffix-found :
    (t : Text)
    → matches_suffix t ≡ true
    → (t ≡ []) ⊎ ((t ≡ 10 ∷ []) ⊎ ((label : Text) × (t ≡ b'-' ∷ label)))
unfolding matches_suffix
matches_suffix-found [] h = inl refl
matches_suffix-found (c ∷ cs) h = elim (Bool-cases (c == b'-')) [
  | inl e ↦ inr (inr (cs, ap (λ (x : ℕ). x ∷ cs) (ground arith)))
  | inr n ↦ inr (inl (line cs (ground arith)))
]
  where
    line : (cs : Text) → at_end (c ∷ cs) ≡ true → c ∷ cs ≡ 10 ∷ []
    line [] e = ap (λ (x : ℕ). x ∷ []) (ground arith)
    line (d ∷ ds) e = cc
