-- ===== src/Text/Split.antt =====
-- `split` and `before` on text that is put together from words without the separator.
use lavs_core.Prelude.{
  ℕ, ◌≡◌, refl, ap, false, List, [], ◌∷◌, ◌++◌, reverse, arith, ◌==◌, All, All-append, Bool-cases,
  inl, inr, sym, ◌∙◌,
}
use mathlib.Core.List.{reverse-cons}
use lavs_core.Text.{Text, before, split, cons_first, lstrip, strip, is_space}

abbrev pub Lacks : ℕ → Text → Type 0
Lacks sep = All (λ c. (c == sep) ≡ false)

pub before-append :
    (sep : ℕ) (word rest : Text)
    → Lacks sep word
    → before sep (word ++ rest) ≡ word ++ before sep rest
unfolding before
before-append sep [] rest h = refl
before-append sep (c ∷ cs) rest h =
    rw h.0 (ap (λ (t : Text). c ∷ t) (before-append sep cs rest h.1))

pub before-sep : (sep : ℕ) (rest : Text) → before sep (sep ∷ rest) ≡ []
unfolding before
before-sep sep rest = ground arith

pub before-nil : (sep : ℕ) → before sep [] ≡ []
unfolding before
before-nil sep = refl

pub split-word : (sep : ℕ) (word : Text) → Lacks sep word → split sep word ≡ word ∷ []
unfolding split
split-word sep [] h = refl
split-word sep (c ∷ cs) h = rw h.0 (rw (split-word sep cs h.1) refl)

pub split-append :
    (sep : ℕ) (word rest : Text)
    → Lacks sep word
    → split sep (word ++ sep ∷ rest) ≡ word ∷ split sep rest
unfolding split
split-append sep [] rest h = ground arith
split-append sep (c ∷ cs) rest h = rw h.0 (rw (split-append sep cs rest h.1) refl)

-- The text before the separator does not hold it, and no later step brings it back.
pub Lacks-before : (sep : ℕ) (t : Text) → Lacks sep (before sep t)
unfolding before
Lacks-before sep [] = tt
Lacks-before sep (c ∷ cs) = elim (Bool-cases (c == sep)) [
  | inl e ↦ rw e tt
  | inr ne ↦ rw ne (ne, Lacks-before sep cs)
]

Lacks-cons_first :
    (a c : ℕ) (words : List Text)
    → (c == a) ≡ false
    → All (Lacks a) words
    → All (Lacks a) (cons_first c words)
Lacks-cons_first a c [] h ws = ((h, tt), tt)
Lacks-cons_first a c (w ∷ words) h ws = ((h, ws.0), ws.1)

pub Lacks-split : (a sep : ℕ) (t : Text) → Lacks a t → All (Lacks a) (split sep t)
unfolding split
Lacks-split a sep [] h = (tt, tt)
Lacks-split a sep (c ∷ cs) h = elim (Bool-cases (c == sep)) [
  | inl e ↦ rw e (tt, Lacks-split a sep cs h.1)
  | inr ne ↦ rw ne (Lacks-cons_first a c (split sep cs) h.0 (Lacks-split a sep cs h.1))
]

Lacks-lstrip : (a : ℕ) (t : Text) → Lacks a t → Lacks a (lstrip t)
unfolding lstrip
Lacks-lstrip a [] h = tt
Lacks-lstrip a (c ∷ cs) h = elim (Bool-cases (is_space c)) [
  | inl e ↦ rw e (Lacks-lstrip a cs h.1)
  | inr ne ↦ rw ne h
]

Lacks-reverse : (a : ℕ) (t : Text) → Lacks a t → Lacks a (reverse t)
Lacks-reverse a [] h = tt
Lacks-reverse a (c ∷ cs) h =
    rw (reverse-cons c cs)
      (All-append (λ x. (x == a) ≡ false) (reverse cs) (c ∷ []) (Lacks-reverse a cs h.1) (h.0, tt))

pub Lacks-strip : (a : ℕ) (t : Text) → Lacks a t → Lacks a (strip t)
unfolding strip
Lacks-strip a t h =
    Lacks-reverse a (lstrip (reverse (lstrip t)))
      (Lacks-lstrip a (reverse (lstrip t)) (Lacks-reverse a (lstrip t) (Lacks-lstrip a t h)))

-- `sep.join(words)`
abbrev pub rejoin : ℕ → List Text → Text
rejoin sep [] = []
rejoin sep (word ∷ []) = word
rejoin sep (word ∷ next ∷ words) = word ++ sep ∷ rejoin sep (next ∷ words)

pub split-nonempty : (sep : ℕ) (t : Text) → (w : Text) × (ws : List Text) × (split sep t ≡ w ∷ ws)
unfolding split
split-nonempty sep [] = ([], [], refl)
split-nonempty sep (c ∷ cs) =
    let (w, ws, e) = split-nonempty sep cs in
    elim (Bool-cases (c == sep)) [
      | inl is ↦ ([], split sep cs, rw is refl)
      | inr not ↦ (c ∷ w, ws, rw not (rw e refl))
    ]

rejoin-cons_first :
    (sep c : ℕ) (w : Text) (ws : List Text)
    → rejoin sep (cons_first c (w ∷ ws)) ≡ c ∷ rejoin sep (w ∷ ws)
rejoin-cons_first sep c w [] = refl
rejoin-cons_first sep c w (v ∷ ws) = refl

pub rejoin-split : (sep : ℕ) (t : Text) → rejoin sep (split sep t) ≡ t
unfolding split
rejoin-split sep [] = refl
rejoin-split sep (c ∷ cs) =
    let (w, ws, e) = split-nonempty sep cs in
    let rest : rejoin sep (w ∷ ws) ≡ cs = ap (rejoin sep) (sym e) ∙ rejoin-split sep cs in
    elim (Bool-cases (c == sep)) [
      | inl is ↦ rw (is, e) (rw rest (ground arith))
      | inr other ↦ rw (other, e) (rejoin-cons_first sep c w ws ∙ ap (λ (u : Text). c ∷ u) rest)
    ]

-- A word without the separator is the front of the first piece.
pub split-front :
    (sep : ℕ) (word t w : Text) (ws : List Text)
    → Lacks sep word
    → split sep t ≡ w ∷ ws
    → split sep (word ++ t) ≡ (word ++ w) ∷ ws
unfolding split
split-front sep [] t w ws h e = e
split-front sep (c ∷ cs) t w ws h e = rw h.0 (rw (split-front sep cs t w ws h.1 e) refl)
