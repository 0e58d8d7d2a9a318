-- ===== src/Requests/Accepted.antt =====
-- What the parts of an accepted version are.
use lavs_core.Prelude.{
  ℕ, ◌≡◌, refl, sym, ap, ◌∙◌, subst, Bool, true, false, some, List, [], ◌∷◌, ◌++◌, ◌==◌, inl, inr,
  ◌⊎◌, ok, pos, All-append,
}
use mathlib.Core.Option
use mathlib.Core.List.{append-nil}
use lavs_core.Text.{Text, split, before, int}
use lavs_core.Text.Decimal.{Digits}
use lavs_core.Text.Numeral.{int-Digits, int-line}
use lavs_core.Text.Split.{
  Lacks, split-append, split-word, before-append, before-sep, before-nil, split-nonempty,
  split-front,
}
use lavs_core.Domain.ProductVersion.{Core, parse_core, parse_parts, part_to_int, check_sign}
use lavs_core.Domain.ProductVersion.Parsing.{Lacks-of_Digits}
use lavs_core.Requests.{
  piece, int_of, matches_suffix, number_then, dot_then, validate_version, major, minor, patch,
}
use lavs_core.Requests.Pattern.{number_then-found, dot_then-found, matches_suffix-found}

-- The last number `d`, with what `before` leaves of the suffix, read as `n`.
abbrev Last : Text → Text → ℕ → Type 0
Last d suffix n =
    (x : Text) × (before b'-' suffix ≡ x)
    × Lacks b'.' x
    × (int (d ++ x) ≡ some (pos n))
    × ((w : Text) × (ws : List Text) × (split b'.' (d ++ suffix) ≡ w ∷ ws)
        × (before b'-' w ≡ d ++ x))

module _ (c : ℕ) (cs : Text) (digits : Digits (c ∷ cs)) where
  dash : Lacks b'-' (c ∷ cs)
  dash = Lacks-of_Digits b'-' refl (c ∷ cs) digits

  dot : Lacks b'.' (c ∷ cs)
  dot = Lacks-of_Digits b'.' refl (c ∷ cs) digits

  -- What `before` leaves of the digits and of what comes behind them.
  before-digits : (t x : Text) → before b'-' t ≡ x → before b'-' ((c ∷ cs) ++ t) ≡ (c ∷ cs) ++ x
  before-digits t x e = before-append b'-' (c ∷ cs) t dash ∙ ap (λ (u : Text). (c ∷ cs) ++ u) e

  Last-bare : (n : ℕ) → int (c ∷ cs) ≡ some (pos n) → Last (c ∷ cs) [] n
  Last-bare n e = (
    [],
    before-nil b'-',
    tt,
    ap int (append-nil (c ∷ cs)) ∙ e,
    (
      c ∷ cs,
      [],
      ap (split b'.') (append-nil (c ∷ cs)) ∙ split-word b'.' (c ∷ cs) dot,
      ap (before b'-') (sym (append-nil (c ∷ cs))) ∙ before-digits [] [] (before-nil b'-'),
    ),
  )

  Last-line : (n : ℕ) → int (c ∷ cs) ≡ some (pos n) → Last (c ∷ cs) (10 ∷ []) n
  Last-line n e = (
    10 ∷ [],
    line,
    (refl, tt),
    int-line c cs digits ∙ e,
    (
      (c ∷ cs) ++ 10 ∷ [],
      [],
      split-word b'.' ((c ∷ cs) ++ 10 ∷ [])
          (All-append (λ x. (x == b'.') ≡ false) (c ∷ cs) (10 ∷ []) dot (refl, tt)),
      before-digits (10 ∷ []) (10 ∷ []) line,
    ),
  )
    where
      line : before b'-' (10 ∷ []) ≡ 10 ∷ []
      line =
          before-append b'-' (10 ∷ []) [] (refl, tt) ∙ ap (λ (t : Text). 10 ∷ t) (before-nil b'-')

  Last-labelled :
      (label : Text) (n : ℕ) → int (c ∷ cs) ≡ some (pos n) → Last (c ∷ cs) (b'-' ∷ label) n
  Last-labelled label n e =
      let (w, ws, first) = split-nonempty b'.' label in
      (
        [],
        before-sep b'-' label,
        tt,
        ap int (append-nil (c ∷ cs)) ∙ e,
        (
          (c ∷ cs) ++ b'-' ∷ w,
          ws,
          split-front b'.' (c ∷ cs) (b'-' ∷ label) (b'-' ∷ w) ws dot
              (split-front b'.' (b'-' ∷ []) label w ws (refl, tt) first),
          before-digits (b'-' ∷ w) [] (before-sep b'-' w),
        ),
      )

  Last-number :
      (suffix : Text) (n : ℕ)
      → int (c ∷ cs) ≡ some (pos n)
      → matches_suffix suffix ≡ true
      → Last (c ∷ cs) suffix n
  Last-number suffix n e h = of_suffix (matches_suffix-found suffix h)
    where
      of_suffix :
          (suffix ≡ []) ⊎ ((suffix ≡ 10 ∷ []) ⊎ ((label : Text) × (suffix ≡ b'-' ∷ label)))
          → Last (c ∷ cs) suffix n
      of_suffix (inl is) = subst (λ (t : Text). Last (c ∷ cs) t n) (sym is) (Last-bare n e)
      of_suffix (inr (inl is)) = subst (λ (t : Text). Last (c ∷ cs) t n) (sym is) (Last-line n e)
      of_suffix (inr (inr (label, is))) =
          subst (λ (t : Text). Last (c ∷ cs) t n) (sym is) (Last-labelled label n e)

-- The numbers of a version: its fields, and what the products' parser reads.
abbrev pub HasCore : Text → Core → Type 0
HasCore version core =
    (major version ≡ some (pos core.major))
    × (minor version ≡ some (pos core.minor))
    × (patch version ≡ some (pos core.patch))
    × (parse_core version ≡ ok core)

-- The fields of digits, a dot, digits, a dot, digits and a suffix.
module _ (a : Text) (b : Text) (d : Text) (suffix : Text) (l m n : ℕ)
    (dots : Lacks b'.' a × Lacks b'.' b) (dashes : Lacks b'-' a × Lacks b'-' b × Lacks b'-' d)
    (ints : (int a ≡ some (pos l)) × (int b ≡ some (pos m))) (dot_d : Lacks b'.' d)
    (last : Last d suffix n) where
  abbrev whole : Text
  whole = a ++ b'.' ∷ (b ++ b'.' ∷ (d ++ suffix))

  parts-split :
      (t w : Text) (ws : List Text)
      → split b'.' t ≡ w ∷ ws
      → split b'.' (a ++ b'.' ∷ (b ++ b'.' ∷ t)) ≡ a ∷ b ∷ w ∷ ws
  parts-split t w ws e =
      split-append b'.' a (b ++ b'.' ∷ t) dots.0
      ∙ ap (λ (ts : List Text). a ∷ ts)
          (split-append b'.' b t dots.1 ∙ ap (λ (ts : List Text). b ∷ ts) e)

  before_word : (p t x : Text) → Lacks b'-' p → before b'-' t ≡ x → before b'-' (p ++ t) ≡ p ++ x
  before_word p t x lacks e = before-append b'-' p t lacks ∙ ap (λ (u : Text). p ++ u) e

  core :
      (x : Text)
      → before b'-' suffix ≡ x
      → Lacks b'.' x
      → int (d ++ x) ≡ some (pos n)
      → parse_core whole ≡ ok (record { major = l; minor = m; patch = n })
  unfolding parse_core
  core x left clean reads =
      ap (λ t. parse_parts (split b'.' t))
        (before_word a (b'.' ∷ (b ++ b'.' ∷ (d ++ suffix))) (b'.' ∷ (b ++ b'.' ∷ (d ++ x))) dashes.0
          (before_word (b'.' ∷ []) (b ++ b'.' ∷ (d ++ suffix)) (b ++ b'.' ∷ (d ++ x)) (refl, tt)
            (before_word b (b'.' ∷ (d ++ suffix)) (b'.' ∷ (d ++ x)) dashes.1 (
              before_word (b'.' ∷ []) (d ++ suffix) (d ++ x) (refl, tt)
                (before_word d suffix x dashes.2 left)))))
      ∙ (ap parse_parts (
            parts-split (d ++ x) (d ++ x) []
              (split-word b'.' (d ++ x) (All-append (λ y. (y == b'.') ≡ false) d x dot_d clean)))
          ∙ (unfold parse_parts in
              rw (number a l ints.0, number b m ints.1, number (d ++ x) n reads)
                (unfold check_sign in refl)))
    where
      number : (t : Text) (k : ℕ) → int t ≡ some (pos k) → part_to_int t ≡ ok (pos k)
      number t k e = unfold part_to_int in rw (e, part_to_int) refl

  fields : HasCore whole (record { major = l; minor = m; patch = n })
  unfolding major minor patch
  fields =
      let (x, left, clean, reads, (w, ws, pieces, front)) = last in
      let all = parts-split (d ++ suffix) w ws pieces in
      (
        ap (λ (ts : List Text). int_of (piece 0 ts)) all ∙ ints.0,
        ap (λ (ts : List Text). int_of (piece 1 ts)) all ∙ ints.1,
        ap (λ (ts : List Text). int_of (Option.map (before b'-') (piece 2 ts))) all
            ∙ (ap int front ∙ reads),
        core x left clean reads,
      )

-- Every accepted version has three natural numbers: its fields are read without an error, and the
-- parser of the products' versions reads the same numbers, whatever suffix the version has.
pub validate_version-HasCore :
    (version : Text) → validate_version version ≡ true → (core : Core) × HasCore version core
unfolding validate_version
validate_version-HasCore version accepted =
    let (a, ar, r1, is1, da, h1) = number_then-found after_major version accepted in
    let (r2, is2, h2) = dot_then-found after_dot r1 h1 in
    let (b, br, r3, is3, db, h3) = number_then-found after_minor r2 h2 in
    let (r4, is4, h4) = dot_then-found after_last r3 h3 in
    let (c, cr, suffix, is5, dc, h5) = number_then-found matches_suffix r4 h4 in
    let (l, la) = int-Digits a ar da in
    let (m, mb) = int-Digits b br db in
    let (n, nc) = int-Digits c cr dc in
    (
      record { major = l; minor = m; patch = n },
      subst (λ (t : Text). HasCore t (record { major = l; minor = m; patch = n }))
          (sym (
            is1
            ∙ ap (λ (t : Text). (a ∷ ar) ++ t)
                (is2
                  ∙ ap (λ (t : Text). b'.' ∷ t)
                      (is3
                        ∙ ap (λ (t : Text). (b ∷ br) ++ t)
                            (is4 ∙ ap (λ (t : Text). b'.' ∷ t) is5)))))
          (fields (a ∷ ar) (b ∷ br) (c ∷ cr) suffix l m n (dot a ar da, dot b br db)
            (dash a ar da, dash b br db, dash c cr dc) (la, mb) (dot c cr dc)
            (Last-number c cr dc suffix n nc h5)),
    )
  where
    after_last : Text → Bool
    after_last = number_then matches_suffix

    after_minor : Text → Bool
    after_minor = dot_then after_last

    after_dot : Text → Bool
    after_dot = number_then after_minor

    after_major : Text → Bool
    after_major = dot_then after_dot
