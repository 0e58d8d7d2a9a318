-- ===== src/Requests.antt =====
-- app/models/requests/create_version_model.py: the version text of a request and its parts. `\d` is
-- modelled for ASCII digits.
pub mod Pattern
pub mod Accepted
use lavs_core.Prelude.{
  ℕ, zero, suc, Bool, true, false, ◌&&◌, ◌||◌, Option, none, some, List, [], ◌∷◌, ◌==◌, leb, ℤ,
}
use mathlib.Core.Option
use lavs_core.Text.{Text, is_digit, split, before, int}

-- `[0-9A-Za-z.-]`
abbrev pub is_label_char : ℕ → Bool
is_label_char c =
    is_digit c
    || ((leb b'A' c && leb c b'Z') || ((leb b'a' c && leb c b'z') || (c == b'.' || c == b'-')))

-- `$`, at the end or before a last line feed
abbrev pub at_end : Text → Bool
at_end [] = true
at_end (c ∷ []) = c == 10
at_end (c ∷ d ∷ cs) = false

-- `[0-9A-Za-z.-]+$`
unfoldable pub matches_label : Text → Bool
matches_label [] = false
matches_label (c ∷ cs) = is_label_char c && (matches_label cs || at_end cs)

-- `(-[0-9A-Za-z.-]+)?$`
unfoldable pub matches_suffix : Text → Bool
unfolding matches_label
matches_suffix [] = true
matches_suffix (c ∷ cs) = (c == b'-' && matches_label cs) || at_end (c ∷ cs)

-- `\d+` and what follows it
unfoldable pub number_then : (Text → Bool) → Text → Bool
number_then follows [] = false
number_then follows (c ∷ cs) = is_digit c && (number_then follows cs || follows cs)

-- `\.` and what follows it
unfoldable pub dot_then : (Text → Bool) → Text → Bool
dot_then follows [] = false
dot_then follows (c ∷ cs) = c == b'.' && follows cs

-- `validate_version`: whether the text is accepted.
unfoldable pub validate_version : Text → Bool
unfolding number_then dot_then matches_suffix
validate_version = number_then (dot_then (number_then (dot_then (number_then matches_suffix))))

-- `pieces[i]`; `none` is an IndexError.
abbrev pub piece : ℕ → List Text → Option Text
piece i [] = none
piece zero (t ∷ ts) = some t
piece (suc i) (t ∷ ts) = piece i ts

-- `int(piece)`; `none` is an IndexError or a ValueError.
abbrev pub int_of : Option Text → Option ℤ
int_of none = none
int_of (some t) = int t

unfoldable pub major : Text → Option ℤ
unfolding split int
major version = int_of (piece 0 (split b'.' version))

unfoldable pub minor : Text → Option ℤ
unfolding split int
minor version = int_of (piece 1 (split b'.' version))

unfoldable pub patch : Text → Option ℤ
unfolding split int before
patch version = int_of (Option.map (before b'-') (piece 2 (split b'.' version)))
