-- ===== src/Environ.antt =====
-- Settings that the program reads from `os.environ`, a dictionary of texts.
use lavs_core.Prelude.{Bool, ℤ, Option, none, some, [], ◌∷◌, String, if◌then◌else◌, Map, lookup}
use mathlib.Core.Option
use lavs_core.Text.{Text, strip, int}

abbrev pub Environ : Type 0
Environ = Map Text

-- `os.environ.get(name, "")`
unfoldable pub get_or_empty : String → Environ → Text
unfolding lookup
get_or_empty name environ = Option.get_or (lookup name environ) []

-- `not text`
abbrev pub is_empty : Text → Bool
is_empty [] = Bool.true
is_empty (c ∷ cs) = Bool.false

-- The value, where `raw is None or not raw.strip()` fails.
unfoldable pub given : String → Environ → Option Text
unfolding lookup strip
given name environ = elim (lookup name environ) [
  | none ↦ none
  | some raw ↦ if is_empty (strip raw) then none else some raw
]

-- `int(raw)`, or the default when it is malformed.
unfoldable pub int_or_default : Text → ℤ → ℤ
unfolding int
int_or_default raw default = Option.get_or (int raw) default
