-- ===== src/Connections/Reading.antt =====
-- What a statement says to a driver: its placeholders and the text between them.
use lavs_core.Prelude.{
  ℕ, ◌≡◌, refl, ap, ◌∙◌, Bool, true, false, Option, none, some, List, [], ◌∷◌, arith, ◌==◌,
  if◌then◌else◌,
}
use mathlib.Core.Option
use lavs_core.Text.{Text, codes}
use lavs_core.Text.Split.{Lacks}
use lavs_core.Connections.{ParamStyle, qmark, pyformat, replace, render}

pub data Token : Type 0 where
  placeholder : Token
  literal : ℕ → Token

abbrev pub canonical : Text → List Token
canonical [] = []
canonical (c ∷ cs) = (if c == b'?' then placeholder else literal c) ∷ canonical cs

-- Python's `%` operator, for `%%` and `%s`; the flag says that a `%` was read, and `none` is a format
-- that is refused.
abbrev pub formatted : Bool → Text → Option (List Token)
formatted false [] = some []
formatted true [] = none
formatted false (c ∷ cs) =
    let plain = Option.map (λ ts. literal c ∷ ts) (formatted false cs) in
    let marked = formatted true cs in if c == b'%' then marked else plain
formatted true (c ∷ cs) =
    let percent = Option.map (λ ts. literal b'%' ∷ ts) (formatted false cs) in
    let argument = Option.map (λ ts. placeholder ∷ ts) (formatted false cs) in
    if c == b'%' then percent else if c == b's' then argument else none

abbrev pub verbatim : Text → List Token
verbatim [] = []
verbatim (c ∷ cs) = literal c ∷ verbatim cs

-- The tokens that a driver of a style reads, with parameters or without: a statement that comes
-- without parameters is not formatted.
abbrev pub tokens : ParamStyle → Bool → Text → Option (List Token)
tokens qmark given sql = some (canonical sql)
tokens pyformat true sql = formatted false sql
tokens pyformat false sql = some (verbatim sql)

formatted-render :
    (sql : Text)
    → formatted false (replace b'?' (codes "%s") (replace b'%' (codes "%%") sql))
      ≡ some (canonical sql)
unfolding replace
formatted-render [] = refl
formatted-render (c ∷ cs) = ground (arith, formatted-render cs)

render-plain :
    (sql : Text)
    → Lacks b'%' sql
    → Lacks b'?' sql
    → (replace b'?' (codes "%s") (replace b'%' (codes "%%") sql) ≡ sql)
      × (verbatim sql ≡ canonical sql)
unfolding replace
render-plain [] p q = (refl, refl)
render-plain (c ∷ cs) p q = ground (arith, render-plain cs p.1 q.1)

-- A driver of either style reads in a rendered statement that is executed with parameters the
-- placeholders and the text of the statement as it was written, percent signs included; and so it
-- does in one that is executed without parameters, if that has no percent sign and no placeholder.
pub tokens-render :
    (style : ParamStyle) (given : Bool) (sql : Text)
    → (given ≡ false → Lacks b'%' sql × Lacks b'?' sql)
    → tokens style given (render style sql) ≡ some (canonical sql)
unfolding render
tokens-render qmark given sql plain = refl
tokens-render pyformat true sql plain = formatted-render sql
tokens-render pyformat false sql plain =
    let (p, q) = plain refl in
    let (same, read) = render-plain sql p q in ap (λ t. some (verbatim t)) same ∙ ap some read
