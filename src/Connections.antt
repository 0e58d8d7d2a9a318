-- ===== src/Connections.antt =====
-- app/connections/param_style.py: the placeholders of a statement, in the style of a driver.
pub mod Reading
use lavs_core.Prelude.{ℕ, List, [], ◌∷◌, ◌++◌, ◌==◌, if◌then◌else◌}
use lavs_core.Text.{Text, codes}

pub data ParamStyle : Type 0 where
  qmark pyformat : ParamStyle

-- `text.replace(old, new)`, where `old` is one character
unfoldable pub replace : ℕ → Text → Text → Text
replace old new [] = []
replace old new (c ∷ cs) =
    let rest = replace old new cs in if c == old then new ++ rest else c ∷ rest

unfoldable pub render : ParamStyle → Text → Text
unfolding replace
render qmark sql = sql
render pyformat sql = replace b'?' (codes "%s") (replace b'%' (codes "%%") sql)
