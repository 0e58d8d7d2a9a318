-- ===== src/Database/Statements.antt =====
-- Statements over tables: UPDATE ... WHERE, INSERT with the constraints of the DDL, and the actions
-- that queries are made of. The connection is in autocommit mode, so what was written before an
-- error stays written.
use lavs_core.Prelude.{
  Bool, true, false, Option, none, some, List, [], ◌∷◌, map, String, str_eq, if◌then◌else◌, Result,
  ok, err,
}
use mathlib.Core.Option
use Prim.Native.Nat.{Ordering}
use Prim.Native.String.{compare as str_compare}
use lavs_core.Events.{DomainEvent}
use lavs_core.Events.EventBus.{publish}
use lavs_core.Database.Tables.{
  VersionStatus, active, superseded, rolled_back, Body, Database, Error, constraint, World,
}

-- UPDATE t SET ... WHERE p
abbrev pub update_where : {A : Type 0} → (A → Bool) → (A → A) → List A → List A
update_where p f rows = map (λ x. if p x then f x else x) rows

-- a < b, by code points
abbrev pub str_ltb : String → String → Bool
str_ltb a b = elim (str_compare a b) [ Ordering.lt ↦ true | _ ↦ false ]

unfoldable pub same_status : VersionStatus → VersionStatus → Bool
same_status active active = true
same_status superseded superseded = true
same_status rolled_back rolled_back = true
same_status _ _ = false

-- Equality of a nullable column with a value: NULL equals nothing.
abbrev pub is_value : Option String → String → Bool
is_value none value = false
is_value (some v) value = str_eq v value

-- An action: a result or an error, and the world after it.
abbrev pub Action : Type 0 → Type 0
Action A = World → Result Error A × World

abbrev pub continue : {A B : Type 0} → Result Error A → (A → Action B) → Action B
continue (ok a) f w = f a w
continue (err e) f w = (err e, w)

infixl 5 ◌>>=◌ ◌>>◌
abbrev pub ◌>>=◌ : {A B : Type 0} → Action A → (A → Action B) → Action B
◌>>=◌ m f w = continue (m w).0 f (m w).1

abbrev pub ◌>>◌ : {A B : Type 0} → Action A → Action B → Action B
m >> n = m >>= λ _. n

abbrev pub pure : {A : Type 0} → A → Action A
pure a w = (ok a, w)

abbrev pub raise : {A : Type 0} → Error → Action A
raise e w = (err e, w)

-- SELECT
abbrev pub gets : {A : Type 0} → (Database → A) → Action A
gets f w = (ok (f w.db), w)

-- UPDATE and DELETE
abbrev pub modify : (Database → Database) → Action (Unit {0})
modify f w = (ok tt, record w { db = f w.db })

-- INSERT, refused by a constraint
abbrev pub insert : (Database → Bool) → (Database → Database) → Action (Unit {0})
insert allowed f w = if allowed w.db then (ok tt, record w { db = f w.db }) else (err constraint, w)

-- The first row of a result, or an error.
abbrev pub first_or : {A : Type 0} → Error → List A → Action A
first_or e [] = raise e
first_or e (x ∷ xs) = pure x

abbrev pub from_option : {A : Type 0} → Error → Option A → Action A
from_option e none = raise e
from_option e (some a) = pure a

-- `if self._event_bus is not None: await self._event_bus.publish(event)`
abbrev pub emit : DomainEvent Body → Action (Unit {0})
emit event w = (ok tt, record w { event_bus = Option.map (λ bus. publish bus event) w.event_bus })
