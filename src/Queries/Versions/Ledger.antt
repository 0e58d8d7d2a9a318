-- ===== src/Queries/Versions/Ledger.antt =====
-- The ledger of versions as an invariant of the database, kept by every outcome of its operations.
use lavs_core.Queries.Versions.Statuses.{
  version_id, after, after-id, reactivate-rows, unmarked, superseded_id, marked_id,
  marked_component, superseded_component, mark, supersede,
}
use lavs_core.Prelude.{
  All-In, ◌≤◌, ◌≡◌, refl, ap, sym, ◌∙◌, true, false, List, [], ◌∷◌, map, String, str_eq, eq_iff,
  arith, length, any, select, select-append, In, inl, inr, ◌⊎◌, Bool-cases, List-cases, All,
  All-append, subst, length-append,
}
use lavs_core.Database.Tables.{active, rolled_back, Component, Version, Database, World}
use lavs_core.Database.Statements.{same_status}
use lavs_core.Database.Rows.{
  any-select, select-map, Unique, Unique-map, Unique-append, In-select, length-select_mono,
}
use lavs_core.Queries.Versions.{
  is_active_of, supersede_active, previous_versions, reactivate, rollback_version, create_version,
}
use lavs_core.Queries.Versions.Create.{
  create_version_lem, create_version-missing, create_version-taken, fresh_after, only_active,
  with_version, superseding,
}
use lavs_core.Queries.Versions.Rollback.{
  rollback_to, rollback_version-missing, rollback_version-alone, only_active as only_active_after,
  previous_component_of,
}

-- The version's component is stored.
abbrev pub HasComponent : List Component → Version → Type 0
HasComponent components v = any (λ c. str_eq c.id v.component_id) components ≡ true

-- Version identifiers are unique, every version's component is stored, and each component has at
-- most one active version.
pub record IsLedger (db : Database) : Type 0 where
  pub unique : Unique version_id db.versions
  pub known : All (HasComponent db.components) db.versions
  pub single : (c : String) → length (select (is_active_of c) db.versions) ≤ 1

All-map :
    {A : Type 0} (P : A → Type 0) (f : A → A) (xs : List A)
    → ((x : A) → P x → P (f x))
    → All P xs
    → All P (map f xs)
All-map P f [] g h = tt
All-map P f (x ∷ xs) g h = (g x h.0, All-map P f xs g h.1)

length-map : {A : Type 0} (f : A → A) (xs : List A) → length (map f xs) ≡ length xs
length-map f [] = refl
length-map f (x ∷ xs) = omega (arith, length-map f xs)

-- An update that activates no row of a component adds no active version to it.
single-map :
    (c : String) (f : Version → Version) (vs : List Version)
    → ((v : Version) → In v vs → is_active_of c (f v) ≡ true → is_active_of c v ≡ true)
    → length (select (is_active_of c) vs) ≤ 1
    → length (select (is_active_of c) (map f vs)) ≤ 1
single-map c f vs h few = omega (
  arith,
  ap length (select-map (is_active_of c) f vs),
  length-map f (select (λ v. is_active_of c (f v)) vs),
  length-select_mono (λ v. is_active_of c (f v)) (is_active_of c) vs h,
  few,
)

active_before :
    (c d : String) (v : Version) → is_active_of d (supersede c v) ≡ true → is_active_of d v ≡ true
unfolding same_status
active_before c d v h = ground arith

supersede_active-IsLedger :
    (c : String) (db : Database) → IsLedger db → IsLedger (supersede_active c db)
supersede_active-IsLedger c db l = record {
  unique = Unique-map version_id (supersede c) db.versions (λ v. ground arith) l.unique;
  known =
      All-map (HasComponent db.components) (supersede c) db.versions (λ v h. same_component v h)
        l.known;
  single =
      λ d. single-map d (supersede c) db.versions (λ v m h. active_before c d v h) (l.single d);
}
  where
    same_component :
        (v : Version) → HasComponent db.components v → HasComponent db.components (supersede c v)
    same_component v h = elim (Bool-cases (is_active_of c v)) [ inl e ↦ rw e h | inr e ↦ rw e h ]

with_version-IsLedger :
    (row : Version) (w : World)
    → any (λ c. str_eq c.id row.component_id) w.db.components ≡ true
    → any (λ v. str_eq v.id row.id) w.db.versions ≡ false
    → IsLedger w.db
    → IsLedger (with_version row w)
unfolding create_version
with_version-IsLedger row w known fresh l =
    let before = supersede_active-IsLedger row.component_id w.db l in
    let made : Version = record row { status = active } in
    record {
      unique =
          Unique-append version_id (superseding row w).versions made (fresh_after row w fresh)
            before.unique;
      known =
          All-append (HasComponent w.db.components) (superseding row w).versions (made ∷ [])
            before.known (known, tt);
      single = λ d. one d (Bool-cases (str_eq row.component_id d)) (before.single d);
    }
  where
    one :
        (d : String)
        → (str_eq row.component_id d ≡ true) ⊎ (str_eq row.component_id d ≡ false)
        → length (select (is_active_of d) (superseding row w).versions) ≤ 1
        → length (select (is_active_of d) (with_version row w).versions) ≤ 1
    one d (inl e) few =
        subst (λ c. length (select (is_active_of c) (with_version row w).versions) ≤ 1)
          ((eq_iff row.component_id d).0 e) (rw (only_active row w fresh) ground arith)
    one d (inr e) few =
        rw
          (
            select-append (is_active_of d) (superseding row w).versions
                (record row { status = active } ∷ []),
            e,
          )
          (omega
            (arith, few, length-append (select (is_active_of d) (superseding row w).versions) []))

after-component :
    (target previous v : Version) → (after target previous v).component_id ≡ v.component_id
after-component target previous v =
    marked_component active previous.id
      (supersede target.component_id (mark rolled_back target.id v))
    ∙ (superseded_component target.component_id (mark rolled_back target.id v)
        ∙ marked_component rolled_back target.id v)

marked_before :
    (d id : String) (v : Version)
    → is_active_of d (mark rolled_back id v) ≡ true
    → is_active_of d v ≡ true
unfolding same_status
marked_before d id v h = ground arith

-- The rows of other components keep their status.
active_before_rollback :
    (target previous v : Version) (d : String)
    → (str_eq v.id previous.id ≡ true → str_eq v.component_id target.component_id ≡ true)
    → str_eq target.component_id d ≡ false
    → is_active_of d (after target previous v) ≡ true
    → is_active_of d v ≡ true
active_before_rollback target previous v d same other h =
    let v1 : Version = mark rolled_back target.id v in
    let u : Version = supersede target.component_id v1 in
    let id : u.id ≡ v.id =
      superseded_id target.component_id v1 ∙ marked_id rolled_back target.id v in
    elim (Bool-cases (str_eq v.id previous.id)) [
      | inl e ↦ absurd (
          clash (same e) (
            ap (λ c. str_eq c d) (sym (after-component target previous v))
            ∙ component_of (after target previous v) h))
      | inr e ↦ marked_before d target.id v (
          active_before target.component_id d v1 (
            subst (λ x. is_active_of d x ≡ true)
              (unmarked active previous.id u (ap (λ i. str_eq i previous.id) id ∙ e)) h))
    ]
  where
    component_of : (x : Version) → is_active_of d x ≡ true → str_eq x.component_id d ≡ true
    component_of x k = ground arith

    clash : str_eq v.component_id target.component_id ≡ true → str_eq v.component_id d ≡ true → ⊥
    clash e k = cc (
      other,
      (eq_iff target.component_id d).1
          (sym ((eq_iff v.component_id target.component_id).0 e) ∙ (eq_iff v.component_id d).0 k),
    )

reactivate-IsLedger :
    (target previous : Version) (rest : List Version) (w : World)
    → IsLedger w.db
    → In target w.db.versions
    → previous_versions target w.db ≡ previous ∷ rest
    → IsLedger (reactivate target previous w.db)
reactivate-IsLedger target previous rest w l stored chosen = record {
  unique = subst (Unique version_id) (sym rows) (
      Unique-map version_id (after target previous) w.db.versions (after-id target previous)
        l.unique);
  known = subst (All (HasComponent w.db.components)) (sym rows) (
      All-map (HasComponent w.db.components) (after target previous) w.db.versions
        (λ v h.
          ap (λ i. any (λ c. str_eq c.id i) w.db.components) (after-component target previous v)
          ∙ h)
        l.known);
  single = λ d.
      subst (λ vs. length (select (is_active_of d) vs) ≤ 1) (sym rows)
        (one d (Bool-cases (str_eq target.component_id d)));
}
  where
    rows : (reactivate target previous w.db).versions ≡ map (after target previous) w.db.versions
    rows = reactivate-rows target previous w.db

    same :
        (v : Version)
        → In v w.db.versions
        → str_eq v.id previous.id ≡ true
        → str_eq v.component_id target.component_id ≡ true
    same v m e = previous_component_of target previous rest w l.unique stored chosen v m e

    one :
        (d : String)
        → (str_eq target.component_id d ≡ true) ⊎ (str_eq target.component_id d ≡ false)
        → length (select (is_active_of d) (map (after target previous) w.db.versions)) ≤ 1
    one d (inl e) =
        subst
          (λ c. length (select (is_active_of c) (map (after target previous) w.db.versions)) ≤ 1)
          ((eq_iff target.component_id d).0 e)
          (subst (λ vs. length (select (is_active_of target.component_id) vs) ≤ 1) rows
            (rw (only_active_after target previous rest w l.unique stored chosen) ground arith))
    one d (inr e) =
        single-map d (after target previous) w.db.versions
          (λ v m h. active_before_rollback target previous v d (same v m) e h) (l.single d)

-- Creating a version keeps the ledger, whether it succeeds or is refused.
pub create_version-IsLedger :
    (row : Version) (w : World) → IsLedger w.db → IsLedger (create_version row w).1.db
create_version-IsLedger row w l =
    elim (Bool-cases (any (λ c. str_eq c.id row.component_id) w.db.components)) [
      | inr unknown ↦ rw (create_version-missing row w unknown) l
      | inl known ↦ elim (Bool-cases (any (λ v. str_eq v.id row.id) w.db.versions)) [
        | inl used ↦
            rw (create_version-taken row w known used)
              (supersede_active-IsLedger row.component_id w.db l)
        | inr fresh ↦
            rw ((create_version_lem row w known fresh).1)
              (with_version-IsLedger row w known fresh l)
      ]
    ]

-- Rolling a version back keeps the ledger, whether it succeeds or is refused.
pub rollback_version-IsLedger :
    (id : String) (w : World) → IsLedger w.db → IsLedger (rollback_version id w).1.db
rollback_version-IsLedger id w l = elim (Bool-cases (any (λ v. str_eq v.id id) w.db.versions)) [
  | inr absent ↦ rw (rollback_version-missing id w absent) l
  | inl present ↦
      let (target, others, found) =
        any-select (λ (v : Version). str_eq v.id id) w.db.versions present in
      let (stored, named) =
        In-select (λ v. str_eq v.id id) target w.db.versions (rw found (inl refl)) in
      subst (λ i. IsLedger (rollback_version i w).1.db) ((eq_iff target.id id).0 named)
        (outcome target stored (List-cases (previous_versions target w.db)))
]
  where
    outcome :
        (target : Version)
        → In target w.db.versions
        → (previous_versions target w.db ≡ [])
          ⊎ ((previous : Version) × (rest : List Version) × (previous_versions target w.db
                ≡ previous ∷ rest))
        → IsLedger (rollback_version target.id w).1.db
    outcome target stored (inl alone) = rw (rollback_version-alone target w l.unique stored alone) l
    outcome target stored (inr (previous, rest, chosen)) =
        rw
          ((rollback_to target previous rest w l.unique stored
            (All-In (HasComponent w.db.components) w.db.versions l.known target stored) chosen).1)
          (reactivate-IsLedger target previous rest w l stored chosen)
