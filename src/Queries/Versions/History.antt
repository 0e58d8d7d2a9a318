-- ===== src/Queries/Versions/History.antt =====
-- The versions that a sequence of operations can lead to.
use mathlib.Core.List.{append-nil, append_assoc}
use lavs_core.Queries.Versions.Statuses.{after, mark, supersede, reactivate-rows}
use lavs_core.Prelude.{
  All-In, ◌≡◌, refl, ap, sym, ◌∙◌, List, [], ◌∷◌, ◌++◌, map, String, str_eq, eq_iff, arith, any, In,
  inl, inr, ◌⊎◌, Bool-cases, List-cases, subst,
}
use lavs_core.Database.Tables.{VersionStatus, active, rolled_back, Version, Database, World}
use lavs_core.Database.Rows.{any-select, In-select}
use lavs_core.Queries.Versions.{previous_versions, rollback_version, create_version}
use lavs_core.Queries.Versions.Create.{
  create_version_lem, create_version-missing, create_version-taken, superseding,
}
use lavs_core.Queries.Versions.Rollback.{
  rollback_to, rollback_version-missing, rollback_version-alone,
}
use lavs_core.Queries.Versions.Ledger.{
  IsLedger, HasComponent, create_version-IsLedger, rollback_version-IsLedger,
}

-- The worlds that the operations lead to from a world.
pub data Leads : World → World → Type 0 where
  here : (w : World) → Leads w w
  then_create : (w u : World) (row : Version) → Leads w u → Leads w (create_version row u).1
  then_rollback : (w u : World) (id : String) → Leads w u → Leads w (rollback_version id u).1

-- From a world that keeps the ledger, every world that creating and rolling back versions lead to,
-- refused attempts included, keeps it: identifiers are unique, every version has its component,
-- and no component has two active versions.
pub Leads-IsLedger : (w u : World) → Leads w u → IsLedger w.db → IsLedger u.db
Leads-IsLedger w u (here _) l = l
Leads-IsLedger w u (then_create _ v row s) l =
    create_version-IsLedger row v (Leads-IsLedger w v s l)
Leads-IsLedger w u (then_rollback _ v id s) l =
    rollback_version-IsLedger id v (Leads-IsLedger w v s l)

-- A version without its status.
abbrev pub facts : Version → Version
facts v = record v { status = active }

abbrev pub history : Database → List Version
history db = map facts db.versions

map-facts :
    (f : Version → Version) (vs : List Version)
    → ((v : Version) → facts (f v) ≡ facts v)
    → map facts (map f vs) ≡ map facts vs
map-facts f [] same = refl
map-facts f (v ∷ vs) same = cc (same v, map-facts f vs same)

facts-supersede : (c : String) (v : Version) → facts (supersede c v) ≡ facts v
facts-supersede c v = ground arith

facts-mark : (st : VersionStatus) (id : String) (v : Version) → facts (mark st id v) ≡ facts v
facts-mark st id v = ground arith

facts-after : (target previous v : Version) → facts (after target previous v) ≡ facts v
facts-after target previous v =
    facts-mark active previous.id (supersede target.component_id (mark rolled_back target.id v))
    ∙ (facts-supersede target.component_id (mark rolled_back target.id v)
        ∙ facts-mark rolled_back target.id v)

-- Rolling back deletes no version and changes no field of one but its status.
pub history-rollback_version :
    (id : String) (w : World) → IsLedger w.db → history (rollback_version id w).1.db ≡ history w.db
history-rollback_version id w l = elim (Bool-cases (any (λ v. str_eq v.id id) w.db.versions)) [
  | inr absent ↦ rw (rollback_version-missing id w absent) refl
  | inl present ↦
      let (target, others, found) =
        any-select (λ (v : Version). str_eq v.id id) w.db.versions present in
      let (stored, named) =
        In-select (λ v. str_eq v.id id) target w.db.versions (rw found (inl refl)) in
      subst (λ i. history (rollback_version i w).1.db ≡ history w.db)
        ((eq_iff target.id id).0 named)
        (outcome target stored (List-cases (previous_versions target w.db)))
]
  where
    outcome :
        (target : Version)
        → In target w.db.versions
        → (previous_versions target w.db ≡ [])
          ⊎ ((previous : Version) × (rest : List Version) × (previous_versions target w.db
                ≡ previous ∷ rest))
        → history (rollback_version target.id w).1.db ≡ history w.db
    outcome target stored (inl alone) =
        rw (rollback_version-alone target w l.unique stored alone) refl
    outcome target stored (inr (previous, rest, chosen)) =
        rw
          ((rollback_to target previous rest w l.unique stored
            (All-In (HasComponent w.db.components) w.db.versions l.known target stored) chosen).1)
          (ap (map facts) (reactivate-rows target previous w.db)
            ∙ map-facts (after target previous) w.db.versions (facts-after target previous))

map-append : (vs us : List Version) → map facts (vs ++ us) ≡ map facts vs ++ map facts us
map-append [] us = refl
map-append (v ∷ vs) us = ap (λ xs. facts v ∷ xs) (map-append vs us)

history-create_version :
    (row : Version) (w : World)
    → (added : List Version) × (history (create_version row w).1.db ≡ history w.db ++ added)
history-create_version row w =
    elim (Bool-cases (any (λ c. str_eq c.id row.component_id) w.db.components)) [
      | inr unknown ↦
          ([], rw (create_version-missing row w unknown) (sym (append-nil (history w.db))))
      | inl known ↦ elim (Bool-cases (any (λ v. str_eq v.id row.id) w.db.versions)) [
        | inl used ↦ (
          [],
          rw (create_version-taken row w known used) (same ∙ sym (append-nil (history w.db))),
        )
        | inr fresh ↦ (
          facts row ∷ [],
          rw ((create_version_lem row w known fresh).1) (
              map-append (superseding row w).versions (record row { status = active } ∷ [])
              ∙ ap (λ vs. vs ++ facts row ∷ []) same),
        )
      ]
    ]
  where
    same : history (superseding row w) ≡ history w.db
    same = map-facts (supersede row.component_id) w.db.versions (facts-supersede row.component_id)

-- The ledger is append-only: from a world that keeps it, whatever operations follow, the versions
-- that were stored are stored after them in the same order and before the new ones, with every
-- field but the status unchanged.
pub Leads-history :
    (w u : World)
    → Leads w u
    → IsLedger w.db
    → (added : List Version) × (history u.db ≡ history w.db ++ added)
Leads-history w u (here _) l = ([], sym (append-nil (history w.db)))
Leads-history w u (then_create _ v row s) l =
    let (earlier, e) = Leads-history w v s l in
    let (added, f) = history-create_version row v in
    (earlier ++ added, f ∙ (ap (λ vs. vs ++ added) e ∙ append_assoc (history w.db) earlier added))
Leads-history w u (then_rollback _ v id s) l =
    let (earlier, e) = Leads-history w v s l in
    (earlier, history-rollback_version id v (Leads-IsLedger w v s l) ∙ e)
