-- ===== src/Queries/Releases/Derivation.antt =====
-- The bump that a cut derives.
use lavs_core.Queries.Bumps.{
  ActiveRow, tuple_of, own_levels, is_removed_any, explain, Derived, derive_default, derive,
  prior_manifest,
}
use mathlib.Core.Option
use mathlib.Core.List.{append-nil}
use lavs_core.Queries.Releases.OwnLevels.{keys-own_levels, IsGone, removed-gone, gone-removed}
use lavs_core.Prelude.{
  ◌≡◌, refl, ap, sym, ◌∙◌, subst, Bool, false, Option, some, List, [], ◌∷◌, ◌++◌, String, str_eq,
  eq_iff, arith, if◌then◌else◌, any, In, In-map, inl, inr, map, Bool-cases, Map, lookup, put, keys,
  lookup-put, lookup_of_In-keys, eq_of_some,
}
use lavs_core.Domain.BumpLevel.{
  BumpLevel, major, order, order-le, order-injective, order-max_level-append, order-le-max_level,
  max_level,
}
use lavs_core.Domain.ChangeClassifier.{VersionTuple, classify_change}
use lavs_core.Domain.DependencyGraph.{Edge}
use lavs_core.Domain.BumpPropagation.{base_level, effective_levels, derive_product_bump}
use lavs_core.Domain.BumpPropagation.Dependencies.{IsNode, IsNode-of_own}
use lavs_core.Domain.BumpPropagation.Levels.{effective_levels_bounds}
use lavs_core.Domain.BumpPropagation.ProductBump.{
  derive_product_bump-eq-own, own_values, removal, levels_of_members,
}
use lavs_core.Database.Tables.{legacy, default, BumpPolicy, Release, Database}
use lavs_core.Database.Rows.{Unique}
use lavs_core.Queries.Dependencies.{edges_of}

module _ (own : Map BumpLevel) (es : List Edge) where
  found_all :
      (result : Map BumpLevel) × (effective_levels own es ≡ some result)
      × ((n : String) → IsNode own es n → (l : BumpLevel) × (lookup n result ≡ some l))
  found_all =
      let (result, runs, found) =
        effective_levels_bounds own es 3 (λ n node. order-le (base_level own n)) in
      (result, runs, λ n node. ((found n node).0, (found n node).1))

  bump_total :
      (removed : Bool) → (bump : BumpLevel) × (derive_product_bump own es removed ≡ some bump)
  unfolding derive_product_bump
  bump_total removed =
      let (result, runs, found) = found_all in
      let (levels, got, members) = levels_of_members own es result found (keys own) (λ k m. m) in
      (
        max_level (if removed then levels ++ major ∷ [] else levels),
        rw (runs, derive_product_bump) (rw (got, derive_product_bump) refl),
      )

  explain_total :
      (result : Map BumpLevel)
      → (part : Map BumpLevel)
      → ((n : String) → In n (keys part) → (l : BumpLevel) × (lookup n result ≡ some l))
      → (components : Map (BumpLevel × BumpLevel)) × (explain part result ≡ some components)
  unfolding explain
  explain_total result [] found = ([], refl)
  explain_total result ((n, level) ∷ part) found =
      let (l, e) = found n (inl refl) in
      let (rest, f) = explain_total result part (λ k m. found k (inr m)) in
      ((n, (level, l)) ∷ rest, rw (e, f, explain) refl)

abbrev derived_as : Map BumpLevel → BumpLevel → Bool → Map (BumpLevel × BumpLevel) → Derived
derived_as own bump removed components = record {
  bump_level = bump;
  bump_rationale = some (record {
    policy = default;
    product_bump = bump;
    removed_any = removed;
    components = components;
  });
  change_by_component = own;
}

-- The bump of the policy `default` is always derived: no level is missing, whatever the edges are.
pub derive_default-total :
    (prior : Map VersionTuple) (rows : List ActiveRow) (es : List Edge)
    → (d : Derived) × (derive_default prior rows es ≡ some d)
      × (derive_product_bump (own_levels prior rows []) es (is_removed_any prior rows)
          ≡ some d.bump_level)
      × (d.change_by_component ≡ own_levels prior rows [])
unfolding derive_default
derive_default-total prior rows es =
    let own : Map BumpLevel = own_levels prior rows [] in
    let (bump, e) = bump_total own es (is_removed_any prior rows) in
    let (result, runs, found) = found_all own es in
    let (components, f) = explain_total own es result own (λ n m.
      found n
        (IsNode-of_own own es n (lookup_of_In-keys n own m).0 (lookup_of_In-keys n own m).1)) in
    (
      derived_as own bump (is_removed_any prior rows) components,
      rw (e, runs, f, derive_default) refl,
      e,
      refl,
    )

own_levels-other :
    (prior : Map VersionTuple) (rows : List ActiveRow) (own : Map BumpLevel) (c : String)
    → any (λ r. str_eq r.component_id c) rows ≡ false
    → lookup c (own_levels prior rows own) ≡ lookup c own
unfolding own_levels
own_levels-other prior [] own c h = refl
own_levels-other prior (r ∷ rs) own c h =
    own_levels-other prior rs
      (put r.component_id (classify_change (lookup r.component_id prior) (tuple_of r.version)) own)
      c (ground arith)
    ∙ (lookup-put r.component_id c
          (classify_change (lookup r.component_id prior) (tuple_of r.version)) own
        ∙ differs (ground arith))
  where
    differs :
        str_eq r.component_id c ≡ false
        → (if str_eq r.component_id c
            then some (classify_change (lookup r.component_id prior) (tuple_of r.version))
            else lookup c own)
          ≡ lookup c own
    differs e = rw e refl

-- The level of an active component is the classification of its change since the last release.
pub lookup-own_levels :
    (prior : Map VersionTuple) (rows : List ActiveRow) (own : Map BumpLevel) (r : ActiveRow)
    → Unique (λ (x : ActiveRow). x.component_id) rows
    → In r rows
    → lookup r.component_id (own_levels prior rows own)
      ≡ some (classify_change (lookup r.component_id prior) (tuple_of r.version))
unfolding own_levels
lookup-own_levels prior [] own r u m = absurd m
lookup-own_levels prior (x ∷ rs) own r u (inl e) =
    subst
      (λ y.
        lookup y.component_id (own_levels prior (x ∷ rs) own)
        ≡ some (classify_change (lookup y.component_id prior) (tuple_of y.version)))
      (sym e)
      (own_levels-other prior rs (put x.component_id level own) x.component_id u.0
        ∙ (lookup-put x.component_id x.component_id level own ∙ same))
  where
    level : BumpLevel
    level = classify_change (lookup x.component_id prior) (tuple_of x.version)

    same :
        (if str_eq x.component_id x.component_id then some level else lookup x.component_id own)
        ≡ some level
    same = rw ((eq_iff x.component_id x.component_id).1 refl) refl
lookup-own_levels prior (x ∷ rs) own r u (inr m) =
    lookup-own_levels prior rs
      (put x.component_id (classify_change (lookup x.component_id prior) (tuple_of x.version)) own)
      r u.1 m

max_level_with_major : (levels : List BumpLevel) → max_level (levels ++ major ∷ []) ≡ major
max_level_with_major levels = order-injective (max_level (levels ++ major ∷ [])) major (
    omega (
      arith,
      order-le (max_level (levels ++ major ∷ [])),
      order-max_level-append levels (major ∷ []),
      order-le-max_level major (major ∷ []) (inl refl),
      top,
    ))
  where
    top : order major ≡ 3
    top = unfold order in refl

module _ (prior : Map VersionTuple) (rows : List ActiveRow) where
  -- How a component has changed since the last release.
  abbrev pub change_of : ActiveRow → BumpLevel
  change_of r = classify_change (lookup r.component_id prior) (tuple_of r.version)

  base_levels_of :
      (own : Map BumpLevel) (rs : List ActiveRow)
      → ((r : ActiveRow) → In r rs → lookup r.component_id own ≡ some (change_of r))
      → map (base_level own) (map (λ r. r.component_id) rs) ≡ map change_of rs
  base_levels_of own [] found = refl
  base_levels_of own (r ∷ rs) found = cc (
    ap (λ o. Option.get_or o major) (found r (inl refl)),
    base_levels_of own rs (λ x m. found x (inr m)),
  )

  own_values-own_levels :
      Unique (λ (x : ActiveRow). x.component_id) rows
      → own_values (own_levels prior rows []) ≡ map change_of rows
  own_values-own_levels unique =
      ap (map (base_level (own_levels prior rows []))) (keys-own_levels prior rows unique)
      ∙ base_levels_of (own_levels prior rows []) rows
          (λ r m. lookup-own_levels prior rows [] r unique m)

  -- A component has an active row.
  abbrev pub IsActive : String → Type 0
  IsActive c = (r : ActiveRow) × In r rows × (c ≡ r.component_id)

  In-keys_of_active :
      Unique (λ (x : ActiveRow). x.component_id) rows
      → (c : String) → IsActive c
      → In c (keys (own_levels prior rows []))
  In-keys_of_active unique c (r, m, e) =
      rw (e, keys-own_levels prior rows unique) (In-map (λ x. x.component_id) r rows m)

  -- For the policy `default`, where both ends of every edge are active components and each component
  -- has one active row, a bump is derived: `major` if a component of the last release has no active
  -- row, and else the maximum of the changes of the active components since that release; and each
  -- component's recorded level is its change.
  pub derive_default-closed :
      (es : List Edge)
      → Unique (λ (x : ActiveRow). x.component_id) rows
      → ((u v : String) → In (u, v) es → IsActive u × IsActive v)
      → (d : Derived) × (derive_default prior rows es ≡ some d)
        × (IsGone prior rows → d.bump_level ≡ major)
        × ((IsGone prior rows → ⊥) → d.bump_level ≡ max_level (map change_of rows))
        × ((r : ActiveRow)
            → In r rows
            → lookup r.component_id d.change_by_component ≡ some (change_of r))
  derive_default-closed es unique closed =
      let (d, runs, bump, own) = derive_default-total prior rows es in
      let removed : Bool = is_removed_any prior rows in
      let level : d.bump_level ≡ max_level (map change_of rows ++ removal removed) = eq_of_some (
        sym bump
        ∙ (derive_product_bump-eq-own (own_levels prior rows []) es removed (λ u v m. (
          In-keys_of_active unique u (closed u v m).0,
          In-keys_of_active unique v (closed u v m).1,
        ))
            ∙ ap (λ (ls : List BumpLevel). some (max_level (ls ++ removal removed)))
                (own_values-own_levels unique))) in
      (
        d,
        runs,
        λ gone. elim (Bool-cases removed) [
          | inl yes_removed ↦
              level
              ∙ (ap (λ b. max_level (map change_of rows ++ removal b)) yes_removed
                  ∙ max_level_with_major (map change_of rows))
          | inr kept ↦ absurd (gone-removed prior rows kept gone)
        ],
        λ all_kept. elim (Bool-cases removed) [
          | inl yes_removed ↦ absurd (all_kept (removed-gone prior rows yes_removed))
          | inr kept ↦
              level
              ∙ (ap (λ b. max_level (map change_of rows ++ removal b)) kept
                  ∙ ap max_level (append-nil (map change_of rows)))
        ],
        λ r m. ap (lookup r.component_id) own ∙ lookup-own_levels prior rows [] r unique m,
      )

-- The derivation of a bump always succeeds, under each policy, for any active rows, latest release
-- and database.
pub derive-total :
    (product_id : String) (policy : BumpPolicy) (rows : List ActiveRow) (latest : Option Release)
    (db : Database)
    → (d : Derived) × (derive product_id policy rows latest db ≡ some d)
unfolding derive
derive-total product_id legacy rows latest db = (_, refl)
derive-total product_id default rows latest db =
    let (d, runs, bump, own) =
      derive_default-total (prior_manifest latest db) rows (edges_of product_id db) in
    (d, runs)
