-- ===== src/Domain/BumpPropagation/ProductBump.antt =====
-- The product bump.
use lavs_core.Prelude.{
  In-map, ℕ, ◌≤◌, ◌≡◌, refl, ap, sym, ◌∙◌, ⊎_elim, inl, inr, Bool, true, false, none, some, List,
  [], ◌∷◌, ◌++◌, map, String, arith, if◌then◌else◌, Map, lookup, keys, In, lookup_of_In-keys,
}
use mathlib.Core.List.{append-nil}
use lavs_core.Domain.BumpLevel.{
  BumpLevel, minor, major, order, propagate, max_level, order-injective, order-max_level-cons,
  order-max_level-append, order-le-max_level, order-max_level-nil, order-propagate_of_major,
}
use lavs_core.Domain.DependencyGraph.{Edge}
use lavs_core.Domain.DependencyGraph.Adjacency.{targets}
use lavs_core.Domain.DependencyGraph.Search.{In-targets}
use lavs_core.Domain.DependencyGraph.Acyclic.{IsAcyclic}
use lavs_core.Domain.BumpPropagation.{base_level, levels_of, derive_product_bump}
use lavs_core.Domain.BumpPropagation.Dependencies.{
  IsNode, IsNode-of_own, IsNode-of_target, In-keys_of_node,
}
use lavs_core.Domain.BumpPropagation.Levels.{level_in, effective_levels_bounds, solves_at_nodes}

-- `own_levels.values()`
abbrev pub own_values : Map BumpLevel → List BumpLevel
own_values own = map (base_level own) (keys own)

-- The levels that a removal adds.
abbrev pub removal : Bool → List BumpLevel
removal removed_any = if removed_any then major ∷ [] else []

module _ (own : Map BumpLevel) (es : List Edge) where
  IsNode-of_key : (n : String) → In n (keys own) → IsNode own es n
  IsNode-of_key n m = let (l, e) = lookup_of_In-keys n own m in IsNode-of_own own es n l e

  levels_of_bounds :
      (result : Map BumpLevel) (bound : ℕ)
      → ((n : String)
          → IsNode own es n
          → (l : BumpLevel) × (lookup n result ≡ some l)
            × (order (base_level own n) ≤ order l)
            × (order l ≤ bound))
      → (ks : List String) → ((n : String) → In n ks → In n (keys own))
      → (levels : List BumpLevel) × (levels_of result ks ≡ some levels)
        × (order (max_level (map (base_level own) ks)) ≤ order (max_level levels))
        × (order (max_level levels) ≤ bound)
  unfolding levels_of
  levels_of_bounds result bound found [] sub =
      ([], refl, omega arith, omega (arith, order-max_level-nil))
  levels_of_bounds result bound found (k ∷ ks) sub =
      let (l, e, low, high) = found k (IsNode-of_key k (sub k (inl refl))) in
      let (ls, es', lows, highs) = levels_of_bounds result bound found ks (λ n m. sub n (inr m)) in
      (
        l ∷ ls,
        rw (e, levels_of) (rw (es', levels_of) refl),
        omega (
          arith,
          order-max_level-cons l ls,
          order-max_level-cons (base_level own k) (map (base_level own) ks),
        ),
        omega (arith, order-max_level-cons l ls),
      )

  bump_of :
      (removed_any : Bool) (levels : List BumpLevel)
      → (if removed_any then levels ++ major ∷ [] else levels) ≡ levels ++ removal removed_any
  bump_of true levels = refl
  bump_of false levels = sym (append-nil levels)

  -- Where both ends of every dependency edge are active components, the product bump is the maximum
  -- of the components' own levels, raised to `major` by a removal, whatever the edges are.
  pub derive_product_bump-eq-own :
      (removed_any : Bool)
      → ((u v : String) → In (u, v) es → In u (keys own) × In v (keys own))
      → derive_product_bump own es removed_any
        ≡ some (max_level (own_values own ++ removal removed_any))
  unfolding derive_product_bump
  derive_product_bump-eq-own removed_any closed =
      let bound = order (max_level (own_values own)) in
      let (result, runs, found) = effective_levels_bounds own es bound (λ n node.
        order-le-max_level (base_level own n) (own_values own)
          (In-map (base_level own) n (keys own) (In-keys_of_node own es closed n node))) in
      let (levels, got, low, high) = levels_of_bounds result bound found (keys own) (λ n m. m) in
      rw (runs, derive_product_bump)
        (rw (got, derive_product_bump)
          (ap some (
            ap max_level (bump_of removed_any levels)
            ∙ order-injective _ _ (
                omega (
                  arith,
                  order-max_level-append levels (removal removed_any),
                  order-max_level-append (own_values own) (removal removed_any),
                )))))

  pub levels_of_members :
      (result : Map BumpLevel)
      → ((n : String) → IsNode own es n → (l : BumpLevel) × (lookup n result ≡ some l))
      → (ks : List String) → ((n : String) → In n ks → In n (keys own))
      → (levels : List BumpLevel) × (levels_of result ks ≡ some levels)
        × ((k : String) → In k ks → In (level_in result k) levels)
  unfolding levels_of
  levels_of_members result found [] sub = ([], refl, λ k m. m)
  levels_of_members result found (k ∷ ks) sub =
      let (l, e) = found k (IsNode-of_key k (sub k (inl refl))) in
      let (ls, es', members) = levels_of_members result found ks (λ n m. sub n (inr m)) in
      (
        l ∷ ls,
        rw (e, levels_of) (rw (es', levels_of) refl),
        λ x m. ⊎_elim (λ q. inl (rw q (rw e refl))) (λ q. inr (members x q)) m,
      )

  -- On an acyclic graph, an edge from an active component to one with no active version makes the
  -- bump at least `minor`, whether or not an active component has changed.
  pub derive_product_bump-missing :
      (removed_any : Bool) (n d : String)
      → IsAcyclic es
      → In n (keys own)
      → In (n, d) es
      → lookup d own ≡ none
      → (bump : BumpLevel) × (derive_product_bump own es removed_any ≡ some bump)
        × (order minor ≤ order bump)
  unfolding derive_product_bump
  derive_product_bump-missing removed_any n d acyclic active edge missing =
      let (result, runs, solves) = solves_at_nodes own es acyclic in
      let (levels, got, members) =
        levels_of_members result (λ k node. (_, solves k node)) (keys own) (λ k m. m) in
      let target = (In-targets es n d).1 edge in
      let felt = λ (x : String). propagate (level_in result x) in
      (
        max_level (if removed_any then levels ++ major ∷ [] else levels),
        rw (runs, derive_product_bump) (rw (got, derive_product_bump) refl),
        rw (bump_of removed_any levels) (
            omega (
              arith,
              order-max_level-append levels (removal removed_any),
              order-le-max_level (level_in result n) levels (members n active),
              ap order (level_in_eq result n (solves n (IsNode-of_key n active))),
              order-max_level-cons (base_level own n) (map felt (targets es n)),
              order-le-max_level (felt d) (map felt (targets es n))
                  (In-map felt d (targets es n) target),
              order-propagate_of_major (level_in result d),
              ap order (level_in_eq result d (solves d (IsNode-of_target own es n d target))),
              order-max_level-cons (base_level own d) (map felt (targets es d)),
              ap order (base_missing d missing),
            )),
      )
    where
      level_in_eq :
          (result : Map BumpLevel) (k : String) {l : BumpLevel}
          → lookup k result ≡ some l
          → level_in result k ≡ l
      level_in_eq result k e = rw e refl

      base_missing : (k : String) → lookup k own ≡ none → base_level own k ≡ major
      base_missing k e = rw e refl
