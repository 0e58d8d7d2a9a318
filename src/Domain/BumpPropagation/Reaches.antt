-- ===== src/Domain/BumpPropagation/Reaches.antt =====
-- Which nodes a change reaches.
use lavs_core.Prelude.{
  ◌≡◌, ◌≢◌, refl, ap, sym, ◌∙◌, ◌⊎◌, ◌↔◌, inl, inr, ⊎_elim, some, List, [], ◌∷◌, map, String, arith,
  Map, lookup, put, lookup-put, lookup-nil, eq_iff, eq_of_some, In,
}
use mathlib.Core.Option
use lavs_core.Domain.BumpLevel.{
  BumpLevel, propagate, max_level, propagate-eq-none_iff, max_level-eq-none_iff,
}
use lavs_core.Domain.DependencyGraph.{Edge}
use lavs_core.Domain.DependencyGraph.Adjacency.{targets}
use lavs_core.Domain.DependencyGraph.Search.{Reach, here, step, In-targets}
use lavs_core.Domain.DependencyGraph.Acyclic.{IsAcyclic, Reach-trans}
use lavs_core.Domain.BumpPropagation.{base_level, effective_levels}
use lavs_core.Domain.BumpPropagation.Dependencies.{
  IsNode, IsMember, IsNode-of_member, IsNode-of_edge, In-keys_of_IsNode,
}
use lavs_core.Domain.BumpPropagation.Induction.{Posts, IsInvariant, effective_levels_rule}
use lavs_core.Domain.BumpPropagation.Levels.{level_in, own_level, solves_at_nodes}

level_cases : (l : BumpLevel) → (l ≡ BumpLevel.none) ⊎ (l ≢ BumpLevel.none)
level_cases BumpLevel.none = inl refl
level_cases BumpLevel.patch = inr (λ e. cc)
level_cases BumpLevel.minor = inr (λ e. cc)
level_cases BumpLevel.major = inr (λ e. cc)

max_level-nil : max_level [] ≡ BumpLevel.none
unfolding max_level
max_level-nil = refl

module _ (own : Map BumpLevel) (es : List Edge) where
  -- A node with a level of its own, at the end of a path.
  abbrev pub Source : String → Type 0
  Source n = (t : String) × Reach es n t × (own_level own es t ≢ BumpLevel.none)

  abbrev HasSource : Map BumpLevel → String → BumpLevel → Type 0
  HasSource m n l = l ≢ BumpLevel.none → Source n

  record SourceInv (m : Map BumpLevel) : Type 0 where
    at : (n : String) (l : BumpLevel) → lookup n m ≡ some l → HasSource m n l

  Source-below :
      (m : Map BumpLevel) (n : String) (ds : List String) (ls : List BumpLevel)
      → ((d : String) → In d ds → In (n, d) es)
      → Posts HasSource m ds ls
      → max_level (map propagate ls) ≢ BumpLevel.none
      → Source n
  Source-below m n [] [] edge p changed = absurd (changed max_level-nil)
  Source-below m n [] (l ∷ ls) edge p changed = absurd p
  Source-below m n (d ∷ ds) [] edge p changed = absurd p
  Source-below m n (d ∷ ds) (l ∷ ls) edge (p, ps) changed = elim (level_cases l) [
    | inr lifted ↦ let (t, r, b) = p lifted in (t, Reach-trans (step here (edge d (inl refl))) r, b)
    | inl same ↦
        Source-below m n ds ls (λ x q. edge x (inr q)) ps
          (λ e. changed (
            (max_level-eq-none_iff (propagate l) (map propagate ls)).1
              ((propagate-eq-none_iff l).1 same, e)))
  ]

  source_close :
      (m : Map BumpLevel) (n : String) (ls : List BumpLevel)
      → Posts HasSource m (targets es n) ls
      → HasSource m n (max_level (base_level own n ∷ map propagate ls))
  source_close m n ls p changed = elim (level_cases (base_level own n)) [
    | inr own_change ↦ (n, here, own_change)
    | inl same ↦
        Source-below m n (targets es n) ls (λ d q. (In-targets es n d).0 q) p
          (λ e. changed ((max_level-eq-none_iff (base_level own n) (map propagate ls)).1 (same, e)))
  ]

  source_put :
      (m : Map BumpLevel) (n : String) (l : BumpLevel)
      → SourceInv m
      → HasSource m n l
      → SourceInv (put n l m)
  source_put m n l i p = record {
    at = λ k x h. case k x (ground (arith, lookup-put n k l m, eq_iff n k));
  }
    where
      case :
          (k : String) (x : BumpLevel)
          → ((k ≡ n) × (x ≡ l)) ⊎ (lookup k m ≡ some x)
          → HasSource m k x
      case k x (inl (e, e')) = rw (e, e') p
      case k x (inr old) = i.at k x old

  source_rules : IsInvariant own es SourceInv (λ visiting n. Unit {0}) HasSource
  source_rules = record {
    mono = λ m m' n l ext p. p;
    hit = λ m n l i h. i.at n l h;
    back = λ m visiting n node i p h changed. (n, here, changed);
    down = λ visiting n d p h. tt;
    close = λ m n ls node i h p.
        let source = source_close m n ls p in (source_put m n _ i source, source);
  }

  SourceInv-nil : SourceInv []
  SourceInv-nil = record { at = λ n l h. cc (h, lookup-nil {V = BumpLevel} n) }

  below_none :
      (result : Map BumpLevel) (ds : List String) (d : String)
      → max_level (map (λ x. propagate (level_in result x)) ds) ≡ BumpLevel.none
      → In d ds
      → level_in result d ≡ BumpLevel.none
  below_none result [] d h m = absurd m
  below_none result (x ∷ ds) d h m =
      let (first, rest) =
        (max_level-eq-none_iff (propagate (level_in result x))
            (map (λ y. propagate (level_in result y)) ds)).0
          h in
      ⊎_elim (λ e. rw e ((propagate-eq-none_iff (level_in result x)).0 first))
        (below_none result ds d rest) m

  module _ (result : Map BumpLevel)
      (solves : (n : String)
        → IsNode own es n
        → lookup n result
          ≡ some (
              max_level
                (base_level own n ∷ map (λ d. propagate (level_in result d)) (targets es n)))) where
    unchanged :
        (n : String)
        → IsNode own es n
        → level_in result n ≡ BumpLevel.none
        → (base_level own n ≡ BumpLevel.none)
          × (max_level (map (λ d. propagate (level_in result d)) (targets es n)) ≡ BumpLevel.none)
    unchanged n node h =
        (max_level-eq-none_iff (base_level own n)
            (map (λ d. propagate (level_in result d)) (targets es n))).0
          (sym (ap (λ o. Option.get_or o BumpLevel.none) (solves n node)) ∙ h)

    unchanged_along :
        {n t : String}
        → Reach es n t
        → IsNode own es n
        → level_in result n ≡ BumpLevel.none
        → IsNode own es t × (level_in result t ≡ BumpLevel.none)
    unchanged_along here node h = (node, h)
    unchanged_along (step {v = v} {w = w} p e) node h =
        let (node', h') = unchanged_along p node h in
        (
          IsNode-of_edge own es v w e,
          below_none result (targets es v) w (unchanged v node' h').1 ((In-targets es v w).1 e),
        )

  pub reaches_at_nodes :
      IsAcyclic es
      → (result : Map BumpLevel) × (effective_levels own es ≡ some result)
        × ((n : String) → IsNode own es n → (level_in result n ≢ BumpLevel.none) ↔ Source n)
  reaches_at_nodes acyclic =
      let (result, runs, solves) = solves_at_nodes own es acyclic in
      let (result', runs', s) =
        effective_levels_rule own es SourceInv (λ v n. Unit {0}) HasSource source_rules (λ n. tt)
          SourceInv-nil in
      let same : result' ≡ result = eq_of_some (sym runs' ∙ runs) in
      (
        result,
        runs,
        λ n node. (
          λ changed.
              let (l, found, source) = s.solved n (In-keys_of_IsNode own es n node) in
              source (λ e. changed (
                ap (λ (r : Map BumpLevel). level_in r n) (sym same)
                ∙ (ap (λ o. Option.get_or o BumpLevel.none) found ∙ e))),
          λ (t, path, changed) h.
              let (node', h') = unchanged_along result solves path node h in
              changed (unchanged result solves t node' h').0,
        ),
      )

  -- On an acyclic graph there is a result, and a component that has a level of its own, or is an end
  -- of an edge, has a level above `none` in it exactly when it depends, directly or through others,
  -- on one whose own level, `major` where none is given, is above `none`, or has such a level
  -- itself.
  pub effective_levels-reaches :
      IsAcyclic es
      → (result : Map BumpLevel) × (effective_levels own es ≡ some result)
        × ((n : String) → IsMember own es n → (level_in result n ≢ BumpLevel.none) ↔ Source n)
  effective_levels-reaches acyclic =
      let (result, runs, reaches) = reaches_at_nodes acyclic in
      (result, runs, λ n member. reaches n (IsNode-of_member own es n member))
