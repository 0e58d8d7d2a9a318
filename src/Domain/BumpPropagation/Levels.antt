-- ===== src/Domain/BumpPropagation/Levels.antt =====
-- What the walk computes: bounds on every graph, the defining equation on an acyclic one, and which
-- nodes a change reaches.
use lavs_core.Prelude.{
  ℕ, ◌≤◌, ◌≡◌, refl, ap, ◌∙◌, ◌⊎◌, inl, inr, ⊎_elim, none, some, List, [], ◌∷◌, map, String, eq_iff,
  arith, Map, lookup, put, lookup-put, lookup-nil, In,
}
use mathlib.Core.Option
use lavs_core.Domain.BumpLevel.{
  BumpLevel, order, propagate, max_level, order-propagate-le, order-max_level-cons,
  order-max_level-nil,
}
use lavs_core.Domain.DependencyGraph.{Edge}
use lavs_core.Domain.DependencyGraph.Adjacency.{targets}
use lavs_core.Domain.DependencyGraph.Search.{Reach, here, step, contains_iff, In-targets}
use lavs_core.Domain.DependencyGraph.Acyclic.{IsAcyclic}
use lavs_core.Domain.BumpPropagation.{base_level, effective_levels}
use lavs_core.Domain.BumpPropagation.Dependencies.{
  IsNode, IsMember, IsNode-of_member, IsNode-of_target, In-keys_of_IsNode,
}
use lavs_core.Domain.BumpPropagation.Induction.{Posts, IsInvariant, effective_levels_rule}

-- The level of a node in a result.
abbrev pub level_in : Map BumpLevel → String → BumpLevel
level_in result n = Option.get_or (lookup n result) BumpLevel.none

module _ (own : Map BumpLevel) (es : List Edge) where
  module _ (bound : ℕ)
      (bounded : (n : String) → IsNode own es n → order (base_level own n) ≤ bound) where
    abbrev InRange : Map BumpLevel → String → BumpLevel → Type 0
    InRange m n l = (order (base_level own n) ≤ order l) × (order l ≤ bound)

    record RangeInv (m : Map BumpLevel) : Type 0 where
      at : (n : String) (l : BumpLevel) → lookup n m ≡ some l → InRange m n l

    propagated_le :
        (m : Map BumpLevel) (ds : List String) (ls : List BumpLevel)
        → Posts InRange m ds ls
        → order (max_level (map propagate ls)) ≤ bound
    propagated_le m [] [] p = omega (arith, order-max_level-nil)
    propagated_le m [] (l ∷ ls) p = absurd p
    propagated_le m (d ∷ ds) [] p = absurd p
    propagated_le m (d ∷ ds) (l ∷ ls) (p, ps) = omega (
      arith,
      order-max_level-cons (propagate l) (map propagate ls),
      order-propagate-le l,
      propagated_le m ds ls ps,
    )

    range_close :
        (m : Map BumpLevel) (n : String) (ls : List BumpLevel)
        → IsNode own es n
        → RangeInv m
        → Posts InRange m (targets es n) ls
        → RangeInv (put n (max_level (base_level own n ∷ map propagate ls)) m)
          × InRange m n (max_level (base_level own n ∷ map propagate ls))
    range_close m n ls node i p =
        let l = max_level (base_level own n ∷ map propagate ls) in
        let range : InRange m n l = omega (
          arith,
          order-max_level-cons (base_level own n) (map propagate ls),
          propagated_le m (targets es n) ls p,
          bounded n node,
        ) in
        (
          record {
            at =
                λ k x h. ground (arith, lookup-put n k l m, eq_iff n k, i.at k x, range.0, range.1);
          },
          range,
        )

    range_rules : IsInvariant own es RangeInv (λ visiting n. Unit {0}) InRange
    range_rules = record {
      mono = λ m m' n l ext p. p;
      hit = λ m n l i h. i.at n l h;
      back = λ m visiting n node i p h. (omega arith, bounded n node);
      down = λ visiting n d p h. tt;
      close = λ m n ls node i h p. range_close m n ls node i p;
    }

  -- On every graph, cyclic or not, `effective_levels` returns, and gives each node a level that is
  -- at least its own and at most any bound on the own levels of all nodes.
  pub effective_levels_bounds :
      (bound : ℕ)
      → ((n : String) → IsNode own es n → order (base_level own n) ≤ bound)
      → (result : Map BumpLevel) × (effective_levels own es ≡ some result)
        × ((n : String)
            → IsNode own es n
            → (l : BumpLevel) × (lookup n result ≡ some l)
              × (order (base_level own n) ≤ order l)
              × (order l ≤ bound))
  effective_levels_bounds bound bounded =
      let (result, runs, s) =
        effective_levels_rule own es (RangeInv bound bounded) (λ v n. Unit {0})
          (InRange bound bounded) (range_rules bound bounded) (λ n. tt)
          (record { at = λ n l h. cc (h, lookup-nil {V = BumpLevel} n) }) in
      (
        result,
        runs,
        λ n node.
            let (l, found, p) = s.solved n (In-keys_of_IsNode own es n node) in
            (l, found, p.0, p.1),
      )

  -- In an acyclic graph no back edge is met, and each memoised level solves the equation.
  abbrev Known : Map BumpLevel → String → BumpLevel → Type 0
  Known m n l = lookup n m ≡ some l

  record EquationInv (m : Map BumpLevel) : Type 0 where
    at :
        (n : String) (l : BumpLevel)
        → lookup n m ≡ some l
        → (ls : List BumpLevel) × Posts Known m (targets es n) ls
          × (l ≡ max_level (base_level own n ∷ map propagate ls))

  -- Every node that is being visited has a path of at least one edge to the node.
  record LeadsTo (visiting : List String) (n : String) : Type 0 where
    path : (v : String) → In v visiting → (u : String) × In (v, u) es × Reach es u n

  leads_down :
      (visiting : List String) (n d : String)
      → LeadsTo visiting n
      → In d (targets es n)
      → LeadsTo (n ∷ visiting) d
  leads_down visiting n d p m = record {
    path = λ v q.
        ⊎_elim (λ e. rw e (d, (In-targets es n d).0 m, here))
          (λ old. let (u, e, r) = p.path v old in (u, e, step r ((In-targets es n d).0 m))) q;
  }

  equation_close :
      (m : Map BumpLevel) (n : String) (ls : List BumpLevel)
      → EquationInv m
      → lookup n m ≡ none
      → Posts Known m (targets es n) ls
      → EquationInv (put n (max_level (base_level own n ∷ map propagate ls)) m)
  equation_close m n ls i new p = record { at = λ k x h. case k x h (extend k x h) }
    where
      l : BumpLevel
      l = max_level (base_level own n ∷ map propagate ls)

      kept : (k : String) (x : BumpLevel) → lookup k m ≡ some x → lookup k (put n l m) ≡ some x
      kept k x h = ground (arith, lookup-put n k l m, eq_iff n k)

      extend :
          (k : String) (x : BumpLevel)
          → lookup k (put n l m) ≡ some x
          → ((k ≡ n) × (x ≡ l)) ⊎ (lookup k m ≡ some x)
      extend k x h = ground (arith, lookup-put n k l m, eq_iff n k)

      posts :
          (ds : List String) (xs : List BumpLevel)
          → Posts Known m ds xs
          → Posts Known (put n l m) ds xs
      posts [] [] q = tt
      posts [] (x ∷ xs) q = absurd q
      posts (d ∷ ds) [] q = absurd q
      posts (d ∷ ds) (x ∷ xs) (q, qs) = (kept d x q, posts ds xs qs)

      case :
          (k : String) (x : BumpLevel)
          → lookup k (put n l m) ≡ some x
          → ((k ≡ n) × (x ≡ l)) ⊎ (lookup k m ≡ some x)
          → (xs : List BumpLevel) × Posts Known (put n l m) (targets es k) xs
            × (x ≡ max_level (base_level own k ∷ map propagate xs))
      case k x h (inl (e, e')) = rw e (ls, posts (targets es n) ls p, e')
      case k x h (inr old) = let (xs, ps, eq) = i.at k x old in (xs, posts (targets es k) xs ps, eq)

  equation_rules : IsAcyclic es → IsInvariant own es EquationInv LeadsTo Known
  equation_rules acyclic = record {
    mono = λ m m' n l ext p. ext n l p;
    hit = λ m n l i h. h;
    back = λ m visiting n node i p h.
        let (u, e, r) = p.path n ((contains_iff n visiting).0 h) in
        absurd (acyclic.no_cycle n u e r);
    down = leads_down;
    close = λ m n ls node i h p. (
      equation_close m n ls i h p,
      ground
          (arith, lookup-put n n (max_level (base_level own n ∷ map propagate ls)) m, eq_iff n n),
    );
  }

  propagated :
      (m result : Map BumpLevel) (ds : List String) (ls : List BumpLevel)
      → ((d : String) → In d ds → (l : BumpLevel) × (lookup d result ≡ some l) × Known m d l)
      → Posts Known m ds ls
      → map propagate ls ≡ map (λ d. propagate (level_in result d)) ds
  propagated m result [] [] s p = refl
  propagated m result [] (l ∷ ls) s p = absurd p
  propagated m result (d ∷ ds) [] s p = absurd p
  propagated m result (d ∷ ds) (l ∷ ls) s (p, ps) =
      let (l', found, known) = s d (inl refl) in
      ground (arith, propagated m result ds ls (λ x q. s x (inr q)) ps)

  pub solves_at_nodes :
      IsAcyclic es
      → (result : Map BumpLevel) × (effective_levels own es ≡ some result)
        × ((n : String)
            → IsNode own es n
            → lookup n result
              ≡ some (
                  max_level
                    (base_level own n ∷ map (λ d. propagate (level_in result d)) (targets es n))))
  solves_at_nodes acyclic =
      let (result, runs, s) =
        effective_levels_rule own es EquationInv LeadsTo Known (equation_rules acyclic)
          (λ n. record { path = λ v m. absurd m })
          (record { at = λ n l h. cc (h, lookup-nil {V = BumpLevel} n) }) in
      (
        result,
        runs,
        λ n node.
            let (l, found, known) = s.solved n (In-keys_of_IsNode own es n node) in
            let (ls, ps, eq) = s.inv.at n l known in
            found
            ∙ ap some (
                eq
                ∙ ap (λ (xs : List BumpLevel). max_level (base_level own n ∷ xs))
                    (propagated s.memo result (targets es n) ls
                      (λ d m.
                        s.solved d (In-keys_of_IsNode own es d (IsNode-of_target own es n d m)))
                      ps)),
      )

  -- The level that a component is given, or `major` where none is.
  abbrev pub own_level : String → BumpLevel
  own_level n = Option.get_or (lookup n own) BumpLevel.major

  -- On an acyclic graph there is a result, and it solves the defining equation at every component
  -- that has a level of its own and at both ends of every edge: the effective level is the maximum
  -- of the own level, `major` where none is given, and the propagated effective levels of the
  -- targets of the node's edges.
  pub effective_levels-solves :
      IsAcyclic es
      → (result : Map BumpLevel) × (effective_levels own es ≡ some result)
        × ((n : String)
            → IsMember own es n
            → lookup n result
              ≡ some (
                  max_level
                    (own_level n ∷ map (λ d. propagate (level_in result d)) (targets es n))))
  effective_levels-solves acyclic =
      let (result, runs, solves) = solves_at_nodes acyclic in
      (result, runs, λ n member. solves n (IsNode-of_member own es n member))
