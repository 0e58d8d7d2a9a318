-- ===== src/Queries/Dependencies/Impact.antt =====
-- What the impact of a change is.
use lavs_core.Prelude.{
  ◌≡◌, ◌≢◌, refl, ap, sym, ◌∙◌, subst, Bool, true, false, not, ◌&&◌, some, List, [], ◌∷◌, ◌++◌, map,
  foldl, String, str_eq, eq_iff, arith, if◌then◌else◌, any, select, ok, In, inl, inr, ◌⊎◌, ⊎_elim,
  Bool-cases, ◌↔◌, Map, lookup, put, lookup-put, eq_of_some,
}
use lavs_core.Domain.BumpLevel.{BumpLevel, max_level, propagate}
use lavs_core.Domain.DependencyGraph.{Edge}
use lavs_core.Domain.DependencyGraph.Adjacency.{targets}
use lavs_core.Domain.DependencyGraph.Search.{Reach, here, step}
use lavs_core.Domain.DependencyGraph.Acyclic.{IsAcyclic}
use lavs_core.Domain.BumpPropagation.{base_level}
use lavs_core.Domain.BumpPropagation.Dependencies.{IsNode, IsNode-of_own}
use lavs_core.Domain.BumpPropagation.Levels.{level_in, solves_at_nodes}
use lavs_core.Domain.BumpPropagation.Reaches.{Source, reaches_at_nodes}
use lavs_core.Database.Tables.{Product, Component, World}
use lavs_core.Database.Rows.{any-select, In-select, In-to_select}
use lavs_core.Queries.Dependencies.{
  edges_of, component_ids, unchanged, hypothetical, impacted, impacted_here, impact,
}

abbrev none_own : Map BumpLevel → String → Map BumpLevel
none_own own c = put c BumpLevel.none own

lookup-foldl :
    (cs : List String) (own : Map BumpLevel) (n : String)
    → (In n cs) ⊎ (lookup n own ≡ some BumpLevel.none)
    → lookup n (foldl (λ own' c. put c BumpLevel.none own') own cs) ≡ some BumpLevel.none
lookup-foldl [] own n h = ⊎_elim absurd (λ e. e) h
lookup-foldl (c ∷ cs) own n h =
    lookup-foldl cs (put c BumpLevel.none own) n (next h (Bool-cases (str_eq c n)))
  where
    next :
        (In n (c ∷ cs)) ⊎ (lookup n own ≡ some BumpLevel.none)
        → (str_eq c n ≡ true) ⊎ (str_eq c n ≡ false)
        → (In n cs) ⊎ (lookup n (put c BumpLevel.none own) ≡ some BumpLevel.none)
    next k (inl e) = inr (lookup-put c n BumpLevel.none own ∙ rw e refl)
    next (inl (inl q)) (inr e) = cc (e, (eq_iff c n).1 (sym q))
    next (inl (inr m)) (inr e) = inl m
    next (inr q) (inr e) = inr (lookup-put c n BumpLevel.none own ∙ rw e q)

lookup-hypothetical :
    (changed : String) (ids : List String) (n : String)
    → In n ids
    → lookup n (hypothetical changed ids)
      ≡ some (if str_eq changed n then BumpLevel.major else BumpLevel.none)
lookup-hypothetical changed ids n m =
    lookup-put changed n BumpLevel.major (unchanged ids) ∙ chosen (Bool-cases (str_eq changed n))
  where
    chosen :
        (str_eq changed n ≡ true) ⊎ (str_eq changed n ≡ false)
        → (if str_eq changed n then some BumpLevel.major else lookup n (unchanged ids))
          ≡ some (if str_eq changed n then BumpLevel.major else BumpLevel.none)
    chosen (inl e) = rw e refl
    chosen (inr e) = rw e (lookup-foldl ids [] n (inl m))

-- The test of the comprehension, on the levels that the walk found.
abbrev is_none : BumpLevel → Bool
is_none BumpLevel.none = true
is_none _ = false

abbrev is_impacted : String → Map BumpLevel → String → Bool
is_impacted changed result c = not (str_eq c changed) && not (is_none (level_in result c))

abbrev with_level : Map BumpLevel → String → String × BumpLevel
with_level result c = (c, level_in result c)

here_lem :
    (changed c : String) (result : Map BumpLevel) (l : BumpLevel)
    → lookup c result ≡ some l
    → impacted_here changed result c
      ≡ some (if is_impacted changed result c then with_level result c ∷ [] else [])
unfolding impacted_here
here_lem changed c result BumpLevel.none h = ground (arith, h)
here_lem changed c result BumpLevel.patch h = ground (arith, h)
here_lem changed c result BumpLevel.minor h = ground (arith, h)
here_lem changed c result BumpLevel.major h = ground (arith, h)

with-append :
    (b : Bool) (x : String × BumpLevel) (xs : List (String × BumpLevel))
    → (if b then x ∷ [] else []) ++ xs ≡ (if b then x ∷ xs else xs)
with-append true x xs = refl
with-append false x xs = refl

map-if :
    (b : Bool) (f : String → String × BumpLevel) (c : String) (cs : List String)
    → map f (if b then c ∷ cs else cs) ≡ (if b then f c ∷ map f cs else map f cs)
map-if true f c cs = refl
map-if false f c cs = refl

impacted_lem :
    (changed : String) (result : Map BumpLevel) (cs : List String)
    → ((c : String) → In c cs → (l : BumpLevel) × (lookup c result ≡ some l))
    → impacted changed result cs
      ≡ some (map (with_level result) (select (is_impacted changed result) cs))
unfolding impacted
impacted_lem changed result [] known = refl
impacted_lem changed result (c ∷ cs) known =
    let (l, e) = known c (inl refl) in
    rw
      (
        here_lem changed c result l e,
        impacted_lem changed result cs (λ d m. known d (inr m)),
        impacted,
      )
      (ap some (
        with-append (is_impacted changed result c) (with_level result c)
          (map (with_level result) (select (is_impacted changed result) cs))
        ∙ sym (
            map-if (is_impacted changed result c) (with_level result) c
              (select (is_impacted changed result) cs))))

firsts :
    (result : Map BumpLevel) (cs : List String) → map (λ x. x.0) (map (with_level result) cs) ≡ cs
firsts result [] = refl
firsts result (c ∷ cs) = ap (λ ds. c ∷ ds) (firsts result cs)

is_none_iff : (l : BumpLevel) → (not (is_none l) ≡ true) ↔ (l ≢ BumpLevel.none)
is_none_iff BumpLevel.none = (λ e. cc, λ n. absurd (n refl))
is_none_iff BumpLevel.patch = (λ e n. cc, λ n. refl)
is_none_iff BumpLevel.minor = (λ e n. cc, λ n. refl)
is_none_iff BumpLevel.major = (λ e n. cc, λ n. refl)

module _ (product_id changed : String) (w : World) where
  abbrev edges : List Edge
  edges = edges_of product_id w.db

  abbrev ids : List String
  ids = component_ids product_id w.db

  abbrev own : Map BumpLevel
  own = hypothetical changed ids

  module _ (inside : (a b : String) → In (a, b) edges → In b ids) where
    stays_inside : {c t : String} → Reach edges c t → In c ids → In t ids
    stays_inside here m = m
    stays_inside (step {v = v} {w = u} p e) m = inside v u e

    base_changed : base_level own changed ≡ BumpLevel.major
    base_changed =
        rw
          (
            lookup-put changed changed BumpLevel.major (unchanged ids),
            (eq_iff changed changed).1 refl,
          )
          refl

    is_changed : (t : String) → In t ids → base_level own t ≢ BumpLevel.none → t ≡ changed
    is_changed t m h = elim (Bool-cases (str_eq changed t)) [
      | inl e ↦ sym ((eq_iff changed t).0 e)
      | inr e ↦ absurd (h (rw (lookup-hypothetical changed ids t m, e) refl))
    ]

    Source-iff : (c : String) → In c ids → Source own edges c ↔ Reach edges c changed
    Source-iff c m = (
      λ (t, path, has_level).
          subst (Reach edges c) (is_changed t (stays_inside path m) has_level) path,
      λ p. (changed, p, λ e. cc (base_changed, e)),
    )

    chosen_iff :
        (result : Map BumpLevel) (c : String)
        → (In c ids → (level_in result c ≢ BumpLevel.none) ↔ Source own edges c)
        → In c (select (is_impacted changed result) ids)
          ↔ (In c ids × (c ≢ changed) × Reach edges c changed)
    chosen_iff result c reaches = (
      λ m.
          let (stored, passes) = In-select (is_impacted changed result) c ids m in
          (
            stored,
            λ e. cc (other passes, (eq_iff c changed).1 e),
            (Source-iff c stored).0
                ((reaches stored).0 ((is_none_iff (level_in result c)).0 (some_level passes))),
          ),
      λ (stored, distinct, path). In-to_select (is_impacted changed result) c ids stored (
          both (different distinct) (
            (is_none_iff (level_in result c)).1
              ((reaches stored).1 ((Source-iff c stored).1 path)))),
    )
      where
        other : is_impacted changed result c ≡ true → str_eq c changed ≡ false
        other h = ground arith

        some_level : is_impacted changed result c ≡ true → not (is_none (level_in result c)) ≡ true
        some_level h = ground arith

        different : c ≢ changed → str_eq c changed ≡ false
        different n = ground (arith, eq_iff c changed)

        both :
            str_eq c changed ≡ false
            → not (is_none (level_in result c)) ≡ true
            → is_impacted changed result c ≡ true
        both h k = ground arith

  -- For a stored product, a component of it, and an acyclic graph whose edges end at components of
  -- the product, the impact of changing the component succeeds, changes nothing, and names exactly
  -- the components of the product, other than the changed one, that depend on it directly or
  -- through others.
  pub impact_lem :
      IsAcyclic edges
      → ((a b : String) → In (a, b) edges → In b ids)
      → any (λ p. str_eq p.id product_id) w.db.products ≡ true
      → any (λ c. str_eq c.id changed && str_eq c.product_id product_id) w.db.components ≡ true
      → (found : List (String × BumpLevel)) × (impact product_id changed w ≡ (ok found, w))
        × ((c : String)
            → In c (map (λ x. x.0) found) ↔ (In c ids × (c ≢ changed) × Reach edges c changed))
  unfolding impact
  impact_lem acyclic inside product component =
      let (result, runs, reaches) = reaches_at_nodes own edges acyclic in
      let (result', runs', solves) = solves_at_nodes own edges acyclic in
      let same : result' ≡ result = eq_of_some (sym runs' ∙ runs) in
      let node : ((c : String) → In c ids → IsNode own edges c) = λ c m.
        IsNode-of_own own edges c (if str_eq changed c then BumpLevel.major else BumpLevel.none)
          (lookup-hypothetical changed ids c m) in
      let known : ((c : String) → In c ids → (l : BumpLevel) × (lookup c result ≡ some l)) = λ c m.
        subst (λ r. (l : BumpLevel) × (lookup c r ≡ some l)) same
          (
            max_level
                (base_level own c ∷ map (λ d. propagate (level_in result' d)) (targets edges c)),
            solves c (node c m),
          ) in
      let (p, _, p_found) =
        any-select (λ (p : Product). str_eq p.id product_id) w.db.products product in
      let (k, _, k_found) =
        any-select (λ (c : Component). str_eq c.id changed && str_eq c.product_id product_id)
          w.db.components component in
      (
        map (with_level result) (select (is_impacted changed result) ids),
        rw (p_found, k_found, runs, impacted_lem changed result ids known) refl,
        λ c.
            subst (λ cs. In c cs ↔ (In c ids × (c ≢ changed) × Reach edges c changed))
              (sym (firsts result (select (is_impacted changed result) ids)))
              (chosen_iff inside result c (λ m. reaches c (node c m))),
      )
