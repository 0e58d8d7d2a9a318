-- ===== src/Domain/BumpPropagation/Dependencies.antt =====
-- The dictionary that `effective_levels` builds: every active component and every end of an edge is
-- a key, with the targets of its edges.
use lavs_core.Prelude.{
  subst, ◌≡◌, refl, ap, sym, inl, inr, ◌⊎◌, Bool, true, false, ◌||◌, none, some, List, [], ◌∷◌,
  ◌++◌, foldl, String, str_eq, eq_iff, arith, if◌then◌else◌, Map, lookup, lookup-put, keys, In,
  In-keys_of_lookup, lookup_of_In-keys, Bool-cases,
}
use mathlib.Core.List.{append_assoc, append-nil}
use mathlib.Core.Option
use lavs_core.Domain.BumpLevel.{BumpLevel}
use lavs_core.Domain.DependencyGraph.{Edge}
use lavs_core.Domain.DependencyGraph.Adjacency.{targets}
use lavs_core.Domain.DependencyGraph.Search.{In-targets}
use lavs_core.Domain.BumpPropagation.{
  setdefault, add_edge, no_dependencies, dependencies, base_level, base_levels,
}

abbrev has : Map (List String) → String → Bool
has deps n = elim (lookup n deps) [ none ↦ false | some _ ↦ true ]

abbrev deps_of : Map (List String) → String → List String
deps_of deps n = Option.get_or (lookup n deps) []

abbrev is_end : List Edge → String → Bool
is_end [] n = false
is_end ((a, b) ∷ es) n = str_eq a n || (str_eq b n || is_end es n)

has-setdefault :
    (n m : String) (deps : Map (List String))
    → has (setdefault m deps) n ≡ (has deps n || str_eq m n)
unfolding setdefault
has-setdefault n m deps = ground (arith, lookup-put m n [] deps, eq_iff m n)

deps_of-setdefault :
    (n m : String) (deps : Map (List String)) → deps_of (setdefault m deps) n ≡ deps_of deps n
unfolding setdefault
deps_of-setdefault n m deps = ground (arith, lookup-put m n [] deps, eq_iff m n)

has-add_edge :
    (n a b : String) (deps : Map (List String))
    → has (add_edge deps (a, b)) n ≡ (has deps n || (str_eq a n || str_eq b n))
unfolding add_edge
has-add_edge n a b deps =
    let d' = setdefault b (setdefault a deps) in
    ground (
      arith,
      lookup-put a n (deps_of d' a ++ b ∷ []) d',
      eq_iff a n,
      has-setdefault n b (setdefault a deps),
      has-setdefault n a deps,
    )

deps_of-add_edge :
    (n a b : String) (deps : Map (List String))
    → deps_of (add_edge deps (a, b)) n ≡ deps_of deps n ++ (if str_eq a n then b ∷ [] else [])
unfolding add_edge
deps_of-add_edge n a b deps =
    let d' = setdefault b (setdefault a deps) in
    ground (
      arith,
      lookup-put a n (deps_of d' a ++ b ∷ []) d',
      eq_iff a n,
      deps_of-setdefault n b (setdefault a deps),
      deps_of-setdefault n a deps,
      append-nil (deps_of deps n),
    )

has-foldl :
    (n : String) (deps : Map (List String)) (es : List Edge)
    → has (foldl add_edge deps es) n ≡ (has deps n || is_end es n)
has-foldl n deps [] = ground arith
has-foldl n deps ((a, b) ∷ es) =
    ground (arith, has-foldl n (add_edge deps (a, b)) es, has-add_edge n a b deps)

deps_of-foldl :
    (n : String) (deps : Map (List String)) (es : List Edge)
    → deps_of (foldl add_edge deps es) n ≡ deps_of deps n ++ targets es n
deps_of-foldl n deps [] = sym (append-nil (deps_of deps n))
deps_of-foldl n deps ((a, b) ∷ es) = ground (
  arith,
  deps_of-foldl n (add_edge deps (a, b)) es,
  deps_of-add_edge n a b deps,
  append_assoc (deps_of deps n) (b ∷ []) (targets es n),
  append-nil (deps_of deps n),
)

deps_of-no_dependencies : (n : String) (own : Map BumpLevel) → deps_of (no_dependencies own) n ≡ []
unfolding lookup
deps_of-no_dependencies n [] = refl
deps_of-no_dependencies n ((k, l) ∷ own) = ground (arith, deps_of-no_dependencies n own)

has-no_dependencies :
    (n : String) (own : Map BumpLevel) (l : BumpLevel)
    → lookup n own ≡ some l
    → has (no_dependencies own) n ≡ true
unfolding lookup
has-no_dependencies n [] l h = cc
has-no_dependencies n ((k, m) ∷ own) l h = ground (arith, has-no_dependencies n own l)

module _ (own : Map BumpLevel) (es : List Edge) where
  -- A node of the graph, with its targets.
  abbrev pub IsNode : String → Type 0
  IsNode n = lookup n (dependencies own es) ≡ some (targets es n)

  IsNode-of_has : (n : String) → has (dependencies own es) n ≡ true → IsNode n
  unfolding dependencies
  IsNode-of_has n h =
      ground (arith, deps_of-foldl n (no_dependencies own) es, deps_of-no_dependencies n own)

  pub IsNode-of_own : (n : String) (l : BumpLevel) → lookup n own ≡ some l → IsNode n
  IsNode-of_own n l h = IsNode-of_has n (
      unfold dependencies in
      ground (arith, has-foldl n (no_dependencies own) es, has-no_dependencies n own l))

  is_end_of_In : (es' : List Edge) (n m : String) → In (n, m) es' → is_end es' m ≡ true
  is_end_of_In [] n m h = absurd h
  is_end_of_In ((a, b) ∷ es') n m (inl e) = ground (arith, eq_iff b m, ap (λ (x : Edge). x.1) e)
  is_end_of_In ((a, b) ∷ es') n m (inr h) = ground (arith, is_end_of_In es' n m h)

  pub IsNode-of_edge : (n m : String) → In (n, m) es → IsNode m
  IsNode-of_edge n m h = IsNode-of_has m (
      unfold dependencies in
      ground (arith, has-foldl m (no_dependencies own) es, is_end_of_In es n m h))

  is_end_of_source : (es' : List Edge) (n m : String) → In (n, m) es' → is_end es' n ≡ true
  is_end_of_source [] n m h = absurd h
  is_end_of_source ((a, b) ∷ es') n m (inl e) = ground (arith, eq_iff a n, ap (λ (x : Edge). x.0) e)
  is_end_of_source ((a, b) ∷ es') n m (inr h) = ground (arith, is_end_of_source es' n m h)

  -- A component with a level of its own, or an end of an edge.
  abbrev pub IsMember : String → Type 0
  IsMember n = In n (keys own) ⊎ ((m : String) × (In (n, m) es ⊎ In (m, n) es))

  pub IsNode-of_member : (n : String) → IsMember n → IsNode n
  IsNode-of_member n (inl m) = let (l, e) = lookup_of_In-keys n own m in IsNode-of_own n l e
  IsNode-of_member n (inr (m, inr h)) = IsNode-of_edge m n h
  IsNode-of_member n (inr (m, inl h)) = IsNode-of_has n (
      unfold dependencies in
      ground (arith, has-foldl n (no_dependencies own) es, is_end_of_source es n m h))

  pub IsNode-of_target : (n m : String) → In m (targets es n) → IsNode m
  IsNode-of_target n m h = IsNode-of_edge n m ((In-targets es n m).0 h)

  pub IsNode-of_key : (n : String) → In n (keys (dependencies own es)) → IsNode n
  IsNode-of_key n h =
      let (v, e) = lookup_of_In-keys n (dependencies own es) h in IsNode-of_has n (ground arith)

  pub In-keys_of_IsNode : (n : String) → IsNode n → In n (keys (dependencies own es))
  In-keys_of_IsNode n h = In-keys_of_lookup n (targets es n) (dependencies own es) h

  lookup-base_levels :
      (n : String) (deps : Map (List String)) (ds : List String)
      → lookup n deps ≡ some ds
      → lookup n (base_levels own deps) ≡ some (base_level own n)
  unfolding lookup
  lookup-base_levels n [] ds h = cc
  lookup-base_levels n ((k, ks) ∷ deps) ds h =
      ground (arith, eq_iff k n, lookup-base_levels n deps ds)

  pub lookup-base :
      (n : String)
      → IsNode n
      → lookup n (base_levels own (dependencies own es)) ≡ some (base_level own n)
  lookup-base n h = lookup-base_levels n (dependencies own es) (targets es n) h

  In-of_has_own :
      (n : String) (own' : Map BumpLevel) → has (no_dependencies own') n ≡ true → In n (keys own')
  unfolding lookup
  In-of_has_own n [] h = cc
  In-of_has_own n ((k, l) ∷ own') h = ground (arith, eq_iff k n, In-of_has_own n own')

  In-of_end :
      (es' : List Edge) (n : String)
      → ((u v : String) → In (u, v) es' → In u (keys own) × In v (keys own))
      → is_end es' n ≡ true
      → In n (keys own)
  In-of_end [] n closed h = cc
  In-of_end ((a, b) ∷ es') n closed h =
      let (a_in, b_in) = closed a b (inl refl) in
      elim (Bool-cases (str_eq a n)) [
        | inl e ↦ subst (λ x. In x (keys own)) ((eq_iff a n).0 e) a_in
        | inr ne ↦ elim (Bool-cases (str_eq b n)) [
          | inl e ↦ subst (λ x. In x (keys own)) ((eq_iff b n).0 e) b_in
          | inr ne' ↦ In-of_end es' n (λ u v m. closed u v (inr m)) (ground arith)
        ]
      ]

  -- Where both ends of every edge are active, the nodes are the active components.
  pub In-keys_of_node :
      ((u v : String) → In (u, v) es → In u (keys own) × In v (keys own))
      → (n : String) → IsNode n
      → In n (keys own)
  In-keys_of_node closed n node = elim (Bool-cases (has (no_dependencies own) n)) [
    | inl h ↦ In-of_has_own n own h
    | inr h ↦
        In-of_end es n closed
          (unfold dependencies in ground (arith, has-foldl n (no_dependencies own) es))
  ]
