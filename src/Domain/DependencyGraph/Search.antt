-- ===== src/Domain/DependencyGraph/Search.antt =====
-- `is_reachable` ends within its fuel and decides reachability.
use lavs_core.Prelude.{
  ℕ, zero, suc, ◌+◌, ◌<◌, ◌≡◌, ◌↔◌, ◌⊎◌, inl, inr, ⊎_elim, refl, ap, sym, Bool, true, false, some,
  List, [], ◌∷◌, ◌++◌, reverse, String, str_eq, eq_iff, arith, if◌then◌else◌, length, length-append,
  length-reverse, Bool-cases, In, In-append_left, In-append_right, In-append, In-reverse,
  In-reverse_back,
}
use lavs_core.Domain.DependencyGraph.{
  Edge, adjacency, successors, contains, search_loop, search_fuel, is_reachable,
}
use lavs_core.Domain.DependencyGraph.Adjacency.{targets, successors-adjacency}

-- The paths along the edges.
pub data Reach (es : List Edge) (u : String) : String → Type 0 where
  here : Reach es u u
  step : {v w : String} → Reach es u v → In (v, w) es → Reach es u w

pub contains_iff : (node : String) (seen : List String) → (contains node seen ≡ true) ↔ In node seen
contains_iff node [] = (λ h. cc, absurd)
contains_iff node (s ∷ seen) = ground (arith, eq_iff s node, contains_iff node seen)

pub In-targets : (es : List Edge) (u v : String) → In v (targets es u) ↔ In (u, v) es
In-targets [] u v = (λ h. h, λ h. h)
In-targets ((a, b) ∷ es) u v = ground (arith, eq_iff a u, In-targets es u v)

-- The edges whose source has not been expanded.
abbrev waiting : List Edge → List String → ℕ
waiting [] seen = 0
waiting ((a, b) ∷ es) seen = if contains a seen then waiting es seen else suc (waiting es seen)

waiting-nil : (es : List Edge) → waiting es [] ≡ length es
waiting-nil [] = refl
waiting-nil (e ∷ es) = ap suc (waiting-nil es)

waiting-cons :
    (es : List Edge) (seen : List String) (u : String)
    → contains u seen ≡ false
    → waiting es (u ∷ seen) + length (targets es u) ≡ waiting es seen
waiting-cons [] seen u h = refl
waiting-cons ((a, b) ∷ es) seen u h =
    ground (arith, waiting-cons es seen u h, eq_iff a u, eq_iff u a)

module _ (es : List Edge) (target : String) where
  length-push :
      (node : String) (stack : List String)
      → length (reverse (successors (adjacency es) node) ++ stack)
        ≡ length (targets es node) + length stack
  length-push node stack = omega (
    arith,
    length-append (reverse (successors (adjacency es) node)) stack,
    length-reverse (successors (adjacency es) node),
    ap length (successors-adjacency es node),
  )

  pub search_loop_returns :
      (fuel : ℕ) (stack seen : List String)
      → length stack + waiting es seen < fuel
      → (b : Bool) × (search_loop (adjacency es) target fuel stack seen ≡ some b)
  unfolding search_loop
  search_loop_returns zero stack seen h = absurd (omega arith)
  search_loop_returns (suc fuel) [] seen h = (false, refl)
  search_loop_returns (suc fuel) (node ∷ stack) seen h = elim (Bool-cases (str_eq node target)) [
    | inl found ↦ (true, rw (found, search_loop))
    | inr other ↦ elim (Bool-cases (contains node seen)) [
      | inl old ↦
          let (b, e) = search_loop_returns fuel stack seen (omega arith) in (b, ground arith)
      | inr new ↦
          let (b, e) =
            search_loop_returns fuel (reverse (successors (adjacency es) node) ++ stack)
              (node ∷ seen)
              (omega (arith, length-push node stack, waiting-cons es seen node new)) in
          (b, ground arith)
    ]
  ]

  In-push :
      (node v : String) (stack : List String)
      → In v (reverse (successors (adjacency es) node) ++ stack) ↔ (In (node, v) es ⊎ In v stack)
  In-push node v stack = (
    λ m.
        ⊎_elim
          (λ r. inl (
            (In-targets es node v).0 (
              rw (successors-adjacency es node) at
                (In-reverse_back v (successors (adjacency es) node) r))))
          inr (In-append v (reverse (successors (adjacency es) node)) stack m),
    ⊎_elim
        (λ e. In-append_left v (reverse (successors (adjacency es) node)) stack (
          In-reverse v (successors (adjacency es) node)
            (rw (successors-adjacency es node) ((In-targets es node v).1 e))))
        (In-append_right v (reverse (successors (adjacency es) node)) stack),
  )

  -- What is on the stack has been reached.
  sound :
      (start : String) (fuel : ℕ) (stack seen : List String)
      → ((v : String) → In v stack → Reach es start v)
      → search_loop (adjacency es) target fuel stack seen ≡ some true
      → Reach es start target
  unfolding search_loop
  sound start zero stack seen r h = cc
  sound start (suc fuel) [] seen r h = cc
  sound start (suc fuel) (node ∷ stack) seen r h = elim (Bool-cases (str_eq node target)) [
    | inl found ↦ rw (← (eq_iff node target).0 found) (r node (inl refl))
    | inr other ↦ elim (Bool-cases (contains node seen)) [
      | inl old ↦ sound start fuel stack seen (λ v m. r v (inr m)) (ground arith)
      | inr new ↦
          sound start fuel (reverse (successors (adjacency es) node) ++ stack) (node ∷ seen)
            (λ v m.
              ⊎_elim (λ e. step (r node (inl refl)) e) (λ q. r v (inr q))
                ((In-push node v stack).0 m))
            (ground arith)
    ]
  ]

  record Inv (start : String) (stack seen : List String) : Type 0 where
    source : In start seen ⊎ In start stack
    fresh : In target seen → ⊥
    closed : (u v : String) → In u seen → In (u, v) es → In v seen ⊎ In v stack

  all_seen :
      (start : String) (seen : List String)
      → Inv start [] seen
      → {v : String} → Reach es start v
      → In v seen
  all_seen start seen i here = ⊎_elim (λ m. m) absurd i.source
  all_seen start seen i (step {v = a} {w = b} p e) =
      ⊎_elim (λ m. m) absurd (i.closed a b (all_seen start seen i p) e)

  Inv-skip :
      (start node : String) (stack seen : List String)
      → In node seen
      → Inv start (node ∷ stack) seen
      → Inv start stack seen
  Inv-skip start node stack seen m i = record {
    source = ⊎_elim inl (⊎_elim (λ e. inl (rw e m)) inr) i.source;
    fresh = i.fresh;
    closed = λ u v q e. ⊎_elim inl (⊎_elim (λ x. inl (rw x m)) inr) (i.closed u v q e);
  }

  Inv-expand :
      (start node : String) (stack seen : List String)
      → str_eq node target ≡ false
      → Inv start (node ∷ stack) seen
      → Inv start (reverse (successors (adjacency es) node) ++ stack) (node ∷ seen)
  Inv-expand start node stack seen ne i = record {
    source =
        ⊎_elim (λ m. inl (inr m))
          (⊎_elim (λ e. inl (inl e)) (λ m. inr ((In-push node start stack).1 (inr m)))) i.source;
    fresh = ⊎_elim (λ e. cc ((eq_iff node target).1 (sym e))) i.fresh;
    closed = λ u v q e.
        ⊎_elim (λ x. inr ((In-push node v stack).1 (inl (subst_source u v x e))))
          (λ m.
            ⊎_elim (λ s. inl (inr s))
              (⊎_elim (λ x. inl (inl x)) (λ r. inr ((In-push node v stack).1 (inr r))))
              (i.closed u v m e))
          q;
  }
    where
      subst_source : (u v : String) → u ≡ node → In (u, v) es → In (node, v) es
      subst_source u v x e = rw (← x) e

  complete :
      (start : String) (fuel : ℕ) (stack seen : List String)
      → Inv start stack seen
      → search_loop (adjacency es) target fuel stack seen ≡ some false
      → ¬ Reach es start target
  unfolding search_loop
  complete start zero stack seen i h p = cc
  complete start (suc fuel) [] seen i h p = i.fresh (all_seen start seen i p)
  complete start (suc fuel) (node ∷ stack) seen i h p = elim (Bool-cases (str_eq node target)) [
    | inl found ↦ ground arith
    | inr other ↦ elim (Bool-cases (contains node seen)) [
      | inl old ↦
          complete start fuel stack seen
            (Inv-skip start node stack seen ((contains_iff node seen).0 old) i) (ground arith) p
      | inr new ↦
          complete start fuel (reverse (successors (adjacency es) node) ++ stack) (node ∷ seen)
            (Inv-expand start node stack seen other i) (ground arith) p
    ]
  ]

-- On every graph, cyclic or not, the search returns, and its answer says whether there is a path.
pub is_reachable_correct :
    (es : List Edge) (start target : String)
    → (b : Bool) × (is_reachable es start target ≡ some b) × ((b ≡ true) ↔ Reach es start target)
unfolding is_reachable
is_reachable_correct es start target =
    let (b, e) =
      search_loop_returns es target (search_fuel es) (start ∷ []) []
        (omega (arith, waiting-nil es)) in
    (b, e, decide b e)
  where
    decide :
        (b : Bool)
        → search_loop (adjacency es) target (search_fuel es) (start ∷ []) [] ≡ some b
        → (b ≡ true) ↔ Reach es start target
    decide true e = (
      λ _.
          sound es target start (search_fuel es) (start ∷ []) []
            (λ v m. ⊎_elim (λ x. rw x here) absurd m) e,
      λ _. refl,
    )
    decide false e = (
      λ h. cc,
      λ p. absurd (
          complete es target start (search_fuel es) (start ∷ []) []
            (record { source = inr (inl refl); fresh = λ h. h; closed = λ u v m. absurd m }) e p),
    )
