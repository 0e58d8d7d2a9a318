-- ===== src/Domain/BumpPropagation/Induction.antt =====
-- One rule for the walk: it ends within its fuel, it leaves `visiting` as it was, and it keeps an
-- invariant of the memo that its four steps keep.
use lavs_core.Prelude.{
  ℕ, zero, suc, ◌+◌, ◌<◌, ◌≤◌, ◌≡◌, refl, sym, ◌∙◌, inl, inr, true, false, none, some, List, [],
  ◌∷◌, map, String, str_eq, eq_iff, arith, if◌then◌else◌, Map, lookup, put, lookup-put, keys, In,
  Bool-cases, Option-cases, length, subst, ⊎_elim,
}
use lavs_core.Domain.BumpLevel.{BumpLevel, propagate, max_level}
use lavs_core.Domain.DependencyGraph.{Edge, contains}
use lavs_core.Domain.DependencyGraph.Adjacency.{targets}
use lavs_core.Domain.BumpPropagation.{
  Walk, dependencies, base_level, base_levels, contributions, discard, finish, effective,
  effective_all, effective_levels,
}
use lavs_core.Domain.BumpPropagation.Dependencies.{
  IsNode, IsNode-of_target, IsNode-of_key, In-keys_of_IsNode, lookup-base,
}

abbrev unvisited : List String → List String → ℕ
unvisited [] visiting = 0
unvisited (k ∷ ks) visiting =
    if contains k visiting then unvisited ks visiting else suc (unvisited ks visiting)

unvisited-cons-le :
    (ks visiting : List String) (n : String) → unvisited ks (n ∷ visiting) ≤ unvisited ks visiting
unvisited-cons-le [] visiting n = omega arith
unvisited-cons-le (k ∷ ks) visiting n = ground (arith, unvisited-cons-le ks visiting n)

unvisited-cons-lt :
    (ks visiting : List String) (n : String)
    → In n ks
    → contains n visiting ≡ false
    → unvisited ks (n ∷ visiting) < unvisited ks visiting
unvisited-cons-lt [] visiting n m h = absurd m
unvisited-cons-lt (k ∷ ks) visiting n (inl e) h =
    ground (arith, eq_iff n k, unvisited-cons-le ks visiting n)
unvisited-cons-lt (k ∷ ks) visiting n (inr m) h =
    ground (arith, unvisited-cons-lt ks visiting n m h)

pub unvisited-le-length : (ks : List String) → unvisited ks [] ≤ length ks
unvisited-le-length [] = omega arith
unvisited-le-length (k ∷ ks) = omega (arith, unvisited-le-length ks)

discard_absent :
    (n : String) (visiting : List String)
    → contains n visiting ≡ false
    → discard n visiting ≡ visiting
discard_absent n [] h = refl
discard_absent n (v ∷ visiting) h = ground (arith, discard_absent n visiting)

discard-cons :
    (n : String) (visiting : List String)
    → contains n visiting ≡ false
    → discard n (n ∷ visiting) ≡ visiting
discard-cons n visiting h = ground (arith, discard_absent n visiting h, eq_iff n n)

abbrev pub Posts :
    (Map BumpLevel → String → BumpLevel → Type 0)
    → Map BumpLevel
    → List String
    → List BumpLevel
    → Type 0
Posts Post m [] [] = Unit
Posts Post m (d ∷ ds) (l ∷ ls) = Post m d l × Posts Post m ds ls
Posts Post m _ _ = ⊥

-- What a walk from `w` to `w'` keeps.
pub record Keeps (Inv : Map BumpLevel → Type 0) (w w' : Walk) : Type 0 where
  pub visiting : w'.visiting ≡ w.visiting
  pub inv : Inv w'.memo
  pub extends : (k : String) (l : BumpLevel) → lookup k w.memo ≡ some l → lookup k w'.memo ≡ some l
  pub frame : (k : String) → contains k w.visiting ≡ true → lookup k w'.memo ≡ lookup k w.memo

Keeps-trans :
    {Inv : Map BumpLevel → Type 0} {u v w : Walk} → Keeps Inv u v → Keeps Inv v w → Keeps Inv u w
Keeps-trans a b = record {
  visiting = b.visiting ∙ a.visiting;
  inv = b.inv;
  extends = λ k l h. b.extends k l (a.extends k l h);
  frame = λ k h. b.frame k (rw a.visiting h) ∙ a.frame k h;
}

module _ (own : Map BumpLevel) (es : List Edge) (Inv : Map BumpLevel → Type 0)
    (IsPath : List String → String → Type 0)
    (Post : Map BumpLevel → String → BumpLevel → Type 0) where
  -- The steps of the walk, as the invariant sees them.
  pub record IsInvariant : Type 0 where
    pub mono :
        (m m' : Map BumpLevel) (n : String) (l : BumpLevel)
        → ((k : String) (x : BumpLevel) → lookup k m ≡ some x → lookup k m' ≡ some x)
        → Post m n l
        → Post m' n l
    pub hit :
        (m : Map BumpLevel) (n : String) (l : BumpLevel) → Inv m → lookup n m ≡ some l → Post m n l
    pub back :
        (m : Map BumpLevel) (visiting : List String) (n : String)
        → IsNode own es n
        → Inv m
        → IsPath visiting n
        → contains n visiting ≡ true
        → Post m n (base_level own n)
    pub down :
        (visiting : List String) (n d : String)
        → IsPath visiting n
        → In d (targets es n)
        → IsPath (n ∷ visiting) d
    pub close :
        (m : Map BumpLevel) (n : String) (ls : List BumpLevel)
        → IsNode own es n
        → Inv m
        → lookup n m ≡ none
        → Posts Post m (targets es n) ls
        → Inv (put n (max_level (base_level own n ∷ map propagate ls)) m)
          × Post
              (put n (max_level (base_level own n ∷ map propagate ls)) m)
              n
              (max_level (base_level own n ∷ map propagate ls))

  abbrev deps : Map (List String)
  deps = dependencies own es

  abbrev base : Map BumpLevel
  base = base_levels own deps

  pub record Visited (fuel : ℕ) (n : String) (w : Walk) : Type 0 where
    pub level : BumpLevel
    pub after : Walk
    pub runs : effective deps base fuel n w ≡ some (level, after)
    pub keeps : Keeps Inv w after
    pub post : Post after.memo n level

  record Contributed (fuel : ℕ) (ds : List String) (w : Walk) : Type 0 where
    levels : List BumpLevel
    after : Walk
    runs : contributions (effective deps base fuel) ds w ≡ some (map propagate levels, after)
    keeps : Keeps Inv w after
    posts : Posts Post after.memo ds levels

  module _ (rules : IsInvariant) where
    pub Posts-mono :
        (m m' : Map BumpLevel) (ds : List String) (ls : List BumpLevel)
        → ((k : String) (x : BumpLevel) → lookup k m ≡ some x → lookup k m' ≡ some x)
        → Posts Post m ds ls
        → Posts Post m' ds ls
    Posts-mono m m' [] [] ext p = tt
    Posts-mono m m' [] (l ∷ ls) ext p = absurd p
    Posts-mono m m' (d ∷ ds) [] ext p = absurd p
    Posts-mono m m' (d ∷ ds) (l ∷ ls) ext (p, ps) =
        (rules.mono m m' d l ext p, Posts-mono m m' ds ls ext ps)

    visit_list :
        (fuel : ℕ) (n : String) (visiting : List String)
        → ((d : String) (w : Walk)
            → IsNode own es d
            → Inv w.memo
            → IsPath w.visiting d
            → w.visiting ≡ visiting
            → Visited fuel d w)
        → (ds : List String) (w : Walk)
        → ((d : String) → In d ds → IsNode own es d × IsPath visiting d)
        → Inv w.memo
        → w.visiting ≡ visiting
        → Contributed fuel ds w
    unfolding contributions
    visit_list fuel n visiting visit [] w ok i e = record {
      levels = [];
      after = w;
      runs = refl;
      keeps = record { visiting = refl; inv = i; extends = λ k l h. h; frame = λ k h. refl };
      posts = tt;
    }
    visit_list fuel n visiting visit (d ∷ ds) w ok i e =
        let first = visit d w (ok d (inl refl)).0 i (rw e (ok d (inl refl)).1) e in
        let rest =
          visit_list fuel n visiting visit ds first.after (λ x m. ok x (inr m)) first.keeps.inv
            (first.keeps.visiting ∙ e) in
        record {
          levels = first.level ∷ rest.levels;
          after = rest.after;
          runs = rw (first.runs, rest.runs, contributions);
          keeps = Keeps-trans first.keeps rest.keeps;
          posts = (rules.mono _ _ d first.level rest.keeps.extends first.post, rest.posts);
        }

    pub visit :
        (fuel : ℕ) (n : String) (w : Walk)
        → IsNode own es n
        → Inv w.memo
        → IsPath w.visiting n
        → unvisited (keys deps) w.visiting < fuel
        → Visited fuel n w
    unfolding effective
    visit zero n w node i p enough = absurd (omega arith)
    visit (suc fuel) n w node i p enough = elim (Option-cases (lookup n w.memo)) [
      | inr (l, known) ↦ record {
        level = l;
        after = w;
        runs = rw (known, effective);
        keeps = record { visiting = refl; inv = i; extends = λ k x h. h; frame = λ k h. refl };
        post = rules.hit w.memo n l i known;
      }
      | inl new ↦ elim (Bool-cases (contains n w.visiting)) [
        | inl cyclic ↦ record {
          level = base_level own n;
          after = w;
          runs = ground (arith, lookup-base own es n node);
          keeps = record { visiting = refl; inv = i; extends = λ k x h. h; frame = λ k h. refl };
          post = rules.back w.memo w.visiting n node i p cyclic;
        }
        | inr fresh ↦
            let inner =
              visit_list fuel n (n ∷ w.visiting)
                (λ d w' node' i' p' e'. visit fuel d w' node' i' p' (
                  rw e' (
                    omega (
                      arith,
                      unvisited-cons-lt (keys deps) w.visiting n (In-keys_of_IsNode own es n node)
                          fresh,
                    ))))
                (targets es n) (record w { visiting = n ∷ w.visiting })
                (λ d m. (IsNode-of_target own es n d m, rules.down w.visiting n d p m)) i refl in
            let absent = inner.keeps.frame n (ground (arith, eq_iff n n)) ∙ new in
            let closed =
              rules.close inner.after.memo n inner.levels node inner.keeps.inv absent inner.posts in
            record {
              level = max_level (base_level own n ∷ map propagate inner.levels);
              after = record {
                memo =
                    put n (max_level (base_level own n ∷ map propagate inner.levels))
                      inner.after.memo;
                visiting = discard n inner.after.visiting;
              };
              runs =
                  rw (new, effective)
                    (rw (fresh, effective)
                      (rw (node, effective)
                        (unfold finish in rw (lookup-base own es n node, inner.runs) refl)));
              keeps = record {
                visiting = rw inner.keeps.visiting (discard-cons n w.visiting fresh);
                inv = closed.0;
                extends = λ k l h. ground (
                  arith,
                  lookup-put n k (result inner.levels) inner.after.memo,
                  eq_iff n k,
                  inner.keeps.extends k l,
                );
                frame = λ k h. ground (
                  arith,
                  lookup-put n k (result inner.levels) inner.after.memo,
                  eq_iff n k,
                  inner.keeps.frame k,
                );
              };
              post = closed.1;
            }
      ]
    ]
      where
        result : List BumpLevel → BumpLevel
        result levels = max_level (base_level own n ∷ map propagate levels)

    -- The result of the whole walk, read against the final memo.
    pub record Solved (result : Map BumpLevel) (nodes : List String) : Type 0 where
      pub memo : Map BumpLevel
      pub inv : Inv memo
      pub solved :
          (n : String) → In n nodes → (l : BumpLevel) × (lookup n result ≡ some l) × Post memo n l

    visit_nodes :
        (fuel : ℕ) (nodes : List String) (w : Walk)
        → ((n : String) → In n nodes → IsNode own es n)
        → ((n : String) → IsPath [] n)
        → Inv w.memo
        → w.visiting ≡ []
        → unvisited (keys deps) [] < fuel
        → (result : Map BumpLevel) × (effective_all deps base fuel nodes w ≡ some result)
          × (s : Solved result nodes) × ((k : String) (x : BumpLevel)
              → lookup k w.memo ≡ some x
              → lookup k s.memo ≡ some x)
    unfolding effective_all lookup
    visit_nodes fuel [] w node path i e enough =
        ([], refl, record { memo = w.memo; inv = i; solved = λ n m. absurd m }, λ k x h. h)
    visit_nodes fuel (n ∷ nodes) w node path i e enough =
        let v = visit fuel n w (node n (inl refl)) i (rw e (path n)) (rw e enough) in
        let (result, runs, s, ext) =
          visit_nodes fuel nodes v.after (λ k m. node k (inr m)) path v.keeps.inv
            (v.keeps.visiting ∙ e) enough in
        let here = rules.mono v.after.memo s.memo n v.level ext v.post in
        (
          (n, v.level) ∷ result,
          rw (v.runs, effective_all) (rw (runs, effective_all) refl),
          record {
            memo = s.memo;
            inv = s.inv;
            solved = λ k m. elim (Bool-cases (str_eq n k)) [
              | inl same ↦
                  (v.level, rw same, subst (λ x. Post s.memo x v.level) ((eq_iff n k).0 same) here)
              | inr other ↦
                  let (l, found, p) =
                    s.solved k (⊎_elim (λ x. cc ((eq_iff n k).1 (sym x))) (λ q. q) m) in
                  (l, rw other found, p)
            ];
          },
          λ k x h. ext k x (v.keeps.extends k x h),
        )

    -- With an invariant that holds of the empty memo, `effective_levels` returns, and every node
    -- has a level with the postcondition.
    pub effective_levels_rule :
        ((n : String) → IsPath [] n)
        → Inv []
        → (result : Map BumpLevel) × (effective_levels own es ≡ some result)
          × Solved result (keys deps)
    unfolding effective_levels
    effective_levels_rule path i =
        let (result, runs, s, _) =
          visit_nodes (length (keys deps) + 1) (keys deps) (record { memo = []; visiting = [] })
            (λ n m. IsNode-of_key own es n m) path i refl
            (omega (arith, unvisited-le-length (keys deps))) in
        (result, runs, s)
