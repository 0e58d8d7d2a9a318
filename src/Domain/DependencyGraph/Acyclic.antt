-- ===== src/Domain/DependencyGraph/Acyclic.antt =====
-- `would_create_cycle` is the guard that keeps the dependency graph acyclic.
use lavs_core.Prelude.{
  ◌≡◌, ◌⊎◌, ◌↔◌, inl, inr, ⊎_elim, refl, Bool, true, false, some, List, [], ◌∷◌, ◌++◌, String, In,
  In-append, In-append_left, In-append_right, subst, ap, sym, ◌∙◌, eq_of_some,
}
use mathlib.Core.Path.{subst₂}
use lavs_core.Domain.DependencyGraph.{Edge, would_create_cycle}
use lavs_core.Domain.DependencyGraph.Search.{Reach, here, step, is_reachable_correct}

-- No edge lies on a cycle.
pub record IsAcyclic (es : List Edge) : Type 0 where
  pub no_cycle : (u v : String) → In (u, v) es → ¬ Reach es v u

pub IsAcyclic-nil : IsAcyclic []
IsAcyclic-nil = record { no_cycle = λ u v m. absurd m }

pub Reach-trans : {es : List Edge} {u v w : String} → Reach es u v → Reach es v w → Reach es u w
Reach-trans p here = p
Reach-trans p (step q e) = step (Reach-trans p q) e

Reach-mono :
    {es fs : List Edge} {u v : String}
    → ((a b : String) → In (a, b) es → In (a, b) fs)
    → Reach es u v
    → Reach fs u v
Reach-mono sub here = here
Reach-mono sub (step {v = a} {w = b} p e) = step (Reach-mono sub p) (sub a b e)

-- A graph with fewer edges has no new cycle.
pub IsAcyclic-subset :
    {es fs : List Edge}
    → ((a b : String) → In (a, b) es → In (a, b) fs)
    → IsAcyclic fs
    → IsAcyclic es
IsAcyclic-subset sub h = record {
  no_cycle = λ u v m p. h.no_cycle u v (sub u v m) (Reach-mono sub p);
}

module _ (es : List Edge) (from_id to_id : String) where
  abbrev extended : List Edge
  extended = es ++ (from_id, to_id) ∷ []

  -- A path over the extended graph that uses the new edge goes through both of its ends.
  Reach-extended :
      {u v : String} → Reach extended u v → Reach es u v ⊎ (Reach es u from_id × Reach es to_id v)
  Reach-extended here = inl here
  Reach-extended {u} (step {v = a} {w = b} p e) =
      ⊎_elim
        (λ old. ⊎_elim (λ q. inl (step q old)) (λ (q, r). inr (q, step r old)) (Reach-extended p))
        (⊎_elim
          (λ new.
            let to_from : Reach es u from_id =
              ⊎_elim (λ q. subst_end (ap (λ (x : Edge). x.0) new) q) (λ (q, r). q)
                (Reach-extended p) in
            inr (to_from, subst_end (sym (ap (λ (x : Edge). x.1) new)) here))
          absurd)
        (In-append (a, b) es ((from_id, to_id) ∷ []) e)
    where
      subst_end : {x y z : String} → y ≡ z → Reach es x y → Reach es x z
      subst_end {x} e q = subst (Reach es x) e q

  pub IsAcyclic-extended : IsAcyclic es → ¬ Reach es to_id from_id → IsAcyclic extended
  IsAcyclic-extended h no_path = record {
    no_cycle = λ u v m p.
        ⊎_elim
          (λ old.
            ⊎_elim (h.no_cycle u v old) (λ (q, r). no_path (Reach-trans (step r old) q))
              (Reach-extended p))
          (⊎_elim
            (λ new.
              let source : u ≡ from_id = ap (λ (x : Edge). x.0) new in
              let target : v ≡ to_id = ap (λ (x : Edge). x.1) new in
              no_path (
                ⊎_elim (λ q. subst₂ (Reach es) target source q)
                  (λ (q, r). subst (λ x. Reach es x from_id) target q) (Reach-extended p)))
            absurd)
          (In-append (u, v) es ((from_id, to_id) ∷ []) m);
  }

-- In an acyclic graph the guard answers `false` exactly when the graph stays acyclic with the new
-- edge, and it always answers.
pub would_create_cycle_correct :
    (es : List Edge) (from_id to_id : String)
    → IsAcyclic es
    → (b : Bool) × (would_create_cycle es from_id to_id ≡ some b)
      × ((b ≡ false) ↔ IsAcyclic (es ++ (from_id, to_id) ∷ []))
unfolding would_create_cycle
would_create_cycle_correct es from_id to_id h =
    let (b, e, iff) = is_reachable_correct es to_id from_id in (b, e, decide b iff)
  where
    decide :
        (b : Bool)
        → ((b ≡ true) ↔ Reach es to_id from_id)
        → (b ≡ false) ↔ IsAcyclic (es ++ (from_id, to_id) ∷ [])
    decide true iff = (
      λ e. cc,
      λ a. absurd (
          a.no_cycle from_id to_id (In-append_right (from_id, to_id) es _ (inl refl))
            (Reach-mono (λ x y m. In-append_left (x, y) es _ m) (iff.0 refl))),
    )
    decide false iff = (λ _. IsAcyclic-extended es from_id to_id h (λ p. cc (iff.1 p)), λ _. refl)

-- An edge that passes the check can be added.
pub IsAcyclic-added :
    (es : List Edge) (from_id to_id : String)
    → IsAcyclic es
    → would_create_cycle es from_id to_id ≡ some false
    → IsAcyclic (es ++ (from_id, to_id) ∷ [])
IsAcyclic-added es from_id to_id h passes =
    let (b, e, iff) = would_create_cycle_correct es from_id to_id h in
    iff.0 (eq_of_some (sym e ∙ passes))
