-- ===== src/Queries/Releases/OwnLevels.antt =====
-- The components that `_derive` gives a level of their own, and the ones that are gone since the last
-- release.
use lavs_core.Prelude.{
  ◌≡◌, ◌≢◌, refl, ap, sym, ◌∙◌, Bool, true, false, not, List, [], ◌∷◌, ◌++◌, map, String, str_eq,
  eq_iff, arith, any, In, In-append, inl, inr, ⊎_elim, Map, lookup, put, keys,
}
use mathlib.Core.List.{append_assoc, append-nil}
use lavs_core.Domain.BumpLevel.{BumpLevel}
use lavs_core.Domain.ChangeClassifier.{VersionTuple, classify_change}
use lavs_core.Database.Rows.{Unique, any-false, any-select, In-select}
use lavs_core.Queries.Bumps.{ActiveRow, tuple_of, own_levels, is_removed_any}

keys-put_new :
    {V : Type 0} (k : String) (v : V) (d : Map V)
    → (In k (keys d) → ⊥)
    → keys (put k v d) ≡ keys d ++ k ∷ []
unfolding put
keys-put_new k v [] new = refl
keys-put_new k v ((j, w) ∷ d) new =
    ground (arith, eq_iff j k, keys-put_new k v d (λ m. new (inr m)))

keys-own_levels_from :
    (prior : Map VersionTuple) (rows : List ActiveRow) (own : Map BumpLevel)
    → Unique (λ (x : ActiveRow). x.component_id) rows
    → ((r : ActiveRow) → In r rows → In r.component_id (keys own) → ⊥)
    → keys (own_levels prior rows own) ≡ keys own ++ map (λ r. r.component_id) rows
unfolding own_levels
keys-own_levels_from prior [] own unique new = sym (append-nil (keys own))
keys-own_levels_from prior (r ∷ rs) own unique new =
    keys-own_levels_from prior rs (put r.component_id level own) unique.1 later
    ∙ (ap (λ (ks : List String). ks ++ map (λ r. r.component_id) rs) added
        ∙ append_assoc (keys own) (r.component_id ∷ []) (map (λ r. r.component_id) rs))
  where
    level : BumpLevel
    level = classify_change (lookup r.component_id prior) (tuple_of r.version)

    added : keys (put r.component_id level own) ≡ keys own ++ r.component_id ∷ []
    added = keys-put_new r.component_id level own (new r (inl refl))

    later : (x : ActiveRow) → In x rs → In x.component_id (keys (put r.component_id level own)) → ⊥
    later x m there =
        ⊎_elim (new x (inr m))
          (λ here. elim here [
            | inl e ↦ cc (
              (eq_iff x.component_id r.component_id).1 e,
              any-false (λ (y : ActiveRow). str_eq y.component_id r.component_id) rs unique.0 x m,
            )
            | inr e ↦ absurd e
          ])
          (In-append x.component_id (keys own) (r.component_id ∷ []) (rw added at there))

pub keys-own_levels :
    (prior : Map VersionTuple) (rows : List ActiveRow)
    → Unique (λ (x : ActiveRow). x.component_id) rows
    → keys (own_levels prior rows []) ≡ map (λ r. r.component_id) rows
keys-own_levels prior rows unique = keys-own_levels_from prior rows [] unique (λ r m there. there)

module _ (prior : Map VersionTuple) (rows : List ActiveRow) where
  -- A component of the last release has no active row.
  abbrev pub IsGone : Type 0
  IsGone = (c : String) × In c (keys prior) × ((r : ActiveRow) → In r rows → r.component_id ≢ c)

  pub removed-gone : is_removed_any prior rows ≡ true → IsGone
  unfolding is_removed_any
  removed-gone h =
      let is_gone : String → Bool = λ c. not (any (λ r. str_eq r.component_id c) rows) in
      let (c, rest, found) = any-select is_gone (keys prior) h in
      let (there, gone) = In-select is_gone c (keys prior) (rw found (inl refl)) in
      (
        c,
        there,
        λ r m e. cc (
          (eq_iff r.component_id c).1 e,
          any-false (λ (r : ActiveRow). str_eq r.component_id c) rows (ground arith) r m,
        ),
      )

  pub gone-removed : is_removed_any prior rows ≡ false → IsGone → ⊥
  unfolding is_removed_any
  gone-removed h (c, there, gone) =
      let kept : not (any (λ r. str_eq r.component_id c) rows) ≡ false =
        any-false (λ c. not (any (λ r. str_eq r.component_id c) rows)) (keys prior) h c there in
      let (r, rest, found) =
        any-select (λ (r : ActiveRow). str_eq r.component_id c) rows (ground arith) in
      let (m, e) =
        In-select (λ (r : ActiveRow). str_eq r.component_id c) r rows (rw found (inl refl)) in
      gone r m ((eq_iff r.component_id c).0 e)
