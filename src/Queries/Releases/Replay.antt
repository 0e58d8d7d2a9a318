-- ===== src/Queries/Releases/Replay.antt =====
-- Cutting a release again under the same idempotency key.
use lavs_core.Queries.Bumps.{active_rows}
use lavs_core.Prelude.{
  ℕ, ◌≡◌, refl, ap, sym, ◌∙◌, subst, Bool, true, Option, none, some, List, [], ◌∷◌, ◌++◌, map,
  String, str_eq, eq_iff, select, select-append, ok, err, inl, inr, ◌⊎◌, List-cases, Result-cases,
  eq_of_ok,
}
use lavs_core.Database.Tables.{
  Product, Release, ReleaseComponent, ReleaseResponse, Database, World, Error,
}
use lavs_core.Database.Statements.{continue}
use lavs_core.Queries.Dependencies.{products_with_id}
use lavs_core.Queries.Releases.{
  CutRequest, has_key, replayed, load_release, cut_fresh, announce, cut_release_route, release_of,
  pin_of,
}
use lavs_core.Queries.Releases.Manifest.{load_release-reads, cut_fresh-CutSteps, CutSteps}

module _ (request : CutRequest) (id : String) (now : ℕ) (w : World) where
  -- A cut whose key names a release returns it as it is and changes nothing: no row, no event.
  pub cut_release_route-replay :
      (product : Product) (others : List Product) (r : Release) (rs : List Release)
      → products_with_id request.product_id w.db ≡ product ∷ others
      → replayed request.product_id request.idempotency_key w.db ≡ r ∷ rs
      → cut_release_route request id now w ≡ ((load_release r.id w).0, w)
  unfolding cut_release_route
  cut_release_route-replay product others r rs found existing =
      elim (Result-cases (load_release r.id w).0) [
        | inl (e, f) ↦ rw (found, existing, f) (ap (λ v. (err e, v)) (load_release-reads r.id w))
        | inr (response, f) ↦
            rw (found, existing, f) (ap (λ v. (ok response, v)) (load_release-reads r.id w))
      ]

  fresh_route :
      (product : Product) (others : List Product)
      → products_with_id request.product_id w.db ≡ product ∷ others
      → replayed request.product_id request.idempotency_key w.db ≡ []
      → cut_release_route request id now w
        ≡ continue
            (cut_fresh request id now product w).0
            (announce request.product_id)
            (cut_fresh request id now product w).1
  unfolding cut_release_route
  fresh_route product others found missing = rw (found, missing) refl

  announced :
      (product : Product) (response : ReleaseResponse) (created : Bool)
      → (cut_fresh request id now product w).0 ≡ ok (response, created)
      → created ≡ true
      → ((continue
            (cut_fresh request id now product w).0
            (announce request.product_id)
            (cut_fresh request id now product w).1).0
          ≡ ok response)
        × ((continue
              (cut_fresh request id now product w).0
              (announce request.product_id)
              (cut_fresh request id now product w).1).1.db
            ≡ (cut_fresh request id now product w).1.db)
  unfolding announce
  announced product response created f is_new = rw (f, is_new) (refl, refl)

  failed :
      (product : Product) (e : Error)
      → (cut_fresh request id now product w).0 ≡ err e
      → (continue
          (cut_fresh request id now product w).0
          (announce request.product_id)
          (cut_fresh request id now product w).1).0
        ≡ err e
  failed product e f = rw f refl

  -- A route that succeeds has cut a release or replayed one.
  data Succeeded (response : ReleaseResponse) : Type 0 where
    replay :
        (product : Product) (others : List Product) (r : Release) (rs : List Release)
        → products_with_id request.product_id w.db ≡ product ∷ others
        → replayed request.product_id request.idempotency_key w.db ≡ r ∷ rs
        → (load_release r.id w).0 ≡ ok response
        → (cut_release_route request id now w).1 ≡ w
        → Succeeded response
    fresh :
        (product : Product) (others : List Product)
        → products_with_id request.product_id w.db ≡ product ∷ others
        → replayed request.product_id request.idempotency_key w.db ≡ []
        → (after : World) → CutSteps request id now product w after response
        → (cut_release_route request id now w).1.db ≡ after.db
        → Succeeded response

  module _ (response : ReleaseResponse)
      (succeeds : (cut_release_route request id now w).0 ≡ ok response) where
    succeeded : Succeeded response
    unfolding cut_release_route
    succeeded = elim (List-cases (products_with_id request.product_id w.db)) [
      | inl e ↦ cc (rw e at succeeds)
      | inr (product, others, found) ↦
          elim (List-cases (replayed request.product_id request.idempotency_key w.db)) [
            | inr (r, rs, existing) ↦
                let runs = cut_release_route-replay product others r rs found existing in
                replay product others r rs found existing (sym (ap (λ p. p.0) runs) ∙ succeeds)
                  (ap (λ p. p.1) runs)
            | inl missing ↦ elim (Result-cases (cut_fresh request id now product w).0) [
              | inl (e, f) ↦ cc (
                  sym succeeds
                  ∙ (ap (λ p. p.0) (fresh_route product others found missing) ∙ failed product e f))
              | inr ((response', created), f) ↦
                  let (is_new, cut) =
                    cut_fresh-CutSteps request id now product w response' created f in
                  let (returns, keeps) = announced product response' created f is_new in
                  let route = fresh_route product others found missing in
                  fresh product others found missing (cut_fresh request id now product w).1
                    (subst
                      (CutSteps request id now product w (cut_fresh request id now product w).1)
                      (eq_of_ok (sym returns ∙ (sym (ap (λ p. p.0) route) ∙ succeeds))) cut)
                    (ap (λ p. p.1.db) route ∙ keeps)
            ]
          ]
    ]

-- Reading a release depends on the tables alone.
load_release-db :
    (id : String) (w v : World) → w.db ≡ v.db → (load_release id w).0 ≡ (load_release id v).0
unfolding load_release
load_release-db id w v e =
    any_bus (List-cases (select (λ r. str_eq r.id id) w.db.releases))
    ∙ ap (λ db. (load_release id (record v { db = db })).0) e
  where
    any_bus :
        (select (λ r. str_eq r.id id) w.db.releases ≡ [])
          ⊎ ((r : Release) × (rs : List Release) × (select (λ r. str_eq r.id id) w.db.releases
                ≡ r ∷ rs))
        → (load_release id w).0 ≡ (load_release id (record v { db = w.db })).0
    any_bus (inl e) = rw e refl
    any_bus (inr (r, rs, e)) = rw e refl

replayed-insert :
    (request : CutRequest) (key : String) (row : Release) (db : Database)
    (pins : List ReleaseComponent)
    → request.idempotency_key ≡ some key
    → replayed request.product_id request.idempotency_key db ≡ []
    → row.product_id ≡ request.product_id
    → row.idempotency_key ≡ request.idempotency_key
    → replayed request.product_id request.idempotency_key
        (record db { releases = db.releases ++ row ∷ []; release_components = pins })
      ≡ row ∷ []
unfolding replayed
replayed-insert request key row db pins keyed missing same_product same_key =
    go request.idempotency_key keyed missing same_key
  where
    go :
        (k : Option String)
        → k ≡ some key
        → replayed request.product_id k db ≡ []
        → row.idempotency_key ≡ k
        → replayed request.product_id k
            (record db { releases = db.releases ++ row ∷ []; release_components = pins })
          ≡ row ∷ []
    go none e m q = cc
    go (some x) e m q =
        select-append (has_key request.product_id x) db.releases (row ∷ [])
        ∙ rw (m, (eq_iff row.product_id request.product_id).1 same_product, q, (eq_iff x x).1 refl)
            refl

-- Cutting is idempotent: once a cut under a key has succeeded, a cut with the same request right
-- after it returns the same response, whatever identifier and time it would use, and changes
-- nothing, neither a row nor a queue.
pub cut_release_route-idempotent :
    (request : CutRequest) (key : String) (id id' : String) (now now' : ℕ) (w : World)
    (response : ReleaseResponse)
    → request.idempotency_key ≡ some key
    → (cut_release_route request id now w).0 ≡ ok response
    → cut_release_route request id' now' (cut_release_route request id now w).1
      ≡ (ok response, (cut_release_route request id now w).1)
cut_release_route-idempotent request key id id' now now' w response keyed succeeds =
    again (succeeded request id now w response succeeds)
  where
    after : World
    after = (cut_release_route request id now w).1

    again :
        Succeeded request id now w response
        → cut_release_route request id' now' after ≡ (ok response, after)
    again (replay product others r rs found existing loads same) =
        subst (λ v. cut_release_route request id' now' v ≡ (ok response, v)) (sym same)
          (cut_release_route-replay request id' now' w product others r rs found existing
            ∙ ap (λ x. (x, w)) loads)
    again (fresh product others found missing stored cut kept) =
        cut_release_route-replay request id' now' after product others
          (release_of request id now cut.version cut.derived) []
          (ap (products_with_id request.product_id) (kept ∙ ap (λ v. v.db) cut.stored) ∙ found)
          (ap (replayed request.product_id request.idempotency_key)
              (kept ∙ ap (λ v. v.db) cut.stored)
            ∙ replayed-insert request key (release_of request id now cut.version cut.derived) w.db
                (w.db.release_components
                  ++ map (pin_of id cut.derived.change_by_component)
                      (active_rows request.product_id w.db))
                keyed missing refl refl)
        ∙ ap (λ x. (x, after)) (load_release-db id after stored kept ∙ cut.loaded)
