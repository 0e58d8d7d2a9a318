-- ===== src/Auth/Principals/Resolve.antt =====
-- Which principal a request gets, and that nobody is anonymous where authentication is configured.
use lavs_core.Prelude.{
  ◌≡◌, refl, sym, ap, ◌∙◌, ◌⊎◌, ◌↔◌, inl, inr, ⊎_elim, false, none, some, List, [], ◌∷◌, ◌++◌,
  arith, ok, Bool-cases, Option-cases, Result-cases, eq_of_ok, List-cases,
}
use lavs_core.Auth.Principals.{
  Principal, Request, AuthProvider, AuthResolver, first_principal, anonymous_principal, resolve,
}

-- A provider recognises the request, and those before it do not.
abbrev pub Answers : List AuthProvider → Request → Principal → Type 0
Answers [] request p = ⊥
Answers (q ∷ qs) request p =
    (q request ≡ ok (some p)) ⊎ ((q request ≡ ok none) × Answers qs request p)

module _ (request : Request) (p : Principal) where
  pub Answers-append :
      (qs rs : List AuthProvider)
      → Answers (qs ++ rs) request p
      → Answers qs request p ⊎ Answers rs request p
  Answers-append [] rs a = inr a
  Answers-append (q ∷ qs) rs (inl e) = inl (inl e)
  Answers-append (q ∷ qs) rs (inr (e, a)) =
      ⊎_elim (λ b. inl (inr (e, b))) inr (Answers-append qs rs a)

  Answers-of_first :
      (qs : List AuthProvider) → first_principal qs request ≡ ok (some p) → Answers qs request p
  unfolding first_principal
  Answers-of_first [] e = cc
  Answers-of_first (q ∷ qs) e = ground (arith, Answers-of_first qs)

  first_of_Answers :
      (qs : List AuthProvider) → Answers qs request p → first_principal qs request ≡ ok (some p)
  unfolding first_principal
  first_of_Answers [] a = absurd a
  first_of_Answers (q ∷ qs) (inl e) = rw e refl
  first_of_Answers (q ∷ qs) (inr (e, a)) = rw e (first_of_Answers qs a)

  abbrev pub IsOpen : AuthResolver → Type 0
  IsOpen resolver =
      (resolver.registry ≡ [])
      × (resolver.auth_configured ≡ false)
      × (p ≡ anonymous_principal resolver)

  resolve_open :
      (resolver : AuthResolver)
      → first_principal resolver.registry request ≡ ok none
      → resolver.registry ≡ []
      → resolver.auth_configured ≡ false
      → resolve resolver request ≡ ok (anonymous_principal resolver)
  unfolding resolve
  resolve_open resolver nobody empty lax = ground arith

  resolve-some :
      (resolver : AuthResolver) (q : Principal)
      → first_principal resolver.registry request ≡ ok (some q)
      → resolve resolver request ≡ ok q
  unfolding resolve
  resolve-some resolver q e = rw (e, resolve) refl

  IsOpen-of_resolve :
      (resolver : AuthResolver)
      → first_principal resolver.registry request ≡ ok none
      → resolve resolver request ≡ ok p
      → IsOpen resolver
  unfolding resolve
  IsOpen-of_resolve resolver none_answers e = elim (List-cases resolver.registry) [
    | inl empty ↦ elim (Bool-cases resolver.auth_configured) [
      | inl closed ↦ ground arith
      | inr lax ↦ (empty, lax, eq_of_ok (sym e ∙ resolve_open resolver none_answers empty lax))
    ]
    | inr (q, qs, full) ↦ ground arith
  ]

  -- A resolver resolves a request to a principal exactly if the first provider that recognises the
  -- request answers with it, or if no provider is registered, authentication is not configured and
  -- it is the anonymous principal.
  pub resolve-ok_iff :
      (resolver : AuthResolver)
      → (resolve resolver request ≡ ok p) ↔ (Answers resolver.registry request p ⊎ IsOpen resolver)
  unfolding resolve first_principal
  resolve-ok_iff resolver = (found, resolved)
    where
      found :
          resolve resolver request ≡ ok p → Answers resolver.registry request p ⊎ IsOpen resolver
      found e = elim (Result-cases (first_principal resolver.registry request)) [
        | inl (r, refused) ↦ cc (rw (refused, resolve) at e)
        | inr (answer, answered) ↦ elim (Option-cases answer) [
          | inl nobody ↦ inr (IsOpen-of_resolve resolver (answered ∙ ap ok nobody) e)
          | inr (q, somebody) ↦ inl (
              Answers-of_first resolver.registry (
                rw (eq_of_ok (sym e ∙ resolve-some resolver q (answered ∙ ap ok somebody)))
                  (answered ∙ ap ok somebody)))
        ]
      ]

      resolved :
          Answers resolver.registry request p ⊎ IsOpen resolver → resolve resolver request ≡ ok p
      resolved (inl a) = resolve-some resolver p (first_of_Answers resolver.registry a)
      resolved (inr (empty, lax, is)) = rw is (resolve_open resolver (rw empty refl) empty lax)
