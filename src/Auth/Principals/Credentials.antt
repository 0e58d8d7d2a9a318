-- ===== src/Auth/Principals/Credentials.antt =====
-- What the providers of the core accept, and who reaches the application that its lifespan wires.
use lavs_core.Prelude.{
  ◌≡◌, ap, ◌∙◌, ◌⊎◌, inl, inr, ⊎_elim, false, ◌||◌, some, [], ◌∷◌, String, str_eq, arith, any, leb,
  ok, Bool-cases, Option-cases, List-cases,
}
use lavs_core.Text.{Text, text_eq, text_eq_iff}
use lavs_core.Environ.{Environ, is_empty}
use lavs_core.Auth.{Accounts, User, get_user_by_id, lookup_active_user_id}
use lavs_core.Auth.Settings.{
  AuthSettings, modes, edition, password_enabled, apikey_mode_enabled, get_configured_api_key,
  is_authentication_enabled,
}
use lavs_core.Auth.Principals.{
  Principal, user, Request, compare_digest, session_cookie, api_key_principal, authenticate_api_key,
  authenticate_session, AuthResolver, anonymous_principal, resolve, build_registry, build_resolver,
  core_registry,
}
use lavs_core.Auth.Principals.Resolve.{Answers, Answers-append, resolve-ok_iff}

module _ (label : Text) (request : Request) (p : Principal) where
  -- The request presents the configured key.
  abbrev pub HasKey : Type 0
  HasKey =
      (key : Text) × (request.header "X-API-Key" ≡ some key)
      × (get_configured_api_key request.environ ≡ some key)
      × (is_empty key ≡ false)
      × (p ≡ api_key_principal label)

  key_matches :
      (presented key : Text)
      → request.header "X-API-Key" ≡ some presented
      → get_configured_api_key request.environ ≡ some key
      → is_empty key ≡ false
      → authenticate_api_key label request ≡ ok (some p)
      → HasKey
  unfolding authenticate_api_key compare_digest
  key_matches presented key h c nonempty e =
      elim (Bool-cases (any (leb 128) presented || any (leb 128) key)) [
        | inl wide ↦ ground arith
        | inr ascii ↦ elim (Bool-cases (text_eq presented key)) [
          | inl same ↦
              (key, h ∙ ap some ((text_eq_iff presented key).0 same), c, nonempty, ground arith)
          | inr differ ↦ ground arith
        ]
      ]

  authenticate_api_key-some : authenticate_api_key label request ≡ ok (some p) → HasKey
  unfolding authenticate_api_key
  authenticate_api_key-some e = elim (Option-cases (get_configured_api_key request.environ)) [
    | inl c ↦ ground arith
    | inr (key, c) ↦ elim (Bool-cases (is_empty key)) [
      | inl empty ↦ ground arith
      | inr nonempty ↦ elim (Option-cases (request.header "X-API-Key")) [
        | inl h ↦ ground arith
        | inr (presented, h) ↦ key_matches presented key h c nonempty e
      ]
    ]
  ]

  module _ (hash_token : String → String) where
    -- The request's cookie is the token of a live session of a stored user.
    abbrev pub HasSession : Type 0
    HasSession =
        (token : String) × (a : Accounts) × (user_id : String) × (row : User) × (request.cookie
            session_cookie
          ≡ some token)
        × (request.accounts ≡ some a)
        × (lookup_active_user_id hash_token request.now token a ≡ some user_id)
        × (get_user_by_id user_id a ≡ some row)
        × (p ≡ record { kind = user; id = user_id; email = some row.email; edition = label })

    session_matches :
        (token : String) (a : Accounts)
        → request.cookie session_cookie ≡ some token
        → request.accounts ≡ some a
        → str_eq token "" ≡ false
        → authenticate_session hash_token label request ≡ ok (some p)
        → HasSession
    unfolding authenticate_session
    session_matches token a c s nonempty e =
        elim (Option-cases (lookup_active_user_id hash_token request.now token a)) [
          | inl q ↦ ground arith
          | inr (user_id, q) ↦ elim (Option-cases (get_user_by_id user_id a)) [
            | inl r ↦ ground arith
            | inr (row, r) ↦ (token, a, user_id, row, c, s, q, r, ground arith)
          ]
        ]

    authenticate_session-some :
        authenticate_session hash_token label request ≡ ok (some p) → HasSession
    unfolding authenticate_session
    authenticate_session-some e = elim (Option-cases (request.cookie session_cookie)) [
      | inl c ↦ ground arith
      | inr (token, c) ↦ elim (Bool-cases (str_eq token "")) [
        | inl empty ↦ ground arith
        | inr nonempty ↦ elim (Option-cases request.accounts) [
          | inl s ↦ ground arith
          | inr (a, s) ↦ session_matches token a c s nonempty e
        ]
      ]
    ]

module _ (hash_token : String → String) (settings : AuthSettings) (startup : Environ) where
  abbrev pub label : Text
  label = edition settings startup

  -- The resolver that the lifespan installs.
  abbrev pub core_resolver : AuthResolver
  core_resolver = build_resolver settings startup (core_registry hash_token settings startup)

  -- No authentication is configured.
  abbrev pub IsUnconfigured : Type 0
  IsUnconfigured = (modes settings startup ≡ []) × (is_authentication_enabled startup ≡ false)

  unconfigured : core_resolver.auth_configured ≡ false → IsUnconfigured
  unfolding build_resolver
  unconfigured e = elim (List-cases (modes settings startup)) [
    | inl empty ↦ (empty, ground arith)
    | inr (m, ms, full) ↦ ground arith
  ]

  module _ (request : Request) (p : Principal) where
    by_key : Answers (build_registry settings startup) request p → HasKey label request p
    unfolding build_registry
    by_key a =
        elim (Bool-cases
          (is_authentication_enabled startup || apikey_mode_enabled settings startup)) [
            | inl on ↦
                ⊎_elim (authenticate_api_key-some label request p) (λ r. absurd r.1) (rw on at a)
            | inr off ↦ absurd (rw off at a)
          ]

    by_credential :
        Answers (core_registry hash_token settings startup) request p
        → HasKey label request p ⊎ HasSession label request p hash_token
    unfolding core_registry
    by_credential a = elim (Bool-cases (password_enabled settings startup)) [
      | inr off ↦ inl (by_key (rw off at a))
      | inl on ↦
          elim (Answers-append request p (build_registry settings startup)
            (authenticate_session hash_token label ∷ []) (rw on at a)) [
              | inl b ↦ inl (by_key b)
              | inr b ↦
                  ⊎_elim (λ e. inr (authenticate_session-some label request p hash_token e))
                    (λ r. absurd r.1) b
            ]
    ]

    -- Who the application of the core resolves a request to presented the API key that is configured
    -- when the request is handled, which is not empty, and is the service of that key, or presented
    -- the token of a live session and is the stored user of that session, or is the anonymous
    -- service, and then neither a mode of authentication nor an API key was configured at startup.
    pub resolve-core :
        resolve core_resolver request ≡ ok p
        → HasKey label request p
          ⊎ (HasSession label request p hash_token
              ⊎ (IsUnconfigured × (p ≡ anonymous_principal core_resolver)))
    unfolding core_registry build_resolver
    resolve-core e = elim ((resolve-ok_iff request p core_resolver).0 e) [
      | inl a ↦ ⊎_elim inl (λ s. inr (inl s)) (by_credential a)
      | inr (empty, lax, is) ↦ inr (inr (unconfigured lax, is))
    ]
