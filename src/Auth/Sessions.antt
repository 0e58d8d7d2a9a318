-- ===== src/Auth/Sessions.antt =====
-- A session lasts until it expires or is deleted.
use lavs_core.Prelude.{
  ℕ, ℤ, ◌≡◌, ◌≢◌, refl, ◌∙◌, true, false, not, none, some, List, [], ◌∷◌, ◌++◌, String, str_eq,
  eq_iff, arith, any, select, select-append, ltb, if◌then◌else◌, ok, inl, inr, Bool-cases,
}
use mathlib.Core.Option
use lavs_core.Auth.{
  Session, Accounts, fetchone, after_seconds, create_session, is_open, lookup_active_user_id,
  delete_session,
}

module _ (hash_token : String → String) where
  none_open :
      (now : ℕ) (token : String) (ss : List Session)
      → any (λ s. str_eq s.token_hash (hash_token token)) ss ≡ false
      → select (is_open hash_token now token) ss ≡ []
  none_open now token [] h = refl
  none_open now token (s ∷ ss) h = ground (arith, none_open now token ss)

  -- A session that was created is found by its token until it expires and not from then on, if its
  -- identifier and its token's hash are new and the user is stored.
  pub lookup_active_user_id-create_session :
      (now later : ℕ) (id token user_id : String) (ttl_seconds : ℤ) (a : Accounts)
      → any (λ s. str_eq s.id id) a.sessions ≡ false
      → any (λ s. str_eq s.token_hash (hash_token token)) a.sessions ≡ false
      → any (λ u. str_eq u.id user_id) a.users ≡ true
      → ((create_session hash_token now id token user_id ttl_seconds a).0 ≡ ok token)
        × (lookup_active_user_id hash_token later token
              (create_session hash_token now id token user_id ttl_seconds a).1
            ≡ (if ltb later (after_seconds now ttl_seconds) then some user_id else none))
  unfolding create_session lookup_active_user_id
  lookup_active_user_id-create_session now later id token user_id ttl_seconds a new_id new_hash
        known =
      rw (new_id, known) (refl, rw rows found)
    where
      session : Session
      session = record {
        id = id;
        user_id = user_id;
        token_hash = hash_token token;
        expires_at = after_seconds now ttl_seconds;
      }

      rows :
          select (is_open hash_token later token) (a.sessions ++ session ∷ [])
          ≡ (if ltb later (after_seconds now ttl_seconds) then session ∷ [] else [])
      rows =
          select-append (is_open hash_token later token) a.sessions (session ∷ [])
          ∙ rw
              (
                none_open later token a.sessions new_hash,
                (eq_iff (hash_token token) (hash_token token)).1 refl,
              )
              refl

      found :
          Option.map
            (λ s. s.user_id)
            (fetchone (if ltb later (after_seconds now ttl_seconds) then session ∷ [] else []))
          ≡ (if ltb later (after_seconds now ttl_seconds) then some user_id else none)
      found = elim (Bool-cases (ltb later (after_seconds now ttl_seconds))) [
        | inl e ↦ rw e refl
        | inr e ↦ rw e refl
      ]

  kept :
      (now : ℕ) (token other : String) (ss : List Session)
      → hash_token other ≢ hash_token token
      → select
          (is_open hash_token now other)
          (select (λ s. not (str_eq s.token_hash (hash_token token))) ss)
        ≡ select (is_open hash_token now other) ss
  kept now token other [] h = refl
  kept now token other (s ∷ ss) h = ground (
    arith,
    kept now token other ss h,
    eq_iff s.token_hash (hash_token token),
    eq_iff s.token_hash (hash_token other),
  )

  gone :
      (now : ℕ) (token : String) (ss : List Session)
      → select
          (is_open hash_token now token)
          (select (λ s. not (str_eq s.token_hash (hash_token token))) ss)
        ≡ []
  gone now token [] = refl
  gone now token (s ∷ ss) = ground (arith, gone now token ss)

  -- Deleting a session makes its token unknown at every time, and leaves what every token of another
  -- hash finds as it was.
  pub lookup_active_user_id-delete_session :
      (now : ℕ) (token other : String) (a : Accounts)
      → hash_token other ≢ hash_token token
      → (lookup_active_user_id hash_token now token (delete_session hash_token token a) ≡ none)
        × (lookup_active_user_id hash_token now other (delete_session hash_token token a)
            ≡ lookup_active_user_id hash_token now other a)
  unfolding lookup_active_user_id delete_session
  lookup_active_user_id-delete_session now token other a different =
      (rw (gone now token a.sessions) refl, rw (kept now token other a.sessions different) refl)
