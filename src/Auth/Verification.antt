-- ===== src/Auth/Verification.antt =====
-- A verification token is used at most once.
use lavs_core.Prelude.{
  ℕ, ◌≡◌, ap, ◌∙◌, ◌≤◌, refl, none, some, List, [], ◌∷◌, String, str_eq, arith, select, ok, err,
  inl, inr, Option-cases, List-cases,
}
use lavs_core.Database.Statements.{update_where}
use lavs_core.Auth.{
  User, VerificationToken, Accounts, not_found, get_user_by_id, activate_user, is_live, find_active,
  consume, verify,
}

-- No token of a hash is live after that hash has been consumed.
consumed :
    (now later : ℕ) (h : String) (ts : List VerificationToken)
    → select
        (is_live later h)
        (update_where (λ t. str_eq t.token_hash h) (λ t. record t { consumed_at = some now }) ts)
      ≡ []
consumed now later h [] = refl
consumed now later h (t ∷ ts) = ground (arith, consumed now later h ts)

-- A token that is not live does not become so.
still_none :
    (now later : ℕ) (h : String) (ts : List VerificationToken)
    → now ≤ later
    → select (is_live now h) ts ≡ []
    → select (is_live later h) ts ≡ []
still_none now later h [] le e = refl
still_none now later h (t ∷ ts) le e = ground (arith, still_none now later h ts le)

find_active-consume :
    (now later : ℕ) (h : String) (a : Accounts) → find_active later h (consume now h a) ≡ none
unfolding find_active consume
find_active-consume now later h a = rw (consumed now later h a.tokens) refl

find_active-later :
    (now later : ℕ) (h : String) (a : Accounts)
    → now ≤ later
    → find_active now h a ≡ none
    → find_active later h a ≡ none
unfolding find_active
find_active-later now later h a le e = elim (List-cases (select (is_live now h) a.tokens)) [
  | inl q ↦ rw (still_none now later h a.tokens le q) refl
  | inr (t, ts, q) ↦ cc (rw q at e)
]

module _ (hash_token : String → String) where
  pub verify-none :
      (now : ℕ) (token : String) (a : Accounts)
      → find_active now (hash_token token) a ≡ none
      → verify hash_token now token a ≡ (err not_found, a)
  unfolding verify
  verify-none now token a e = rw (e, verify) refl

  pub verify-after :
      (now : ℕ) (token : String) (a : Accounts) (row : VerificationToken)
      → find_active now (hash_token token) a ≡ some row
      → (verify hash_token now token a).1
        ≡ consume now (hash_token token) (activate_user row.user_id a)
  unfolding verify
  verify-after now token a row e =
      elim (Option-cases (
        get_user_by_id row.user_id
          (consume now (hash_token token) (activate_user row.user_id a)))) [
            | inl q ↦ rw (e, verify) (rw (q, verify) refl)
            | inr (user, q) ↦ rw (e, verify) (rw (q, verify) refl)
          ]

  pub verify-found :
      (now : ℕ) (token : String) (a after : Accounts) (row : VerificationToken) (user : User)
      → find_active now (hash_token token) a ≡ some row
      → consume now (hash_token token) (activate_user row.user_id a) ≡ after
      → get_user_by_id row.user_id after ≡ some user
      → verify hash_token now token a ≡ (ok user, after)
  unfolding verify
  verify-found now token a after row user found written stored =
      rw (found, verify) (rw (there, verify) (ap (λ (x : Accounts). (ok user, x)) written))
    where
      there :
          get_user_by_id row.user_id (consume now (hash_token token) (activate_user row.user_id a))
          ≡ some user
      there = ap (get_user_by_id row.user_id) written ∙ stored

  -- After an attempt to verify a token, whatever its outcome, an attempt with the same token on
  -- the accounts that it left, at a clock that has not gone back, is refused and changes nothing,
  -- whatever the hash is.
  pub verify_once :
      (now later : ℕ) (token : String) (a : Accounts)
      → now ≤ later
      → verify hash_token later token (verify hash_token now token a).1
        ≡ (err not_found, (verify hash_token now token a).1)
  verify_once now later token a le = elim (Option-cases (find_active now (hash_token token) a)) [
    | inl e ↦
        rw (verify-none now token a e)
          (verify-none later token a (find_active-later now later (hash_token token) a le e))
    | inr (row, e) ↦ rw (verify-after now token a row e) (
        verify-none later token (consume now (hash_token token) (activate_user row.user_id a))
          (find_active-consume now later (hash_token token) (activate_user row.user_id a)))
  ]
