-- ===== src/Auth/Invariant.antt =====
-- What holds of the accounts between two requests: identifiers and addresses are unique, sessions
-- belong to active users, and nobody is active who has not consumed a verification token.
pub mod Requests
use lavs_core.Prelude.{
  ℕ, ◌≡◌, refl, sym, ap, ◌∙◌, subst, ◌⊎◌, inl, inr, ⊎_elim, Bool, true, false, not, ◌||◌, ◌&&◌,
  Option, none, some, List, [], ◌∷◌, ◌++◌, map, String, str_eq, eq_iff, arith, any, any-append,
  select, if◌then◌else◌, Result, ok, err, ℤ, Bool-cases, Option-cases, In, In-append,
  In-append_left, In-append_right, In-map, In-map_back,
}
use lavs_core.Text.{Text, text_eq, text_eq_iff}
use lavs_core.Database.Statements.{update_where}
use lavs_core.Database.Rows.{Unique, Unique-append, Unique-map, In-select}
use lavs_core.Auth.{
  User, active, pending, Session, VerificationToken, Accounts, is_none, create_user, issue,
  activate_user, consume, create_session, delete_session, after_seconds,
}

-- No address stands twice.
abbrev pub Apart : List User → Type 0
Apart [] = Unit
Apart (u ∷ us) = (any (λ v. text_eq v.email u.email) us ≡ false) × Apart us

-- The session's user is stored, and active.
abbrev pub HasOwner : List User → Session → Type 0
HasOwner us s = (u : User) × In u us × (u.id ≡ s.user_id) × (u.status ≡ active)

-- A token of the user has been consumed.
abbrev pub IsVerified : List VerificationToken → User → Type 0
IsVerified ts u =
    (t : VerificationToken) × In t ts × (t.user_id ≡ u.id) × (is_none t.consumed_at ≡ false)

pub record IsWellFormed (a : Accounts) : Type 0 where
  pub ids : Unique (λ u. u.id) a.users
  pub emails : Apart a.users
  pub owned : (s : Session) → In s a.sessions → HasOwner a.users s
  pub verified : (u : User) → In u a.users → u.status ≡ active → IsVerified a.tokens u

pub empty-IsWellFormed : IsWellFormed (record { users = []; sessions = []; tokens = [] })
empty-IsWellFormed = record {
  ids = tt;
  emails = tt;
  owned = λ s m. absurd m;
  verified = λ u m e. absurd m;
}

Apart-append :
    (us : List User) (v : User)
    → any (λ u. text_eq u.email v.email) us ≡ false
    → Apart us
    → Apart (us ++ v ∷ [])
Apart-append [] v h a = (refl, tt)
Apart-append (u ∷ us) v h a = (
  any-append (λ w. text_eq w.email u.email) us (v ∷ [])
      ∙ ground (arith, a.0, text_eq_iff u.email v.email, text_eq_iff v.email u.email),
  Apart-append us v (ground arith) a.1,
)

any-email :
    (f : User → User) (email : Text) (us : List User)
    → ((u : User) → (f u).email ≡ u.email)
    → any (λ u. text_eq u.email email) (map f us) ≡ any (λ u. text_eq u.email email) us
any-email f email [] same = refl
any-email f email (u ∷ us) same = ground (arith, same u, any-email f email us same)

Apart-map :
    (f : User → User) (us : List User)
    → ((u : User) → (f u).email ≡ u.email)
    → Apart us
    → Apart (map f us)
Apart-map f [] same a = tt
Apart-map f (u ∷ us) same a = (
  any-email f (f u).email us same ∙ ap (λ e. any (λ v. text_eq v.email e) us) (same u) ∙ a.0,
  Apart-map f us same a.1,
)

insert-IsWellFormed :
    (user : User) (a : Accounts)
    → user.status ≡ pending
    → any (λ u. str_eq u.id user.id) a.users ≡ false
    → any (λ u. text_eq u.email user.email) a.users ≡ false
    → IsWellFormed a
    → IsWellFormed (record a { users = a.users ++ user ∷ [] })
insert-IsWellFormed user a new free unused w = record {
  ids = Unique-append (λ u. u.id) a.users user free w.ids;
  emails = Apart-append a.users user unused w.emails;
  owned = λ s m.
      let (u, i, e, act) = w.owned s m in (u, In-append_left u a.users (user ∷ []) i, e, act);
  verified = λ u m act. elim (In-append u a.users (user ∷ []) m) [
    | inl i ↦ w.verified u i act
    | inr (inl e) ↦ absurd (pending_active (sym new ∙ (ap (λ v. v.status) (sym e) ∙ act)))
    | inr (inr i) ↦ absurd i
  ];
}
  where
    pending_active : pending ≡ active → ⊥
    pending_active e = cc

-- A user who is inserted as pending.
pub create_user-IsWellFormed :
    (user : User) (a : Accounts)
    → user.status ≡ pending
    → IsWellFormed a
    → IsWellFormed (create_user user a).1
unfolding create_user
create_user-IsWellFormed user a new w = elim (Bool-cases (any (λ u. str_eq u.id user.id) a.users)) [
  | inl known ↦ rw known w
  | inr free ↦ elim (Bool-cases (any (λ u. text_eq u.email user.email) a.users)) [
    | inl taken ↦ rw (free, taken) w
    | inr unused ↦ rw (free, unused) (insert-IsWellFormed user a new free unused w)
  ]
]

pub issue-IsWellFormed :
    (now : ℕ) (token_hash user_id : String) (ttl : ℤ) (a : Accounts)
    → IsWellFormed a
    → IsWellFormed (issue now token_hash user_id ttl a).1
unfolding issue
issue-IsWellFormed now token_hash user_id ttl a w =
    elim (Bool-cases (any (λ t. str_eq t.token_hash token_hash) a.tokens)) [
      | inl known ↦ rw known w
      | inr free ↦ elim (Bool-cases (any (λ u. str_eq u.id user_id) a.users)) [
        | inr absent ↦ rw (free, absent) w
        | inl present ↦
            rw (free, present)
              (added (record {
                token_hash = token_hash;
                user_id = user_id;
                expires_at = after_seconds now ttl;
                consumed_at = none;
              }))
      ]
    ]
  where
    added : (t : VerificationToken) → IsWellFormed (record a { tokens = a.tokens ++ t ∷ [] })
    added t = record {
      ids = w.ids;
      emails = w.emails;
      owned = w.owned;
      verified = λ u m act.
          let (t', i, e, c) = w.verified u m act in
          (t', In-append_left t' a.tokens (t ∷ []) i, e, c);
    }

module _ (now : ℕ) (row : VerificationToken) (a : Accounts) where
  abbrev activated : User → User
  activated u = if str_eq u.id row.user_id then record u { status = active } else u

  abbrev consumed : VerificationToken → VerificationToken
  consumed t = if str_eq t.token_hash row.token_hash then record t { consumed_at = some now } else t

  -- The two writes of a verification, for a token that is stored.
  pub verified-IsWellFormed :
      In row a.tokens
      → IsWellFormed a
      → IsWellFormed (consume now row.token_hash (activate_user row.user_id a))
  unfolding consume activate_user
  verified-IsWellFormed i w = record {
    ids = Unique-map (λ u. u.id) activated a.users (λ u. ground arith) w.ids;
    emails = Apart-map activated a.users (λ u. ground arith) w.emails;
    owned = λ s m.
        let (u, j, e, act) = w.owned s m in
        (activated u, In-map activated u a.users j, ground arith, ground arith);
    verified = λ v m act.
        let (u, j, e) = In-map_back activated v a.users m in
        elim (Bool-cases (str_eq u.id row.user_id)) [
          | inl is ↦ (
            consumed row,
            In-map consumed row a.tokens i,
            ground (arith, eq_iff u.id row.user_id, e),
            ground (arith, eq_iff row.token_hash row.token_hash),
          )
          | inr other ↦
              let (t, k, same, c) = w.verified u j (ground (arith, e)) in
              (consumed t, In-map consumed t a.tokens k, ground (arith, e), ground arith)
        ];
  }

-- A session of a user who is stored and active.
pub session-IsWellFormed :
    (s : Session) (a : Accounts)
    → HasOwner a.users s
    → IsWellFormed a
    → IsWellFormed (record a { sessions = a.sessions ++ s ∷ [] })
session-IsWellFormed s a owner w = record {
  ids = w.ids;
  emails = w.emails;
  owned = λ t m. elim (In-append t a.sessions (s ∷ []) m) [
    | inl i ↦ w.owned t i
    | inr (inl e) ↦ subst (HasOwner a.users) (sym e) owner
    | inr (inr i) ↦ absurd i
  ];
  verified = w.verified;
}

module _ (hash_token : String → String) where
  pub delete_session-IsWellFormed :
      (token : String) (a : Accounts)
      → IsWellFormed a
      → IsWellFormed (delete_session hash_token token a)
  unfolding delete_session
  delete_session-IsWellFormed token a w = record {
    ids = w.ids;
    emails = w.emails;
    owned = λ s m.
        w.owned s (In-select (λ t. not (str_eq t.token_hash (hash_token token))) s a.sessions m).0;
    verified = w.verified;
  }
