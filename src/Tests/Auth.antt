-- ===== src/Tests/Auth.antt =====
-- app/auth at small inputs; the hash adds a letter.
use lavs_core.Prelude.{◌≡◌, none, [], ◌∷◌, String, arith, err}
use lavs_core.Text.{codes}
use lavs_core.Auth.{pending, Accounts, not_found, verify}
use lavs_core.Auth.Verification.{verify_once}

abbrev hash : String → String
hash token = String.◌∷◌ "h" token

abbrev accounts : Accounts
accounts = record {
  users =
      record {
        id = "u";
        email = codes "u@x";
        password_hash = "p";
        status = pending;
        edition = none;
      }
      ∷ [];
  sessions = record { id = "s"; user_id = "u"; token_hash = "ht"; expires_at = 9 } ∷ [];
  tokens = record { token_hash = "hv"; user_id = "u"; expires_at = 9; consumed_at = none } ∷ [];
}

verify_once_example :
    verify hash 6 "v" (verify hash 5 "v" accounts).1
    ≡ (err not_found, (verify hash 5 "v" accounts).1)
verify_once_example = verify_once hash 5 6 "v" accounts (omega arith)
