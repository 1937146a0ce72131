-- ===== src/Examples/Accounts.antt =====
-- The users' accounts at concrete inputs.
use make_we_bet.Prelude.{ℕ, ◌+◌, ◌≡◌, refl, none, some, List, [], ◌∷◌, arith, ◌==◌}
use make_we_bet.Errors.{ok, err, refresh_token_reuse, otp_locked, otp_invalid}
use make_we_bet.Database.{User, role_user, active_user, Session, password_reset, withdrawal_otp, Db}
use make_we_bet.Auth.Otp.{issue_code, consume}
use make_we_bet.Auth.Codes.{
  tried, issue_code-tried-consume, issue_code-issue_code-consume, issue_code-consume,
}
use make_we_bet.Auth.Tokens.{TokenConfig, rotate, rotate_once, issue}
use make_we_bet.Auth.Families.{IsOrderly}
use make_we_bet.Auth.Orderly.{Sessions-IsOrderly, no_step, and_then, logged_in, refreshed}
use make_we_bet.Auth.Reuse.{rotate-rotate_family, rotate-rotate, reset_password-rotate}
use make_we_bet.Auth.Service.{Credentials, login, reset_password, change_password}
use make_we_bet.Examples.{some_ledger, empty_db}

abbrev next_number : ℕ → ℕ
next_number n = n + 1

abbrev config : TokenConfig
config = record {
  hash_token = next_number;
  sign = λ user role. user;
  access_ttl_sec = 900;
  refresh_ttl_sec = 3600;
}

abbrev credentials : Credentials
credentials = record {
  hash = λ p. p;
  verify = λ h p. h == p;
  hash_code = next_number;
  tokens = config;
}

abbrev ada : User
ada = record {
  email = "ada@example.org";
  username = "ada";
  phone = none;
  password_hash = 5;
  role = role_user;
  status = active_user;
  created_at = 0;
  email_verified_at = some 1;
  last_login_at = none;
  deleted_at = none;
}

abbrev users_db : Db
users_db = record (empty_db some_ledger) { users = (7, ada) ∷ [] }

-- The token 100 was exchanged for 101.
abbrev used_session : Session
used_session = record {
  user_id = 7;
  family_id = 1;
  refresh_token_hash = 101;
  expires_at = 1000;
  consumed_at = some 5;
  revoked_at = none;
}

abbrev sessions_db : Db
sessions_db = record users_db {
  sessions =
      (0, used_session)
      ∷ (1, record used_session { refresh_token_hash = 102; consumed_at = none })
      ∷ [];
}

Sessions-IsOrderly_example :
    IsOrderly (rotate config 20 101 100 (login credentials 10 "ada" 5 1 100 users_db).1).1.sessions
Sessions-IsOrderly_example =
    Sessions-IsOrderly credentials {from = users_db}
      (and_then (and_then no_step (logged_in 10 "ada" 5 1 100 users_db refl))
        (refreshed 20 101 100 _))
      (tt, λ family. omega arith)

rotate-rotate_family_example :
    ((rotate config 20 102 100 sessions_db).0 ≡ err refresh_token_reuse)
    × ((rotate config 30 103 101 (rotate config 20 102 100 sessions_db).1).0
        ≡ err refresh_token_reuse)
unfolding rotate rotate_once
rotate-rotate_family_example =
    rotate-rotate_family config 20 102 100 30 103 101 sessions_db refl refl refl refl refl refl

rotate-rotate_example :
    (rotate config 30 103 101 (rotate config 20 102 101 sessions_db).1).0 ≡ err refresh_token_reuse
unfolding rotate rotate_once issue
rotate-rotate_example = rotate-rotate config 20 102 101 30 103 sessions_db (refl, (refl, tt)) refl

abbrev reset_db : Db
reset_db = (issue_code next_number 10 7 password_reset 55 sessions_db).1

reset_password-rotate_example :
    (rotate config 30 102 101 (reset_password credentials 20 7 55 9 reset_db).1).0
    ≡ err refresh_token_reuse
unfolding rotate rotate_once reset_password change_password issue_code consume
reset_password-rotate_example =
    reset_password-rotate credentials 20 7 55 9 30 102 101 reset_db refl refl refl

abbrev guesses : List (ℕ × ℕ)
guesses = (20, 1) ∷ (30, 2) ∷ (40, 3) ∷ (50, 4) ∷ (60, 5) ∷ []

issue_code-tried-consume_example :
    (consume next_number 70 7 withdrawal_otp 55 (
      tried next_number 10 7 withdrawal_otp 55 guesses
        (issue_code next_number 10 7 withdrawal_otp 55 users_db).1)).0
    ≡ err otp_locked
issue_code-tried-consume_example =
    issue_code-tried-consume next_number 10 7 withdrawal_otp 55 users_db guesses 70 55
      (
        (omega arith, refl),
        (
          (omega arith, refl),
          ((omega arith, refl), ((omega arith, refl), ((omega arith, refl), tt))),
        ),
      )
      (omega arith) (omega arith)

issue_code-consume_example :
    let after =
      consume next_number 20 7 withdrawal_otp 55
        (issue_code next_number 10 7 withdrawal_otp 55 users_db).1 in
    (after.0 ≡ ok tt)
    × ((next value : ℕ)
        → consume next_number next 7 withdrawal_otp value after.1 ≡ (err otp_invalid, after.1))
issue_code-consume_example =
    issue_code-consume next_number 10 7 withdrawal_otp 55 users_db 20 (omega arith)

issue_code-issue_code-consume_example :
    (consume next_number 30 7 withdrawal_otp 55
      (issue_code next_number 20 7 withdrawal_otp 66
        (issue_code next_number 10 7 withdrawal_otp 55 users_db).1).1).0
    ≡ err otp_invalid
issue_code-issue_code-consume_example =
    issue_code-issue_code-consume next_number 10 20 30 7 withdrawal_otp 55 66 users_db refl
      (omega arith)
